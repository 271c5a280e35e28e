-- ===== src/Graph/Validate.antt =====
-- `validate_configuration` of server/app/validation.py, for the flows of the first release.
use ivrdroid.Graph.{can_reach_end, find_cycle, maximum_depth, Edges, walk}
use ivrdroid.Flow.{given}
use ivrdroid.Validation.{Schedule, schedule_names}
use ivrdroid.Base.{
  ℕ, ◌+◌, String, List, [], ◌∷◌, ◌++◌, Option, none, some, Bool, true, not, ◌&&◌, if◌then◌else◌,
  length, ltb, map,
}
use ivrdroid.Base.Counts.{contains, distinct}

-- The nodes of the first release; the first field is the id.
pub data Node : Type 0 where
  play_prompt : String → String → String → Node
  collect_digit : String → Option String → List (String × String) → String → String → Node
  schedule_branch : String → String → String → String → String → Node
  repeat_menu : String → String → String → Node
  end_call : String → Node

abbrev pub node_id : Node → String
node_id (play_prompt id _ _) = id
node_id (collect_digit id _ _ _ _) = id
node_id (schedule_branch id _ _ _ _) = id
node_id (repeat_menu id _ _) = id
node_id (end_call id) = id

pub data GraphError : Type 0 where
  node_ids_repeated root_missing schedule_ids_repeated assets_too_large : GraphError
  unknown_timezone missing_prompt no_terminating_path : String → GraphError
  missing_schedule missing_node : String → String → GraphError
  unreachable_nodes unbounded_cycle : List String → GraphError
  too_deep : ℕ → GraphError

-- The configuration and what it is checked against. `set_order` is the order in which a set of
-- texts is run through; `sorted` sorts texts.
pub record GraphInput : Type 0 where
  pub nodes : List Node
  pub root_node : String
  pub schedules : List Schedule
  pub prompt_ids : String → Bool
  pub prompt_sizes : String → ℕ
  pub revision_asset_limit_bytes : ℕ
  pub known_zone : String → Bool
  pub set_order : List String → List String
  pub sorted : List String → List String

-- `edges` and `bounded_repeat_edges` of a node.
abbrev pub edges_of : Node → List String
edges_of (play_prompt _ _ next) = next ∷ []
edges_of (collect_digit _ _ branches on_timeout on_invalid) =
    map (λ b. b.1) branches ++ on_timeout ∷ on_invalid ∷ []
edges_of (schedule_branch _ _ on_open on_closed on_holiday) = on_open ∷ on_closed ∷ on_holiday ∷ []
edges_of (repeat_menu _ _ on_exhausted) = on_exhausted ∷ []
edges_of (end_call _) = []

abbrev pub repeat_edges_of : Node → List String
repeat_edges_of (repeat_menu _ target _) = target ∷ []
repeat_edges_of _ = []

abbrev pub regular_edges : List Node → Edges
regular_edges nodes = map (λ n. (node_id n, edges_of n)) nodes

abbrev pub all_edges : List Node → Edges
all_edges nodes = map (λ n. (node_id n, (edges_of n ++ repeat_edges_of n))) nodes

abbrev pub node_ids : List Node → List String
node_ids nodes = map node_id nodes

abbrev pub add_used : String → List String → List String
add_used p used = if contains used p then used else used ++ p ∷ []

abbrev pub prompts_of : Node → List String → List String
prompts_of (play_prompt _ prompt _) used = add_used prompt used
prompts_of (collect_digit _ (some prompt) _ _ _) used =
    if given (some prompt) then add_used prompt used else used
prompts_of _ used = used

unfoldable pub used_prompts : List Node → List String → List String
used_prompts [] used = used
used_prompts (n ∷ ns) used = used_prompts ns (prompts_of n used)

abbrev pub schedule_errors : List String → Node → List GraphError
schedule_errors schedules (schedule_branch id schedule _ _ _) =
    if contains schedules schedule then [] else missing_schedule id schedule ∷ []
schedule_errors schedules _ = []

abbrev pub target_errors : List String → String → List String → List GraphError
target_errors ids id [] = []
target_errors ids id (t ∷ ts) =
    (if contains ids t then [] else missing_node id t ∷ []) ++ target_errors ids id ts

-- The loop over the nodes.
unfoldable pub node_errors : List String → List String → List Node → List GraphError
node_errors ids schedules [] = []
node_errors ids schedules (n ∷ ns) =
    (schedule_errors schedules n ++ target_errors ids (node_id n) (edges_of n ++ repeat_edges_of n))
    ++ node_errors ids schedules ns

abbrev pub all_present : List String → List String → Bool
all_present ids [] = true
all_present ids (t ∷ ts) = contains ids t && all_present ids ts

-- `not missing_node_reference`.
unfoldable pub references_present : List String → Edges → Bool
references_present ids [] = true
references_present ids ((_, ts) ∷ edges) = all_present ids ts && references_present ids edges

abbrev pub errors_of : (String → Bool) → (String → GraphError) → List String → List GraphError
errors_of test e [] = []
errors_of test e (x ∷ xs) = (if test x then [] else e x ∷ []) ++ errors_of test e xs

abbrev pub timezone_errors : (String → Bool) → List Schedule → List GraphError
timezone_errors known_zone [] = []
timezone_errors known_zone (s ∷ ss) =
    (if known_zone s.timezone then [] else unknown_timezone s.id ∷ [])
    ++ timezone_errors known_zone ss

abbrev pub total_bytes : (String → ℕ) → List String → ℕ
total_bytes sizes [] = 0
total_bytes sizes (p ∷ ps) = sizes p + total_bytes sizes ps

-- `sorted(set(nodes) - reachable)`, before it is sorted.
abbrev pub without : List String → List String → List String
without reachable [] = []
without reachable (x ∷ xs) =
    if contains reachable x then without reachable xs else x ∷ without reachable xs

abbrev pub unreachable_errors : List String → List GraphError
unreachable_errors [] = []
unreachable_errors (x ∷ xs) = unreachable_nodes (x ∷ xs) ∷ []

abbrev pub cycle_errors : Option (List String) → List GraphError
cycle_errors none = []
cycle_errors (some cycle) = unbounded_cycle cycle ∷ []

-- The first node of a list without a path to an end.
abbrev pub first_stuck : (String → Bool) → List String → List GraphError
first_stuck ends_well [] = []
first_stuck ends_well (n ∷ ns) =
    if ends_well n then first_stuck ends_well ns else no_terminating_path n ∷ []

abbrev pub end_ids : List Node → List String
end_ids [] = []
end_ids (end_call id ∷ ns) = id ∷ end_ids ns
end_ids (_ ∷ ns) = end_ids ns

-- The tests of the graph, which follow the early return.
unfoldable pub graph_errors : GraphInput → List GraphError
graph_errors input =
    let nodes = input.nodes in
    let ids = node_ids nodes in
    let edges = regular_edges nodes in
    let reachable = walk input.root_node (all_edges nodes) in
    let depth = maximum_depth input.root_node edges in
    unreachable_errors (input.sorted (without reachable ids))
    ++ (cycle_errors (find_cycle input.root_node edges)
        ++ ((if ltb 8 depth then too_deep depth ∷ [] else [])
            ++ first_stuck (λ n. can_reach_end (length ids + 1) ids (end_ids nodes) edges n [])
                (input.set_order reachable)))

unfoldable pub validate_graph : GraphInput → List GraphError
unfolding graph_errors node_errors references_present used_prompts
validate_graph input =
    let nodes = input.nodes in
    let ids = node_ids nodes in
    let used = input.set_order (used_prompts nodes []) in
    let before =
      (if contains ids input.root_node then [] else root_missing ∷ [])
      ++ ((if distinct (schedule_names input.schedules) then [] else schedule_ids_repeated ∷ [])
          ++ (timezone_errors input.known_zone input.schedules
              ++ (node_errors ids (schedule_names input.schedules) nodes
                  ++ (errors_of input.prompt_ids missing_prompt used
                      ++ (if ltb input.revision_asset_limit_bytes
                            (total_bytes input.prompt_sizes used)
                          then assets_too_large ∷ []
                          else []))))) in
    if not (distinct ids)
    then node_ids_repeated ∷ []
    else if references_present ids (all_edges nodes) && contains ids input.root_node
    then before ++ graph_errors input
    else before
