-- ===== src/Graph.antt =====
-- `_walk`, `_find_cycle`, `_maximum_depth` and `_can_reach_end` of server/app/validation.py, and
-- `validate_configuration`, which uses them on the flows of the first release, which are graphs.
pub mod Walk
pub mod Validate
mod Tests
use ivrdroid.Base.{
  ℕ, zero, suc, ◌+◌, max, String, List, [], ◌∷◌, ◌++◌, Option, none, some, Bool, true, false, not,
  ◌&&◌, ◌||◌, if◌then◌else◌, str_eq, length, ltb, map,
}
use ivrdroid.Base.Counts.{contains, distinct}

-- `dict[str, list[str]]`. The ids of the nodes, its keys, are distinct when it is built.
abbrev pub Edges : Type 0
Edges = List (String × List String)

unfoldable pub targets_of : String → Edges → Option (List String)
targets_of node [] = none
targets_of node ((k, ts) ∷ edges) = if str_eq node k then some ts else targets_of node edges

-- A stack has its top at its head, so `pending.extend` puts the last target on top.
abbrev pub push_all : List String → List String → List String
push_all [] pending = pending
push_all (t ∷ ts) pending = push_all ts (t ∷ pending)

-- One round of the loop of `_walk`, from `pending` without its top and `visited`.
unfoldable pub walk_round : Edges → String → List String → List String → List String × List String
unfolding targets_of
walk_round edges node pending visited =
    if contains visited node then (pending, visited) else elim (targets_of node edges) [
      | none ↦ (pending, visited)
      | some ts ↦ (push_all ts pending, visited ++ node ∷ [])
    ]

unfoldable pub walk_from : ℕ → Edges → List String → List String → List String
unfolding walk_round
walk_from zero edges pending visited = visited
walk_from (suc fuel) edges [] visited = visited
walk_from (suc fuel) edges (node ∷ pending) visited =
    let after = walk_round edges node pending visited in walk_from fuel edges after.0 after.1

-- How many targets there are: a round takes one from the stack.
unfoldable pub count_targets : Edges → ℕ
count_targets [] = 0
count_targets ((_, ts) ∷ edges) = length ts + count_targets edges

unfoldable pub walk : String → Edges → List String
unfolding walk_from count_targets
walk root edges = walk_from (count_targets edges + 2) edges (root ∷ []) []

-- `visited`, which `_find_cycle` shares, and the cycle that is found.
abbrev pub Found : Type 0
Found = Option (List String) × List String

-- The loop over the targets ends with the first cycle.
unfoldable pub first_cycle : (String → List String → Found) → List String → List String → Found
first_cycle visit [] visited = (none, visited)
first_cycle visit (t ∷ ts) visited =
    let (found, visited') = visit t visited in
    elim found [ some cycle ↦ (some cycle, visited') | none ↦ first_cycle visit ts visited' ]

-- `active[active.index(node):]`.
unfoldable pub from_node : String → List String → List String
from_node node [] = []
from_node node (x ∷ xs) = if str_eq node x then x ∷ xs else from_node node xs

abbrev pub leave : String → Found → Found
leave node (some cycle, visited) = (some cycle, visited)
leave node (none, visited) = (none, visited ++ node ∷ [])

-- `visit` of `_find_cycle`. `active` holds different keys of the dictionary, so the calls are nested at
-- most once more than there are keys.
unfoldable pub cycle_from : ℕ → Edges → List String → String → List String → Found
unfolding targets_of first_cycle from_node
cycle_from zero edges active node visited = (none, visited)
cycle_from (suc fuel) edges active node visited =
    if contains active node
    then (some (from_node node active ++ node ∷ []), visited)
    else if contains visited node
    then (none, visited)
    else elim (targets_of node edges) [
      | none ↦ (none, visited)
      | some ts ↦ leave node (first_cycle (cycle_from fuel edges (active ++ node ∷ [])) ts visited)
    ]

unfoldable pub find_cycle : String → Edges → Option (List String)
unfolding cycle_from
find_cycle root edges = (cycle_from (length edges + 2) edges [] root []).0

-- `memo` of `_maximum_depth`.
abbrev pub Memo : Type 0
Memo = List (String × ℕ)

unfoldable pub memo_of : String → Memo → Option ℕ
memo_of node [] = none
memo_of node ((k, d) ∷ memo) = if str_eq node k then some d else memo_of node memo

-- `max` over the targets, each of depth 1 at least.
unfoldable pub max_depth : (String → Memo → ℕ × Memo) → List String → Memo → ℕ × Memo
max_depth depth [] memo = (0, memo)
max_depth depth (t ∷ ts) memo =
    let first = depth t memo in
    let rest = max_depth depth ts first.1 in (max first.0 rest.0, rest.1)

abbrev pub remember : String → ℕ × Memo → ℕ × Memo
remember node (d, memo) = (1 + d, memo ++ (node, (1 + d)) ∷ [])

unfoldable pub depth_from : ℕ → Edges → List String → String → Memo → ℕ × Memo
unfolding targets_of memo_of max_depth
depth_from zero edges active node memo = (1, memo)
depth_from (suc fuel) edges active node memo = elim (memo_of node memo) [
  | some d ↦ (d, memo)
  | none ↦ if contains active node then (1, memo) else elim (targets_of node edges) [
    | none ↦ (1, memo)
    | some [] ↦ (1, memo)
    | some (t ∷ ts) ↦
        remember node (max_depth (depth_from fuel edges (node ∷ active)) (t ∷ ts) memo)
  ]
]

unfoldable pub maximum_depth : String → Edges → ℕ
unfolding depth_from
maximum_depth root edges = (depth_from (length edges + 2) edges [] root []).0

abbrev pub any_of : (String → Bool) → List String → Bool
any_of test [] = false
any_of test (t ∷ ts) = test t || any_of test ts

abbrev pub given_targets : Option (List String) → List String
given_targets none = []
given_targets (some ts) = ts

-- `_can_reach_end`, from the ids of the nodes and of the nodes that end the call.
unfoldable pub can_reach_end : ℕ → List String → List String → Edges → String → List String → Bool
unfolding targets_of
can_reach_end zero nodes ends edges node active = false
can_reach_end (suc fuel) nodes ends edges node active =
    not (contains active node || not (contains nodes node))
    && (contains ends node
        || any_of (λ t. can_reach_end fuel nodes ends edges t (node ∷ active))
            (given_targets (targets_of node edges)))
