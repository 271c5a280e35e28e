-- ===== src/Graph/Tests.antt =====
-- The graph functions run on small graphs, and the law of `_walk` applied to one.
use ivrdroid.Graph.Walk.{walk-Reaches}
use ivrdroid.Graph.Walk.Rounds.{Reaches}
use ivrdroid.Graph.Validate.{
  used_prompts, references_present, end_call, node_errors, graph_errors, play_prompt, GraphInput,
  validate_graph,
}
use ivrdroid.Base.Counts.{distinct, contains}
use ivrdroid.Graph.{
  memo_of, max_depth, depth_from, from_node, first_cycle, cycle_from, targets_of, count_targets,
  walk_round, walk_from, Edges, can_reach_end, find_cycle, maximum_depth, walk,
}
use ivrdroid.Base.{◌≡◌, [], ◌∷◌, refl, some, true}

-- A menu that a repeat leads back to, and a node that nothing leads to.
abbrev sample_edges : Edges
sample_edges = ("a", ("b" ∷ "c" ∷ [])) ∷ ("b", ("a" ∷ [])) ∷ ("c", []) ∷ ("d", ("c" ∷ [])) ∷ []

graph : Unit {0}
unfolding walk walk_from walk_round count_targets targets_of find_cycle cycle_from first_cycle
    from_node maximum_depth depth_from max_depth memo_of can_reach_end contains
graph = tt

sample_walk : walk "a" sample_edges ≡ "a" ∷ "c" ∷ "b" ∷ []
unfolding graph
sample_walk = refl

sample_cycle : find_cycle "a" sample_edges ≡ some ("a" ∷ "b" ∷ "a" ∷ [])
unfolding graph
sample_cycle = refl

sample_depth : maximum_depth "d" sample_edges ≡ 2
unfolding graph
sample_depth = refl

sample_end : can_reach_end 5 ("a" ∷ "b" ∷ "c" ∷ []) ("c" ∷ []) sample_edges "b" [] ≡ true
unfolding graph
sample_end = refl

walk-Reaches_example :
    (contains (walk "a" sample_edges) "b" ≡ true → Reaches sample_edges "a" "b")
    × (Reaches sample_edges "a" "b" → contains (walk "a" sample_edges) "b" ≡ true)
walk-Reaches_example = walk-Reaches "a" sample_edges "b"

-- The first release's validator, on a flow whose prompt is followed by the end of the call.
abbrev first_release : GraphInput
first_release = record {
  nodes = play_prompt "start" "p" "end" ∷ end_call "end" ∷ [];
  root_node = "start";
  schedules = [];
  prompt_ids = λ p. true;
  prompt_sizes = λ p. 10;
  revision_asset_limit_bytes = 100;
  known_zone = λ z. true;
  set_order = λ s. s;
  sorted = λ s. s;
}

sample_graph : validate_graph first_release ≡ []
unfolding graph validate_graph graph_errors node_errors references_present used_prompts distinct
sample_graph = refl
