-- ===== src/Graph/Walk.antt =====
-- The loop of `_walk`, against what can be reached in the graph.
pub mod Rounds
use ivrdroid.Graph.Walk.Rounds.{
  visited-IsKnown, visited-IsReached, visited-IsClosed, left-visit, length-push_all, visited-keeps,
  drop_round, IsKnown, IsReached, follow, IsClosed, left-start, start, Reaches, Walked, left,
}
use ivrdroid.Graph.{walk_round, walk, walk_from, Edges, count_targets, push_all, targets_of}
use ivrdroid.Base.{
  ap, ℕ, zero, suc, ◌+◌, ◌<◌, ◌≤◌, ◌≡◌, String, List, [], ◌∷◌, ◌++◌, Option, none, some, Bool, true,
  false, ◌||◌, if◌then◌else◌, length, arith, refl, Bool-cases, Option-cases, inl, inr, eq_iff,
  eq_refl, subst, str_eq, All, sym,
}
use ivrdroid.Base.Counts.{contains}

none-some : {o : Option (List String)} (us : List String) → o ≡ none → o ≡ some us → ⊥
none-some us h k = cc

walk_from-Walked :
    (edges : Edges) (root : String) (fuel : ℕ) (p v : List String)
    → length p + left edges v < fuel
    → IsClosed edges p v
    → IsReached edges root p v
    → IsKnown edges v
    → Walked edges root p v (walk_from fuel edges p v)
unfolding walk_from walk_round contains
walk_from-Walked edges root zero p v lt closed reached known = absurd (omega arith)
walk_from-Walked edges root (suc fuel) [] v lt closed reached known = record {
  closed = closed;
  reached = reached;
  known = known;
  keeps = λ t us e k. ground (arith, e);
}
walk_from-Walked edges root (suc fuel) (node ∷ p) v lt closed reached known =
    elim (Bool-cases (contains v node)) [
      | inl seen ↦
          let e : walk_round edges node p v ≡ (p, v) = rw seen refl in
          rw e (
            drop_round edges root node p v _ (λ us k. seen) closed reached
              (λ c r. walk_from-Walked edges root fuel p v (omega (arith, lt)) c r known))
      | inr fresh ↦ elim (Option-cases (targets_of node edges)) [
        | inl missing ↦
            let e : walk_round edges node p v ≡ (p, v) = rw (fresh, missing) refl in
            rw e (
              drop_round edges root node p v _ (λ us k. absurd (none-some us missing k)) closed
                reached (λ c r. walk_from-Walked edges root fuel p v (omega (arith, lt)) c r known))
        | inr (ts, found) ↦
            let e : walk_round edges node p v ≡ (push_all ts p, v ++ node ∷ []) =
              rw (fresh, found) refl in
            rw e (
              visited-keeps edges root node p v ts _ (
                walk_from-Walked edges root fuel (push_all ts p) (v ++ node ∷ [])
                  (omega (arith, lt, length-push_all ts p, left-visit edges v node ts found fresh))
                  (visited-IsClosed edges root node p v ts found closed)
                  (visited-IsReached edges root node p v ts found reached)
                  (visited-IsKnown edges root node p v ts found known)))
      ]
    ]

-- A closed set that holds the root holds what can be reached.
Reaches-visited :
    (edges : Edges) (root : String) (v' : List String)
    → Walked edges root (root ∷ []) [] v'
    → (node : String) → Reaches edges root node
    → contains v' node ≡ true
unfolding contains
Reaches-visited edges root v' w node (start {ts} known) =
    w.keeps root ts (ground (arith, eq_refl root)) known
Reaches-visited edges root v' w node
      (follow {node = before} {ts = ts} {us = us} r known target next) =
    ground (
      arith,
      w.closed before node ts us (Reaches-visited edges root v' w before r) known target next,
    )

-- `_walk` returns an id exactly if it is the id of a known node that can be reached from the root
-- along edges between known nodes.
pub walk-Reaches :
    (root : String) (edges : Edges) (node : String)
    → (contains (walk root edges) node ≡ true → Reaches edges root node)
      × (Reaches edges root node → contains (walk root edges) node ≡ true)
unfolding walk contains
walk-Reaches root edges node =
    let w =
      walk_from-Walked edges root (count_targets edges + 2) (root ∷ []) []
        (omega (arith, left-start edges)) (λ n t ts us a b c d. cc)
        (λ t us m k.
          let same : str_eq t root ≡ true = ground (arith, m) in
          let equal : root ≡ t = sym ((eq_iff t root).0 same) in
          subst (Reaches edges root) equal
            (start (subst (λ n. targets_of n edges ≡ some us) (sym equal) k)))
        (λ t a. cc) in
    (
      λ h. let (us, known) = w.known node h in w.reached node us (ground (arith, h)) known,
      Reaches-visited edges root _ w node,
    )
