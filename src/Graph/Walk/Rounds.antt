-- ===== src/Graph/Walk/Rounds.antt =====
-- One round of `_walk`: how it changes what is visited and what waits.
use ivrdroid.Graph.{Edges, count_targets, push_all, targets_of}
use ivrdroid.Base.{
  ap, ℕ, ◌+◌, ◌≤◌, ◌≡◌, String, List, [], ◌∷◌, ◌++◌, some, true, false, ◌||◌, if◌then◌else◌, length,
  arith, refl, Bool-cases, inl, inr, eq_iff, eq_refl, subst, str_eq, sym,
}
use ivrdroid.Base.Counts.{contains}

-- A node that can be reached from the root along the edges, all of them between known nodes.
pub data Reaches (edges : Edges) (root : String) : String → Type 0 where
  start : {ts : List String} → targets_of root edges ≡ some ts → Reaches edges root root
  follow :
      {node target : String} {ts us : List String}
      → Reaches edges root node
      → targets_of node edges ≡ some ts
      → contains ts target ≡ true
      → targets_of target edges ≡ some us
      → Reaches edges root target

contains-snoc :
    (xs : List String) (y key : String)
    → contains (xs ++ y ∷ []) key ≡ (contains xs key || str_eq key y)
unfolding contains
contains-snoc [] y key = ground arith
contains-snoc (x ∷ xs) y key = ground (arith, contains-snoc xs y key)

contains-push_all :
    (ts p : List String) (key : String)
    → contains (push_all ts p) key ≡ (contains ts key || contains p key)
unfolding contains
contains-push_all [] p key = refl
contains-push_all (t ∷ ts) p key = ground (arith, contains-push_all ts (t ∷ p) key)

pub length-push_all : (ts p : List String) → length (push_all ts p) ≡ length ts + length p
length-push_all [] p = omega arith
length-push_all (t ∷ ts) p = omega (arith, length-push_all ts (t ∷ p))

-- The targets of the nodes that are not visited yet.
pub left : Edges → List String → ℕ
left [] visited = 0
left ((k, ts) ∷ edges) visited = (if contains visited k then 0 else length ts) + left edges visited

left_mono :
    (edges : Edges) (v : List String) (node : String) → left edges (v ++ node ∷ []) ≤ left edges v
unfolding left
left_mono [] v node = omega arith
left_mono ((k, ts) ∷ edges) v node = ground (arith, left_mono edges v node, contains-snoc v node k)

pub left-visit :
    (edges : Edges) (v : List String) (node : String) (ts : List String)
    → targets_of node edges ≡ some ts
    → contains v node ≡ false
    → left edges (v ++ node ∷ []) + length ts ≤ left edges v
unfolding left targets_of
left-visit [] v node ts e h = cc
left-visit ((k, us) ∷ edges) v node ts e h = elim (Bool-cases (str_eq node k)) [
  | inl same ↦
      let equal : node ≡ k = (eq_iff node k).0 same in
      let unseen : contains v k ≡ false = subst (λ n. contains v n ≡ false) equal h in
      let back : str_eq k node ≡ true = subst (λ n. str_eq k n ≡ true) (sym equal) (eq_refl k) in
      let found : us ≡ ts = ground (arith, same) in
      let size : length us ≡ length ts = ap (λ (l : List String). length l) found in
      ground (arith, unseen, back, size, contains-snoc v node k, left_mono edges v node)
  | inr other ↦
      let later : targets_of node edges ≡ some ts = ground (arith, other) in
      ground (arith, left-visit edges v node ts later h, contains-snoc v node k)
]

pub left-start : (edges : Edges) → left edges [] ≡ count_targets edges
unfolding left count_targets contains
left-start [] = refl
left-start ((k, ts) ∷ edges) = omega (arith, left-start edges)

-- Targets of visited nodes are visited or wait on the stack.
abbrev pub IsClosed : Edges → List String → List String → Type 0
IsClosed edges p v =
    (n t : String) (ts us : List String)
    → contains v n ≡ true
    → targets_of n edges ≡ some ts
    → contains ts t ≡ true
    → targets_of t edges ≡ some us
    → (contains v t || contains p t) ≡ true

-- What is visited or waits is reached, if it is known.
abbrev pub IsReached : Edges → String → List String → List String → Type 0
IsReached edges root p v =
    (t : String) (us : List String)
    → (contains v t || contains p t) ≡ true
    → targets_of t edges ≡ some us
    → Reaches edges root t

abbrev pub IsKnown : Edges → List String → Type 0
IsKnown edges v =
    (t : String) → contains v t ≡ true → (us : List String) × (targets_of t edges ≡ some us)

-- The state at the end of the loop.
pub record Walked (edges : Edges) (root : String) (p v v' : List String) : Type 0 where
  pub closed : IsClosed edges [] v'
  pub reached : IsReached edges root [] v'
  pub known : IsKnown edges v'
  pub keeps :
      (t : String) (us : List String)
      → (contains v t || contains p t) ≡ true
      → targets_of t edges ≡ some us
      → contains v' t ≡ true

-- The top of the stack is dropped if it is visited or unknown.
drop-closed :
    (edges : Edges) (node : String) (p v : List String)
    → ((us : List String) → targets_of node edges ≡ some us → contains v node ≡ true)
    → (t : String) (us : List String) → targets_of t edges ≡ some us
    → (contains v t || contains (node ∷ p) t) ≡ true
    → (contains v t || contains p t) ≡ true
unfolding contains
drop-closed edges node p v h t us known e = elim (Bool-cases (str_eq t node)) [
  | inl same ↦
      let equal : t ≡ node = (eq_iff t node).0 same in
      let seen = h us (subst (λ n. targets_of n edges ≡ some us) equal known) in
      let there : contains v t ≡ true = subst (λ n. contains v n ≡ true) (sym equal) seen in
      ground (arith, there)
  | inr other ↦ ground (arith, other)
]

module _ (edges : Edges) (root node : String) (p v : List String) where
  -- A round that drops the top.
  dropped :
      (v' : List String)
      → ((us : List String) → targets_of node edges ≡ some us → contains v node ≡ true)
      → Walked edges root p v v'
      → Walked edges root (node ∷ p) v v'
  dropped v' h w = record {
    closed = w.closed;
    reached = w.reached;
    known = w.known;
    keeps = λ t us e known. w.keeps t us (drop-closed edges node p v h t us known e) known;
  }

  pub drop_round :
      (v' : List String)
      → ((us : List String) → targets_of node edges ≡ some us → contains v node ≡ true)
      → IsClosed edges (node ∷ p) v
      → IsReached edges root (node ∷ p) v
      → (IsClosed edges p v → IsReached edges root p v → Walked edges root p v v')
      → Walked edges root (node ∷ p) v v'
  unfolding contains
  drop_round v' h closed reached go = dropped v' h (
      go (λ n t ts us a b c d. drop-closed edges node p v h t us d (closed n t ts us a b c d))
        (λ t us m k. reached t us (ground (arith, m)) k))

  -- What waits or is visited after a round that visits the top.
  visit_member :
      (ts : List String) (t : String)
      → (contains (v ++ node ∷ []) t || contains (push_all ts p) t)
        ≡ ((contains v t || contains (node ∷ p) t) || contains ts t)
  unfolding contains
  visit_member ts t = ground (arith, contains-snoc v node t, contains-push_all ts p t)

  pub visited-keeps :
      (ts v' : List String)
      → Walked edges root (push_all ts p) (v ++ node ∷ []) v'
      → Walked edges root (node ∷ p) v v'
  visited-keeps ts v' w = record {
    closed = w.closed;
    reached = w.reached;
    known = w.known;
    keeps = λ t us e known. w.keeps t us (rw (visit_member ts t) (ground (arith, e))) known;
  }

  pub visited-IsKnown :
      (ts : List String)
      → targets_of node edges ≡ some ts
      → IsKnown edges v
      → IsKnown edges (v ++ node ∷ [])
  visited-IsKnown ts e h t there = elim (Bool-cases (contains v t)) [
    | inl old ↦ h t old
    | inr new ↦
        let same : str_eq t node ≡ true = ground (arith, there, new, contains-snoc v node t) in
        (ts, subst (λ n. targets_of n edges ≡ some ts) (sym ((eq_iff t node).0 same)) e)
  ]

  pub visited-IsReached :
      (ts : List String)
      → targets_of node edges ≡ some ts
      → IsReached edges root (node ∷ p) v
      → IsReached edges root (push_all ts p) (v ++ node ∷ [])
  unfolding contains
  visited-IsReached ts e h t us there known =
      elim (Bool-cases (contains v t || contains (node ∷ p) t)) [
        | inl old ↦ h t us old known
        | inr new ↦
            let at_node = h node ts (ground (arith, eq_refl node)) e in
            let target : contains ts t ≡ true = ground (arith, there, new, visit_member ts t) in
            follow at_node e target known
      ]

  pub visited-IsClosed :
      (ts : List String)
      → targets_of node edges ≡ some ts
      → IsClosed edges (node ∷ p) v
      → IsClosed edges (push_all ts p) (v ++ node ∷ [])
  visited-IsClosed ts e h n t us ws there known target known_target =
      elim (Bool-cases (contains v n)) [
        | inl old ↦
            rw (visit_member ts t) (ground (arith, h n t us ws old known target known_target))
        | inr new ↦
            let same : str_eq n node ≡ true = ground (arith, there, new, contains-snoc v node n) in
            let here : targets_of node edges ≡ some us =
              subst (λ m. targets_of m edges ≡ some us) ((eq_iff n node).0 same) known in
            let equal : us ≡ ts = ground (arith, here, e) in
            let among : contains ts t ≡ true = subst (λ l. contains l t ≡ true) equal target in
            rw (visit_member ts t) (ground (arith, among))
      ]
