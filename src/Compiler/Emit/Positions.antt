-- ===== src/Compiler/Emit/Positions.antt =====
-- The dictionary `program_counter` over entries with distinct ids.
use ivrdroid.Base.{
  ◌≡◌, ◌≤◌, ◌<◌, ◌+◌, ok, String, List, [], ◌∷◌, ◌++◌, Option, some, none, inl, inr, ℕ, suc, arith,
  refl, ap, ◌∙◌, length, length-append, str_eq, eq_refl, Bool-cases, Option-cases,
}
use ivrdroid.Base.Counts.{count, count_self, IsDistinct}
use ivrdroid.Flow.{Child, absent, present, block_id}
use ivrdroid.Compiler.{Entry}
use ivrdroid.Compiler.Placed.{Before, ChildBefore, count-ids, id_of, ids}
use ivrdroid.Compiler.Emit.{position, counter_of, pc_of}

position-absent : (a : String) (es : List Entry) → count a (ids es) ≡ 0 → position a es ≡ none
unfolding position count
position-absent a [] h = refl
position-absent a (e ∷ es) h = ground (arith, position-absent a es)

position-lt : (a : String) (es : List Entry) (k : ℕ) → position a es ≡ some k → k < length es
unfolding position
position-lt a [] k h = cc
position-lt a (e ∷ es) k h = elim (Option-cases (position a es)) [
  | inl missing ↦ ground arith
  | inr (j, found) ↦
      omega (arith, position-lt a es j found, some_number (rw (found, position) at h))
]
  where
    some_number : {m n : ℕ} → some m ≡ some n → m ≡ n
    some_number p = cc

position-present :
    (a : String) (es : List Entry)
    → 1 ≤ count a (ids es)
    → (k : ℕ) × (position a es ≡ some k) × (k < length es)
unfolding position count
position-present a [] h = absurd (omega arith)
position-present a (e ∷ es) h = elim (Option-cases (position a es)) [
  | inr (j, found) ↦ (suc j, rw found refl, omega (arith, position-lt a es j found))
  | inl missing ↦ elim (Bool-cases (str_eq a (block_id e.block))) [
    | inl same ↦ (0, rw (missing, same) refl, omega arith)
    | inr other ↦
        let (j, found, lt) = position-present a es (ground arith) in absurd (clash missing found)
  ]
]
  where
    clash : {o : Option ℕ} {j : ℕ} → o ≡ none → o ≡ some j → ⊥
    clash p q = cc

position-append_right :
    (a : String) (xs ys : List Entry) (k : ℕ)
    → position a ys ≡ some k
    → position a (xs ++ ys) ≡ some (length xs + k)
unfolding position
position-append_right a [] ys k h = rw h (ap some (omega arith))
position-append_right a (x ∷ xs) ys k h =
    rw (position-append_right a xs ys k h) (ap some (omega arith))

position-append_none :
    (a : String) (xs ys : List Entry)
    → position a ys ≡ none
    → position a xs ≡ none
    → position a (xs ++ ys) ≡ none
unfolding position
position-append_none a [] ys h e = h
position-append_none a (x ∷ xs) ys h e = elim (Option-cases (position a xs)) [
  | inl missing ↦ rw (position-append_none a xs ys h missing) (rw (missing, position) at e)
  | inr (j, found) ↦ absurd (clash (rw (found, position) at e))
]
  where
    clash : {j : ℕ} → some j ≡ none → ⊥
    clash p = cc

position-append_left :
    (a : String) (xs ys : List Entry) (k : ℕ)
    → position a ys ≡ none
    → position a xs ≡ some k
    → position a (xs ++ ys) ≡ some k
unfolding position
position-append_left a [] ys k h e = cc
position-append_left a (x ∷ xs) ys k h e = elim (Option-cases (position a xs)) [
  | inl missing ↦ rw (position-append_none a xs ys h missing) (rw (missing, position) at e)
  | inr (j, found) ↦ rw (position-append_left a xs ys j h found) (rw (found, position) at e)
]

module _ (l : List Entry) where
  -- What stands before has the lower counter.
  pub record Ordered (a b : String) : Type 0 where
    pub i : ℕ
    pub j : ℕ
    pub at_i : position a l ≡ some i
    pub at_j : position b l ≡ some j
    pub lt : i < j
    pub inside : j < length l

  -- The counter of a path that stands behind an entry.
  pub record PathAt (i : ℕ) (c : Child) : Type 0 where
    pub counter : ℕ
    pub found : pc_of l c ≡ ok counter
    pub later : i < counter
    pub inside : counter < length l

module _ (l : List Entry) (distinct : IsDistinct (ids l)) where
  -- An entry is found at its own place.
  pub position-entry :
      (front back : List Entry) (e : Entry)
      → l ≡ front ++ (e ∷ back)
      → position (id_of e) l ≡ some (length front)
  unfolding position
  position-entry front back e split =
      let absent_later = position-absent (id_of e) back (
        omega (
          arith,
          distinct (id_of e),
          ap (λ x. count (id_of e) (ids x)) split,
          count-ids (id_of e) front (e ∷ back),
          count_self (id_of e) (ids back),
        )) in
      let here : position (id_of e) (e ∷ back) ≡ some 0 =
        rw (absent_later, eq_refl (id_of e)) refl in
      rw split (position-append_right (id_of e) front (e ∷ back) 0 here ∙ ap some (omega arith))

  pub Before-Ordered : {a b : String} → Before l a b → Ordered l a b
  Before-Ordered {a} {b} h =
      let (i, at_i, lt_i) = position-present a h.front h.in_front in
      let (k, at_k, lt_k) = position-present b h.back h.in_back in
      let gone = position-absent a h.back (
        omega (
          arith,
          distinct a,
          ap (λ x. count a (ids x)) h.split,
          count-ids a h.front h.back,
          h.in_front,
        )) in
      record {
        i = i;
        j = length h.front + k;
        at_i = rw h.split (position-append_left a h.front h.back i gone at_i);
        at_j = rw h.split (position-append_right b h.front h.back k at_k);
        lt = omega arith;
        inside = omega (arith, ap length h.split, length-append h.front h.back);
      }

  pub ChildBefore-PathAt :
      (front back : List Entry) (e : Entry) (c : Child)
      → l ≡ front ++ (e ∷ back)
      → ChildBefore l (id_of e) c
      → PathAt l (length front) c
  unfolding pc_of
  ChildBefore-PathAt front back e absent split h = absurd h
  ChildBefore-PathAt front back e (present b) split h =
      let o = Before-Ordered h in
      let own = position-entry front back e split in
      record {
        counter = o.j;
        found = rw (o.at_j, counter_of) refl;
        later = omega (arith, o.lt, same_number own o.at_i);
        inside = o.inside;
      }
    where
      same_number : {o : Option ℕ} {m n : ℕ} → o ≡ some m → o ≡ some n → m ≡ n
      same_number p q = cc
