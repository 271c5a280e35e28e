-- ===== src/Api/Sums.antt =====
-- Sums over rows when a row is replaced or all rows are changed.
use ivrdroid.Api.{
  is_pending, Pending, find_by, replace_by, Recording, is_recording, Segment, is_segment,
}
use ivrdroid.Api.Quota.{sum_by}
use ivrdroid.Base.{
  ◌∙◌, ◌==◌, ◌⊎◌, inr, inl, ℕ, ◌+◌, ◌≡◌, ◌≤◌, String, List, [], ◌∷◌, Option, some, Bool, true,
  false, map, arith, refl, sym, ap, subst, str_eq, eq_iff, if◌then◌else◌, ◌&&◌,
}

module _ {ℓ} {A : Type ℓ} (test : A → Bool) where
  chosen :
      (b : Bool) (x : A) (rest : Option A) (y : A)
      → (if b then some x else rest) ≡ some y
      → ((b ≡ true) × (x ≡ y)) ⊎ ((b ≡ false) × (rest ≡ some y))
  chosen true x rest y e = inl (refl, cc)
  chosen false x rest y e = inr (refl, e)

  -- The row that is found is the first of the list, or is found behind it.
  pub find_by-cons :
      (x : A) (xs : List A) (y : A)
      → find_by test (x ∷ xs) ≡ some y
      → ((test x ≡ true) × (x ≡ y)) ⊎ ((test x ≡ false) × (find_by test xs ≡ some y))
  find_by-cons x xs y e = chosen (test x) x (find_by test xs) y e

  pub test-find_by : (xs : List A) (x : A) → find_by test xs ≡ some x → test x ≡ true
  test-find_by [] x e = cc
  test-find_by (y ∷ ys) x e = elim (find_by-cons y ys x e) [
    | inl (yes_y, same) ↦ subst (λ z. test z ≡ true) same yes_y
    | inr (no_y, later) ↦ test-find_by ys x later
  ]

  pub sum_by-replace_by :
      (weight : A → ℕ) (y : A) (xs : List A) (x : A)
      → find_by test xs ≡ some x
      → sum_by weight (replace_by test y xs) + weight x ≡ sum_by weight xs + weight y
  sum_by-replace_by weight y [] x e = cc
  sum_by-replace_by weight y (z ∷ zs) x e = elim (find_by-cons z zs x e) [
    | inl (yes_z, same) ↦ rw yes_z (omega (arith, ap weight same))
    | inr (no_z, later) ↦ rw no_z (omega (arith, sum_by-replace_by weight y zs x later))
  ]

  pub find_by-replace_by :
      (y : A) (xs : List A) (x : A)
      → find_by test xs ≡ some x
      → test y ≡ true
      → find_by test (replace_by test y xs) ≡ some y
  find_by-replace_by y [] x e h = cc
  find_by-replace_by y (z ∷ zs) x e h = elim (find_by-cons z zs x e) [
    | inl (yes_z, same) ↦ rw (yes_z, h) refl
    | inr (no_z, later) ↦ rw (no_z, no_z) (find_by-replace_by y zs x later h)
  ]

module _ {ℓ} {A : Type ℓ} (weight weight' : A → ℕ) (change : A → A) where
  pub sum_by-map-≤ :
      ((x : A) → weight' (change x) ≤ weight x)
      → (xs : List A) → sum_by weight' (map change xs) ≤ sum_by weight xs
  sum_by-map-≤ h [] = omega arith
  sum_by-map-≤ h (x ∷ xs) = omega (arith, h x, sum_by-map-≤ h xs)

-- A row that was found by an id is found by the id that it has.
pub find_by-is_recording :
    (recording_id : String) (xs : List Recording) (r : Recording)
    → find_by (is_recording recording_id) xs ≡ some r
    → find_by (is_recording r.id) xs ≡ some r
find_by-is_recording recording_id xs r e =
    let same : r.id ≡ recording_id =
      (eq_iff r.id recording_id).0 (test-find_by (is_recording recording_id) xs r e) in
    subst (λ id. find_by (is_recording id) xs ≡ some r) (sym same) e

pub find_by-is_segment :
    (recording_id : String) (segment_index : ℕ) (xs : List Segment) (s : Segment)
    → find_by (is_segment recording_id segment_index) xs ≡ some s
    → find_by (is_segment s.recording_id s.segment_index) xs ≡ some s
find_by-is_segment recording_id segment_index xs s e =
    let both : (str_eq s.recording_id recording_id && (s.segment_index == segment_index)) ≡ true =
      test-find_by (is_segment recording_id segment_index) xs s e in
    let same : s.recording_id ≡ recording_id =
      (eq_iff s.recording_id recording_id).0 (ground (arith, both)) in
    let same_index : s.segment_index ≡ segment_index = ground (arith, both) in
    subst (λ id. find_by (is_segment id s.segment_index) xs ≡ some s) (sym same)
      (subst (λ i. find_by (is_segment recording_id i) xs ≡ some s) (sym same_index) e)

pub find_by-is_pending :
    (recording_id : String) (xs : List Pending) (p : Pending)
    → find_by (is_pending recording_id) xs ≡ some p
    → find_by (is_pending p.recording_id) xs ≡ some p
find_by-is_pending recording_id xs p e =
    let same : p.recording_id ≡ recording_id =
      (eq_iff p.recording_id recording_id).0 (test-find_by (is_pending recording_id) xs p e) in
    subst (λ id. find_by (is_pending id) xs ≡ some p) (sym same) e

-- The key of a row that passes the test of a key.
pub is_segment_same :
    (recording_id : String) (segment_index : ℕ) (s : Segment)
    → is_segment recording_id segment_index s ≡ true
    → is_segment s.recording_id s.segment_index ≡ is_segment recording_id segment_index
is_segment_same recording_id segment_index s both =
    let same : s.recording_id ≡ recording_id =
      (eq_iff s.recording_id recording_id).0 (ground (arith, both)) in
    let same_index : s.segment_index ≡ segment_index = ground (arith, both) in
    ap (λ id. is_segment id s.segment_index) same ∙ ap (λ i. is_segment recording_id i) same_index
