-- ===== src/Simulation/Trace/Inside.antt =====
-- Texts that are ids of a flow's blocks: of the parts of a block, of the branches by their digit, of
-- what a walk visits.
use ivrdroid.Compiler.Collect.Succeeds.{ids_of_self}
use ivrdroid.Base.Counts.{count, count-nil, count-append, count-cons}
use ivrdroid.Flow.WellFormed.{ids_of_branches, ids_of_child, ids_of}
use ivrdroid.Simulation.{branch_by_digit, blocks_of, find_last}
use ivrdroid.Flow.{
  end_call, return_to_menu, external_call, record_message, nil, schedule_branch, absent, cons,
  dtmf_index, collect_digit, present, to_list, block_id, play_prompt, Branches, Child, DigitBranch,
  insert_by, sort_by, Block, Digit,
}
use ivrdroid.Flow.Walk.{branch_children, pending_children, Visited, owned_children, walk_pending}
use ivrdroid.Base.{
  false, true, ◌⊎◌, if◌then◌else◌, Bool, str_eq, leb, Bool-cases, map, ℕ, ◌<◌, ◌≡◌, String, List,
  [], ◌∷◌, ◌++◌, Option, none, some, arith, All, All-append, inl, inr, zero, suc, ◌+◌, subst,
}

-- Each of the texts is the id of a block of the flow.
abbrev pub Among : Block → List String → Type 0
Among root xs = (key : String) → 0 < count key xs → 0 < count key (ids_of root)

abbrev pub AmongChild : Block → Child → Type 0
AmongChild root c = Among root (ids_of_child c)

abbrev pub AmongBlock : Block → Block → Type 0
AmongBlock root b = Among root (ids_of b)

last_or_first :
    {A : Type 0} (o : Option A) (test : Bool) (b a : A)
    → (elim o [ some x ↦ some x | none ↦ if test then some b else none ]) ≡ some a
    → (o ≡ some a) ⊎ (b ≡ a)
last_or_first (some x) test b a e = inl e
last_or_first none true b a e = inr cc
last_or_first none false b a e = cc

-- What `find_last` finds was put there.
pub find_last-All :
    {A : Type 0} (P : A → Type 0) (key : String) (xs : List (String × A)) (a : A)
    → All (λ p. P p.1) xs
    → find_last key xs ≡ some a
    → P a
find_last-All P key [] a h e = cc
find_last-All P key ((k, b) ∷ rest) a (p, h) e =
    elim (last_or_first (find_last key rest) (str_eq key k) b a e) [
      | inl found ↦ find_last-All P key rest a h found
      | inr same ↦ subst P same p
    ]

module _ {A : Type 0} (P : A → Type 0) (key : A → Digit) where
  insert_by-All : (x : A) (xs : List A) → P x → All P xs → All P (insert_by key x xs)
  insert_by-All x [] p h = (p, tt)
  insert_by-All x (y ∷ ys) p (q, h) =
      elim (Bool-cases (leb (dtmf_index (key x)) (dtmf_index (key y)))) [
        | inl first ↦ rw first (p, (q, h))
        | inr later ↦ rw later (q, insert_by-All x ys p h)
      ]

  pub sort_by-All : (xs : List A) → All P xs → All P (sort_by key xs)
  sort_by-All [] h = tt
  sort_by-All (x ∷ xs) (p, h) = insert_by-All x (sort_by key xs) p (sort_by-All xs h)

module _ (root : Block) where
  pub Among-nil : Among root []
  Among-nil key h = absurd (omega (arith, count-nil key))

  pub Among-tail : (x : String) (xs : List String) → Among root (x ∷ xs) → Among root xs
  Among-tail x xs h key k = h key (omega (arith, count-cons key x xs))

  pub Among-split : (xs ys : List String) → Among root (xs ++ ys) → Among root xs × Among root ys
  Among-split xs ys h = (
    λ key k. h key (omega (arith, count-append key xs ys)),
    λ key k. h key (omega (arith, count-append key xs ys)),
  )

  pub Among-split_three :
      (xs ys zs : List String)
      → Among root (xs ++ (ys ++ zs))
      → Among root xs × Among root ys × Among root zs
  Among-split_three xs ys zs h =
      let (a, rest) = Among-split xs (ys ++ zs) h in
      let (b, c) = Among-split ys zs rest in (a, b, c)

  pub Among-id : (b : Block) → Among root (ids_of b) → 0 < count (block_id b) (ids_of root)
  Among-id b h = h (block_id b) (omega (arith, ids_of_self b))

  -- The blocks that `branch_by_digit` holds.
  pub branch_by_digit-Among :
      (bs : Branches)
      → Among root (ids_of_branches bs)
      → All (λ p. AmongChild root p.1) (branch_by_digit bs)
  unfolding ids_of
  branch_by_digit-Among nil h = tt
  branch_by_digit-Among (cons id d c rest) h =
      let (a, b) = Among-split (ids_of_child c) (ids_of_branches rest) h in
      (a, branch_by_digit-Among rest b)

  pub to_list-Among :
      (bs : Branches)
      → Among root (ids_of_branches bs)
      → All (λ b. AmongChild root b.root) (to_list bs)
  unfolding ids_of
  to_list-Among nil h = tt
  to_list-Among (cons id d c rest) h =
      let (a, b) = Among-split (ids_of_child c) (ids_of_branches rest) h in
      (a, to_list-Among rest b)

  branch_children-Among :
      (bs : List DigitBranch)
      → All (λ b. AmongChild root b.root) bs
      → All (AmongChild root) (map (λ b. b.root) bs)
  branch_children-Among [] h = tt
  branch_children-Among (b ∷ bs) (p, h) = (p, branch_children-Among bs h)

  -- The children of a block.
  pub owned_children-Among :
      (b : Block) → AmongBlock root b → All (AmongChild root) (owned_children b)
  unfolding ids_of
  owned_children-Among (play_prompt id p next) h = (Among-tail id _ h, tt)
  owned_children-Among (collect_digit id m bs t i l) h =
      let (a, rest) = Among-split (ids_of_branches bs) _ (Among-tail id _ h) in
      let (b, c, d) = Among-split_three (ids_of_child t) (ids_of_child i) (ids_of_child l) rest in
      All-append (AmongChild root) (branch_children (to_list bs)) (t ∷ i ∷ l ∷ [])
        (branch_children-Among (sort_by (λ b. b.digit) (to_list bs)) (
          sort_by-All (λ b. AmongChild root b.root) (λ b. b.digit) (to_list bs)
            (to_list-Among bs a)))
        (b, (c, (d, tt)))
  owned_children-Among (schedule_branch id s o c h) k =
      let (x, y, z) =
        Among-split_three (ids_of_child o) (ids_of_child c) (ids_of_child h) (Among-tail id _ k) in
      (x, (y, (z, tt)))
  owned_children-Among (record_message id n u) h =
      let (x, y) = Among-split (ids_of_child n) (ids_of_child u) (Among-tail id _ h) in (x, (y, tt))
  owned_children-Among (external_call id phone s n m f) k =
      let (x, y, z) =
        Among-split_three (ids_of_child n) (ids_of_child m) (ids_of_child f) (Among-tail id _ k) in
      (x, (y, (z, tt)))
  owned_children-Among (return_to_menu id) h = tt
  owned_children-Among (end_call id) h = tt

  pending_children-Among :
      (depth : ℕ) (cs : List Child)
      → All (AmongChild root) cs
      → All (λ w. AmongBlock root w.block) (pending_children depth cs)
  unfolding ids_of
  pending_children-Among depth [] h = tt
  pending_children-Among depth (absent ∷ cs) (p, h) = pending_children-Among depth cs h
  pending_children-Among depth (present b ∷ cs) (p, h) = (p, pending_children-Among depth cs h)

  pub walk_pending-Among :
      (fuel : ℕ) (pending : List Visited)
      → All (λ w. AmongBlock root w.block) pending
      → All (λ w. AmongBlock root w.block) (walk_pending fuel pending)
  unfolding walk_pending
  walk_pending-Among zero pending h = tt
  walk_pending-Among (suc fuel) [] h = tt
  walk_pending-Among (suc fuel) (top ∷ pending) (p, h) =
      let children = pending_children (top.depth + 1) (owned_children top.block) in
      (
        p,
        walk_pending-Among fuel (children ++ pending) (
            All-append (λ w. AmongBlock root w.block) children pending
              (pending_children-Among (top.depth + 1) (owned_children top.block)
                (owned_children-Among top.block p))
              h),
      )

  pub blocks_of-Among :
      (ws : List Visited)
      → All (λ w. AmongBlock root w.block) ws
      → All (λ p. AmongBlock root p.1) (blocks_of ws)
  blocks_of-Among [] h = tt
  blocks_of-Among (w ∷ ws) (p, h) = (p, blocks_of-Among ws h)
