-- ===== src/Flow/Walk/Complete.antt =====
-- The ids that `walk_blocks` visits, against the ids of the tree.
use ivrdroid.Base.Counts.{count, count-append, count-nil}
use ivrdroid.Flow.{
  end_call, return_to_menu, external_call, record_message, schedule_branch, collect_digit,
  play_prompt, nil, cons, absent, block_id, dtmf_index, present, to_list, Block, Branches,
  insert_by, sort_by, Child, DigitBranch,
}
use ivrdroid.Flow.WellFormed.{ids_of_branches, ids_of_child, ids_of}
use ivrdroid.Flow.Walk.{
  branch_children, walk_blocks, walk_pending, owned_children, pending_children, Visited,
}
use ivrdroid.Base.{
  ℕ, zero, suc, ◌+◌, ◌≤◌, ◌≡◌, String, List, [], ◌∷◌, ◌++◌, arith, refl, length, length-append, map,
  Bool-cases, inl, inr, leb,
}

-- A measure of a list of texts that adds up along the list.
record Additive (f : List String → ℕ) : Type 0 where
  at_nil : f [] ≡ 0
  at_append : (xs ys : List String) → f (xs ++ ys) ≡ f xs + f ys

module _ (f : List String → ℕ) (add : Additive f) where
  sum_children : List Child → ℕ
  sum_children [] = 0
  sum_children (c ∷ cs) = f (ids_of_child c) + sum_children cs

  sum_visited : List Visited → ℕ
  sum_visited [] = 0
  sum_visited (w ∷ ws) = f (ids_of w.block) + sum_visited ws

  sum_children-append :
      (xs ys : List Child) → sum_children (xs ++ ys) ≡ sum_children xs + sum_children ys
  unfolding sum_children
  sum_children-append [] ys = omega arith
  sum_children-append (x ∷ xs) ys = omega (arith, sum_children-append xs ys)

  sum_visited-append :
      (xs ys : List Visited) → sum_visited (xs ++ ys) ≡ sum_visited xs + sum_visited ys
  unfolding sum_visited
  sum_visited-append [] ys = omega arith
  sum_visited-append (x ∷ xs) ys = omega (arith, sum_visited-append xs ys)

  sum_branches : List DigitBranch → ℕ
  sum_branches bs = sum_children (map (λ b. b.root) bs)

  sum-insert_by :
      (b : DigitBranch) (bs : List DigitBranch)
      → sum_branches (insert_by (λ b. b.digit) b bs) ≡ f (ids_of_child b.root) + sum_branches bs
  unfolding sum_branches sum_children
  sum-insert_by b [] = refl
  sum-insert_by b (x ∷ xs) = elim (Bool-cases (leb (dtmf_index b.digit) (dtmf_index x.digit))) [
    | inl first ↦ rw first refl
    | inr later ↦ rw later (omega (arith, sum-insert_by b xs))
  ]

  sum-sort_by : (bs : List DigitBranch) → sum_branches (sort_by (λ b. b.digit) bs) ≡ sum_branches bs
  unfolding sum_branches sum_children
  sum-sort_by [] = refl
  sum-sort_by (b ∷ bs) = omega (arith, sum-insert_by b (sort_by (λ b. b.digit) bs), sum-sort_by bs)

  sum-to_list : (bs : Branches) → sum_branches (to_list bs) ≡ f (ids_of_branches bs)
  unfolding sum_branches sum_children ids_of
  sum-to_list nil = omega (arith, add.at_nil)
  sum-to_list (cons id d c rest) =
      omega (arith, sum-to_list rest, add.at_append (ids_of_child c) (ids_of_branches rest))

  cons_append :
      (id : String) (xs ys : List String) → f (id ∷ (xs ++ ys)) ≡ f (id ∷ []) + (f xs + f ys)
  cons_append id xs ys = omega (arith, add.at_append (id ∷ []) (xs ++ ys), add.at_append xs ys)

  sum-owned_children :
      (b : Block) → f (ids_of b) ≡ f (block_id b ∷ []) + sum_children (owned_children b)
  unfolding ids_of sum_children sum_branches
  sum-owned_children (play_prompt id p next) =
      omega (arith, add.at_append (id ∷ []) (ids_of_child next))
  sum-owned_children (collect_digit id m bs t i l) = omega (
    arith,
    cons_append id (ids_of_branches bs) (ids_of_child t ++ (ids_of_child i ++ ids_of_child l)),
    add.at_append (ids_of_child t) (ids_of_child i ++ ids_of_child l),
    add.at_append (ids_of_child i) (ids_of_child l),
    sum_children-append (branch_children (to_list bs)) (t ∷ i ∷ l ∷ []),
    sum-sort_by (to_list bs),
    sum-to_list bs,
  )
  sum-owned_children (schedule_branch id s o c h) = omega (
    arith,
    cons_append id (ids_of_child o) (ids_of_child c ++ ids_of_child h),
    add.at_append (ids_of_child c) (ids_of_child h),
  )
  sum-owned_children (record_message id n u) =
      omega (arith, cons_append id (ids_of_child n) (ids_of_child u))
  sum-owned_children (external_call id phone s n m e) = omega (
    arith,
    cons_append id (ids_of_child n) (ids_of_child m ++ ids_of_child e),
    add.at_append (ids_of_child m) (ids_of_child e),
  )
  sum-owned_children (return_to_menu id) = omega arith
  sum-owned_children (end_call id) = omega arith

  sum-pending :
      (depth : ℕ) (cs : List Child) → sum_visited (pending_children depth cs) ≡ sum_children cs
  unfolding sum_visited sum_children ids_of
  sum-pending depth [] = refl
  sum-pending depth (absent ∷ cs) = omega (arith, add.at_nil, sum-pending depth cs)
  sum-pending depth (present b ∷ cs) = omega (arith, sum-pending depth cs)

length-Additive : Additive length
length-Additive = record { at_nil = refl; at_append = length-append }

count-Additive : (key : String) → Additive (count key)
count-Additive key = record { at_nil = count-nil key; at_append = count-append key }

abbrev visited_ids : List Visited → List String
visited_ids ws = map (λ w. block_id w.block) ws

-- The walk of a stack visits what stands below it, if the fuel is not less than the blocks there.
walk_pending-sum :
    (f : List String → ℕ) (add : Additive f) (fuel : ℕ) (ws : List Visited)
    → sum_visited length length-Additive ws ≤ fuel
    → f (visited_ids (walk_pending fuel ws)) ≡ sum_visited f add ws
unfolding walk_pending sum_visited
walk_pending-sum f add zero [] h = add.at_nil
walk_pending-sum f add zero (w ∷ ws) h =
    absurd (omega (arith, sum-owned_children length length-Additive w.block))
walk_pending-sum f add (suc fuel) [] h = add.at_nil
walk_pending-sum f add (suc fuel) (w ∷ ws) h =
    let children = pending_children (w.depth + 1) (owned_children w.block) in
    omega (
      arith,
      add.at_append (block_id w.block ∷ []) (visited_ids (walk_pending fuel (children ++ ws))),
      sum-owned_children f add w.block,
      sum-pending f add (w.depth + 1) (owned_children w.block),
      sum_visited-append f add children ws,
      walk_pending-sum f add fuel (children ++ ws) (
          omega (
            arith,
            h,
            sum-owned_children length length-Additive w.block,
            sum-pending length length-Additive (w.depth + 1) (owned_children w.block),
            sum_visited-append length length-Additive children ws,
          )),
    )

-- `walk_blocks` visits an id as often as it stands in the tree.
pub walk_blocks-count :
    (root : Block) (key : String)
    → count key (map (λ w. block_id w.block) (walk_blocks (present root))) ≡ count key (ids_of root)
unfolding walk_blocks sum_visited
walk_blocks-count root key = omega (
  arith,
  walk_pending-sum (count key) (count-Additive key) (length (ids_of root))
      ((record { block = root; depth = 1 }) ∷ []) (omega arith),
)
