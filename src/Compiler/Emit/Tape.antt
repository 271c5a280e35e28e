-- ===== src/Compiler/Emit/Tape.antt =====
-- The tape that `emit` builds: one instruction for each entry, numbered in order.
use ivrdroid.Base.{
  map, ◌>>=◌, All, ◌≡◌, ◌+◌, ok, Bool, List, [], ◌∷◌, some, inl, inr, ℕ, suc, zero, arith, refl, ap,
  ◌∙◌, length, get_elem?, >>=-eq-ok,
}
use ivrdroid.Flow.{block_id}
use ivrdroid.Compiler.{Entry, Instruction, Operation, RecordingBehavior}
use ivrdroid.Compiler.Placed.{ids}
use ivrdroid.Compiler.Emit.{operation_of, emit}
use ivrdroid.Compiler.Cost.{menu_of, menu_index, collect_pcs, limits}
use ivrdroid.Compiler.Cost.Room.{Menu-cases}

abbrev pub record_of : ℕ → Entry → Operation → Instruction
record_of index e op = record { pc = index; block_id = block_id e.block; operation = op }

module _ (behavior : RecordingBehavior) (barge_in : Bool) (l : List Entry) where
  abbrev OperationOf : Entry → Operation → Type 0
  OperationOf e op = operation_of behavior barge_in l e.block e.owner_menu_id ≡ ok op

  -- The first instruction of a tape, and the others.
  record Split (index : ℕ) (e : Entry) (es : List Entry) (tape : List Instruction) : Type 0 where
    operation : Operation
    others : List Instruction
    made : OperationOf e operation
    more : emit behavior barge_in l (index + 1) es ≡ ok others
    shape :
        tape ≡ record { pc = index; block_id = block_id e.block; operation = operation } ∷ others

  emit-Split :
      (index : ℕ) (e : Entry) (es : List Entry) (tape : List Instruction)
      → emit behavior barge_in l index (e ∷ es) ≡ ok tape
      → Split index e es tape
  unfolding emit
  emit-Split index e es tape h =
      let first = λ (op : Operation) (rest : List Instruction). record_of index e op ∷ rest in
      let (op, made, h') =
        >>=-eq-ok (operation_of behavior barge_in l e.block e.owner_menu_id)
          (λ op. emit behavior barge_in l (index + 1) es >>= λ rest. ok (first op rest)) h in
      let (rest, more, h'') =
        >>=-eq-ok (emit behavior barge_in l (index + 1) es) (λ rest. ok (first op rest)) h' in
      record { operation = op; others = rest; made = made; more = more; shape = cc }

  pub emit-length :
      (index : ℕ) (es : List Entry) (tape : List Instruction)
      → emit behavior barge_in l index es ≡ ok tape
      → length tape ≡ length es
  unfolding emit
  emit-length index [] tape h = ground arith
  emit-length index (e ∷ es) tape h =
      let s = emit-Split index e es tape h in
      omega (arith, ap length s.shape, emit-length (index + 1) es s.others s.more)

  -- The instructions carry the ids of the entries, in order.
  pub emit-ids :
      (index : ℕ) (es : List Entry) (tape : List Instruction)
      → emit behavior barge_in l index es ≡ ok tape
      → map (λ i. i.block_id) tape ≡ ids es
  unfolding emit
  emit-ids index [] tape h = let same : [] ≡ tape = cc in rw (← same) refl
  emit-ids index (e ∷ es) tape h =
      let s = emit-Split index e es tape h in
      rw (s.shape) (ap (λ r. block_id e.block ∷ r) (emit-ids (index + 1) es s.others s.more))

  -- The instruction at a place is made of the entry at that place.
  pub emit-get_elem? :
      (index : ℕ) (es : List Entry) (tape : List Instruction) (j : ℕ) (e : Entry)
      → emit behavior barge_in l index es ≡ ok tape
      → get_elem? es j ≡ some e
      → (op : Operation) × OperationOf e op
        × (get_elem? tape j
            ≡ some (record { pc = index + j; block_id = block_id e.block; operation = op }))
  emit-get_elem? index [] tape j e h at = cc
  emit-get_elem? index (x ∷ es) tape zero e h at =
      let s = emit-Split index x es tape h in
      let same : x ≡ e = cc in
      (
        s.operation,
        rw (← same) s.made,
        rw (s.shape, ← same)
            (ap
              (λ n. some (record { pc = n; block_id = block_id x.block; operation = s.operation }))
              (omega arith)),
      )
  emit-get_elem? index (x ∷ es) tape (suc j) e h at =
      let s = emit-Split index x es tape h in
      let (op, made, found) = emit-get_elem? (index + 1) es s.others j e s.more at in
      (
        op,
        made,
        rw (s.shape) (
            found
            ∙ ap (λ n. some (record { pc = n; block_id = block_id e.block; operation = op }))
                (omega arith)),
      )

  -- Where each entry has an operation, there is a tape.
  pub emit-ok :
      (index : ℕ) (es : List Entry)
      → All (λ e. (op : Operation) × OperationOf e op) es
      → (tape : List Instruction) × (emit behavior barge_in l index es ≡ ok tape)
  unfolding emit
  emit-ok index [] h = ([], refl)
  emit-ok index (e ∷ es) ((op, made), h) =
      let (rest, more) = emit-ok (index + 1) es h in
      (record_of index e op ∷ rest, rw (made, more) refl)

-- Each menu of a numbered tape has its index, and its limit under it.
pub menu_index-limits :
    (base : ℕ) (is : List Instruction) (j : ℕ) (i : Instruction) (limit limit_pc : ℕ)
    → ((k : ℕ) (x : Instruction) → get_elem? is k ≡ some x → x.pc ≡ base + k)
    → get_elem? is j ≡ some i
    → menu_of (some i.operation) ≡ some (limit, limit_pc)
    → (index : ℕ) × (menu_index (collect_pcs is) (base + j) ≡ some index)
      × (get_elem? (limits is) index ≡ some limit)
unfolding menu_index collect_pcs limits
menu_index-limits base [] j i limit limit_pc numbered at menu = cc
menu_index-limits base (x ∷ is) zero i limit limit_pc numbered at menu =
    let same : x ≡ i = cc in
    let top = numbered 0 x refl in
    elim (Menu-cases x.operation) [
      | inl (e, f) ↦ ground arith
      | inr (l, lp, e, f) ↦ (0, ground arith, ground arith)
    ]
menu_index-limits base (x ∷ is) (suc j) i limit limit_pc numbered at menu =
    let (k, found, known) =
      menu_index-limits (base + 1) is j i limit limit_pc
        (λ k y e. numbered (suc k) y e ∙ omega arith) at menu in
    let top = numbered 0 x refl in
    let shifted : base + 1 + j ≡ base + suc j = omega arith in
    let found' = rw shifted at found in
    elim (Menu-cases x.operation) [
      | inl (e, f) ↦ (k, ground arith, ground arith)
      | inr (l, lp, e, f) ↦ (suc k, ground arith, ground arith)
    ]
