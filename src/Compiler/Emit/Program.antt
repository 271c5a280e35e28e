-- ===== src/Compiler/Emit/Program.antt =====
-- From entries to the tape, instruction by instruction.
use ivrdroid.Base.{
  ◌≡◌, ◌+◌, ok, Bool, String, List, Option, some, none, inl, inr, ℕ, arith, refl, ◌∙◌, length,
  get_elem?, get_elem?-Around, get_elem?-some, get_elem?-lt, All, All-of, All-get_elem?, All-mono,
  subst, Option-cases,
}
use ivrdroid.Base.Counts.{IsDistinct}
use ivrdroid.Flow.{Branches, Child, Menu, block_id, collect_digit}
use ivrdroid.Compiler.{Entry, Instruction, Operation, RecordingBehavior}
use ivrdroid.Compiler.Placed.{Placed, id_of, ids}
use ivrdroid.Compiler.Emit.{Out, emit, operation_of, pc_of}
use ivrdroid.Compiler.Emit.Tape.{emit-get_elem?, emit-length, emit-ok, menu_index-limits}
use ivrdroid.Compiler.Emit.Forward.{Closed, HasOperation, Leads, ReturnsVia, block-HasOperation}
use ivrdroid.Compiler.Cost.{collect_pcs, menu_index, menu_of, operation_at}
use ivrdroid.Compiler.Cost.Total.{Forward, IsForward, ReturnsTo}

-- The operation of a menu carries its limit and the counter of its limit path.
menu_of-operation :
    (behavior : RecordingBehavior) (barge_in : Bool) (l : List Entry) (id : String) (menu : Menu)
    (bs : Branches) (t v k : Child) (owner : Option String) (op : Operation) (limit_pc : ℕ)
    → operation_of behavior barge_in l (collect_digit id menu bs t v k) owner ≡ ok op
    → pc_of l k ≡ ok limit_pc
    → menu_of (some op) ≡ some (menu.maximum_menu_returns, limit_pc)
unfolding operation_of
menu_of-operation behavior barge_in l id menu bs t v k owner op limit_pc made found = ground arith

module _ (behavior : RecordingBehavior) (barge_in : Bool) (l : List Entry)
    (distinct : IsDistinct (ids l)) (placed : All (Placed Closed l) l) where
  entry-HasOperation :
      (i : ℕ) (e : Entry) → get_elem? l i ≡ some e → HasOperation behavior barge_in l i e
  entry-HasOperation i e at =
      let a = get_elem?-Around l i e at in
      subst (λ n. HasOperation behavior barge_in l n e) a.place
        (block-HasOperation behavior barge_in l distinct a.front a.back e.block e.owner_menu_id
          a.split (All-get_elem? (Placed Closed l) l i e placed at))

  pub emit-total : (tape : List Instruction) × (emit behavior barge_in l 0 l ≡ ok tape)
  emit-total =
      emit-ok behavior barge_in l 0 l
        (All-of _ l (λ i e at. let h = entry-HasOperation i e at in (h.operation, h.made)))

  module _ (tape : List Instruction) (made : emit behavior barge_in l 0 l ≡ ok tape) where
    same_length : length tape ≡ length l
    same_length = emit-length behavior barge_in l 0 l tape made

    -- The entry of an instruction.
    instruction-entry :
        (pc : ℕ) (i : Instruction)
        → get_elem? tape pc ≡ some i
        → (e : Entry) × (get_elem? l pc ≡ some e)
          × (i.pc ≡ pc)
          × (i.block_id ≡ id_of e)
          × (operation_of behavior barge_in l e.block e.owner_menu_id ≡ ok i.operation)
    instruction-entry pc i at =
        let (e, at_l) =
          get_elem?-some l pc (omega (arith, get_elem?-lt tape pc i at, same_length)) in
        let (op, of_e, at_tape) = emit-get_elem? behavior barge_in l 0 l tape pc e made at_l in
        let same : record { pc = 0 + pc; block_id = block_id e.block; operation = op } ≡ i = cc in
        (e, at_l, rw (← same) (omega arith), rw (← same) refl, rw (← same) of_e)

    returns-ReturnsTo :
        (pc menu_pc : ℕ) → ReturnsVia behavior barge_in l pc menu_pc → ReturnsTo tape pc menu_pc
    returns-ReturnsTo pc menu_pc r =
        let (op, of_menu, at_tape) =
          emit-get_elem? behavior barge_in l 0 l tape menu_pc _ made r.listed in
        let is_menu =
          menu_of-operation behavior barge_in l r.owner r.menu r.branches r.on_timeout r.on_invalid
            r.on_limit r.menu_owner op r.limit_pc of_menu r.found in
        let at_menu : operation_at tape menu_pc ≡ some op = rw (at_tape, operation_at) refl in
        let (index, listed, known) =
          menu_index-limits 0 tape menu_pc _ r.menu.maximum_menu_returns r.limit_pc
            (λ k x at. (instruction-entry k x at).2 ∙ omega arith) at_tape is_menu in
        record {
          limit = r.menu.maximum_menu_returns;
          limit_pc = r.limit_pc;
          index = index;
          is_menu = rw at_menu is_menu;
          is_listed =
              subst (λ n. menu_index (collect_pcs tape) n ≡ some index) (omega arith) listed;
          has_limit = known;
          in_tape = get_elem?-lt tape menu_pc _ at_tape;
          forward = (r.later, omega (arith, same_length, r.inside));
        }

    Leads-Forward : (pc : ℕ) (op : Operation) → Leads behavior barge_in l pc op → Forward tape pc op
    Leads-Forward pc (Operation.play_prompt prompt next) h = omega (arith, same_length)
    Leads-Forward pc (Operation.collect_digit _ _ _ _ branches t v k _) (h, p, q, r) = (
      All-mono _ _ (λ b (lt, inside). (lt, omega (arith, same_length))) branches h,
      omega (arith, same_length),
      omega (arith, same_length),
      omega (arith, same_length),
    )
    Leads-Forward pc (Operation.schedule_branch _ o c h) g = omega (arith, same_length)
    Leads-Forward pc (Operation.record_message _ _ n u) h = omega (arith, same_length)
    Leads-Forward pc (Operation.external_call _ _ n m f) h = omega (arith, same_length)
    Leads-Forward pc (Operation.return_to_menu m) h = returns-ReturnsTo pc m h
    Leads-Forward pc Operation.end_call h = tt

    pub tape-IsForward : IsForward tape
    tape-IsForward pc op at = elim (Option-cases (get_elem? tape pc)) [
      | inl missing ↦ absurd (clash (rw (missing, operation_at) at at))
      | inr (i, found) ↦
          let (e, at_l, numbered, named, of_e) = instruction-entry pc i found in
          let h = entry-HasOperation pc e at_l in
          let same : h.operation ≡ op =
            same_value h.made of_e ∙ some_injective (rw (found, operation_at) at at) in
          Leads-Forward pc op (subst (λ o. Leads behavior barge_in l pc o) same h.leads)
    ]
      where
        clash : none ≡ some op → ⊥
        clash p = cc

        some_injective : {o q : Operation} → some o ≡ some q → o ≡ q
        some_injective p = cc

        same_value : {m : Out Operation} {o q : Operation} → m ≡ ok o → m ≡ ok q → o ≡ q
        same_value p q = cc
