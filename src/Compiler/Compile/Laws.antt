-- ===== src/Compiler/Compile/Laws.antt =====
-- The compilers on well-formed flows.
use ivrdroid.Base.{
  map, ◌≡◌, ◌≤◌, ◌<◌, ok, err, false, String, List, [], ◌∷◌, Option, some, none, inl, inr, ℕ, arith,
  refl, sym, ap, length, All, ◌⊎◌, append-nil,
}
use ivrdroid.Base.Counts.{count, IsDistinct}
use ivrdroid.Flow.{Block, block_id, Version, present, v2}
use ivrdroid.Flow.WellFormed.{WellFormed, ids_of}
use ivrdroid.Compiler.{Collected, Entry, Instruction, RecordingBehavior, too_long}
use ivrdroid.Compiler.Collect.{collect}
use ivrdroid.Compiler.Collect.Walk.{collect-JobOk}
use ivrdroid.Compiler.Collect.Succeeds.{Waiting, ids_of_self}
use ivrdroid.Compiler.Placed.{Placed, Placed-Within, Within, ids}
use ivrdroid.Compiler.Emit.{uses_barge_in}
use ivrdroid.Compiler.Emit.Tape.{emit-ids, emit-length}
use ivrdroid.Compiler.Emit.Forward.{Closed}
use ivrdroid.Compiler.Emit.Program.{emit-total, tape-IsForward}
use ivrdroid.Compiler.Cost.Total.{IsForward, cost_fuel-IsOk}
use ivrdroid.Compiler.Compile.{
  Compiled, Digests, assemble, compile_flow, session_bound, within_limit,
}

-- The entries of a well-formed flow.
record Entries (v : Version) (root : Block) : Type 0 where
  collected : Collected
  runs : collect v root none false (record { entries = []; seen = [] }) ≡ ok collected
  distinct : IsDistinct (ids collected.entries)
  same : (key : String) → count key (ids collected.entries) ≡ count key (ids_of root)
  nonempty : 0 < length collected.entries
  placed : All (Placed Closed collected.entries) collected.entries

count-le-length : (key : String) (es : List Entry) → count key (ids es) ≤ length es
unfolding count
count-le-length key [] = omega arith
count-le-length key (e ∷ es) = ground (arith, count-le-length key es)

collect-Entries :
    (v : Version) (root : Block)
    → WellFormed v root none false
    → IsDistinct (ids_of root)
    → Entries v root
unfolding count
collect-Entries v root w distinct =
    let d =
      collect-JobOk v root none false w (record { entries = []; seen = [] })
        (λ key. omega (arith, distinct key)) in
    let whole : Within d.added d.added = record {
      front = [];
      back = [];
      split = sym (append-nil d.added);
    } in
    record {
      collected = d.after;
      runs = d.runs;
      distinct = λ key. rw (d.entries) (omega (arith, distinct key, d.same key));
      same = λ key. rw (d.entries) (d.same key);
      nonempty = omega (
        arith,
        count-le-length (block_id root) d.added,
        d.same (block_id root),
        ids_of_self root,
        ap length d.entries,
      );
      placed =
          rw (d.entries)
            (Placed-Within (Waiting none _) Closed whole (λ id o w. cc) d.added d.placed);
    }

-- The test lets a computed cost pass, or refuses it for its length alone.
within_limit-cases :
    (cost : ℕ) → (within_limit (ok cost) ≡ ok (some cost)) ⊎ (within_limit (ok cost) ≡ err too_long)
unfolding within_limit
within_limit-cases cost = ground arith

session_bound-forward :
    (v : Version) (durations : String → Option ℕ) (tape : List Instruction)
    → IsForward tape
    → 0 < length tape
    → ((b : Option ℕ) × (session_bound v durations tape ≡ ok b))
      ⊎ (session_bound v durations tape ≡ err too_long)
unfolding session_bound
session_bound-forward v2 durations tape forward h = inl (none, refl)
session_bound-forward v durations tape forward h =
    let (cost, e) = cost_fuel-IsOk tape durations forward h in
    rw e (elim (within_limit-cases cost) [ inl p ↦ inl (some cost, p) | inr q ↦ inr q ])

module _ (digests : Digests) (v : Version) (behavior : RecordingBehavior)
    (durations : String → Option ℕ) where
  -- A document that `compile_flow` returns, with a forward tape of one instruction for each block.
  pub record IsCompiled (root : Block) (c : Compiled) : Type 0 where
    pub runs : compile_flow digests v behavior durations (present root) ≡ ok c
    pub forward : IsForward c.program.instructions
    pub complete :
        (key : String)
        → count key (map (λ i. i.block_id) c.program.instructions) ≡ count key (ids_of root)

  -- A well-formed flow in which each block id occurs once is compiled, with a forward tape of one
  -- instruction for each block, or is refused with the error of a session that is too long.
  pub compile_flow-WellFormed :
      (root : Block)
      → WellFormed v root none false
      → IsDistinct (ids_of root)
      → ((c : Compiled) × IsCompiled root c)
        ⊎ (compile_flow digests v behavior durations (present root) ≡ err too_long)
  unfolding compile_flow assemble
  compile_flow-WellFormed root w distinct =
      let e = collect-Entries v root w distinct in
      let barge_in = uses_barge_in v e.collected.entries in
      let (tape, made) = emit-total behavior barge_in e.collected.entries e.distinct e.placed in
      let forward =
        tape-IsForward behavior barge_in e.collected.entries e.distinct e.placed tape made in
      let named = emit-ids behavior barge_in e.collected.entries 0 e.collected.entries tape made in
      let size =
        emit-length behavior barge_in e.collected.entries 0 e.collected.entries tape made in
      elim (session_bound-forward v durations tape forward (omega (arith, size, e.nonempty))) [
        | inl (b, bounded) ↦ inl (
          assemble digests v behavior durations (present root) barge_in tape b,
          record {
            runs = rw (e.runs, made, bounded) refl;
            forward = forward;
            complete = λ key. rw named (e.same key);
          },
        )
        | inr refused ↦ inr (rw (e.runs, made, refused) refl)
      ]
