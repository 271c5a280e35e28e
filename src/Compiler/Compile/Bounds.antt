-- ===== src/Compiler/Compile/Bounds.antt =====
-- The session bound that a compiled program states, against the runs of its tape.
use ivrdroid.Base.{
  ◌≡◌, ◌≤◌, >>=-eq-ok, ok, false, String, List, [], Option, some, none, ℕ, arith, ap, ◌∙◌,
}
use ivrdroid.Flow.{Block, Version, present, v2}
use ivrdroid.Compiler.{Instruction, RecordingBehavior}
use ivrdroid.Compiler.Collect.{collect}
use ivrdroid.Compiler.Emit.{emit, uses_barge_in}
use ivrdroid.Compiler.Cost.{
  Cost, cost_fuel, initial_returns, maximum_cost, maximum_session_limit_ms,
}
use ivrdroid.Compiler.Cost.Attained.{maximum_cost-attained}
use ivrdroid.Compiler.Cost.Bound.{Run-le}
use ivrdroid.Compiler.Cost.Runs.{Run}
use ivrdroid.Compiler.Compile.{
  Compiled, Digests, assemble, compile_flow, session_bound, within_limit,
}

-- What the test of the bound has let pass.
within_limit-eq-ok :
    (m : Cost) (b : ℕ) → within_limit m ≡ ok (some b) → (m ≡ ok b) × (b ≤ maximum_session_limit_ms)
unfolding within_limit
within_limit-eq-ok m b e = ground arith

session_bound-eq-ok :
    (v : Version) (durations : String → Option ℕ) (tape : List Instruction) (b : ℕ)
    → session_bound v durations tape ≡ ok (some b)
    → (maximum_cost durations tape (cost_fuel tape) [] 0 (initial_returns tape) ≡ ok b)
      × (b ≤ maximum_session_limit_ms)
unfolding session_bound
session_bound-eq-ok v2 durations tape b e = cc
session_bound-eq-ok v durations tape b e = within_limit-eq-ok _ b e

module _ (digests : Digests) (v : Version) (behavior : RecordingBehavior)
    (durations : String → Option ℕ) (root : Block) (c : Compiled)
    (runs : compile_flow digests v behavior durations (present root) ≡ ok c) where
  -- The bound of the returned document is the one that was computed for its tape.
  stated_bound : session_bound v durations c.program.instructions ≡ ok c.program.maximum_session_ms
  unfolding compile_flow assemble
  stated_bound =
      let (st, collected, e) =
        >>=-eq-ok (collect v root none false (record { entries = []; seen = [] })) _ runs in
      let (tape, made, e') =
        >>=-eq-ok (emit behavior (uses_barge_in v st.entries) st.entries 0 st.entries) _ e in
      let (bound, bounded, e'') = >>=-eq-ok (session_bound v durations tape) _ e' in
      let same : assemble digests v behavior durations (present root) (uses_barge_in v st.entries)
            tape bound
          ≡ c =
        cc in
      rw (← same) bounded

  abbrev pub SessionRun : ℕ → Type 0
  SessionRun n = Run durations c.program.instructions (0, initial_returns c.program.instructions) n

  -- If a compiled document states a bound, the bound is at most ten minutes, no run of the tape takes
  -- longer, and some run takes just as long.
  pub session_exact :
      (b : ℕ)
      → c.program.maximum_session_ms ≡ some b
      → (b ≤ maximum_session_limit_ms) × ((n : ℕ) → SessionRun n → n ≤ b) × SessionRun b
  session_exact b stated =
      let (cost, within) =
        session_bound-eq-ok v durations c.program.instructions b (stated_bound ∙ ap ok stated) in
      (
        within,
        λ n run.
            Run-le durations c.program.instructions (cost_fuel c.program.instructions) []
              (0, initial_returns c.program.instructions) n b cost run,
        maximum_cost-attained durations c.program.instructions (cost_fuel c.program.instructions) []
            0 (initial_returns c.program.instructions) b cost,
      )
