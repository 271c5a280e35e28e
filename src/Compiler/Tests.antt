-- ===== src/Compiler/Tests.antt =====
-- The compilers run on a small flow, and the laws of the compilers applied to it.
use ivrdroid.Base.{List, [], ◌∷◌, zero, suc, subst, arith}
use ivrdroid.Compiler.{Instruction, Operation}
use ivrdroid.Compiler.Cost.Total.{IsForward, Forward, IsOk, cost_fuel-IsOk}
use ivrdroid.Base.{◌≡◌, ◌≤◌, false, none, ok, refl, some, ℕ, ◌⊎◌, err}
use ivrdroid.Base.Counts.{IsDistinct, contains, distinct, distinct-IsDistinct}
use ivrdroid.Flow.{present, v4}
use ivrdroid.Flow.WellFormed.{WellFormed, child_returns, ids_of}
use ivrdroid.Compiler.{too_long}
use ivrdroid.Compiler.Collect.{collect}
use ivrdroid.Compiler.Emit.{emit, uses_barge_in}
use ivrdroid.Compiler.Cost.{cost_fuel, initial_returns, maximum_cost, maximum_session_limit_ms}
use ivrdroid.Compiler.Compile.{Compiled, assemble, compile_flow, session_bound, within_limit}
use ivrdroid.Compiler.Compile.Laws.{IsCompiled, compile_flow-WellFormed}
use ivrdroid.Samples.{sample, digests, behavior, durations}
use ivrdroid.Compiler.Compile.Bounds.{SessionRun, session_exact}

compiler : Unit {0}
unfolding compile_flow session_bound within_limit maximum_cost cost_fuel initial_returns emit
    uses_barge_in collect assemble contains
compiler = tt

-- 4 s of greeting, and three visits of the menu, each of three attempts of 9 s.
sample_bound :
    (c : Compiled) × (compile_flow digests v4 behavior durations (present sample) ≡ ok c)
    × (c.program.maximum_session_ms ≡ some 85000)
    × (c.compiler_version ≡ "4.1.0")
unfolding compiler
sample_bound = (_, refl, refl, refl)

sample-WellFormed : WellFormed v4 sample none false
unfolding WellFormed child_returns
sample-WellFormed = (((tt, (tt, tt)), tt, tt, tt, refl))

sample-IsDistinct : IsDistinct (ids_of sample)
unfolding ids_of distinct
sample-IsDistinct = distinct-IsDistinct (ids_of sample) refl

compile_flow-WellFormed_example :
    ((c : Compiled) × IsCompiled digests v4 behavior durations sample c)
    ⊎ (compile_flow digests v4 behavior durations (present sample) ≡ err too_long)
compile_flow-WellFormed_example =
    compile_flow-WellFormed digests v4 behavior durations sample sample-WellFormed sample-IsDistinct

session_exact_example :
    (85000 ≤ maximum_session_limit_ms)
    × ((n : ℕ)
        → SessionRun digests v4 behavior durations sample sample_bound.0 sample_bound.1 n
        → n ≤ 85000)
    × SessionRun digests v4 behavior durations sample sample_bound.0 sample_bound.1 85000
session_exact_example =
    session_exact digests v4 behavior durations sample sample_bound.0 sample_bound.1 85000
      sample_bound.2

some-inj : {a b : Operation} → some a ≡ some b → a ≡ b
some-inj h = cc

-- A greeting, and the end of the call.
abbrev short_tape : List Instruction
short_tape =
    (record { pc = 0; block_id = "g"; operation = Operation.play_prompt (some "p") 1 })
    ∷ (record { pc = 1; block_id = "e"; operation = Operation.end_call })
    ∷ []

short_tape-IsForward : IsForward short_tape
short_tape-IsForward zero op e =
    subst (Forward short_tape 0) (some-inj e) (omega arith, omega arith)
short_tape-IsForward (suc zero) op e = subst (Forward short_tape 1) (some-inj e) tt
short_tape-IsForward (suc (suc pc)) op e = cc

cost_fuel-IsOk_example :
    IsOk
      (maximum_cost durations short_tape (cost_fuel short_tape) [] 0 (initial_returns short_tape))
cost_fuel-IsOk_example = cost_fuel-IsOk short_tape durations short_tape-IsForward (omega arith)
