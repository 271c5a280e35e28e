-- ===== src/Compiler/Compile.antt =====
-- `compile_flow`, `compile_flow_v3` and `compile_flow_v4` as a whole.
pub mod Laws
pub mod Bounds
use ivrdroid.Base.{
  ◌>>=◌, ◌>>◌, Bool, List, Option, String, err, false, guard, if◌then◌else◌, none, ok, some, [], ℕ,
  leb,
}
use ivrdroid.Flow.{Child, Version, absent, present, v2, v3, v4}
use ivrdroid.Compiler.{Instruction, Program, RecordingBehavior, missing_root, too_long}
use ivrdroid.Compiler.Collect.{collect}
use ivrdroid.Compiler.Emit.{Out, emit, uses_barge_in}
use ivrdroid.Compiler.Cost.{
  Cost, cost_fuel, initial_returns, maximum_cost, maximum_session_limit_ms,
}

-- `_sha256` of a canonical document: the hash and the encoder are libraries'.
pub record Digests : Type 0 where
  pub source : Version → Child → RecordingBehavior → String
  pub program : Program → String

pub record Compiled : Type 0 where
  pub compiler_version : String
  pub source_sha256 : String
  pub program_sha256 : String
  pub program : Program

abbrev pub compiler_version : Version → Bool → String
compiler_version v2 barge_in = "2.0.0"
compiler_version v3 barge_in = "3.0.0"
compiler_version v4 barge_in = if barge_in then "4.1.0" else "4.0.0"

-- The test of the bound against ten minutes.
unfoldable pub within_limit : Cost → Out (Option ℕ)
within_limit m = do cost ← m; guard (leb cost maximum_session_limit_ms) too_long; ok (some cost)

-- The bound that the program states; release 2 computes none.
unfoldable pub session_bound : Version → (String → Option ℕ) → List Instruction → Out (Option ℕ)
session_bound v2 durations tape = ok none
session_bound _ durations tape =
    within_limit (maximum_cost durations tape (cost_fuel tape) [] 0 (initial_returns tape))

module _ (digests : Digests) (v : Version) (behavior : RecordingBehavior)
    (durations : String → Option ℕ) where
  -- The document that is returned.
  unfoldable pub assemble : Child → Bool → List Instruction → Option ℕ → Compiled
  assemble root barge_in tape bound =
      let program : Program = record {
        version = v;
        entry_pc = 0;
        maximum_session_ms = bound;
        instructions = tape;
      } in
      record {
        compiler_version = compiler_version v barge_in;
        source_sha256 = digests.source v root behavior;
        program_sha256 = digests.program program;
        program = program;
      }

  unfoldable pub compile_flow : Child → Out Compiled
  unfolding assemble
  compile_flow absent = err missing_root
  compile_flow (present root) = do
    st ← collect v root none false (record { entries = []; seen = [] })
    let barge_in = uses_barge_in v st.entries
    tape ← emit behavior barge_in st.entries 0 st.entries
    bound ← session_bound v durations tape
    ok (assemble (present root) barge_in tape bound)

-- The three compilers under their own names. Release 2 takes no recording behaviour and no prompt
-- durations.
pub compile_flow_v2 : Digests → Child → Out Compiled
compile_flow_v2 digests =
    compile_flow digests v2 (record { maximum_duration_seconds = 0; finish_key = none }) (λ p. none)

pub compile_flow_v3 : Digests → RecordingBehavior → (String → Option ℕ) → Child → Out Compiled
compile_flow_v3 digests = compile_flow digests v3

pub compile_flow_v4 : Digests → RecordingBehavior → (String → Option ℕ) → Child → Out Compiled
compile_flow_v4 digests = compile_flow digests v4
