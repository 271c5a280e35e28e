-- ===== src/Compiler.antt =====
-- The flow compilers server/app/compiler_v2.py, compiler_v3.py and compiler_v4.py: what they raise,
-- the entries that they collect and the tape that they emit. The three are one program that
-- differs by release, so its parts take the release as an argument.
pub mod Collect
pub mod Placed
pub mod Emit
pub mod Cost
pub mod Compile
mod Tests
use ivrdroid.Base.{ℕ, String, Option, Bool, List}
use ivrdroid.Flow.{Version, Digit, Block}

-- The path that has no first step.
pub data Slot : Type 0 where
  next_step no_input invalid return_limit open_hours closed_hours holiday : Slot
  completed not_connected system_failure : Slot
  digit : Digit → Slot

-- The exceptions: `ValueError` with its message, `TypeError`, and the `KeyError`, `IndexError` and
-- `AttributeError` that a look-up could raise. `out_of_fuel` is the model's own.
pub data CompileError : Type 0 where
  missing_root : CompileError
  duplicated : String → CompileError
  no_first_step : Slot → CompileError
  record_notice : CompileError
  record_paths : CompileError
  external_notice : CompileError
  return_outside_menu : CompileError
  unsupported_block : CompileError
  missing_key : String → CompileError
  missing_child : CompileError
  missing_index : CompileError
  empty_maximum : CompileError
  runtime_cycle : CompileError
  too_long : CompileError
  out_of_fuel : CompileError

-- An element of `entries`: a block and the id of the menu that owns it.
pub record Entry : Type 0 where
  pub block : Block
  pub owner_menu_id : Option String

-- The variables `entries` and `seen` of `collect`.
pub record Collected : Type 0 where
  pub entries : List Entry
  pub seen : List String

pub record BranchTarget : Type 0 where
  pub digit : Digit
  pub target_pc : ℕ

-- The keys that `instruction.update` adds, by `op`.
pub data Operation : Type 0 where
  play_prompt : (prompt_id : Option String) → (next_pc : ℕ) → Operation
  collect_digit :
      (prompt_id : Option String)
      → (timeout_ms maximum_attempts maximum_menu_returns : ℕ) → (branches : List BranchTarget)
      → (on_timeout_pc on_invalid_pc on_return_limit_pc : ℕ) → (allow_prompt_barge_in : Option Bool)
      → Operation
  schedule_branch :
      (schedule_id : Option String) → (on_open_pc on_closed_pc on_holiday_pc : ℕ) → Operation
  record_message :
      (maximum_duration_ms : ℕ)
      → (finish_key : Option Digit) → (next_pc on_unavailable_pc : ℕ) → Operation
  external_call :
      (phone_number : String)
      → (answer_timeout_ms next_pc on_not_connected_pc on_system_failure_pc : ℕ) → Operation
  return_to_menu : (menu_pc : ℕ) → Operation
  end_call : Operation

pub record Instruction : Type 0 where
  pub pc : ℕ
  pub block_id : String
  pub operation : Operation

-- `RecordingBehavior` of server/app/schemas.py.
pub record RecordingBehavior : Type 0 where
  pub maximum_duration_seconds : ℕ
  pub finish_key : Option Digit

-- The document `program`; release 2 states no session bound.
pub record Program : Type 0 where
  pub version : Version
  pub entry_pc : ℕ
  pub maximum_session_ms : Option ℕ
  pub instructions : List Instruction
