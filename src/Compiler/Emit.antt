-- ===== src/Compiler/Emit.antt =====
-- The second pass of the compilers: `program_counter`, `pc` and the loop that builds `instructions`.
pub mod Positions
pub mod Tape
pub mod Forward
pub mod Program
use ivrdroid.Base.{
  ◌>>=◌, Bool, List, Option, Result, String, err, false, if◌then◌else◌, none, ok, some, true, [],
  ◌||◌, ◌∷◌, ℕ, suc, str_eq, ◌*◌, ◌+◌,
}
use ivrdroid.Flow.{
  Block, Child, Digit, DigitBranch, Menu, Version, absent, block_id, collect_digit, end_call,
  external_call, play_prompt, present, record_message, return_to_menu, schedule_branch, sort_by,
  to_list, v4,
}
use ivrdroid.Compiler.{
  BranchTarget, CompileError, Entry, Instruction, Operation, RecordingBehavior, missing_key,
  missing_child,
}

abbrev pub Out : Type 0 → Type 0
Out A = Result CompileError A

-- `program_counter.get(id)`: the last index under which the dictionary holds the id.
unfoldable pub position : String → List Entry → Option ℕ
position id [] = none
position id (e ∷ es) = elim (position id es) [
  | some k ↦ some (suc k)
  | none ↦ if str_eq id (block_id e.block) then some 0 else none
]

-- `program_counter[id]`.
unfoldable pub counter_of : List Entry → String → Out ℕ
unfolding position
counter_of entries id = elim (position id entries) [ none ↦ err (missing_key id) | some k ↦ ok k ]

-- `pc(block)`.
unfoldable pub pc_of : List Entry → Child → Out ℕ
unfolding counter_of
pc_of entries absent = err missing_child
pc_of entries (present block) = counter_of entries (block_id block)

abbrev pub branch_digit : DigitBranch → Digit
branch_digit b = b.digit

unfoldable pub branch_targets : List Entry → List DigitBranch → Out (List BranchTarget)
unfolding pc_of
branch_targets entries [] = ok []
branch_targets entries (b ∷ bs) = do
  target ← pc_of entries b.root
  rest ← branch_targets entries bs
  ok (record { digit = b.digit; target_pc = target } ∷ rest)

-- Release 4 writes the flag into each menu once some menu sets it.
abbrev pub barge_in_field : Bool → Menu → Option Bool
barge_in_field true menu = some menu.allow_prompt_barge_in
barge_in_field false menu = none

-- The operation of one entry; `barge_in` says that `compiler_version` is the one of 4.1.
unfoldable pub operation_of :
    RecordingBehavior → Bool → List Entry → Block → Option String → Out Operation
unfolding pc_of branch_targets
operation_of behavior barge_in entries (play_prompt id prompt next) owner = do
  next_pc ← pc_of entries next
  ok (Operation.play_prompt prompt next_pc)
operation_of behavior barge_in entries
      (collect_digit id menu branches on_timeout on_invalid on_return_limit) owner =
    do
      targets ← branch_targets entries (sort_by branch_digit (to_list branches))
      timeout_pc ← pc_of entries on_timeout
      invalid_pc ← pc_of entries on_invalid
      limit_pc ← pc_of entries on_return_limit
      ok (
          Operation.collect_digit menu.prompt_id menu.timeout_ms menu.maximum_attempts
            menu.maximum_menu_returns targets timeout_pc invalid_pc limit_pc
            (barge_in_field barge_in menu))
operation_of behavior barge_in entries (schedule_branch id schedule on_open on_closed on_holiday)
      owner =
    do
      open_pc ← pc_of entries on_open
      closed_pc ← pc_of entries on_closed
      holiday_pc ← pc_of entries on_holiday
      ok (Operation.schedule_branch schedule open_pc closed_pc holiday_pc)
operation_of behavior barge_in entries (record_message id next on_unavailable) owner = do
  next_pc ← pc_of entries next
  unavailable_pc ← pc_of entries on_unavailable
  ok (
      Operation.record_message (behavior.maximum_duration_seconds * 1000) behavior.finish_key
        next_pc unavailable_pc)
operation_of behavior barge_in entries
      (external_call id phone seconds next on_not_connected on_system_failure) owner =
    do
      next_pc ← pc_of entries next
      not_connected_pc ← pc_of entries on_not_connected
      failure_pc ← pc_of entries on_system_failure
      ok (Operation.external_call phone (seconds * 1000) next_pc not_connected_pc failure_pc)
operation_of behavior barge_in entries (return_to_menu id) none = err missing_child
operation_of behavior barge_in entries (return_to_menu id) (some m) = do
  menu_pc ← counter_of entries m
  ok (Operation.return_to_menu menu_pc)
operation_of behavior barge_in entries (end_call id) owner = ok Operation.end_call

-- The loop over `enumerate(entries)`, from an index on.
unfoldable pub emit :
    RecordingBehavior → Bool → List Entry → ℕ → List Entry → Out (List Instruction)
unfolding operation_of
emit behavior barge_in entries index [] = ok []
emit behavior barge_in entries index (e ∷ es) = do
  operation ← operation_of behavior barge_in entries e.block e.owner_menu_id
  rest ← emit behavior barge_in entries (index + 1) es
  ok (record { pc = index; block_id = block_id e.block; operation = operation } ∷ rest)

abbrev pub block_barges_in : Block → Bool
block_barges_in (collect_digit id menu _ _ _ _) = menu.allow_prompt_barge_in
block_barges_in _ = false

unfoldable pub any_barge_in : List Entry → Bool
any_barge_in [] = false
any_barge_in (e ∷ es) = block_barges_in e.block || any_barge_in es

-- Whether the release is 4 and `compiler_version` the one of 4.1.
unfoldable pub uses_barge_in : Version → List Entry → Bool
unfolding any_barge_in
uses_barge_in v4 entries = any_barge_in entries
uses_barge_in _ entries = false
