-- ===== src/Compiler/Collect.antt =====
-- `collect`, the first pass of `compile_flow`, `compile_flow_v3` and `compile_flow_v4`: the walk
-- over the owned tree that checks it and lists the blocks in the order of the tape.
pub mod Jobs
pub mod Succeeds
pub mod Walk
use ivrdroid.Base.{
  ◌>>=◌, ◌>>◌, Bool, List, Option, Result, String, err, guard, if◌then◌else◌, none, ok, some, [],
  ◌&&◌, ◌++◌, ◌∷◌,
}
use ivrdroid.Base.Counts.{contains}
use ivrdroid.Flow.{
  Block, Branches, Child, Digit, Version, absent, block_id, collect_digit, cons, end_call,
  external_call, nil, play_prompt, present, record_message, return_to_menu, schedule_branch,
  sort_by, after_prompt, below, below_menu, has_block, has_external, has_recording,
}
use ivrdroid.Compiler.{
  Collected, CompileError, closed_hours, completed, digit, duplicated, external_notice, holiday,
  invalid, next_step, no_first_step, no_input, not_connected, open_hours, record_notice,
  record_paths, return_limit, return_outside_menu, system_failure, unsupported_block,
}

abbrev pub M : Type 0
M = Result CompileError Collected

-- A call of `collect` that waits for the state.
abbrev pub Job : Type 0
Job = Collected → M

-- The lines above the case distinction.
unfoldable pub enter : Block → Option String → Collected → M
enter block owner st =
    if contains st.seen (block_id block)
    then err (duplicated (block_id block))
    else ok (record {
      entries = st.entries ++ record { block = block; owner_menu_id = owner } ∷ [];
      seen = st.seen ++ block_id block ∷ [];
    })

-- The loop over the sorted branches.
unfoldable pub run_jobs : List (Digit × Job) → Job
run_jobs [] st = ok st
run_jobs ((d, job) ∷ jobs) st = do st' ← job st; run_jobs jobs st'

abbrev pub job_digit : Digit × Job → Digit
job_digit (d, job) = d

unfoldable mutual
  unfolding enter run_jobs

  pub collect : Version → Block → Option String → Bool → Job
  collect v (play_prompt id prompt next) owner notice st = do
    st ← enter (play_prompt id prompt next) owner st
    collect_child v (no_first_step next_step) next owner (after_prompt v notice prompt) st
  collect v (collect_digit id menu branches on_timeout on_invalid on_return_limit) owner notice st =
      do
        let inner = below_menu v notice menu.prompt_id
        st ← enter (collect_digit id menu branches on_timeout on_invalid on_return_limit) owner st
        st ← run_jobs (sort_by job_digit (branch_jobs v branches id inner)) st
        st ← collect_child v (no_first_step no_input) on_timeout (some id) inner st
        st ← collect_child v (no_first_step invalid) on_invalid (some id) inner st
        collect_child v (no_first_step return_limit) on_return_limit (some id) inner st
  collect v (schedule_branch id schedule on_open on_closed on_holiday) owner notice st = do
    st ← enter (schedule_branch id schedule on_open on_closed on_holiday) owner st
    st ← collect_child v (no_first_step open_hours) on_open owner (below v notice) st
    st ← collect_child v (no_first_step closed_hours) on_closed owner (below v notice) st
    collect_child v (no_first_step holiday) on_holiday owner (below v notice) st
  collect v (record_message id next on_unavailable) owner notice st = do
    st ← enter (record_message id next on_unavailable) owner st
    guard (has_recording v) unsupported_block
    guard notice record_notice
    guard (has_block next && has_block on_unavailable) record_paths
    st ← collect_child v record_paths next owner (below v notice) st
    collect_child v record_paths on_unavailable owner (below v notice) st
  collect v (external_call id phone seconds next on_not_connected on_system_failure) owner notice
        st =
      do
        st ← enter (external_call id phone seconds next on_not_connected on_system_failure) owner st
        guard (has_external v) unsupported_block
        guard notice external_notice
        st ← collect_child v (no_first_step completed) next owner notice st
        st ← collect_child v (no_first_step not_connected) on_not_connected owner notice st
        collect_child v (no_first_step system_failure) on_system_failure owner notice st
  collect v (return_to_menu id) none notice st = do
    st ← enter (return_to_menu id) none st
    err return_outside_menu
  collect v (return_to_menu id) (some m) notice st = enter (return_to_menu id) (some m) st
  collect v (end_call id) owner notice st = enter (end_call id) owner st

  -- `if child is None: raise …`, then the call.
  pub collect_child : Version → CompileError → Child → Option String → Bool → Job
  collect_child v e absent owner notice st = err e
  collect_child v e (present block) owner notice st = collect v block owner notice st

  -- One waiting call for each branch, in the document's order.
  pub branch_jobs : Version → Branches → String → Bool → List (Digit × Job)
  branch_jobs v nil owner notice = []
  branch_jobs v (cons id d root rest) owner notice =
      (d, collect_child v (no_first_step (digit d)) root (some owner) notice)
      ∷ branch_jobs v rest owner notice
