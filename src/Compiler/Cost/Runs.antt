-- ===== src/Compiler/Cost/Runs.antt =====
-- What a call can do on a tape, as a step relation: the specification that `maximum_cost` bounds.
-- It does not use the functions of the compiler that compute the cost of an operation.
use ivrdroid.Flow.{Digit}
use ivrdroid.Base.{
  Bool, [], ◌∷◌, ◌≡◌, ◌≤◌, ◌<◌, List, Option, String, some, ℕ, ◌*◌, ◌+◌, get_elem?, set,
}
use ivrdroid.Compiler.{
  BranchTarget, Instruction, collect_digit, external_call, play_prompt, record_message,
  return_to_menu, schedule_branch,
}
use ivrdroid.Compiler.Cost.{
  State, beep_duration_ms, collect_pcs, duration_of, external_control_watchdogs_ms, menu_index,
  menu_of, operation_at,
}
use mathlib.Core.List.{Memᴰ}

module _ (durations : String → Option ℕ) (tape : List Instruction) where
  -- `Step (pc, returns) (pc', returns') c`: the instruction at `pc` takes `c` milliseconds, and the
  -- call goes on at `pc'`. A menu waits at most for all its attempts; the time of a connected
  -- conversation does not count.
  pub data Step : State → State → ℕ → Type 0 where
    play :
        {pc : ℕ} {returns : List ℕ} (prompt : Option String) (next : ℕ)
        → operation_at tape pc ≡ some (play_prompt prompt next)
        → Step (pc, returns) (next, returns) (duration_of durations prompt)
    key_pressed :
        {pc : ℕ} {returns : List ℕ} (prompt : Option String) (timeout_ms attempts limit : ℕ)
        (branches : List BranchTarget) (on_timeout on_invalid on_limit : ℕ) (flag : Option Bool)
        (branch : BranchTarget) (waited : ℕ)
        → operation_at tape pc
          ≡ some (
              collect_digit prompt timeout_ms attempts limit branches on_timeout on_invalid on_limit
                flag)
        → Memᴰ branch branches
        → waited ≤ attempts * (duration_of durations prompt + timeout_ms)
        → Step (pc, returns) (branch.target_pc, returns) waited
    timed_out :
        {pc : ℕ} {returns : List ℕ} (prompt : Option String) (timeout_ms attempts limit : ℕ)
        (branches : List BranchTarget) (on_timeout on_invalid on_limit : ℕ) (flag : Option Bool)
        (waited : ℕ)
        → operation_at tape pc
          ≡ some (
              collect_digit prompt timeout_ms attempts limit branches on_timeout on_invalid on_limit
                flag)
        → waited ≤ attempts * (duration_of durations prompt + timeout_ms)
        → Step (pc, returns) (on_timeout, returns) waited
    refused :
        {pc : ℕ} {returns : List ℕ} (prompt : Option String) (timeout_ms attempts limit : ℕ)
        (branches : List BranchTarget) (on_timeout on_invalid on_limit : ℕ) (flag : Option Bool)
        (waited : ℕ)
        → operation_at tape pc
          ≡ some (
              collect_digit prompt timeout_ms attempts limit branches on_timeout on_invalid on_limit
                flag)
        → waited ≤ attempts * (duration_of durations prompt + timeout_ms)
        → Step (pc, returns) (on_invalid, returns) waited
    scheduled :
        {pc : ℕ} {returns : List ℕ} (schedule : Option String) (on_open on_closed on_holiday to : ℕ)
        → operation_at tape pc ≡ some (schedule_branch schedule on_open on_closed on_holiday)
        → Memᴰ to (on_open ∷ on_closed ∷ on_holiday ∷ [])
        → Step (pc, returns) (to, returns) 0
    recorded :
        {pc : ℕ} {returns : List ℕ} (maximum_ms : ℕ) (key : Option Digit)
        (next unavailable taken : ℕ)
        → operation_at tape pc ≡ some (record_message maximum_ms key next unavailable)
        → taken ≤ beep_duration_ms + maximum_ms
        → Step (pc, returns) (next, returns) taken
    not_recorded :
        {pc : ℕ} {returns : List ℕ} (maximum_ms : ℕ) (key : Option Digit)
        (next unavailable taken : ℕ)
        → operation_at tape pc ≡ some (record_message maximum_ms key next unavailable)
        → taken ≤ beep_duration_ms
        → Step (pc, returns) (unavailable, returns) taken
    called :
        {pc : ℕ} {returns : List ℕ} (phone : String) (answer_ms next missed failed to taken : ℕ)
        → operation_at tape pc ≡ some (external_call phone answer_ms next missed failed)
        → Memᴰ to (next ∷ missed ∷ failed ∷ [])
        → taken ≤ external_control_watchdogs_ms + answer_ms
        → Step (pc, returns) (to, returns) taken
    returned :
        {pc : ℕ} {returns : List ℕ} (menu_pc limit limit_pc index used : ℕ)
        → operation_at tape pc ≡ some (return_to_menu menu_pc)
        → menu_of (operation_at tape menu_pc) ≡ some (limit, limit_pc)
        → menu_index (collect_pcs tape) menu_pc ≡ some index
        → get_elem? returns index ≡ some used
        → used < limit
        → Step (pc, returns) (menu_pc, set returns index (used + 1)) 0
    returns_used_up :
        {pc : ℕ} {returns : List ℕ} (menu_pc limit limit_pc index used : ℕ)
        → operation_at tape pc ≡ some (return_to_menu menu_pc)
        → menu_of (operation_at tape menu_pc) ≡ some (limit, limit_pc)
        → menu_index (collect_pcs tape) menu_pc ≡ some index
        → get_elem? returns index ≡ some used
        → limit ≤ used
        → Step (pc, returns) (limit_pc, returns) 0

  -- A call up to any moment between two instructions, with the time that it has taken.
  pub data Run : State → ℕ → Type 0 where
    stop : {s : State} → Run s 0
    go_on : {s t : State} {c n : ℕ} → Step s t c → Run t n → Run s (c + n)
