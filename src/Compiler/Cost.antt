-- ===== src/Compiler/Cost.antt =====
-- `maximum_cost` of compiler_v3.py and compiler_v4.py: the longest automated session of a tape.
-- `lru_cache` only repeats values that were returned: a cached state has been left, so it is not
-- in `active`, and neither is any state that its evaluation passed. The cache is left out.
-- `active` is a set that a call enters and leaves: it holds the calls that are in progress, which
-- the model passes down. Each call inside another lowers the fuel.
pub mod Runs
pub mod Bound
pub mod Attained
pub mod Room
pub mod Total
use ivrdroid.Base.{
  ◌>>=◌, Bool, List, Option, Result, String, err, false, if◌then◌else◌, map, none, ok, some, true,
  [], ◌&&◌, ◌++◌, ◌||◌, ◌∷◌, ℕ, zero, suc, ◌==◌, ltb, ◌*◌, ◌+◌, max, get_elem?, length, set,
}
use ivrdroid.Compiler.{
  BranchTarget, CompileError, Instruction, Operation, collect_digit, end_call, external_call,
  play_prompt, record_message, return_to_menu, schedule_branch, missing_index, empty_maximum,
  runtime_cycle, out_of_fuel,
}

abbrev pub Cost : Type 0
Cost = Result CompileError ℕ

-- `(pc_value, returns)`.
abbrev pub State : Type 0
State = ℕ × List ℕ

abbrev pub same_counts : List ℕ → List ℕ → Bool
same_counts [] [] = true
same_counts (x ∷ xs) (y ∷ ys) = x == y && same_counts xs ys
same_counts _ _ = false

-- `state in active`.
unfoldable pub is_active : List State → ℕ → List ℕ → Bool
is_active [] pc returns = false
is_active ((p, r) ∷ active) pc returns =
    (p == pc && same_counts r returns) || is_active active pc returns

abbrev pub beep_duration_ms : ℕ
beep_duration_ms = 500

abbrev pub external_control_watchdogs_ms : ℕ
external_control_watchdogs_ms = 30000

abbrev pub maximum_session_limit_ms : ℕ
maximum_session_limit_ms = 600000

-- `prompt_durations_ms.get(prompt_id, 0)`.
abbrev pub duration_of : (String → Option ℕ) → Option String → ℕ
duration_of durations none = 0
duration_of durations (some p) = elim (durations p) [ none ↦ 0 | some d ↦ d ]

-- `max(visit(t) for t in targets)`.
unfoldable pub max_cost : (ℕ → Cost) → List ℕ → Cost
max_cost visit [] = err empty_maximum
max_cost visit (t ∷ []) = visit t
max_cost visit (t ∷ u ∷ ts) = do c ← visit t; d ← max_cost visit (u ∷ ts); ok (max c d)

abbrev pub target : BranchTarget → ℕ
target b = b.target_pc

-- The index at which `collect_pcs` lists a menu.
unfoldable pub menu_index : List ℕ → ℕ → Option ℕ
menu_index [] menu_pc = none
menu_index (p ∷ ps) menu_pc =
    if p == menu_pc
    then some 0
    else elim (menu_index ps menu_pc) [ none ↦ none | some k ↦ some (suc k) ]

abbrev pub is_menu : Operation → Bool
is_menu (collect_digit _ _ _ _ _ _ _ _ _) = true
is_menu _ = false

unfoldable pub collect_pcs : List Instruction → List ℕ
collect_pcs [] = []
collect_pcs (i ∷ is) = if is_menu i.operation then i.pc ∷ collect_pcs is else collect_pcs is

abbrev pub operation_at : List Instruction → ℕ → Option Operation
operation_at tape pc = elim (get_elem? tape pc) [ none ↦ none | some i ↦ some i.operation ]

-- The limit of a menu and the entry of its limit path.
abbrev pub menu_of : Option Operation → Option (ℕ × ℕ)
menu_of (some (collect_digit _ _ _ limit _ _ _ limit_pc _)) = some (limit, limit_pc)
menu_of _ = none

-- The branch of `return_to_menu`, from the menu's instruction and its index in `returns`.
unfoldable pub return_cost : (ℕ → List ℕ → Cost) → List ℕ → ℕ → Option (ℕ × ℕ) → Option ℕ → Cost
return_cost visit returns menu_pc (some (limit, limit_pc)) (some index) =
    elim (get_elem? returns index) [
      | none ↦ err missing_index
      | some used ↦
          if ltb used limit
          then visit menu_pc (set returns index (used + 1))
          else visit limit_pc returns
    ]
return_cost visit returns menu_pc _ _ = err missing_index

-- The branches of `maximum_cost` by operation, over the calls that it makes.
unfoldable pub operation_cost :
    (String → Option ℕ) → List Instruction → (ℕ → List ℕ → Cost) → List ℕ → Operation → Cost
unfolding max_cost return_cost menu_index collect_pcs
operation_cost durations tape visit returns end_call = ok 0
operation_cost durations tape visit returns (play_prompt prompt next) = do
  rest ← visit next returns
  ok (duration_of durations prompt + rest)
operation_cost durations tape visit returns
      (collect_digit prompt timeout_ms attempts _ branches on_timeout on_invalid _ _) =
    do
      rest ← max_cost (λ t. visit t returns) (map target branches ++ on_timeout ∷ on_invalid ∷ [])
      ok (attempts * (duration_of durations prompt + timeout_ms) + rest)
operation_cost durations tape visit returns (schedule_branch _ on_open on_closed on_holiday) =
    max_cost (λ t. visit t returns) (on_open ∷ on_closed ∷ on_holiday ∷ [])
operation_cost durations tape visit returns (record_message maximum_ms _ next on_unavailable) = do
  recorded ← visit next returns
  unavailable ← visit on_unavailable returns
  ok (max (beep_duration_ms + maximum_ms + recorded) (beep_duration_ms + unavailable))
operation_cost durations tape visit returns (external_call _ answer_ms next not_connected failure) =
    do
      rest ← max_cost (λ t. visit t returns) (next ∷ not_connected ∷ failure ∷ [])
      ok (external_control_watchdogs_ms + answer_ms + rest)
operation_cost durations tape visit returns (return_to_menu menu_pc) =
    return_cost visit returns menu_pc (menu_of (operation_at tape menu_pc))
      (menu_index (collect_pcs tape) menu_pc)

module _ (durations : String → Option ℕ) (tape : List Instruction) where
  unfoldable pub maximum_cost : ℕ → List State → ℕ → List ℕ → Cost
  unfolding is_active operation_cost
  maximum_cost zero active pc returns = err out_of_fuel
  maximum_cost (suc fuel) active pc returns =
      let visit : ℕ → List ℕ → Cost = λ t r. maximum_cost fuel ((pc, returns) ∷ active) t r in
      if is_active active pc returns then err runtime_cycle else elim (operation_at tape pc) [
        | none ↦ err missing_index
        | some operation ↦ operation_cost durations tape visit returns operation
      ]

-- How often each menu of a tape can be returned to.
unfoldable pub limits : List Instruction → List ℕ
limits [] = []
limits (i ∷ is) = elim (menu_of (some i.operation)) [
  | none ↦ limits is
  | some (limit, _) ↦ limit ∷ limits is
]

unfoldable pub total : List ℕ → ℕ
total [] = 0
total (x ∷ xs) = x + total xs

-- More than the number of calls of `maximum_cost` that can be inside one another.
unfoldable pub cost_fuel : List Instruction → ℕ
unfolding limits total
cost_fuel tape = suc (total (limits tape) * length tape + length tape)

-- `tuple(0 for _ in collect_pcs)`.
unfoldable pub initial_returns : List Instruction → List ℕ
unfolding collect_pcs
initial_returns tape = map (λ _. 0) (collect_pcs tape)
