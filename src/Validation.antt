-- ===== src/Validation.antt =====
-- `validate_configuration_v2`, `_v3` and `_v4` of server/app/validation.py: the errors that are shown
-- to the author of a flow. The three differ by release.

pub mod Whole
mod Tests
use ivrdroid.Base.{
  Bool, List, Option, String, false, if◌then◌else◌, map, none, some, true, [], ◌&&◌, ◌++◌, ◌||◌,
  ◌∷◌, ℕ, ◌+◌, not, ltb, str_eq, length, max, suc,
}
use ivrdroid.Base.Counts.{contains, distinct}
use ivrdroid.Flow.{
  Block, Branches, Child, Digit, Menu, Version, absent, after_prompt, below, below_menu, block_id,
  collect_digit, cons, digit_text, end_call, external_call, given, has_external, has_recording, nil,
  play_prompt, present, record_message, return_to_menu, schedule_branch, DigitBranch, to_list,
}

-- The path that has no first step.
pub data PathName : Type 0 where
  no_input invalid_input return_limit open_hours closed_hours holiday : PathName
  recorded unavailable completed not_connected system_failure : PathName
  digit : Digit → PathName

-- The messages, with what is put into them.
pub data FlowError : Type 0 where
  schedule_ids_repeated : FlowError
  unknown_timezone : String → FlowError
  no_root : FlowError
  block_shared : FlowError
  no_prompt_selected : FlowError
  prompt_missing : FlowError
  no_next_step : FlowError
  barge_in_without_prompt : FlowError
  menu_prompt_missing : FlowError
  no_digit_branch : FlowError
  digits_repeated : FlowError
  branch_id_repeated : FlowError
  no_first_step : PathName → FlowError
  schedule_missing : FlowError
  return_outside_menu : FlowError
  return_from_limit_path : FlowError
  record_without_notice : FlowError
  external_without_notice : FlowError
  block_unsupported : FlowError
  too_many_steps : ℕ → FlowError
  too_deep : ℕ → FlowError
  assets_too_large : FlowError

-- The variables that the nested function `visit` shares with its surroundings.
pub record Checked : Type 0 where
  pub errors : List FlowError
  pub seen_blocks : List String
  pub seen_branches : List String
  pub used_prompts : List String
  pub maximum_depth : ℕ

-- The fields of a schedule that are read, and the rest of the configuration.
pub record Schedule : Type 0 where
  pub id : String
  pub name : String
  pub timezone : String

-- What the checks look up: the prompts and schedules that exist.
pub record Known : Type 0 where
  pub prompt_ids : String → Bool
  pub schedule_ids : List String

abbrev pub report : FlowError → Checked → Checked
report e st = record st { errors = st.errors ++ e ∷ [] }

-- `if test: errors.append(e)`.
abbrev pub report_if : Bool → FlowError → Checked → Checked
report_if test e st = if test then report e st else st

abbrev pub add_to_set : String → List String → List String
add_to_set x xs = if contains xs x then xs else xs ++ x ∷ []

-- `used_prompts.add(…)` and the test that the prompt exists.
abbrev pub use_prompt : Known → FlowError → String → Checked → Checked
use_prompt known e p st =
    report_if (not (known.prompt_ids p)) e
      (record st { used_prompts = add_to_set p st.used_prompts })

unfoldable pub check_prompt : Known → Option String → Checked → Checked
check_prompt known none st = report no_prompt_selected st
check_prompt known (some p) st =
    if given (some p) then use_prompt known prompt_missing p st else report no_prompt_selected st

unfoldable pub check_menu_prompt : Known → Option String → Checked → Checked
check_menu_prompt known none st = st
check_menu_prompt known (some p) st =
    if given (some p) then use_prompt known menu_prompt_missing p st else st

abbrev pub digits_of : Branches → List String
digits_of nil = []
digits_of (cons _ d _ rest) = digit_text d ∷ digits_of rest

abbrev pub is_empty : List String → Bool
is_empty [] = true
is_empty (_ ∷ _) = false

-- The tests of a menu that come before its paths.
unfoldable pub check_menu : Known → Menu → Branches → Checked → Checked
unfolding check_menu_prompt
check_menu known menu branches st =
    let st =
      report_if (menu.allow_prompt_barge_in && not (given menu.prompt_id)) barge_in_without_prompt
        st in
    let st = check_menu_prompt known menu.prompt_id st in
    let st = report_if (is_empty (digits_of branches)) no_digit_branch st in
    report_if (not (distinct (digits_of branches))) digits_repeated st

abbrev pub schedule_found : Known → Option String → Bool
schedule_found known none = false
schedule_found known (some s) = given (some s) && contains known.schedule_ids s

-- `owner_menu == forbidden_return_owner`, of an owner that is there.
abbrev pub is_forbidden : Option String → String → Bool
is_forbidden none owner = false
is_forbidden (some f) owner = str_eq owner f

unfoldable pub check_return : Option String → Option String → Checked → Checked
check_return none forbidden st = report return_outside_menu st
check_return (some owner) forbidden st =
    report_if (is_forbidden forbidden owner) return_from_limit_path st

-- The lines above the case distinction, once the block is known to be new.
abbrev pub see : String → ℕ → Checked → Checked
see id depth st = record st { seen_blocks = st.seen_blocks ++ id ∷ [] }

abbrev pub deepen : ℕ → Checked → Checked
deepen depth st = record st { maximum_depth = max st.maximum_depth depth }

unfoldable pub enter_branch : String → Checked → Checked
enter_branch id st =
    let st = report_if (contains st.seen_branches id) branch_id_repeated st in
    record st { seen_branches = add_to_set id st.seen_branches }

-- `visit` of a block that was seen before ends at once.
unfoldable pub once : String → ℕ → (Checked → Checked) → Checked → Checked
once id depth body st =
    if contains st.seen_blocks id
    then report block_shared (deepen depth st)
    else body (see id depth (deepen depth st))

unfoldable mutual
  unfolding once check_prompt check_menu check_return enter_branch

  pub visit : Version → Known → Block → ℕ → Option String → Option String → Bool → Checked → Checked
  visit v known (play_prompt id prompt next) depth owner forbidden notice = once id depth λ st.
      visit_child v known no_next_step next (depth + 1) owner forbidden
        (after_prompt v notice prompt) (check_prompt known prompt st)
  visit v known (record_message id next on_unavailable) depth owner forbidden notice =
      once id depth λ st.
        if has_recording v
        then visit_child v known (no_first_step unavailable) on_unavailable (depth + 1) owner
            forbidden (below v notice)
            (visit_child v known (no_first_step recorded) next (depth + 1) owner forbidden
              (below v notice) (report_if (not notice) record_without_notice st))
        else report block_unsupported st
  visit v known (external_call id phone seconds next on_not_connected on_system_failure) depth owner
        forbidden notice =
      once id depth λ st.
        if has_external v
        then visit_child v known (no_first_step system_failure) on_system_failure (depth + 1) owner
            forbidden notice
            (visit_child v known (no_first_step not_connected) on_not_connected (depth + 1) owner
              forbidden notice
              (visit_child v known (no_first_step completed) next (depth + 1) owner forbidden notice
                (report_if (not notice) external_without_notice st)))
        else report block_unsupported st
  visit v known (collect_digit id menu branches on_timeout on_invalid on_return_limit) depth owner
        forbidden notice =
      once id depth λ st.
        visit_child v known (no_first_step return_limit) on_return_limit (depth + 1) (some id)
          (some id) (below_menu v notice menu.prompt_id)
          (visit_child v known (no_first_step invalid_input) on_invalid (depth + 1) (some id) none
            (below_menu v notice menu.prompt_id)
            (visit_child v known (no_first_step no_input) on_timeout (depth + 1) (some id) none
              (below_menu v notice menu.prompt_id)
              (visit_branches v known branches (depth + 1) id (below_menu v notice menu.prompt_id)
                (check_menu known menu branches st))))
  visit v known (schedule_branch id schedule on_open on_closed on_holiday) depth owner forbidden
        notice =
      once id depth λ st.
        visit_child v known (no_first_step holiday) on_holiday (depth + 1) owner forbidden
          (below v notice)
          (visit_child v known (no_first_step closed_hours) on_closed (depth + 1) owner forbidden
            (below v notice)
            (visit_child v known (no_first_step open_hours) on_open (depth + 1) owner forbidden
              (below v notice)
              (report_if (not (schedule_found known schedule)) schedule_missing st)))
  visit v known (return_to_menu id) depth owner forbidden notice =
      once id depth (check_return owner forbidden)
  visit v known (end_call id) depth owner forbidden notice = once id depth (λ st. st)

  pub visit_child :
      Version
      → Known
      → FlowError
      → Child
      → ℕ
      → Option String
      → Option String
      → Bool
      → Checked
      → Checked
  visit_child v known e absent depth owner forbidden notice st = report e st
  visit_child v known e (present block) depth owner forbidden notice st =
      visit v known block depth owner forbidden notice st

  -- The loop over the branches, in the document's order.
  pub visit_branches : Version → Known → Branches → ℕ → String → Bool → Checked → Checked
  visit_branches v known nil depth owner notice st = st
  visit_branches v known (cons id d root rest) depth owner notice st =
      visit_branches v known rest depth owner notice (
        visit_child v known (no_first_step (digit d)) root depth (some owner) none notice
          (enter_branch id st))

-- The keys of the dictionary of schedules.
abbrev pub schedule_names : List Schedule → List String
schedule_names schedules = map (λ s. s.id) schedules

-- The tests of the schedules. `known_zone` says whether `ZoneInfo` finds a zone; a malformed name, for
-- which it raises ValueError, is taken for one that is not found.
unfoldable pub check_timezones : (String → Bool) → List Schedule → List FlowError
check_timezones known_zone [] = []
check_timezones known_zone (s ∷ ss) =
    let rest = check_timezones known_zone ss in
    if known_zone s.timezone then rest else unknown_timezone s.name ∷ rest

unfoldable pub check_schedules : (String → Bool) → List Schedule → List FlowError
unfolding check_timezones
check_schedules known_zone schedules =
    (if distinct (schedule_names schedules) then [] else schedule_ids_repeated ∷ [])
    ++ check_timezones known_zone schedules

unfoldable pub asset_bytes : (String → ℕ) → List String → ℕ
asset_bytes prompt_sizes [] = 0
asset_bytes prompt_sizes (p ∷ ps) = prompt_sizes p + asset_bytes prompt_sizes ps

-- The tests below the walk.
unfoldable pub check_totals : (String → ℕ) → ℕ → Checked → Checked
unfolding asset_bytes
check_totals prompt_sizes limit st =
    let st' =
      report_if (ltb 64 (length st.seen_blocks)) (too_many_steps (length st.seen_blocks)) st in
    let st'' = report_if (ltb 8 st.maximum_depth) (too_deep st.maximum_depth) st' in
    report_if (ltb limit (asset_bytes prompt_sizes st.used_prompts)) assets_too_large st''

-- The configuration and what it is checked against. `known_zone` says that `ZoneInfo` accepts a
-- name; `prompt_sizes` gives 0 for a prompt that is not listed.
pub record Input : Type 0 where
  pub schedules : List Schedule
  pub prompt_ids : String → Bool
  pub prompt_sizes : String → ℕ
  pub revision_asset_limit_bytes : ℕ
  pub known_zone : String → Bool
