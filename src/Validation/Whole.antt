-- ===== src/Validation/Whole.antt =====
-- `validate_configuration_v2`, `_v3` and `_v4` of server/app/validation.py as a whole: the list of
-- errors that is returned.
pub mod Passes
pub mod Steps
pub mod Sound
pub mod Agreement
pub mod Upgrade
use ivrdroid.Validation.{
  assets_too_large, holiday, closed_hours, open_hours, return_limit, no_input, no_first_step,
}
use ivrdroid.Validation.{
  block_unsupported, external_without_notice, record_without_notice, return_from_limit_path,
  return_outside_menu, schedule_missing, system_failure, branch_id_repeated, not_connected,
  completed, digits_repeated, no_digit_branch, unavailable, menu_prompt_missing, recorded,
  barge_in_without_prompt, no_next_step, prompt_missing, no_prompt_selected, block_shared,
  invalid_input, schedule_ids_repeated, digit, too_deep, too_many_steps, unknown_timezone,
  schedule_names, visit, Checked, Known, check_totals, no_root, FlowError, Input, PathName,
  check_schedules,
}
use ivrdroid.Base.{
  ◌≡◌, Bool, List, Option, String, false, if◌then◌else◌, none, some, true, [], ◌&&◌, ◌++◌, ◌||◌,
  ◌∷◌, ℕ, ◌+◌, str_eq, ◌==◌, refl, Bool-cases, inl, inr,
}
use ivrdroid.Flow.{Block, Child, Digit, Version, absent, present, v2, v3, v4, dtmf_index}

-- The text of a message, as far as two messages differ: its form, a name and a number.
abbrev pub path_form : PathName → ℕ
path_form no_input = 30
path_form invalid_input = 31
path_form return_limit = 32
path_form open_hours = 33
path_form closed_hours = 34
path_form holiday = 35
path_form recorded = 36
path_form unavailable = 37
path_form completed = 38
path_form not_connected = 39
path_form system_failure = 40
path_form (digit d) = 41 + dtmf_index d

abbrev pub form : FlowError → ℕ
form schedule_ids_repeated = 0
form (unknown_timezone _) = 1
form no_root = 2
form block_shared = 3
form no_prompt_selected = 4
form prompt_missing = 5
form no_next_step = 6
form barge_in_without_prompt = 7
form menu_prompt_missing = 8
form no_digit_branch = 9
form digits_repeated = 10
form branch_id_repeated = 11
form (no_first_step path) = path_form path
form schedule_missing = 12
form return_outside_menu = 13
form return_from_limit_path = 14
form record_without_notice = 15
form external_without_notice = 16
form block_unsupported = 17
form (too_many_steps _) = 18
form (too_deep _) = 19
form assets_too_large = 20

abbrev pub inserted_name : FlowError → String
inserted_name (unknown_timezone name) = name
inserted_name _ = ""

abbrev pub inserted_number : FlowError → ℕ
inserted_number (too_many_steps n) = n
inserted_number (too_deep n) = n
inserted_number _ = 0

abbrev pub same_message : FlowError → FlowError → Bool
same_message a b =
    form a == form b
    && (str_eq (inserted_name a) (inserted_name b) && (inserted_number a == inserted_number b))

abbrev pub has_message : List FlowError → FlowError → Bool
has_message [] e = false
has_message (x ∷ xs) e = same_message x e || has_message xs e

-- `list(dict.fromkeys(errors))`, from the messages that are kept so far.
unfoldable pub keep_first : List FlowError → List FlowError → List FlowError
keep_first kept [] = kept
keep_first kept (e ∷ es) = keep_first (if has_message kept e then kept else kept ++ e ∷ []) es

-- What the walk starts from.
abbrev pub unvisited : List FlowError → Checked
unvisited errors = record {
  errors = errors;
  seen_blocks = [];
  seen_branches = [];
  used_prompts = [];
  maximum_depth = 0;
}

abbrev pub known_of : Input → Known
known_of input = record {
  prompt_ids = input.prompt_ids;
  schedule_ids = schedule_names input.schedules;
}

-- The walk from the root, and the tests below it.
unfoldable pub validate_root : Version → Input → Block → Checked
unfolding check_schedules check_totals visit
validate_root v input root = check_totals input.prompt_sizes input.revision_asset_limit_bytes (
    visit v (known_of input) root 1 none none false
      (unvisited (check_schedules input.known_zone input.schedules)))

unfoldable pub validate_configuration : Version → Input → Child → List FlowError
unfolding validate_root check_schedules keep_first
validate_configuration v input absent =
    check_schedules input.known_zone input.schedules ++ no_root ∷ []
validate_configuration v input (present root) = keep_first [] (validate_root v input root).errors

-- The three validators under their own names.
unfoldable pub validate_configuration_v2 : Input → Child → List FlowError
validate_configuration_v2 = validate_configuration v2

pub validate_configuration_v3 : Input → Child → List FlowError
validate_configuration_v3 = validate_configuration v3

pub validate_configuration_v4 : Input → Child → List FlowError
validate_configuration_v4 = validate_configuration v4
