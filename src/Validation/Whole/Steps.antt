-- ===== src/Validation/Whole/Steps.antt =====
-- What the tests of single steps establish when they report nothing.
use ivrdroid.Base.{arith, if◌then◌else◌, ◌&&◌}
use ivrdroid.Validation.{
  digits_repeated, no_digit_branch, barge_in_without_prompt, return_outside_menu,
  return_from_limit_path,
}
use ivrdroid.Flow.{given, return_to_menu, Branches, Version, Menu}
use ivrdroid.Validation.Whole.Passes.{
  idle-Passes, Passes-then, report_if-Passes, Passes-map, report-Passes, Passes,
}
use ivrdroid.Flow.WellFormed.{returns_to_owner, WellFormed}
use ivrdroid.Base.{not, eq_refl, true, List, none, ◌≡◌, [], false, some, Bool, Option, String}
use ivrdroid.Validation.{
  add_to_set, distinct, menu_prompt_missing, use_prompt, Checked, branch_id_repeated, digits_of,
  FlowError, check_menu_prompt, contains, is_empty, prompt_missing, no_prompt_selected,
  is_forbidden, Known, check_menu, check_prompt, check_return, enter_branch,
}

-- A path on which the walk forbids the return to its owner.
abbrev pub is_blocked : Option String → Option String → Bool
is_blocked forbidden none = false
is_blocked forbidden (some owner) = is_forbidden forbidden owner

-- What a walk without reports establishes of a tree.
abbrev pub Accepted : Type 0 → Bool → Option String → Option String → Type 0
Accepted P returns forbidden owner = P × (is_blocked forbidden owner ≡ true → returns ≡ false)

pub is_blocked_self : (id : String) → is_blocked (some id) (some id) ≡ true
is_blocked_self id = eq_refl id

if-Passes :
    {P : Type 0} {a : List String} {f g : Checked → Checked} (test : Bool)
    → Passes P a f
    → Passes P a g
    → Passes P a (λ st. if test then f st else g st)
if-Passes true p q = p
if-Passes false p q = q

use_prompt-Passes :
    (known : Known) (e : FlowError) (p : String)
    → Passes (known.prompt_ids p ≡ true) [] (use_prompt known e p)
use_prompt-Passes known e p st h =
    let r =
      report_if-Passes (not (known.prompt_ids p)) e
        (record st { used_prompts = add_to_set p st.used_prompts }) h in
    record {
      clean = r.clean;
      holds = ground (arith, r.holds);
      seen = r.seen;
      distinct = r.distinct;
    }

pub check_prompt-Passes :
    (known : Known) (p : Option String) → Passes Unit [] (check_prompt known p)
unfolding check_prompt
check_prompt-Passes known none = report-Passes no_prompt_selected
check_prompt-Passes known (some p) =
    if-Passes (given (some p)) (Passes-map (λ h. tt) (use_prompt-Passes known prompt_missing p))
      (report-Passes no_prompt_selected)

check_menu_prompt-Passes :
    (known : Known) (p : Option String) → Passes Unit [] (check_menu_prompt known p)
unfolding check_menu_prompt
check_menu_prompt-Passes known none = idle-Passes
check_menu_prompt-Passes known (some p) =
    if-Passes (given (some p))
      (Passes-map (λ h. tt) (use_prompt-Passes known menu_prompt_missing p)) idle-Passes

-- A menu has at least one key, and no key twice.
abbrev pub HasKeys : Branches → Type 0
HasKeys branches = (is_empty (digits_of branches) ≡ false) × (distinct (digits_of branches) ≡ true)

pub check_menu-Passes :
    (known : Known) (menu : Menu) (branches : Branches)
    → Passes (HasKeys branches) [] (check_menu known menu branches)
unfolding check_menu
check_menu-Passes known menu branches =
    Passes-map (λ h. (h.1.1.0, ground (arith, h.1.1.1)))
      (Passes-then
        (report_if-Passes (menu.allow_prompt_barge_in && not (given menu.prompt_id))
          barge_in_without_prompt)
        (Passes-then (check_menu_prompt-Passes known menu.prompt_id) (
          Passes-then (report_if-Passes (is_empty (digits_of branches)) no_digit_branch)
            (report_if-Passes (not (distinct (digits_of branches))) digits_repeated))))

pub enter_branch-Passes : (id : String) → Passes Unit [] (enter_branch id)
unfolding enter_branch
enter_branch-Passes id st h =
    let r = report_if-Passes (contains st.seen_branches id) branch_id_repeated st h in
    record { clean = r.clean; holds = tt; seen = r.seen; distinct = r.distinct }

pub check_return-Passes :
    (v : Version) (id : String) (forbidden owner : Option String) (notice : Bool)
    → Passes
        (Accepted
          (WellFormed v (return_to_menu id) owner notice)
          (returns_to_owner (return_to_menu id))
          forbidden
          owner)
        []
        (check_return owner forbidden)
unfolding check_return WellFormed returns_to_owner
check_return-Passes v id forbidden none notice = report-Passes return_outside_menu
check_return-Passes v id forbidden (some owner) notice =
    Passes-map (λ h. (tt, λ b. cc))
      (report_if-Passes (is_forbidden forbidden owner) return_from_limit_path)
