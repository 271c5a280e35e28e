-- ===== src/Validation/Whole/Sound.antt =====
-- The walk as a whole, when it reports nothing.
use ivrdroid.Validation.Whole.Passes.{
  idle-Passes, report-Passes, report_if-Passes, Passes-then, Passes-map, once-Passes, Passes,
}
use ivrdroid.Flow.WellFormed.{
  ids_of_branches, WellFormedBranches, ids_of_child, ids_of, child_returns, returns_to_owner,
  WellFormed, WellFormedChild,
}
use ivrdroid.Validation.Whole.Steps.{
  enter_branch-Passes, check_return-Passes, check_menu-Passes, is_blocked_self, check_prompt-Passes,
  Accepted,
}
use ivrdroid.Validation.{
  digit, visit_branches, visit_child, FlowError, holiday, closed_hours, open_hours,
  schedule_missing, schedule_found, return_limit, invalid_input, no_input, system_failure,
  not_connected, completed, external_without_notice, block_unsupported, unavailable, recorded,
  no_first_step, record_without_notice, no_next_step, Known, visit, Checked,
}
use ivrdroid.Flow.{
  nil, absent, cons, Branches, present, end_call, return_to_menu, schedule_branch, below_menu,
  collect_digit, has_external, external_call, below, has_recording, record_message, after_prompt,
  play_prompt, Block, Child, Version,
}
use ivrdroid.Base.{
  none, some, not, arith, refl, ◌+◌, ℕ, if◌then◌else◌, ◌||◌, true, Option, false, String, ◌≡◌, Bool,
  List,
}

-- Paths that do not return to their owner, one after the other.
or-false : (a b : Bool) → a ≡ false → b ≡ false → (a || b) ≡ false
or-false false b p q = q
or-false true b p q = p

if_known-Passes :
    {P : Type 0} {a : List String} {f g : Checked → Checked} (test : Bool)
    → (test ≡ true → Passes P a f)
    → Passes P a g
    → Passes P a (λ st. if test then f st else g st)
if_known-Passes true p q = p refl
if_known-Passes false p q = q

abbrev AcceptedBlock : Version → Block → Option String → Option String → Bool → Type 0
AcceptedBlock v b owner forbidden notice =
    Accepted (WellFormed v b owner notice) (returns_to_owner b) forbidden owner

abbrev AcceptedChild : Version → Child → Option String → Option String → Bool → Type 0
AcceptedChild v c owner forbidden notice =
    Accepted (WellFormedChild v c owner notice) (child_returns c) forbidden owner

mutual
  unfolding visit ids_of WellFormed returns_to_owner

  pub visit-Passes :
      (v : Version) (known : Known) (b : Block) (depth : ℕ) (owner forbidden : Option String)
      (notice : Bool)
      → Passes
          (AcceptedBlock v b owner forbidden notice)
          (ids_of b)
          (visit v known b depth owner forbidden notice)
  visit-Passes v known (play_prompt id prompt next) depth owner forbidden notice =
      once-Passes id depth (
        Passes-map (λ h. h.1)
          (Passes-then (check_prompt-Passes known prompt) (
            visit_child-Passes v known no_next_step next (depth + 1) owner forbidden
              (after_prompt v notice prompt))))
  visit-Passes v known (record_message id next missed) depth owner forbidden notice =
      once-Passes id depth (
        if_known-Passes (has_recording v)
          (λ has.
            Passes-map
              (λ h. (
                (has, ground (arith, h.0), h.1.0.0, h.1.1.0),
                λ b. or-false _ _ (h.1.0.1 b) (h.1.1.1 b),
              ))
              (Passes-then (report_if-Passes (not notice) record_without_notice) (
                Passes-then
                  (visit_child-Passes v known (no_first_step recorded) next (depth + 1) owner
                    forbidden (below v notice))
                  (visit_child-Passes v known (no_first_step unavailable) missed (depth + 1) owner
                    forbidden (below v notice)))))
          (report-Passes block_unsupported))
  visit-Passes v known (external_call id phone seconds next missed failed) depth owner forbidden
        notice =
      once-Passes id depth (
        if_known-Passes (has_external v)
          (λ has.
            Passes-map
              (λ h. (
                (has, ground (arith, h.0), h.1.0.0, h.1.1.0.0, h.1.1.1.0),
                λ b. or-false _ _ (h.1.0.1 b) (or-false _ _ (h.1.1.0.1 b) (h.1.1.1.1 b)),
              ))
              (Passes-then (report_if-Passes (not notice) external_without_notice) (
                Passes-then
                  (visit_child-Passes v known (no_first_step completed) next (depth + 1) owner
                    forbidden notice)
                  (Passes-then
                    (visit_child-Passes v known (no_first_step not_connected) missed (depth + 1)
                      owner forbidden notice)
                    (visit_child-Passes v known (no_first_step system_failure) failed (depth + 1)
                      owner forbidden notice)))))
          (report-Passes block_unsupported))
  visit-Passes v known (collect_digit id menu branches timeout invalid limit) depth owner forbidden
        notice =
      let heard = below_menu v notice menu.prompt_id in
      once-Passes id depth (
        Passes-map
          (λ h. (
            (h.1.0, h.1.1.0.0, h.1.1.1.0.0, h.1.1.1.1.0, h.1.1.1.1.1 (is_blocked_self id)),
            λ b. refl,
          ))
          (Passes-then (check_menu-Passes known menu branches) (
            Passes-then (visit_branches-Passes v known branches (depth + 1) id heard) (
              Passes-then
                (visit_child-Passes v known (no_first_step no_input) timeout (depth + 1) (some id)
                  none heard)
                (Passes-then
                  (visit_child-Passes v known (no_first_step invalid_input) invalid (depth + 1)
                    (some id) none heard)
                  (visit_child-Passes v known (no_first_step return_limit) limit (depth + 1)
                    (some id) (some id) heard))))))
  visit-Passes v known (schedule_branch id schedule o c h) depth owner forbidden notice =
      once-Passes id depth (
        Passes-map
          (λ k. (
            (k.1.0.0, k.1.1.0.0, k.1.1.1.0),
            λ b. or-false _ _ (k.1.0.1 b) (or-false _ _ (k.1.1.0.1 b) (k.1.1.1.1 b)),
          ))
          (Passes-then (report_if-Passes (not (schedule_found known schedule)) schedule_missing) (
            Passes-then
              (visit_child-Passes v known (no_first_step open_hours) o (depth + 1) owner forbidden
                (below v notice))
              (Passes-then
                (visit_child-Passes v known (no_first_step closed_hours) c (depth + 1) owner
                  forbidden (below v notice))
                (visit_child-Passes v known (no_first_step holiday) h (depth + 1) owner forbidden
                  (below v notice))))))
  visit-Passes v known (return_to_menu id) depth owner forbidden notice =
      once-Passes id depth (check_return-Passes v id forbidden owner notice)
  visit-Passes v known (end_call id) depth owner forbidden notice =
      once-Passes id depth (Passes-map (λ h. (tt, λ b. refl)) idle-Passes)

  visit_child-Passes :
      (v : Version) (known : Known) (e : FlowError) (c : Child) (depth : ℕ)
      (owner forbidden : Option String) (notice : Bool)
      → Passes
          (AcceptedChild v c owner forbidden notice)
          (ids_of_child c)
          (visit_child v known e c depth owner forbidden notice)
  visit_child-Passes v known e absent depth owner forbidden notice = report-Passes e
  visit_child-Passes v known e (present b) depth owner forbidden notice =
      visit-Passes v known b depth owner forbidden notice

  visit_branches-Passes :
      (v : Version) (known : Known) (bs : Branches) (depth : ℕ) (owner : String) (notice : Bool)
      → Passes
          (WellFormedBranches v bs owner notice)
          (ids_of_branches bs)
          (visit_branches v known bs depth owner notice)
  visit_branches-Passes v known nil depth owner notice = idle-Passes
  visit_branches-Passes v known (cons id d root rest) depth owner notice =
      Passes-map (λ h. (h.1.0.0, h.1.1))
        (Passes-then (enter_branch-Passes id) (
          Passes-then
            (visit_child-Passes v known (no_first_step (digit d)) root depth (some owner) none
              notice)
            (visit_branches-Passes v known rest depth owner notice)))
