-- ===== src/Validation/Tests.antt =====
-- The validators run on a small flow, and their laws applied to it.
use ivrdroid.Validation.Whole.Upgrade.{validate_configuration_v2-compile_flow}
use ivrdroid.Compiler.{too_long}
use ivrdroid.Validation.Whole.Agreement.{
  validate_configuration-compile_flow, validate_configuration-WellFormed,
}
use ivrdroid.Base.Counts.{contains, distinct, IsDistinct}
use ivrdroid.Samples.{durations, behavior, digests, sample}
use ivrdroid.Compiler.Compile.Laws.{IsCompiled}
use ivrdroid.Flow.{present, absent, play_prompt, v2, return_to_menu, v4}
use ivrdroid.Flow.WellFormed.{ids_of, WellFormed}
use ivrdroid.Validation.Whole.{
  validate_configuration_v2, keep_first, validate_root, validate_configuration,
}
use ivrdroid.Validation.{
  asset_bytes, check_totals, check_timezones, check_schedules, enter_branch, check_return,
  no_next_step, check_menu_prompt, no_prompt_selected, check_menu, check_prompt, once,
  return_outside_menu, visit, Input,
}
use ivrdroid.Compiler.Compile.{compile_flow, Compiled}
use ivrdroid.Base.{◌≡◌, ◌≤◌, ◌⊎◌, err, false, none, [], ◌∷◌, refl, true, length}

-- A configuration whose prompts exist and take 10 bytes each.
abbrev surroundings : Input
surroundings = record {
  schedules = [];
  prompt_ids = λ p. true;
  prompt_sizes = λ p. 10;
  revision_asset_limit_bytes = 1000;
  known_zone = λ z. true;
}

validator : Unit {0}
unfolding validate_configuration validate_configuration_v2 validate_root keep_first visit once
    check_prompt check_menu check_menu_prompt check_return enter_branch check_schedules
    check_timezones check_totals asset_bytes distinct contains
validator = tt

sample-valid : validate_configuration v4 surroundings (present sample) ≡ []
unfolding validator
sample-valid = refl

-- A return outside a menu, and a prompt without a next step.
bad_flows :
    (validate_configuration v4 surroundings (present (return_to_menu "r"))
      ≡ return_outside_menu ∷ [])
    × (validate_configuration v2 surroundings (present (play_prompt "p" none absent))
        ≡ no_prompt_selected ∷ no_next_step ∷ [])
unfolding validator
bad_flows = (refl, refl)

validate_configuration-WellFormed_example :
    WellFormed v4 sample none false × IsDistinct (ids_of sample) × (length (ids_of sample) ≤ 64)
validate_configuration-WellFormed_example =
    validate_configuration-WellFormed v4 surroundings sample sample-valid

validate_configuration-compile_flow_example :
    ((c : Compiled) × IsCompiled digests v4 behavior durations sample c)
    ⊎ (compile_flow digests v4 behavior durations (present sample) ≡ err too_long)
validate_configuration-compile_flow_example =
    validate_configuration-compile_flow digests v4 behavior durations surroundings sample
      sample-valid

sample-valid_v2 : validate_configuration_v2 surroundings (present sample) ≡ []
unfolding validator
sample-valid_v2 = refl

validate_configuration_v2-compile_flow_example :
    ((c : Compiled) × IsCompiled digests v4 behavior durations sample c)
    ⊎ (compile_flow digests v4 behavior durations (present sample) ≡ err too_long)
validate_configuration_v2-compile_flow_example =
    validate_configuration_v2-compile_flow digests v4 behavior durations surroundings sample
      sample-valid_v2
