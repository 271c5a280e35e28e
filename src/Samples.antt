-- ===== src/Samples.antt =====
-- A small flow and its surroundings, on which the tests of the modules run.
use ivrdroid.Base.{String, Option, ℕ, some, none, true}
use ivrdroid.Flow.{
  Block, Menu, collect_digit, cons, d1, d2, end_call, nil, play_prompt, present, return_to_menu,
}
use ivrdroid.Compiler.{RecordingBehavior}
use ivrdroid.Compiler.Compile.{Digests}

abbrev pub menu_settings : Menu
menu_settings = record {
  prompt_id = some "p2";
  allow_prompt_barge_in = true;
  timeout_ms = 5000;
  maximum_attempts = 3;
  maximum_menu_returns = 2;
}

-- A greeting, and a menu whose second key and whose invalid path return to it.
abbrev pub menu_block : Block
menu_block =
    collect_digit "m" menu_settings
      (cons "b2" d2 (present (return_to_menu "r2")) (cons "b1" d1 (present (end_call "e1")) nil))
      (present (end_call "e2")) (present (return_to_menu "r1")) (present (end_call "e3"))

abbrev pub sample : Block
sample = play_prompt "g" (some "p1") (present menu_block)

abbrev pub digests : Digests
digests = record { source = λ v root behavior. "source"; program = λ p. "program" }

abbrev pub behavior : RecordingBehavior
behavior = record { maximum_duration_seconds = 60; finish_key = none }

abbrev pub durations : String → Option ℕ
durations p = some 4000
