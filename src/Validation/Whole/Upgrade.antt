-- ===== src/Validation/Whole/Upgrade.antt =====
-- Flows of release 2 under the later compilers.
use ivrdroid.Flow.{
  nil, absent, Branches, collect_digit, cons, end_call, external_call, play_prompt, record_message,
  return_to_menu, schedule_branch,
}
use ivrdroid.Validation.Whole.Agreement.{validate_configuration-WellFormed}
use ivrdroid.Compiler.Compile.Laws.{compile_flow-WellFormed, IsCompiled}
use ivrdroid.Compiler.{RecordingBehavior, too_long}
use ivrdroid.Compiler.Compile.{compile_flow, Compiled, Digests}
use ivrdroid.Validation.Whole.{Child, present, Input, v2, Block, Version, validate_configuration_v2}
use ivrdroid.Flow.WellFormed.{WellFormedBranches, WellFormedChild, WellFormed}
use ivrdroid.Base.{false, none, some, arith, ◌≡◌, ◌⊎◌, [], String, Option, Bool, ℕ, err}

return-WellFormed :
    (v : Version) (id : String) (owner : Option String) (notice heard : Bool)
    → WellFormed v2 (return_to_menu id) owner notice
    → WellFormed v (return_to_menu id) owner heard
unfolding WellFormed
return-WellFormed v id none notice heard w = w
return-WellFormed v id (some m) notice heard w = tt

-- A flow of release 2 has no block that asks for a notice, so it is well formed in every release.
mutual
  unfolding WellFormed

  upgrade-WellFormed :
      (v : Version) (b : Block) (owner : Option String) (notice heard : Bool)
      → WellFormed v2 b owner notice
      → WellFormed v b owner heard
  upgrade-WellFormed v (play_prompt id p next) owner notice heard w =
      upgrade_child-WellFormedChild v next owner _ _ w
  upgrade-WellFormed v (collect_digit id m bs t i l) owner notice heard w = (
    upgrade_branches-WellFormedBranches v bs id _ _ w.0,
    upgrade_child-WellFormedChild v t _ _ _ w.1,
    upgrade_child-WellFormedChild v i _ _ _ w.2,
    upgrade_child-WellFormedChild v l _ _ _ w.3,
    w.4,
  )
  upgrade-WellFormed v (schedule_branch id s o c h) owner notice heard w = (
    upgrade_child-WellFormedChild v o owner _ _ w.0,
    upgrade_child-WellFormedChild v c owner _ _ w.1,
    upgrade_child-WellFormedChild v h owner _ _ w.2,
  )
  upgrade-WellFormed v (record_message id n u) owner notice heard w = absurd (ground (arith, w.0))
  upgrade-WellFormed v (external_call id p s n m f) owner notice heard w =
      absurd (ground (arith, w.0))
  upgrade-WellFormed v (return_to_menu id) owner notice heard w =
      return-WellFormed v id owner notice heard w
  upgrade-WellFormed v (end_call id) owner notice heard w = tt

  upgrade_child-WellFormedChild :
      (v : Version) (c : Child) (owner : Option String) (notice heard : Bool)
      → WellFormedChild v2 c owner notice
      → WellFormedChild v c owner heard
  upgrade_child-WellFormedChild v absent owner notice heard w = w
  upgrade_child-WellFormedChild v (present b) owner notice heard w =
      upgrade-WellFormed v b owner notice heard w

  upgrade_branches-WellFormedBranches :
      (v : Version) (bs : Branches) (owner : String) (notice heard : Bool)
      → WellFormedBranches v2 bs owner notice
      → WellFormedBranches v bs owner heard
  upgrade_branches-WellFormedBranches v nil owner notice heard w = tt
  upgrade_branches-WellFormedBranches v (cons id d root rest) owner notice heard w = (
    upgrade_child-WellFormedChild v root (some owner) notice heard w.0,
    upgrade_branches-WellFormedBranches v rest owner notice heard w.1,
  )

-- A flow for which the validator of release 2 returns no error is compiled by the compiler of each
-- release, with a forward tape of one instruction for each block, or is refused with the error of a
-- session that is too long.
pub validate_configuration_v2-compile_flow :
    (digests : Digests) (v : Version) (behavior : RecordingBehavior) (durations : String → Option ℕ)
    (input : Input) (root : Block)
    → validate_configuration_v2 input (present root) ≡ []
    → ((c : Compiled) × IsCompiled digests v behavior durations root c)
      ⊎ (compile_flow digests v behavior durations (present root) ≡ err too_long)
unfolding validate_configuration_v2
validate_configuration_v2-compile_flow digests v behavior durations input root h =
    let (w, distinct, few) = validate_configuration-WellFormed v2 input root h in
    compile_flow-WellFormed digests v behavior durations root
      (upgrade-WellFormed v root none false false w) distinct
