-- ===== src/Simulation/Tests.antt =====
-- The simulators run on a small flow, and their laws applied to it.
use ivrdroid.Flow.WellFormed.{ids_of}
use ivrdroid.Flow.Walk.{walk_pending, walk_blocks}
use ivrdroid.Simulation.{index_owners, call_ended, waiting_for_attempt}
use ivrdroid.Flow.{present, v4}
use ivrdroid.Samples.{sample}
use ivrdroid.Simulation.Loop.{attempts, turn, transitions, simulate}
use ivrdroid.Base.{◌≡◌, [], ◌∷◌, refl}

simulator : Unit {0}
unfolding simulate transitions turn attempts walk_blocks walk_pending index_owners ids_of
simulator = tt

-- Key 2 returns to the menu; then a wrong key, and key 1 ends the call.
sample_call : (simulate v4 (present sample) ("2" ∷ "9" ∷ "1" ∷ [])).message ≡ call_ended
unfolding simulator
sample_call = refl

sample_waits : (simulate v4 (present sample) ("2" ∷ "9" ∷ [])).message ≡ waiting_for_attempt 2 3
unfolding simulator
sample_waits = refl
