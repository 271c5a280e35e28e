-- ===== src/Simulation/Trace.antt =====
-- What the trace of a simulated call may hold.
pub mod Inside
pub mod Steps
pub mod Returns
use ivrdroid.Simulation.Trace.Returns.{is_plain}
use ivrdroid.Simulation.Trace.Inside.{AmongChild}
use ivrdroid.Simulation.{invalid_event, timeout_event}
use ivrdroid.Simulation.Loop.{routed, awaiting, Attempts}
use ivrdroid.Flow.{Block}
use ivrdroid.Base.{false, true, if◌then◌else◌, Bool, ◌≤◌, ◌≡◌, ◌++◌, some, length, refl}

abbrev AttemptsOk : Block → Attempts → Type 0
AttemptsOk root (awaiting attempt e) = is_plain e ≡ true
AttemptsOk root (routed c es e) = AmongChild root c × (is_plain e ≡ true)

noted : (test : Bool) → is_plain (some (if test then timeout_event else invalid_event)) ≡ true
noted true = refl
noted false = refl
