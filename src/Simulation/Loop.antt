-- ===== src/Simulation/Loop.antt =====
-- The loops of the simulators: the attempts at a menu, one transition, and the 512 transitions.
use ivrdroid.Flow.Walk.{walk_blocks}
use ivrdroid.Flow.{
  schedule_branch, return_to_menu, has_external, external_call, has_recording, record_message,
  end_call, absent, block_id, collect_digit, play_prompt, present, v2, v3, v4, Menu, Block,
  Branches, Child, Version,
}
use ivrdroid.Simulation.{
  schedule_event, bad_schedule, choose_schedule, awaiting_schedule, external_event, bad_external,
  choose_external, awaiting_external, bad_recording, choose, caller_hung_up, recording_event,
  choose_recording, awaiting_recording, call_ended, is_complete, no_owning_menu, branch_is_empty,
  finish, menu_return, available_digits, menu_return_limit, invalid_event, no_limit_fallback,
  prompt_has_no_next, waiting_for_attempt, awaiting_input, follow, returns_so_far, stop,
  timeout_event, traced, await, digit_event, flow_is_empty, go_on, too_many_transitions, Turn,
  branch_by_digit, is_invalid, Message, Playing, Simulated, blocks_of, find_last, Indexed, Status,
  TraceEvent, index_owners,
}
use ivrdroid.Base.{
  ℕ, ◌+◌, zero, suc, String, List, [], ◌∷◌, ◌++◌, Option, none, some, if◌then◌else◌, str_eq, leb,
  ◌==◌,
}

-- How the attempts at a menu end: they wait for an event, or have chosen a child.
pub data Attempts : Type 0 where
  awaiting : ℕ → Option TraceEvent → Attempts
  routed : Child → List String → Option TraceEvent → Attempts

-- `for attempt in range(current.maximum_attempts)`, with the attempts that are left.
module _ (branches : Branches) (on_timeout on_invalid : Child) (maximum_attempts : ℕ) where
  unfoldable pub attempts : ℕ → ℕ → Child → List String → Option TraceEvent → Attempts
  attempts zero attempt chosen events event = routed chosen events event
  attempts (suc left) attempt chosen [] event = awaiting attempt event
  attempts (suc left) attempt chosen (e ∷ es) event =
      let is_timeout = str_eq e "timeout" in
      let fallback = if is_timeout then on_timeout else on_invalid in
      let last = (attempt + 1) == maximum_attempts in
      elim (find_last e (branch_by_digit branches)) [
        | some root ↦ routed root es (some (digit_event e))
        | none ↦
            attempts left (attempt + 1) (if last then fallback else chosen) es
              (some (if is_timeout then timeout_event else invalid_event))
      ]

abbrev pub after_attempts : Block → Menu → Branches → Playing → Attempts → Turn
after_attempts b menu branches st (awaiting attempt event) =
    await awaiting_input (waiting_for_attempt (attempt + 1) menu.maximum_attempts)
      (available_digits branches) (block_id b) (traced b event st)
after_attempts b menu branches st (routed chosen events event) =
    follow chosen branch_is_empty event event b events st

-- The owner of a return, if it is a menu.
abbrev pub owner_id : Option String → String
owner_id none = ""
owner_id (some id) = id

abbrev pub find_owner : Indexed → String → Option Block
find_owner flow id = find_last (owner_id (find_last id flow.return_owners)) flow.blocks

-- The count and the limit of a menu to which the call returns.
abbrev pub return_to : Block → Playing → Option Block → Turn
return_to b st (some (collect_digit id menu branches timeout invalid limit)) =
    let count = returns_so_far id st.menu_returns in
    if leb menu.maximum_menu_returns count
    then follow limit no_limit_fallback (some menu_return_limit) (some menu_return_limit) b
        st.events st
    else go_on (record st {
      current = collect_digit id menu branches timeout invalid limit;
      menu_returns = st.menu_returns ++ (id, (count + 1)) ∷ [];
      trace = traced b (some (menu_return (count + 1) menu.maximum_menu_returns)) st;
    })
return_to b st _ = finish is_invalid no_owning_menu (traced b none st)

-- A step that waits for an event, or takes it.
abbrev pub take_event :
    List String
    → Status
    → Message
    → List String
    → Block
    → Playing
    → (String → List String → Turn)
    → Turn
take_event [] status message available b st next =
    await status message available (block_id b) (traced b none st)
take_event (e ∷ es) status message available b st next = next e es

-- The iteration of a block that no test of the release's loop names.
abbrev pub unnamed : Block → Playing → Turn
unnamed b st = go_on (record st { trace = traced b none st })

-- One iteration of the loop.
unfoldable pub turn : Indexed → Block → Playing → Turn
unfolding attempts
turn flow (play_prompt id prompt next) st =
    follow next prompt_has_no_next none none (play_prompt id prompt next) st.events st
turn flow (end_call id) st = finish is_complete call_ended (traced (end_call id) none st)
turn flow (record_message id next missed) st =
    let b = record_message id next missed in
    if has_recording flow.version
    then take_event st.events awaiting_recording choose_recording
        ("recorded" ∷ "unavailable" ∷ "hangup" ∷ []) b st
        (λ e es.
          let noted = some (recording_event e) in
          if str_eq e "hangup"
          then finish is_complete caller_hung_up (traced b noted st)
          else follow (choose (("recorded", next) ∷ ("unavailable", missed) ∷ []) e)
              (bad_recording e) noted noted b es st)
    else unnamed b st
turn flow (external_call id phone seconds next missed failed) st =
    let b = external_call id phone seconds next missed failed in
    let outcomes =
      "external_completed" ∷ "external_not_connected" ∷ "external_system_failure" ∷ [] in
    if has_external flow.version
    then take_event st.events awaiting_external choose_external outcomes b st (λ e es.
      follow
        (choose
          (("external_completed", next)
            ∷ ("external_not_connected", missed)
            ∷ ("external_system_failure", failed)
            ∷ [])
          e)
        (bad_external e) none (some (external_event e)) b es st)
    else unnamed b st
turn flow (return_to_menu id) st = return_to (return_to_menu id) st (find_owner flow id)
turn flow (schedule_branch id schedule o c h) st =
    let b = schedule_branch id schedule o c h in
    take_event st.events awaiting_schedule choose_schedule ("open" ∷ "closed" ∷ "holiday" ∷ []) b st
      λ e es.
        follow (choose (("open", o) ∷ ("closed", c) ∷ ("holiday", h) ∷ []) e) (bad_schedule e) none
          (some (schedule_event e)) b es st
turn flow (collect_digit id menu branches timeout invalid limit) st =
    after_attempts (collect_digit id menu branches timeout invalid limit) menu branches st (
      attempts branches timeout invalid menu.maximum_attempts menu.maximum_attempts 0 absent
        st.events none)

-- The loop, with the transitions that are left.
unfoldable pub transitions : Indexed → ℕ → Playing → Simulated
unfolding turn
transitions flow zero st = record {
  status = is_invalid;
  trace = st.trace;
  awaiting_block_id = none;
  available = [];
  message = too_many_transitions;
}
transitions flow (suc left) st = elim (turn flow st.current st) [
  | go_on next ↦ transitions flow left next
  | stop result ↦ result
]

abbrev pub indexed : Version → Block → Indexed
indexed v root = record {
  version = v;
  blocks = blocks_of (walk_blocks (present root));
  return_owners = index_owners v root none;
}

-- The loop makes 512 transitions at most.
unfoldable pub simulate : Version → Child → List String → Simulated
unfolding transitions index_owners
simulate v absent events = record {
  status = is_invalid;
  trace = [];
  awaiting_block_id = none;
  available = [];
  message = flow_is_empty;
}
simulate v (present root) events =
    transitions (indexed v root) 512
      (record { current = root; events = events; menu_returns = []; trace = [] })

-- The three simulators under their own names.
pub simulate_v2 : Child → List String → Simulated
simulate_v2 = simulate v2

pub simulate_v3 : Child → List String → Simulated
simulate_v3 = simulate v3

pub simulate_v4 : Child → List String → Simulated
simulate_v4 = simulate v4
