-- ===== src/Simulation.antt =====
-- `simulate`, `simulate_v3` and `simulate_v4` of server/app/simulation_v2.py, simulation_v3.py and
-- simulation_v4.py: a call is played through for the author of a flow. The three differ by release.
pub mod Loop
pub mod Trace
mod Tests
use ivrdroid.Flow.Walk.{block_label, Visited}
use ivrdroid.Flow.{
  end_call, return_to_menu, has_external, external_call, has_recording, record_message,
  schedule_branch, star, collect_digit, digit_text, nil, pound, absent, block_id, cons, dtmf_index,
  play_prompt, present, Block, Branches, Child, Digit, Version,
}
use ivrdroid.Base.{
  map, ℕ, ◌+◌, zero, suc, String, List, [], ◌∷◌, ◌++◌, Option, none, some, Bool, true, false,
  if◌then◌else◌, str_eq, leb, ltb, ◌==◌,
}

-- What the trace notes of a step.
pub data TraceEvent : Type 0 where
  recording_event schedule_event digit_event external_event : String → TraceEvent
  menu_return : ℕ → ℕ → TraceEvent
  menu_return_limit timeout_event invalid_event : TraceEvent

-- An entry of the trace. `prompt_id` is a key of prompts and menus only.
pub record TraceStep : Type 0 where
  pub block_id : String
  pub label : String
  pub prompt_id : Option (Option String)
  pub event : Option TraceEvent

pub data Status : Type 0 where
  is_invalid is_complete awaiting_recording awaiting_external awaiting_schedule awaiting_input :
      Status

pub data Message : Type 0 where
  flow_is_empty prompt_has_no_next call_ended choose_recording caller_hung_up choose_external :
      Message
  no_owning_menu no_limit_fallback choose_schedule branch_is_empty too_many_transitions : Message
  bad_recording bad_external bad_schedule : String → Message
  waiting_for_attempt : ℕ → ℕ → Message

pub record Simulated : Type 0 where
  pub status : Status
  pub trace : List TraceStep
  pub awaiting_block_id : Option String
  pub available : List String
  pub message : Message

-- The variables of the loop: the events that are left in place of `event_index`, and the dictionary
-- `menu_returns`, whose last entry of a key counts.
pub record Playing : Type 0 where
  pub current : Block
  pub events : List String
  pub menu_returns : List (String × ℕ)
  pub trace : List TraceStep

pub data Turn : Type 0 where
  go_on : Playing → Turn
  stop : Simulated → Turn

-- Looking up a key of a dictionary that was filled in the list's order.
module _ {A : Type 0} where
  abbrev pub find_last : String → List (String × A) → Option A
  find_last key [] = none
  find_last key ((k, a) ∷ rest) = elim (find_last key rest) [
    | some b ↦ some b
    | none ↦ if str_eq key k then some a else none
  ]

abbrev pub returns_so_far : String → List (String × ℕ) → ℕ
returns_so_far key counts = elim (find_last key counts) [ some n ↦ n | none ↦ 0 ]

-- `index_owners`: the entries of `return_owners` in the order in which they are written.
unfoldable mutual
  pub index_owners : Version → Block → Option String → List (String × String)
  index_owners v (play_prompt id prompt next) owner = index_child v next owner
  index_owners v (collect_digit id menu branches timeout invalid limit) owner =
      index_branches v branches id
      ++ (index_child v timeout (some id)
          ++ (index_child v invalid (some id) ++ index_child v limit (some id)))
  index_owners v (schedule_branch id schedule o c h) owner =
      index_child v o owner ++ (index_child v c owner ++ index_child v h owner)
  index_owners v (record_message id next missed) owner =
      if has_recording v then index_child v next owner ++ index_child v missed owner else []
  index_owners v (external_call id phone seconds next missed failed) owner =
      if has_external v
      then index_child v next owner ++ (index_child v missed owner ++ index_child v failed owner)
      else []
  index_owners v (return_to_menu id) none = []
  index_owners v (return_to_menu id) (some owner) = (id, owner) ∷ []
  index_owners v (end_call id) owner = []

  pub index_child : Version → Child → Option String → List (String × String)
  index_child v absent owner = []
  index_child v (present b) owner = index_owners v b owner

  pub index_branches : Version → Branches → String → List (String × String)
  index_branches v nil owner = []
  index_branches v (cons id d root rest) owner =
      index_child v root (some owner) ++ index_branches v rest owner

-- `{block.block_id: block for block, _ in walk_blocks(root)}`.
abbrev pub blocks_of : List Visited → List (String × Block)
blocks_of [] = []
blocks_of (w ∷ ws) = (block_id w.block, w.block) ∷ blocks_of ws

-- What is built before the loop.
pub record Indexed : Type 0 where
  pub version : Version
  pub blocks : List (String × Block)
  pub return_owners : List (String × String)

abbrev pub shown_prompt : Block → Option (Option String)
shown_prompt (play_prompt _ prompt _) = some prompt
shown_prompt (collect_digit _ menu _ _ _ _) = some menu.prompt_id
shown_prompt _ = none

-- The trace with the step of the block that is played, and the event that the step notes.
abbrev pub traced : Block → Option TraceEvent → Playing → List TraceStep
traced b event st =
    st.trace
    ++ (record {
      block_id = block_id b;
      label = block_label b;
      prompt_id = shown_prompt b;
      event = event;
    })
      ∷ []

abbrev pub finish : Status → Message → List TraceStep → Turn
finish status message trace = stop (record {
  status = status;
  trace = trace;
  awaiting_block_id = none;
  available = [];
  message = message;
})

abbrev pub await : Status → Message → List String → String → List TraceStep → Turn
await status message available id trace = stop (record {
  status = status;
  trace = trace;
  awaiting_block_id = some id;
  available = available;
  message = message;
})

-- A step to a child, or the message that there is none. The first event is noted when the child is
-- missing, the second when it is there.
abbrev pub follow :
    Child → Message → Option TraceEvent → Option TraceEvent → Block → List String → Playing → Turn
follow absent message missed event b events st = finish is_invalid message (traced b missed st)
follow (present next) message missed event b events st =
    go_on (record st { current = next; events = events; trace = traced b event st })

-- `{…}.get(outcome)` of the literal dictionaries.
abbrev pub choose : List (String × Child) → String → Child
choose [] outcome = absent
choose ((k, c) ∷ rest) outcome = if str_eq outcome k then c else choose rest outcome

-- `branch_by_digit`: of two branches with one key the later one counts.
abbrev pub branch_by_digit : Branches → List (String × Child)
branch_by_digit nil = []
branch_by_digit (cons _ d root rest) = (digit_text d, root) ∷ branch_by_digit rest

-- The keys in the order of their characters: `#`, `*` and the digits.
abbrev pub character_rank : Digit → ℕ
character_rank pound = 0
character_rank star = 1
character_rank d = 2 + dtmf_index d

abbrev pub insert_key : Digit → List Digit → List Digit
insert_key d [] = d ∷ []
insert_key d (k ∷ ks) =
    if ltb (character_rank d) (character_rank k)
    then d ∷ k ∷ ks
    else if character_rank d == character_rank k
    then k ∷ ks
    else k ∷ insert_key d ks

abbrev pub sorted_keys : Branches → List Digit
sorted_keys nil = []
sorted_keys (cons _ d _ rest) = insert_key d (sorted_keys rest)

-- `sorted(branch_by_digit)`.
abbrev pub available_digits : Branches → List String
available_digits branches = map digit_text (sorted_keys branches)
