-- ===== src/Flow/Walk.antt =====
-- `owned_children`, `walk_blocks`, `prompt_ids` and `block_label` of server/app/flow_v2.py.

pub mod Complete
use ivrdroid.Base.Counts.{contains}
use ivrdroid.Flow.WellFormed.{ids_of}
use ivrdroid.Flow.{
  end_call, external_call, record_message, return_to_menu, schedule_branch, to_list, absent,
  collect_digit, play_prompt, present, sort_by, Block, Child, DigitBranch, given,
}
use ivrdroid.Base.{
  ℕ, ◌+◌, zero, suc, String, List, [], ◌∷◌, ◌++◌, map, Option, none, some, if◌then◌else◌, length,
}

-- `DTMF_ORDER.index(item.digit)` sorts the branches.
abbrev pub branch_children : List DigitBranch → List Child
branch_children branches = map (λ b. b.root) (sort_by (λ b. b.digit) branches)

-- The children in the order of the walk; their titles are for diagrams and not kept here.
abbrev pub owned_children : Block → List Child
owned_children (play_prompt id prompt next) = next ∷ []
owned_children (collect_digit id menu branches timeout invalid limit) =
    branch_children (to_list branches) ++ timeout ∷ invalid ∷ limit ∷ []
owned_children (schedule_branch id schedule o c h) = o ∷ c ∷ h ∷ []
owned_children (record_message id next missed) = next ∷ missed ∷ []
owned_children (external_call id phone seconds next missed failed) = next ∷ missed ∷ failed ∷ []
owned_children (return_to_menu id) = []
owned_children (end_call id) = []

-- A block and its depth.
pub record Visited : Type 0 where
  pub block : Block
  pub depth : ℕ

-- `[(child, depth) for child in children if child is not None]`.
abbrev pub pending_children : ℕ → List Child → List Visited
pending_children depth [] = []
pending_children depth (absent ∷ cs) = pending_children depth cs
pending_children depth (present b ∷ cs) =
    record { block = b; depth = depth } ∷ pending_children depth cs

-- The loop over the stack, whose top is the head of the list. Each round takes fuel.
unfoldable pub walk_pending : ℕ → List Visited → List Visited
walk_pending zero pending = []
walk_pending (suc fuel) [] = []
walk_pending (suc fuel) (top ∷ pending) =
    top ∷ walk_pending fuel (pending_children (top.depth + 1) (owned_children top.block) ++ pending)

-- One round for each block is enough.
unfoldable pub walk_blocks : Child → List Visited
unfolding walk_pending ids_of
walk_blocks absent = []
walk_blocks (present root) =
    walk_pending (length (ids_of root)) (record { block = root; depth = 1 } ∷ [])

abbrev pub block_label : Block → String
block_label (play_prompt _ _ _) = "Play prompt"
block_label (collect_digit _ _ _ _ _ _) = "Collect one digit"
block_label (schedule_branch _ _ _ _ _) = "Check schedule"
block_label (return_to_menu _) = "Return to menu"
block_label (record_message _ _ _) = "Record message"
block_label (external_call _ _ _ _ _ _) = "External call"
block_label (end_call _) = "End call"

-- The prompt that a block plays, if it is given.
abbrev pub block_prompt : Block → Option String
block_prompt (play_prompt _ prompt _) = prompt
block_prompt (collect_digit _ menu _ _ _ _) = menu.prompt_id
block_prompt _ = none

abbrev pub add_prompt : Option String → List String → List String
add_prompt none found = found
add_prompt (some p) found =
    if given (some p) then (if contains found p then found else found ++ p ∷ []) else found

abbrev pub add_prompts : List String → List Visited → List String
add_prompts found [] = found
add_prompts found (v ∷ vs) = add_prompts (add_prompt (block_prompt v.block) found) vs

-- A set, as the list of its members in the order in which they are first met.
unfoldable pub prompt_ids : Child → List String
prompt_ids root = add_prompts [] (walk_blocks root)
