-- ===== src/Flow.antt =====
-- The author's flow tree: `FlowBlockV2` and its members (server/app/schemas.py) and the helpers of
-- server/app/flow_v2.py.
pub mod WellFormed
pub mod Walk
mod Tests
use ivrdroid.Base.{
  true, ◌&&◌, ◌||◌, ℕ, String, Option, none, some, Bool, false, List, [], ◌∷◌, if◌then◌else◌, leb,
  not, str_eq,
}

-- The three releases of the flow document that share the block types.
pub data Version : Type 0 where
  v2 v3 v4 : Version

-- A key of `DTMF_KEYS`; any other digit is refused when the document is parsed.
pub data Digit : Type 0 where
  d0 d1 d2 d3 d4 d5 d6 d7 d8 d9 star pound : Digit

-- `DTMF_ORDER.index(digit)`.
abbrev pub dtmf_index : Digit → ℕ
dtmf_index d0 = 0
dtmf_index d1 = 1
dtmf_index d2 = 2
dtmf_index d3 = 3
dtmf_index d4 = 4
dtmf_index d5 = 5
dtmf_index d6 = 6
dtmf_index d7 = 7
dtmf_index d8 = 8
dtmf_index d9 = 9
dtmf_index star = 10
dtmf_index pound = 11

-- The character that the document writes for the key.
abbrev pub digit_text : Digit → String
digit_text d0 = "0"
digit_text d1 = "1"
digit_text d2 = "2"
digit_text d3 = "3"
digit_text d4 = "4"
digit_text d5 = "5"
digit_text d6 = "6"
digit_text d7 = "7"
digit_text d8 = "8"
digit_text d9 = "9"
digit_text star = "*"
digit_text pound = "#"

-- The fields of a menu that hold no block.
pub record Menu : Type 0 where
  pub prompt_id : Option String
  pub allow_prompt_barge_in : Bool
  pub timeout_ms : ℕ
  pub maximum_attempts : ℕ
  pub maximum_menu_returns : ℕ

-- The first field of each block is its `block_id`.
mutual
  pub data Block : Type 0 where
    play_prompt : String → Option String → Child → Block
    collect_digit : String → Menu → Branches → Child → Child → Child → Block
    schedule_branch : String → Option String → Child → Child → Child → Block
    record_message : String → Child → Child → Block
    external_call : String → String → ℕ → Child → Child → Child → Block
    return_to_menu : String → Block
    end_call : String → Block

  -- `FlowBlockV2 | None`.
  pub data Child : Type 0 where
    absent : Child
    present : Block → Child

  -- `list[DigitBranchV2]`: the branch's id, its digit and its root.
  pub data Branches : Type 0 where
    nil : Branches
    cons : String → Digit → Child → Branches → Branches

pub record DigitBranch : Type 0 where
  pub branch_id : String
  pub digit : Digit
  pub root : Child

abbrev pub block_id : Block → String
block_id (play_prompt id _ _) = id
block_id (collect_digit id _ _ _ _ _) = id
block_id (schedule_branch id _ _ _ _) = id
block_id (record_message id _ _) = id
block_id (external_call id _ _ _ _ _) = id
block_id (return_to_menu id) = id
block_id (end_call id) = id

abbrev pub to_list : Branches → List DigitBranch
to_list nil = []
to_list (cons id digit root rest) =
    record { branch_id = id; digit = digit; root = root } ∷ to_list rest

-- The truth value of an optional text: neither `None` nor empty.
abbrev pub given : Option String → Bool
given none = false
given (some s) = not (str_eq s "")

-- What the walk passes to the step after a prompt: `True` in release 3, "a notice was or is heard"
-- in release 4; release 2 has no such argument.
abbrev pub after_prompt : Version → Bool → Option String → Bool
after_prompt v2 notice prompt = false
after_prompt v3 notice prompt = true
after_prompt v4 notice prompt = notice || given prompt

-- What it passes below a menu, and below any other block that has paths.
abbrev pub below_menu : Version → Bool → Option String → Bool
below_menu v4 notice prompt = notice || given prompt
below_menu _ notice prompt = false

abbrev pub below : Version → Bool → Bool
below v4 notice = notice
below _ notice = false

abbrev pub has_recording : Version → Bool
has_recording v2 = false
has_recording _ = true

abbrev pub has_external : Version → Bool
has_external v4 = true
has_external _ = false

abbrev pub has_block : Child → Bool
has_block absent = false
has_block (present _) = true

-- `sorted(…, key=…)`: a stable sort by the DTMF order of a key.
module _ {ℓ} {A : Type ℓ} (key : A → Digit) where
  abbrev pub insert_by : A → List A → List A
  insert_by x [] = x ∷ []
  insert_by x (y ∷ ys) =
      if leb (dtmf_index (key x)) (dtmf_index (key y)) then x ∷ y ∷ ys else y ∷ insert_by x ys

  abbrev pub sort_by : List A → List A
  sort_by [] = []
  sort_by (x ∷ xs) = insert_by x (sort_by xs)
