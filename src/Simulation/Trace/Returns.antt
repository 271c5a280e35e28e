-- ===== src/Simulation/Trace/Returns.antt =====
-- The returns to a menu that a trace notes, against the menu's limit and the returns before.
use ivrdroid.Simulation.Loop.{find_owner}
use ivrdroid.Simulation.{
  invalid_event, timeout_event, external_event, digit_event, schedule_event, recording_event,
  find_last, menu_return, menu_return_limit, returns_so_far, Indexed, TraceEvent, TraceStep,
}
use ivrdroid.Flow.{collect_digit, Block}
use ivrdroid.Base.{
  not, ap, arith, false, inl, inr, none, refl, some, str_eq, true, ◌&&◌, ◌+◌, ◌++◌, ◌∙◌, ◌∷◌, ◌≡◌,
  ◌≤◌, [], Bool, Bool-cases, List, Option, String, if◌then◌else◌, ℕ,
}

-- The id of a menu and the returns to it that it allows.
abbrev pub limit_of : Option Block → Option (String × ℕ)
limit_of (some (collect_digit id menu _ _ _ _)) = some (id, menu.maximum_menu_returns)
limit_of _ = none

-- The menu to which the return block of an id goes.
abbrev pub menu_of : Indexed → String → Option (String × ℕ)
menu_of flow id = limit_of (find_owner flow id)

abbrev is_menu : String → Option (String × ℕ) → Bool
is_menu id none = false
is_menu id (some (menu_id, limit)) = str_eq id menu_id

abbrev pub is_return : Option TraceEvent → Bool
is_return (some (menu_return _ _)) = true
is_return _ = false

abbrev return_weight : Indexed → String → TraceStep → ℕ
return_weight flow id s = if is_return s.event && is_menu id (menu_of flow s.block_id) then 1 else 0

-- How often a trace notes a return to the menu of an id.
abbrev pub returns_in : Indexed → String → List TraceStep → ℕ
returns_in flow id [] = 0
returns_in flow id (s ∷ steps) = return_weight flow id s + returns_in flow id steps

abbrev is_some : Option (String × ℕ) → Bool
is_some none = false
is_some (some menu) = true

-- A step is at no return block whose menu is known.
abbrev pub is_elsewhere : String → Option (String × ℕ) → Bool
is_elsewhere label menu = not (str_eq label "Return to menu" && is_some menu)

pub is_elsewhere_without_menu :
    (label : String) (menu : Option (String × ℕ)) → menu ≡ none → is_elsewhere label menu ≡ true
is_elsewhere_without_menu label menu e = rw e (ground arith)

-- A noted return is one more than the returns to the menu before, and within the menu's limit; a limit
-- is noted when the menu allows no more. No return to a known menu is left without a note.
abbrev pub EventOk : Indexed → List TraceStep → String → String → Option TraceEvent → Type 0
EventOk flow before label block_id (some (menu_return k limit)) =
    (id : String) × (menu_of flow block_id ≡ some (id, limit))
    × (k ≡ returns_in flow id before + 1)
    × (k ≤ limit)
EventOk flow before label block_id (some menu_return_limit) =
    (id : String) × (limit : ℕ) × (menu_of flow block_id ≡ some (id, limit))
    × (limit ≤ returns_in flow id before)
EventOk flow before label block_id _ = is_elsewhere label (menu_of flow block_id) ≡ true

-- The other events.
abbrev pub is_plain : Option TraceEvent → Bool
is_plain (some (menu_return _ _)) = false
is_plain (some menu_return_limit) = false
is_plain _ = true

pub plain-EventOk :
    (flow : Indexed) (before : List TraceStep) (label block_id : String) (e : Option TraceEvent)
    → is_elsewhere label (menu_of flow block_id) ≡ true
    → is_plain e ≡ true
    → EventOk flow before label block_id e
plain-EventOk flow before label block_id none p h = p
plain-EventOk flow before label block_id (some (recording_event _)) p h = p
plain-EventOk flow before label block_id (some (schedule_event _)) p h = p
plain-EventOk flow before label block_id (some (digit_event _)) p h = p
plain-EventOk flow before label block_id (some (external_event _)) p h = p
plain-EventOk flow before label block_id (some (menu_return k limit)) p h = cc
plain-EventOk flow before label block_id (some menu_return_limit) p h = cc
plain-EventOk flow before label block_id (some timeout_event) p h = p
plain-EventOk flow before label block_id (some invalid_event) p h = p

pub plain-is_return : (e : Option TraceEvent) → is_plain e ≡ true → is_return e ≡ false
plain-is_return none h = refl
plain-is_return (some (recording_event _)) h = refl
plain-is_return (some (schedule_event _)) h = refl
plain-is_return (some (digit_event _)) h = refl
plain-is_return (some (external_event _)) h = refl
plain-is_return (some (menu_return k limit)) h = cc
plain-is_return (some menu_return_limit) h = refl
plain-is_return (some timeout_event) h = refl
plain-is_return (some invalid_event) h = refl

module _ (flow : Indexed) (id : String) where
  pub returns_in-snoc :
      (steps : List TraceStep) (s : TraceStep)
      → returns_in flow id (steps ++ s ∷ []) ≡ returns_in flow id steps + return_weight flow id s
  returns_in-snoc [] s = omega arith
  returns_in-snoc (x ∷ steps) s = omega (arith, returns_in-snoc steps s)

  -- A step that notes no return.
  pub returns_in-other :
      (steps : List TraceStep) (s : TraceStep)
      → is_return s.event ≡ false
      → returns_in flow id (steps ++ s ∷ []) ≡ returns_in flow id steps
  returns_in-other steps s other = ground (arith, returns_in-snoc steps s, other)

  -- A step that notes a return to a menu.
  pub returns_in-return :
      (steps : List TraceStep) (s : TraceStep) (menu_id : String) (limit : ℕ)
      → is_return s.event ≡ true
      → menu_of flow s.block_id ≡ some (menu_id, limit)
      → returns_in flow id (steps ++ s ∷ [])
        ≡ returns_in flow id steps + (if str_eq id menu_id then 1 else 0)
  returns_in-return steps s menu_id limit noted menu =
      returns_in-snoc steps s ∙ rw (noted, menu) refl

find_last-snoc :
    (key k : String) (n : ℕ) (xs : List (String × ℕ))
    → find_last key (xs ++ (k, n) ∷ []) ≡ (if str_eq key k then some n else find_last key xs)
find_last-snoc key k n [] = refl
find_last-snoc key k n ((l, m) ∷ xs) = elim (Bool-cases (str_eq key k)) [
  | inl same ↦ rw (find_last-snoc key k n xs, same) refl
  | inr other ↦ rw (find_last-snoc key k n xs, other) refl
]

-- The dictionary `menu_returns` after an entry.
pub returns_so_far-snoc :
    (key k : String) (n : ℕ) (xs : List (String × ℕ))
    → returns_so_far key (xs ++ (k, n) ∷ []) ≡ (if str_eq key k then n else returns_so_far key xs)
returns_so_far-snoc key k n xs =
    let value : Option ℕ → ℕ = λ o. elim o [ some m ↦ m | none ↦ 0 ] in
    ap value (find_last-snoc key k n xs)
    ∙ elim (Bool-cases (str_eq key k)) [ inl same ↦ rw same refl | inr other ↦ rw other refl ]
