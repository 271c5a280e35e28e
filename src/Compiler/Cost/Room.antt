-- ===== src/Compiler/Cost/Room.antt =====
-- How often the menus of a tape can still be returned to, given the tuple `returns`.
use ivrdroid.Base.{
  ◌≡◌, ◌<◌, List, true, false, some, none, ℕ, ◌+◌, ◌-◌, ◌⊎◌, inl, inr, get_elem?, set, arith, suc,
  zero, refl, [], ◌∷◌, map, length,
}
use ivrdroid.Compiler.{
  Instruction, Operation, collect_digit, end_call, external_call, play_prompt, record_message,
  return_to_menu, schedule_branch,
}
use ivrdroid.Compiler.Cost.{menu_of, is_menu, collect_pcs, limits, total}

-- How often menus can still be returned to.
pub room : List ℕ → List ℕ → ℕ
room [] used = 0
room (l ∷ ls) [] = 0
room (l ∷ ls) (u ∷ us) = (l - u) + room ls us

pub room-set :
    (ls us : List ℕ) (index used limit : ℕ)
    → get_elem? ls index ≡ some limit
    → get_elem? us index ≡ some used
    → used < limit
    → room ls (set us index (used + 1)) + 1 ≡ room ls us
unfolding room
room-set [] us index used limit e f lt = cc
room-set (l ∷ ls) [] index used limit e f lt = cc
room-set (l ∷ ls) (u ∷ us) zero used limit e f lt = ground arith
room-set (l ∷ ls) (u ∷ us) (suc index) used limit e f lt =
    omega (arith, room-set ls us index used limit e f lt)

abbrev pub MenuCases : Operation → Type 0
MenuCases op =
    ((menu_of (some op) ≡ none) × (is_menu op ≡ false))
    ⊎ ((l : ℕ) × (lp : ℕ) × (menu_of (some op) ≡ some (l, lp)) × (is_menu op ≡ true))

pub Menu-cases : (op : Operation) → MenuCases op
Menu-cases (collect_digit _ _ _ l _ _ _ lp _) = inr (l, lp, refl, refl)
Menu-cases (play_prompt _ _) = inl (refl, refl)
Menu-cases (schedule_branch _ _ _ _) = inl (refl, refl)
Menu-cases (record_message _ _ _ _) = inl (refl, refl)
Menu-cases (external_call _ _ _ _ _) = inl (refl, refl)
Menu-cases (return_to_menu _) = inl (refl, refl)
Menu-cases end_call = inl (refl, refl)

pub room_initial :
    (is : List Instruction) → room (limits is) (map (λ _. 0) (collect_pcs is)) ≡ total (limits is)
unfolding limits collect_pcs room total
room_initial [] = refl
room_initial (i ∷ is) = elim (Menu-cases i.operation) [
  | inl (e, f) ↦ ground (arith, room_initial is)
  | inr (l, lp, e, f) ↦ ground (arith, room_initial is)
]

pub length_initial :
    (is : List Instruction) → length (map {B = ℕ} (λ _. 0) (collect_pcs is)) ≡ length (limits is)
unfolding limits collect_pcs
length_initial [] = refl
length_initial (i ∷ is) = elim (Menu-cases i.operation) [
  | inl (e, f) ↦ ground (arith, length_initial is)
  | inr (l, lp, e, f) ↦ ground (arith, length_initial is)
]
