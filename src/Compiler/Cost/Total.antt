-- ===== src/Compiler/Cost/Total.antt =====
-- The measure that each call of `maximum_cost` on a forward tape lowers, and its fuel.
use ivrdroid.Base.{
  ◌>>=◌, max, ◌≡◌, ◌<◌, List, Option, String, false, true, inl, inr, some, ℕ, ◌*◌, ◌+◌, ◌-◌,
  get_elem?, get_elem?-lt, get_elem?-some, length-set, ◌∙◌, set, arith, suc, zero, refl, ok, [],
  ◌∷◌, ◌++◌, map, length, All, All-mono, ltb, Bool-cases,
}
use ivrdroid.Compiler.Cost.Room.{room, room-set, room_initial, length_initial}
use ivrdroid.Compiler.{
  BranchTarget, Instruction, Operation, collect_digit, end_call, external_call, play_prompt,
  record_message, return_to_menu, schedule_branch,
}
use ivrdroid.Compiler.Cost.{
  Cost, State, operation_at, is_active, max_cost, maximum_cost, operation_cost, return_cost, target,
  same_counts, menu_of, menu_index, collect_pcs, limits, cost_fuel, initial_returns,
}

abbrev pub IsOk : Cost → Type 0
IsOk r = (c : ℕ) × (r ≡ ok c)

then-IsOk : (m : Cost) (f : ℕ → ℕ) → IsOk m → IsOk (m >>= λ c. ok (f c))
then-IsOk m f (c, e) = (f c, rw e refl)

same_counts-eq : (xs ys : List ℕ) → same_counts xs ys ≡ true → xs ≡ ys
same_counts-eq [] [] h = refl
same_counts-eq [] (y ∷ ys) h = cc
same_counts-eq (x ∷ xs) [] h = cc
same_counts-eq (x ∷ xs) (y ∷ ys) h = ground (arith, same_counts-eq xs ys)

-- A state is not among those that a measure places strictly above it.
is_active-false :
    (measure : ℕ → List ℕ → ℕ) (active : List State) (pc : ℕ) (returns : List ℕ)
    → All (λ s. measure pc returns < measure s.0 s.1) active
    → is_active active pc returns ≡ false
unfolding is_active
is_active-false measure [] pc returns h = refl
is_active-false measure ((p, r) ∷ active) pc returns (lt, h) =
    ground (arith, is_active-false measure active pc returns h, same_counts-eq r returns)

max_cost-IsOk :
    (visit : ℕ → Cost) (t : ℕ) (ts : List ℕ)
    → All (λ u. IsOk (visit u)) (t ∷ ts)
    → IsOk (max_cost visit (t ∷ ts))
unfolding max_cost
max_cost-IsOk visit t [] h = h.0
max_cost-IsOk visit t (u ∷ ts) ((c, first), h) =
    let (d, others) = max_cost-IsOk visit u ts h in (max c d, rw (first, others) refl)

module _ (tape : List Instruction) where
  abbrev pub After : ℕ → ℕ → Type 0
  After pc t = (pc < t) × (t < length tape)

  -- What a return at `pc` needs of its menu.
  pub record ReturnsTo (pc menu_pc : ℕ) : Type 0 where
    pub limit : ℕ
    pub limit_pc : ℕ
    pub index : ℕ
    pub is_menu : menu_of (operation_at tape menu_pc) ≡ some (limit, limit_pc)
    pub is_listed : menu_index (collect_pcs tape) menu_pc ≡ some index
    pub has_limit : get_elem? (limits tape) index ≡ some limit
    pub in_tape : menu_pc < length tape
    pub forward : After pc limit_pc

  -- The targets of an instruction stand behind it; a return goes to a menu whose limit path does.
  abbrev pub Forward : ℕ → Operation → Type 0
  Forward pc (play_prompt prompt next) = After pc next
  Forward pc (collect_digit _ _ _ _ branches on_timeout on_invalid on_limit _) =
      All (λ b. After pc b.target_pc) branches
      × After pc on_timeout
      × After pc on_invalid
      × After pc on_limit
  Forward pc (schedule_branch _ on_open on_closed on_holiday) =
      After pc on_open × After pc on_closed × After pc on_holiday
  Forward pc (record_message _ _ next unavailable) = After pc next × After pc unavailable
  Forward pc (external_call _ _ next missed failed) =
      After pc next × After pc missed × After pc failed
  Forward pc (return_to_menu menu_pc) = ReturnsTo pc menu_pc
  Forward pc end_call = Unit

  abbrev pub IsForward : Type 0
  IsForward = (pc : ℕ) (op : Operation) → operation_at tape pc ≡ some op → Forward pc op

  measure : ℕ → List ℕ → ℕ
  measure pc returns = room (limits tape) returns * length tape + (length tape - pc)

  measure-forward :
      (pc t : ℕ) (returns : List ℕ) → After pc t → measure t returns < measure pc returns
  unfolding measure
  measure-forward pc t returns h = omega arith

  measure-return :
      (pc menu : ℕ) (returns : List ℕ) (index used limit : ℕ)
      → pc < length tape
      → get_elem? (limits tape) index ≡ some limit
      → get_elem? returns index ≡ some used
      → used < limit
      → measure menu (set returns index (used + 1)) < measure pc returns
  unfolding measure
  measure-return pc menu returns index used limit h e f lt =
      rw (← room-set (limits tape) returns index used limit e f lt) (omega arith)

  -- One operation returns a value if the states that it leads to do.
  module _ (durations : String → Option ℕ) (visit : ℕ → List ℕ → Cost) (pc : ℕ) (returns : List ℕ)
      (inside : pc < length tape) (fits : length returns ≡ length (limits tape))
      (later : (t : ℕ) (rs : List ℕ)
        → t < length tape
        → length rs ≡ length (limits tape)
        → measure t rs < measure pc returns
        → IsOk (visit t rs)) where
    After-IsOk : (t : ℕ) → After pc t → IsOk (visit t returns)
    After-IsOk t h = later t returns h.1 fits (measure-forward pc t returns h)

    targets-IsOk :
        (branches : List BranchTarget) (on_timeout on_invalid : ℕ)
        → All (λ b. After pc b.target_pc) branches
        → After pc on_timeout
        → After pc on_invalid
        → IsOk
            (max_cost (λ t. visit t returns) (map target branches ++ on_timeout ∷ on_invalid ∷ []))
    targets-IsOk [] t i h p q = max_cost-IsOk _ t (i ∷ []) (After-IsOk t p, (After-IsOk i q, tt))
    targets-IsOk (b ∷ bs) t i (first, h) p q =
        max_cost-IsOk _ b.target_pc (map target bs ++ t ∷ i ∷ [])
          (After-IsOk b.target_pc first, targets_All bs t i h p q)
      where
        targets_All :
            (bs : List BranchTarget) (t i : ℕ)
            → All (λ b. After pc b.target_pc) bs
            → After pc t
            → After pc i
            → All (λ u. IsOk (visit u returns)) (map target bs ++ t ∷ i ∷ [])
        targets_All [] t i h p q = (After-IsOk t p, (After-IsOk i q, tt))
        targets_All (b ∷ bs) t i (first, h) p q =
            (After-IsOk b.target_pc first, targets_All bs t i h p q)

    return_cost-IsOk :
        (menu_pc : ℕ) (r : ReturnsTo pc menu_pc)
        → IsOk (
            return_cost visit returns menu_pc
              (menu_of (operation_at tape menu_pc))
              (menu_index (collect_pcs tape) menu_pc))
    unfolding return_cost
    return_cost-IsOk menu_pc r =
        let known = get_elem?-lt (limits tape) r.index r.limit r.has_limit in
        let (used, now) = get_elem?-some returns r.index (omega arith) in
        let again = λ (lt : used < r.limit).
          later menu_pc (set returns r.index (used + 1)) r.in_tape
            (length-set returns r.index (used + 1) ∙ fits)
            (measure-return pc menu_pc returns r.index used r.limit inside r.has_limit now lt) in
        rw (r.is_menu, r.is_listed, now, return_cost)
          (elim (Bool-cases (ltb used r.limit)) [
            | inl lt ↦ rw lt (again (ground arith))
            | inr ge ↦ rw ge (After-IsOk r.limit_pc r.forward)
          ])

    operation_cost-IsOk :
        (op : Operation) → Forward pc op → IsOk (operation_cost durations tape visit returns op)
    unfolding operation_cost
    operation_cost-IsOk (play_prompt prompt next) h =
        then-IsOk (visit next returns) _ (After-IsOk next h)
    operation_cost-IsOk (collect_digit prompt _ _ _ branches t i l _) (h, p, q, _) =
        then-IsOk _ _ (targets-IsOk branches t i h p q)
    operation_cost-IsOk (schedule_branch _ o k h) (p, q, r) =
        max_cost-IsOk (λ t. visit t returns) o (k ∷ h ∷ [])
          (After-IsOk o p, (After-IsOk k q, (After-IsOk h r, tt)))
    operation_cost-IsOk (record_message _ _ next un) (p, q) =
        let (c, e) = After-IsOk next p in rw e (then-IsOk (visit un returns) _ (After-IsOk un q))
    operation_cost-IsOk (external_call _ _ next missed failed) (p, q, r) = then-IsOk _ _ (
        max_cost-IsOk (λ t. visit t returns) next (missed ∷ failed ∷ [])
          (After-IsOk next p, (After-IsOk missed q, (After-IsOk failed r, tt))))
    operation_cost-IsOk (return_to_menu menu_pc) h = return_cost-IsOk menu_pc h
    operation_cost-IsOk end_call h = (0, refl)

  module _ (durations : String → Option ℕ) (forward : IsForward) where
    -- Enough fuel is more than the measure, which each call lowers.
    maximum_cost-IsOk :
        (fuel : ℕ) (active : List State) (pc : ℕ) (returns : List ℕ)
        → pc < length tape
        → length returns ≡ length (limits tape)
        → measure pc returns < fuel
        → All (λ s. measure pc returns < measure s.0 s.1) active
        → IsOk (maximum_cost durations tape fuel active pc returns)
    unfolding maximum_cost
    maximum_cost-IsOk zero active pc returns inside fits enough h = absurd (omega arith)
    maximum_cost-IsOk (suc fuel) active pc returns inside fits enough h =
        let (i, at) = get_elem?-some tape pc inside in
        let found : operation_at tape pc ≡ some i.operation = rw (at, operation_at) refl in
        rw (is_active-false measure active pc returns h, found)
          (operation_cost-IsOk durations (maximum_cost durations tape fuel ((pc, returns) ∷ active))
            pc returns inside fits
            (λ t rs lt same less.
              maximum_cost-IsOk fuel ((pc, returns) ∷ active) t rs lt same (omega arith)
                (less, All-mono _ _ (λ s l. omega arith) active h))
            i.operation (forward pc i.operation found))

    -- On a tape with at least one instruction that only goes forward, but for its returns to a menu,
    -- `maximum_cost` returns a value with the fuel `cost_fuel`, whatever the durations of the prompts.
    pub cost_fuel-IsOk :
        0 < length tape
        → IsOk (maximum_cost durations tape (cost_fuel tape) [] 0 (initial_returns tape))
    unfolding cost_fuel initial_returns measure
    cost_fuel-IsOk h =
        maximum_cost-IsOk (cost_fuel tape) [] 0 (initial_returns tape) h (length_initial tape)
          (rw (room_initial tape) (omega arith)) tt
