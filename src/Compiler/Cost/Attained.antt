-- ===== src/Compiler/Cost/Attained.antt =====
-- `maximum_cost` against the longest run: the run that takes as long.
use ivrdroid.Base.{
  ◌>>=◌, max, ◌≡◌, ◌≤◌, ◌<◌, ◌+◌, ◌*◌, >>=-eq-ok, List, Option, String, some, none, ℕ, get_elem?,
  set, arith, suc, zero, refl, ok, [], ◌∷◌, ◌++◌, map, ap, ltb, inl, inr, ◌⊎◌, Bool-cases,
  Option-cases, leb, subst, ◌∙◌,
}
use ivrdroid.Compiler.{
  BranchTarget, Instruction, Operation, collect_digit, end_call, external_call, play_prompt,
  record_message, return_to_menu, schedule_branch,
}
use ivrdroid.Compiler.Cost.{
  Cost, State, beep_duration_ms, collect_pcs, external_control_watchdogs_ms, max_cost, maximum_cost,
  menu_index, menu_of, operation_at, operation_cost, return_cost, target, duration_of,
}
use ivrdroid.Compiler.Cost.Runs.{
  Step, play, key_pressed, timed_out, refused, scheduled, recorded, not_recorded, called, returned,
  returns_used_up, Run, stop, go_on,
}
use mathlib.Core.List.{Memᴰ}

-- One of the targets has the largest cost.
max_cost-attained :
    (visit : ℕ → Cost) (ts : List ℕ) (bound : ℕ)
    → max_cost visit ts ≡ ok bound
    → (t : ℕ) × Memᴰ t ts × (visit t ≡ ok bound)
unfolding max_cost
max_cost-attained visit [] bound e = cc
max_cost-attained visit (t ∷ []) bound e = (t, Memᴰ.head refl, e)
max_cost-attained visit (t ∷ u ∷ ts) bound e =
    let (c, first, e') =
      >>=-eq-ok (visit t) (λ c. max_cost visit (u ∷ ts) >>= λ d. ok (max c d)) e in
    let (d, others, e'') = >>=-eq-ok (max_cost visit (u ∷ ts)) (λ d. ok (max c d)) e' in
    let (w, m, at) = max_cost-attained visit (u ∷ ts) d others in
    elim (Bool-cases (leb d c)) [
      | inl le ↦ let same : c ≡ bound = ground arith in (t, Memᴰ.head refl, first ∙ ap ok same)
      | inr gt ↦ let same : d ≡ bound = ground arith in (w, Memᴰ.tail m, at ∙ ap ok same)
    ]

-- What the targets of a menu are.
Memᴰ-menu :
    (t : ℕ) (branches : List BranchTarget) (on_timeout on_invalid : ℕ)
    → Memᴰ t (map target branches ++ on_timeout ∷ on_invalid ∷ [])
    → ((b : BranchTarget) × Memᴰ b branches × (t ≡ b.target_pc))
      ⊎ ((t ≡ on_timeout) ⊎ (t ≡ on_invalid))
Memᴰ-menu t [] o i (Memᴰ.head p) = inr (inl p)
Memᴰ-menu t [] o i (Memᴰ.tail (Memᴰ.head p)) = inr (inr p)
Memᴰ-menu t [] o i (Memᴰ.tail (Memᴰ.tail m)) = elim m [ ]
Memᴰ-menu t (b ∷ bs) o i (Memᴰ.head p) = inl (b, Memᴰ.head refl, p)
Memᴰ-menu t (b ∷ bs) o i (Memᴰ.tail m) = elim (Memᴰ-menu t bs o i m) [
  | inl (c, at, p) ↦ inl (c, Memᴰ.tail at, p)
  | inr other ↦ inr other
]

-- Which branch a return took.
record Chosen (visit : ℕ → List ℕ → Cost) (returns : List ℕ) (menu : ℕ) (at : Option (ℕ × ℕ))
    (listed : Option ℕ) (bound : ℕ) : Type 0 where
  limit : ℕ
  limit_pc : ℕ
  index : ℕ
  used : ℕ
  is_menu : at ≡ some (limit, limit_pc)
  is_listed : listed ≡ some index
  now : get_elem? returns index ≡ some used
  way :
      ((used < limit) × (visit menu (set returns index (used + 1)) ≡ ok bound))
      ⊎ ((limit ≤ used) × (visit limit_pc returns ≡ ok bound))

return_cost-Chosen :
    (visit : ℕ → List ℕ → Cost) (returns : List ℕ) (menu : ℕ) (at : Option (ℕ × ℕ))
    (listed : Option ℕ) (bound : ℕ)
    → return_cost visit returns menu at listed ≡ ok bound
    → Chosen visit returns menu at listed bound
unfolding return_cost
return_cost-Chosen visit returns menu none listed bound e = cc
return_cost-Chosen visit returns menu (some (l, lp)) none bound e = cc
return_cost-Chosen visit returns menu (some (l, lp)) (some index) bound e =
    elim (Option-cases (get_elem? returns index)) [
      | inl missing ↦ absurd (ground arith)
      | inr (used, now) ↦ record {
        limit = l;
        limit_pc = lp;
        index = index;
        used = used;
        is_menu = refl;
        is_listed = refl;
        now = now;
        way = elim (Bool-cases (ltb used l)) [
          | inl lt ↦ inl (ground arith, ground arith)
          | inr ge ↦ inr (ground arith, ground arith)
        ];
      }
    ]

module _ (durations : String → Option ℕ) (tape : List Instruction) where
  -- A run from the state of as much time as the bound, if it goes on as `visit` says.
  module _ (pc : ℕ) (returns : List ℕ) (visit : ℕ → List ℕ → Cost)
      (ih : (t : ℕ) (rs : List ℕ) (b : ℕ) → visit t rs ≡ ok b → Run durations tape (t, rs) b) where
    abbrev Attains : ℕ → Type 0
    Attains bound = Run durations tape (pc, returns) bound

    Step-then :
        (t : ℕ) (rs : List ℕ) (c d bound : ℕ)
        → Step durations tape (pc, returns) (t, rs) c
        → visit t rs ≡ ok d
        → c + d ≡ bound
        → Attains bound
    Step-then t rs c d bound st e same =
        subst (λ n. Run durations tape (pc, returns) n) same (go_on st (ih t rs d e))

    operation_attained :
        (op : Operation) (bound : ℕ)
        → operation_at tape pc ≡ some op
        → operation_cost durations tape visit returns op ≡ ok bound
        → Attains bound
    unfolding operation_cost
    operation_attained end_call bound at e =
        subst (λ n. Run durations tape (pc, returns) n)
          (let same : 0 ≡ bound = ground arith in same) stop
    operation_attained (play_prompt prompt next) bound at e =
        let (d, more, e') =
          >>=-eq-ok (visit next returns) (λ d. ok (duration_of durations prompt + d)) e in
        Step-then next returns (duration_of durations prompt) d bound (play prompt next at) more
          (ground arith)
    operation_attained (schedule_branch s o c h) bound at e =
        let (t, m, found) = max_cost-attained (λ t. visit t returns) (o ∷ c ∷ h ∷ []) bound e in
        Step-then t returns 0 bound bound (scheduled s o c h t at m) found (omega arith)
    operation_attained (collect_digit prompt wait attempts limit branches o i k flag) bound at e =
        let ts = map target branches ++ o ∷ i ∷ [] in
        let time = attempts * (duration_of durations prompt + wait) in
        let (d, all, e') = >>=-eq-ok (max_cost (λ t. visit t returns) ts) (λ d. ok (time + d)) e in
        let (t, m, found) = max_cost-attained (λ t. visit t returns) ts d all in
        let full : time ≤ time = omega arith in
        let sum : time + d ≡ bound = ground arith in
        elim (Memᴰ-menu t branches o i m) [
          | inl (b, listed, p) ↦
              Step-then b.target_pc returns time d bound
                (key_pressed prompt wait attempts limit branches o i k flag b time at listed full)
                (rw p at found) sum
          | inr (inl p) ↦
              Step-then o returns time d bound
                (timed_out prompt wait attempts limit branches o i k flag time at full)
                (rw p at found) sum
          | inr (inr p) ↦
              Step-then i returns time d bound
                (refused prompt wait attempts limit branches o i k flag time at full)
                (rw p at found) sum
        ]
    operation_attained (record_message ms key n u) bound at e =
        let after = λ (c : ℕ).
          visit u returns >>= λ d. ok (max (beep_duration_ms + ms + c) (beep_duration_ms + d)) in
        let (c, first, e') = >>=-eq-ok (visit n returns) after e in
        let (d, second, e'') =
          >>=-eq-ok (visit u returns)
            (λ d. ok (max (beep_duration_ms + ms + c) (beep_duration_ms + d))) e' in
        elim (Bool-cases (leb (beep_duration_ms + d) (beep_duration_ms + ms + c))) [
          | inl le ↦
              Step-then n returns (beep_duration_ms + ms) c bound
                (recorded ms key n u (beep_duration_ms + ms) at (omega arith)) first (ground arith)
          | inr gt ↦
              Step-then u returns beep_duration_ms d bound
                (not_recorded ms key n u beep_duration_ms at (omega arith)) second (ground arith)
        ]
    operation_attained (external_call phone answer n m f) bound at e =
        let ts : List ℕ = n ∷ m ∷ f ∷ [] in
        let time = external_control_watchdogs_ms + answer in
        let (d, all, e') = >>=-eq-ok (max_cost (λ t. visit t returns) ts) (λ d. ok (time + d)) e in
        let (t, listed, found) = max_cost-attained (λ t. visit t returns) ts d all in
        Step-then t returns time d bound (called phone answer n m f t time at listed (omega arith))
          found (ground arith)
    operation_attained (return_to_menu menu) bound at e =
        let r =
          return_cost-Chosen visit returns menu (menu_of (operation_at tape menu))
            (menu_index (collect_pcs tape) menu) bound e in
        elim r.way [
          | inl (lt, found) ↦
              Step-then menu (set returns r.index (r.used + 1)) 0 bound bound
                (returned menu r.limit r.limit_pc r.index r.used at r.is_menu r.is_listed r.now lt)
                found (omega arith)
          | inr (le, found) ↦
              Step-then r.limit_pc returns 0 bound bound
                (returns_used_up menu r.limit r.limit_pc r.index r.used at r.is_menu r.is_listed
                  r.now le)
                found (omega arith)
        ]

  -- A computed cost is the time of some run.
  pub maximum_cost-attained :
      (fuel : ℕ) (active : List State) (pc : ℕ) (returns : List ℕ) (bound : ℕ)
      → maximum_cost durations tape fuel active pc returns ≡ ok bound
      → Run durations tape (pc, returns) bound
  unfolding maximum_cost
  maximum_cost-attained zero active pc returns bound e = cc
  maximum_cost-attained (suc fuel) active pc returns bound e =
      elim (Option-cases (operation_at tape pc)) [
        | inl missing ↦ absurd (ground arith)
        | inr (op, at) ↦
            operation_attained pc returns
              (maximum_cost durations tape fuel ((pc, returns) ∷ active))
              (λ t rs b f. maximum_cost-attained fuel ((pc, returns) ∷ active) t rs b f) op bound at
              (ground arith)
      ]
