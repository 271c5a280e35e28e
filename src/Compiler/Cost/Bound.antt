-- ===== src/Compiler/Cost/Bound.antt =====
-- `maximum_cost` against every run, step by step.
use ivrdroid.Base.{
  ◌>>=◌, max, ◌≡◌, ◌≢◌, ◌≤◌, ◌<◌, >>=-eq-ok, List, Option, String, some, ℕ, ◌+◌, get_elem?, set,
  arith, suc, zero, refl, ap, ok, [], ◌∷◌, ◌++◌, map,
}
use ivrdroid.Compiler.{BranchTarget, Instruction, Operation, schedule_branch}
use ivrdroid.Compiler.Cost.{
  Cost, beep_duration_ms, external_control_watchdogs_ms, State, operation_at, max_cost,
  maximum_cost, operation_cost, return_cost, target,
}
use ivrdroid.Compiler.Cost.Runs.{
  Step, play, key_pressed, timed_out, refused, scheduled, recorded, not_recorded, called, returned,
  returns_used_up, Run, stop, go_on,
}
use mathlib.Core.List.{Memᴰ}

-- A value of at most `bound` that leaves room for `c`.
abbrev Within : Cost → ℕ → ℕ → Type 0
Within cost c bound = (rest : ℕ) × (cost ≡ ok rest) × (c + rest ≤ bound)

max_cost_bounds :
    (visit : ℕ → Cost) (ts : List ℕ) (t bound : ℕ)
    → Memᴰ t ts
    → max_cost visit ts ≡ ok bound
    → Within (visit t) 0 bound
unfolding max_cost
max_cost_bounds visit [] t bound m e = cc
max_cost_bounds visit (u ∷ []) t bound (Memᴰ.head p) e = (bound, rw p e, omega arith)
max_cost_bounds visit (u ∷ []) t bound (Memᴰ.tail m) e = elim m [ ]
max_cost_bounds visit (u ∷ w ∷ ts) t bound (Memᴰ.head p) e =
    let (c, first, e') = >>=-eq-ok (visit u) _ e in
    let (d, others, e'') = >>=-eq-ok (max_cost visit (w ∷ ts)) _ e' in (c, rw p first, ground arith)
max_cost_bounds visit (u ∷ w ∷ ts) t bound (Memᴰ.tail m) e =
    let (c, first, e') = >>=-eq-ok (visit u) _ e in
    let (d, others, e'') = >>=-eq-ok (max_cost visit (w ∷ ts)) _ e' in
    let (r, mine, le) = max_cost_bounds visit (w ∷ ts) t d m others in (r, mine, ground arith)

Within-add : (cost : Cost) (c d bound : ℕ) → Within cost 0 d → c + d ≤ bound → Within cost c bound
Within-add cost c d bound (r, e, le) h = (r, e, omega arith)

Memᴰ-append_right : {t : ℕ} (xs : List ℕ) {ys : List ℕ} → Memᴰ t ys → Memᴰ t (xs ++ ys)
Memᴰ-append_right [] m = m
Memᴰ-append_right (x ∷ xs) m = Memᴰ.tail (Memᴰ-append_right xs m)

Memᴰ-target :
    {b : BranchTarget} {bs : List BranchTarget}
    → Memᴰ b bs
    → (ys : List ℕ) → Memᴰ b.target_pc (map target bs ++ ys)
Memᴰ-target (Memᴰ.head p) ys = Memᴰ.head (ap target p)
Memᴰ-target (Memᴰ.tail m) ys = Memᴰ.tail (Memᴰ-target m ys)

-- What the branch of `record_message` takes from its two paths.
record_parts :
    (m k : Cost) (long short bound : ℕ)
    → (m >>= λ c. k >>= λ d. ok (max (long + c) (short + d))) ≡ ok bound
    → (c d : ℕ) × (m ≡ ok c) × (k ≡ ok d) × (long + c ≤ bound) × (short + d ≤ bound)
record_parts m k long short bound e =
    let (c, first, e') = >>=-eq-ok m (λ c. k >>= λ d. ok (max (long + c) (short + d))) e in
    let (d, second, e'') = >>=-eq-ok k (λ d. ok (max (long + c) (short + d))) e' in
    (c, d, first, second, ground arith, ground arith)

-- The two branches of `return_cost`, from the facts that a step states.
module _ (visit : ℕ → List ℕ → Cost) (returns : List ℕ) (menu limit limit_pc index used : ℕ)
    {at : Option (ℕ × ℕ)} {listed : Option ℕ} {bound : ℕ}
    (e : return_cost visit returns menu at listed ≡ ok bound)
    (is_menu : at ≡ some (limit, limit_pc)) (is_listed : listed ≡ some index)
    (now : get_elem? returns index ≡ some used) where
  return_again : used < limit → visit menu (set returns index (used + 1)) ≡ ok bound
  unfolding return_cost
  return_again lt = ground arith

  return_limit : limit ≤ used → visit limit_pc returns ≡ ok bound
  unfolding return_cost
  return_limit le = ground arith

module _ (durations : String → Option ℕ) (tape : List Instruction) where
  abbrev onward : ℕ → List State → ℕ → List ℕ → ℕ → Cost
  onward fuel active pc returns t =
      maximum_cost durations tape fuel ((pc, returns) ∷ active) t returns

  -- What a state that returned a value has computed.
  maximum_cost-operation :
      (fuel : ℕ) (active : List State) (pc : ℕ) (returns : List ℕ) (op : Operation) {bound : ℕ}
      → maximum_cost durations tape (suc fuel) active pc returns ≡ ok bound
      → operation_at tape pc ≡ some op
      → operation_cost durations tape
          (λ t r. maximum_cost durations tape fuel ((pc, returns) ∷ active) t r)
          returns
          op
        ≡ ok bound
  unfolding maximum_cost
  maximum_cost-operation fuel active pc returns op e at = ground arith

  maximum_cost-no_fuel :
      (active : List State) (pc : ℕ) (returns : List ℕ) {bound : ℕ}
      → maximum_cost durations tape zero active pc returns ≢ ok bound
  unfolding maximum_cost
  maximum_cost-no_fuel active pc returns e = cc

  -- One step of a run is paid for by the bound of the state that it leaves.
  Step-Within :
      (fuel : ℕ) (active : List State) (pc pc' : ℕ) (returns returns' : List ℕ) (c bound : ℕ)
      → maximum_cost durations tape (suc fuel) active pc returns ≡ ok bound
      → Step durations tape (pc, returns) (pc', returns') c
      → Within (maximum_cost durations tape fuel ((pc, returns) ∷ active) pc' returns') c bound
  unfolding operation_cost
  Step-Within fuel active pc pc' returns returns' c bound e (play prompt next at) =
      let (r, more, e') = >>=-eq-ok _ _ (maximum_cost-operation fuel active pc returns _ e at) in
      (r, more, ground arith)
  Step-Within fuel active pc pc' returns returns' c bound e
        (key_pressed prompt wait attempts limit branches t i l flag branch waited at m le) =
      let (d, all, e') = >>=-eq-ok _ _ (maximum_cost-operation fuel active pc returns _ e at) in
      Within-add _ c d bound (max_cost_bounds _ _ _ d (Memᴰ-target m (t ∷ i ∷ [])) all)
        (ground arith)
  Step-Within fuel active pc pc' returns returns' c bound e
        (timed_out prompt wait attempts limit branches t i l flag waited at le) =
      let (d, all, e') = >>=-eq-ok _ _ (maximum_cost-operation fuel active pc returns _ e at) in
      let m = Memᴰ-append_right (map target branches) (Memᴰ.head {xs = i ∷ []} refl) in
      Within-add _ c d bound (max_cost_bounds _ _ _ d m all) (ground arith)
  Step-Within fuel active pc pc' returns returns' c bound e
        (refused prompt wait attempts limit branches t i l flag waited at le) =
      let (d, all, e') = >>=-eq-ok _ _ (maximum_cost-operation fuel active pc returns _ e at) in
      let m = Memᴰ-append_right (map target branches) (Memᴰ.tail {x = t} (Memᴰ.head refl)) in
      Within-add _ c d bound (max_cost_bounds _ _ _ d m all) (ground arith)
  Step-Within fuel active pc pc' returns returns' c bound e (scheduled schedule o k h to at m) =
      max_cost_bounds (onward fuel active pc returns) (o ∷ k ∷ h ∷ []) to bound m
        (maximum_cost-operation fuel active pc returns (schedule_branch schedule o k h) e at)
  Step-Within fuel active pc pc' returns returns' c bound e (recorded ms key next un taken at le) =
      let after = onward fuel active pc returns in
      let (d, d', first, second, le_next, le_un) =
        record_parts (after next) (after un) (beep_duration_ms + ms) beep_duration_ms bound
          (maximum_cost-operation fuel active pc returns _ e at) in
      (d, first, omega arith)
  Step-Within fuel active pc pc' returns returns' c bound e
        (not_recorded ms key next un taken at le) =
      let after = onward fuel active pc returns in
      let (d, d', first, second, le_next, le_un) =
        record_parts (after next) (after un) (beep_duration_ms + ms) beep_duration_ms bound
          (maximum_cost-operation fuel active pc returns _ e at) in
      (d', second, omega arith)
  Step-Within fuel active pc pc' returns returns' c bound e
        (called phone answer next missed failed to taken at m le) =
      let after = onward fuel active pc returns in
      let ts : List ℕ = next ∷ missed ∷ failed ∷ [] in
      let (d, all, e') =
        >>=-eq-ok (max_cost after ts) (λ d. ok (external_control_watchdogs_ms + answer + d))
          (maximum_cost-operation fuel active pc returns _ e at) in
      Within-add _ c d bound (max_cost_bounds after ts to d m all) (ground arith)
  Step-Within fuel active pc pc' returns returns' c bound e
        (returned menu limit limit_pc index used at is_menu listed now lt) =
      (
        bound,
        return_again (maximum_cost durations tape fuel ((pc, returns) ∷ active)) returns menu limit
            limit_pc index used (maximum_cost-operation fuel active pc returns _ e at) is_menu
            listed now lt,
        omega arith,
      )
  Step-Within fuel active pc pc' returns returns' c bound e
        (returns_used_up menu limit limit_pc index used at is_menu listed now le) =
      (
        bound,
        return_limit (maximum_cost durations tape fuel ((pc, returns) ∷ active)) returns menu limit
            limit_pc index used (maximum_cost-operation fuel active pc returns _ e at) is_menu
            listed now le,
        omega arith,
      )

  pub Run-le :
      (fuel : ℕ) (active : List State) (s : State) (n bound : ℕ)
      → maximum_cost durations tape fuel active s.0 s.1 ≡ ok bound
      → Run durations tape s n
      → n ≤ bound
  Run-le fuel active s n bound e stop = omega arith
  Run-le zero active s n bound e (go_on {c = c} {n = k} st run) =
      absurd (maximum_cost-no_fuel active s.0 s.1 e)
  Run-le (suc fuel) active s n bound e (go_on {t = t} {c = c} {n = k} st run) =
      let (r, more, le) = Step-Within fuel active s.0 t.0 s.1 t.1 c bound e st in
      omega (arith, Run-le fuel (s ∷ active) t k r more run)
