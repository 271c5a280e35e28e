-- ===== src/Simulation/Trace/Steps.antt =====
-- One transition: the blocks that it goes to and the step that it adds to the trace.
use ivrdroid.Simulation.Trace.Returns.{
  is_elsewhere_without_menu, is_elsewhere, EventOk, is_return, limit_of, menu_of, returns_in,
  returns_in-other, returns_in-return, returns_so_far-snoc,
}
use ivrdroid.Simulation.Loop.{find_owner, take_event, return_to, unnamed}
use ivrdroid.Simulation.Trace.Inside.{
  Among-split_three, Among-tail, Among-split, Among-id, Among-nil, AmongBlock, AmongChild,
}
use ivrdroid.Flow.{
  end_call, return_to_menu, external_call, record_message, schedule_branch, play_prompt, absent,
  present, block_id, collect_digit, Child, Block,
}
use ivrdroid.Flow.WellFormed.{ids_of_child, ids_of_branches, ids_of}
use ivrdroid.Simulation.{
  Indexed, no_owning_menu, menu_return_limit, no_limit_fallback, returns_so_far, shown_prompt,
  block_label, is_invalid, follow, Message, Status, choose, stop, traced, go_on, Playing, Simulated,
  TraceStep, Turn, menu_return, TraceEvent,
}
use ivrdroid.Base.Counts.{count}
use ivrdroid.Base.{
  append_assoc, append-nil, eq_iff, subst, sym, ap, ◌++◌, ◌∙◌, false, true, refl, leb, Bool,
  Bool-cases, length-append, str_eq, Bool-cases, if◌then◌else◌, length-append, Bool, ℕ, ◌<◌, ◌≤◌,
  ◌≡◌, String, List, [], ◌∷◌, Option, none, some, arith, All, inl, inr, suc, ◌+◌, length,
}

-- A step of the trace, after the steps before it, names a block of the flow.
pub record StepOk (root : Block) (flow : Indexed) (before : List TraceStep) (s : TraceStep)
    : Type 0 where
  pub known : 0 < count s.block_id (ids_of root)
  pub event_ok : EventOk flow before s.label s.block_id s.event

abbrev pub TraceOk : Block → Indexed → List TraceStep → List TraceStep → Type 0
TraceOk root flow before [] = Unit
TraceOk root flow before (s ∷ steps) =
    StepOk root flow before s × TraceOk root flow (before ++ s ∷ []) steps

TraceOk-snoc :
    (root : Block) (flow : Indexed) (before steps : List TraceStep) (s : TraceStep)
    → TraceOk root flow before steps
    → StepOk root flow (before ++ steps) s
    → TraceOk root flow before (steps ++ s ∷ [])
TraceOk-snoc root flow before [] s h p =
    (subst (λ l. StepOk root flow l s) (append-nil before) p, tt)
TraceOk-snoc root flow before (x ∷ steps) s (q, h) p = (
  q,
  TraceOk-snoc root flow (before ++ x ∷ []) steps s h
      (subst (λ l. StepOk root flow l s) (sym (append_assoc before (x ∷ []) steps)) p),
)

-- What holds after `n` transitions: `menu_returns` counts the returns that the trace notes.
pub record PlayingOk (root : Block) (flow : Indexed) (n : ℕ) (st : Playing) : Type 0 where
  pub at_block : AmongBlock root st.current
  pub steps : TraceOk root flow [] st.trace
  pub counted : (id : String) → returns_so_far id st.menu_returns ≡ returns_in flow id st.trace
  pub short : length st.trace ≤ n

pub record SimulatedOk (root : Block) (flow : Indexed) (n : ℕ) (r : Simulated) : Type 0 where
  pub steps : TraceOk root flow [] r.trace
  pub short : length r.trace ≤ n

abbrev pub TurnOk : Block → Indexed → ℕ → Turn → Type 0
TurnOk root flow n (go_on st) = PlayingOk root flow n st
TurnOk root flow n (stop r) = SimulatedOk root flow n r

module _ (root : Block) (flow : Indexed) (n : ℕ) (b : Block) (st : Playing)
    (ok : PlayingOk root flow n st) (here : AmongBlock root b) where
  abbrev step_of : Option TraceEvent → TraceStep
  step_of e = record {
    block_id = block_id b;
    label = block_label b;
    prompt_id = shown_prompt b;
    event = e;
  }

  traced-Ok :
      (e : Option TraceEvent)
      → EventOk flow st.trace (block_label b) (block_id b) e
      → TraceOk root flow [] (traced b e st)
  traced-Ok e h =
      TraceOk-snoc root flow [] st.trace (step_of e) ok.steps
        (record { known = Among-id root b here; event_ok = h })

  traced-counted :
      (e : Option TraceEvent)
      → is_return e ≡ false
      → (id : String) → returns_so_far id st.menu_returns ≡ returns_in flow id (traced b e st)
  traced-counted e other id =
      ok.counted id ∙ sym (returns_in-other flow id st.trace (step_of e) other)

  traced-short : (e : Option TraceEvent) → length (traced b e st) ≤ suc n
  traced-short e = omega (
    arith,
    length-append st.trace (
        record {
          block_id = block_id b;
          label = block_label b;
          prompt_id = shown_prompt b;
          event = e;
        }
        ∷ []),
    ok.short,
  )

  pub stop-Ok :
      (status : Status) (m : Message) (id : Option String) (available : List String)
      (e : Option TraceEvent)
      → EventOk flow st.trace (block_label b) (block_id b) e
      → SimulatedOk root flow (suc n) (record {
        status = status;
        trace = traced b e st;
        awaiting_block_id = id;
        available = available;
        message = m;
      })
  stop-Ok status m id available e h = record { steps = traced-Ok e h; short = traced-short e }

  pub follow-Ok :
      (c : Child) (m : Message) (missed e : Option TraceEvent) (events : List String)
      → AmongChild root c
      → EventOk flow st.trace (block_label b) (block_id b) missed
      → EventOk flow st.trace (block_label b) (block_id b) e
      → is_return e ≡ false
      → TurnOk root flow (suc n) (follow c m missed e b events st)
  unfolding ids_of
  follow-Ok absent m missed e events h p q other = stop-Ok is_invalid m none [] missed p
  follow-Ok (present next) m missed e events h p q other = record {
    at_block = h;
    steps = traced-Ok e q;
    counted = traced-counted e other;
    short = traced-short e;
  }

  pub take_event-Ok :
      (events : List String) (status : Status) (m : Message) (available : List String)
      (next : String → List String → Turn)
      → EventOk flow st.trace (block_label b) (block_id b) none
      → ((e : String) (es : List String) → TurnOk root flow (suc n) (next e es))
      → TurnOk root flow (suc n) (take_event events status m available b st next)
  take_event-Ok [] status m available next p h =
      stop-Ok status m (some (block_id b)) available none p
  take_event-Ok (e ∷ es) status m available next p h = h e es

  pub unnamed-Ok :
      AmongBlock root st.current
      → EventOk flow st.trace (block_label b) (block_id b) none
      → TurnOk root flow (suc n) (unnamed b st)
  unnamed-Ok h p = record {
    at_block = h;
    steps = traced-Ok none p;
    counted = traced-counted none refl;
    short = traced-short none;
  }

  pub if-Ok :
      (test : Bool) (t u : Turn)
      → (test ≡ true → TurnOk root flow (suc n) t)
      → (test ≡ false → TurnOk root flow (suc n) u)
      → TurnOk root flow (suc n) (if test then t else u)
  if-Ok true t u p q = p refl
  if-Ok false t u p q = q refl

  -- `menu_returns` after a return to the menu of an id.
  return_to-counted :
      (menu_id : String) (limit : ℕ)
      → menu_of flow (block_id b) ≡ some (menu_id, limit)
      → (id : String)
      → returns_so_far id
          (st.menu_returns ++ (menu_id, (returns_so_far menu_id st.menu_returns + 1)) ∷ [])
        ≡ returns_in flow id
            (traced b (some (menu_return (returns_so_far menu_id st.menu_returns + 1) limit)) st)
  return_to-counted menu_id limit menu id =
      let count = returns_so_far menu_id st.menu_returns in
      let event = some (menu_return (count + 1) limit) in
      let before = returns_so_far-snoc id menu_id (count + 1) st.menu_returns in
      let after = returns_in-return flow id st.trace (step_of event) menu_id limit refl menu in
      elim (Bool-cases (str_eq id menu_id)) [
        | inl same ↦
            (let equal : id ≡ menu_id = (eq_iff id menu_id).0 same in
              let noted : count ≡ returns_in flow id st.trace =
                ap (λ i. returns_so_far i st.menu_returns) (sym equal) ∙ ok.counted id in
              ground (arith, before, after, same, noted))
        | inr other ↦ ground (arith, before, after, other, ok.counted id)
      ]

  no_menu :
      (owner : Option Block)
      → find_owner flow (block_id b) ≡ owner
      → limit_of owner ≡ none
      → is_elsewhere (block_label b) (menu_of flow (block_id b)) ≡ true
  no_menu owner owned none_there =
      is_elsewhere_without_menu (block_label b) (menu_of flow (block_id b))
        (ap limit_of owned ∙ none_there)

  pub return_to-Ok :
      (owner : Option Block)
      → find_owner flow (block_id b) ≡ owner
      → ((o : Block) → owner ≡ some o → AmongBlock root o)
      → TurnOk root flow (suc n) (return_to b st owner)
  unfolding ids_of
  return_to-Ok (some (collect_digit id menu bs t i l)) owned h =
      let whole = h (collect_digit id menu bs t i l) refl in
      let (a, rest) = Among-split root (ids_of_branches bs) _ (Among-tail root id _ whole) in
      let (x, y, z) =
        Among-split_three root (ids_of_child t) (ids_of_child i) (ids_of_child l) rest in
      let count = returns_so_far id st.menu_returns in
      let at_menu : menu_of flow (block_id b) ≡ some (id, menu.maximum_menu_returns) =
        ap limit_of owned in
      if-Ok (leb menu.maximum_menu_returns count) _ _
        (λ used.
          let noted : EventOk flow st.trace (block_label b) (block_id b) (some menu_return_limit) =
            (id, menu.maximum_menu_returns, at_menu, ground (arith, used, ok.counted id)) in
          follow-Ok l no_limit_fallback (some menu_return_limit) (some menu_return_limit) st.events
            z noted noted refl)
        (λ left. record {
          at_block = whole;
          steps =
              traced-Ok (some (menu_return (count + 1) menu.maximum_menu_returns))
                (id, at_menu, omega (arith, ok.counted id), ground (arith, left));
          counted = return_to-counted id menu.maximum_menu_returns at_menu;
          short = traced-short (some (menu_return (count + 1) menu.maximum_menu_returns));
        })
  return_to-Ok none owned h = stop-Ok is_invalid no_owning_menu none [] none (no_menu _ owned refl)
  return_to-Ok (some (play_prompt _ _ _)) owned h =
      stop-Ok is_invalid no_owning_menu none [] none (no_menu _ owned refl)
  return_to-Ok (some (schedule_branch _ _ _ _ _)) owned h =
      stop-Ok is_invalid no_owning_menu none [] none (no_menu _ owned refl)
  return_to-Ok (some (record_message _ _ _)) owned h =
      stop-Ok is_invalid no_owning_menu none [] none (no_menu _ owned refl)
  return_to-Ok (some (external_call _ _ _ _ _ _)) owned h =
      stop-Ok is_invalid no_owning_menu none [] none (no_menu _ owned refl)
  return_to-Ok (some (return_to_menu _)) owned h =
      stop-Ok is_invalid no_owning_menu none [] none (no_menu _ owned refl)
  return_to-Ok (some (end_call _)) owned h =
      stop-Ok is_invalid no_owning_menu none [] none (no_menu _ owned refl)

pub choose-Among :
    (root : Block) (cs : List (String × Child)) (outcome : String)
    → All (λ p. AmongChild root p.1) cs
    → AmongChild root (choose cs outcome)
unfolding ids_of
choose-Among root [] outcome h = Among-nil root
choose-Among root ((k, c) ∷ rest) outcome (p, h) = elim (Bool-cases (str_eq outcome k)) [
  | inl same ↦ rw same p
  | inr other ↦ rw other (choose-Among root rest outcome h)
]
