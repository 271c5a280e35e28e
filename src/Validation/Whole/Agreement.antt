-- ===== src/Validation/Whole/Agreement.antt =====
-- The validators against the well-formed flows and the compilers.
use ivrdroid.Validation.Whole.Sound.{visit-Passes}
use ivrdroid.Compiler.Compile.Laws.{compile_flow-WellFormed, IsCompiled}
use ivrdroid.Validation.Whole.Passes.{report_if-Passes}
use ivrdroid.Flow.WellFormed.{ids_of, WellFormed}
use ivrdroid.Compiler.{too_long, RecordingBehavior}
use ivrdroid.Compiler.Compile.{compile_flow, Compiled, Digests}
use ivrdroid.Validation.Whole.{
  known_of, unvisited, has_message, validate_root, keep_first, validate_configuration,
}
use ivrdroid.Validation.{
  report_if, assets_too_large, visit, asset_bytes, check_schedules, too_deep, too_many_steps,
  present, Block, Checked, FlowError, Input, Version, check_totals,
}
use ivrdroid.Base.{
  Bool, inr, inl, Bool-cases, ap, subst, arith, err, ◌++◌, false, ltb, ◌⊎◌, if◌then◌else◌, none,
  ◌∷◌, [], ◌≡◌, Option, ℕ, List, String, refl, ◌≤◌, length,
}
use ivrdroid.Base.Counts.{IsDistinct, count}

-- A list of messages that has one keeps it.
keep_first-cons : (k : FlowError) (kept es : List FlowError) → keep_first (k ∷ kept) es ≡ [] → ⊥
unfolding keep_first
keep_first-cons k kept [] h = cc
keep_first-cons k kept (e ∷ es) h =
    let next : Bool → Type 0 =
      λ b. keep_first (if b then k ∷ kept else k ∷ (kept ++ e ∷ [])) es ≡ [] in
    elim (Bool-cases (has_message (k ∷ kept) e)) [
      | inl old ↦ keep_first-cons k kept es (subst next old h)
      | inr new ↦ keep_first-cons k (kept ++ e ∷ []) es (subst next new h)
    ]

keep_first-nil : (es : List FlowError) → keep_first [] es ≡ [] → es ≡ []
unfolding keep_first
keep_first-nil [] h = refl
keep_first-nil (e ∷ es) h = absurd (keep_first-cons e [] es h)

-- What the tests below the walk establish of it.
totals-clean :
    (sizes : String → ℕ) (limit : ℕ) (st : Checked)
    → (check_totals sizes limit st).errors ≡ []
    → (st.errors ≡ []) × (length st.seen_blocks ≤ 64)
unfolding check_totals
totals-clean sizes limit st h =
    let long = ltb 64 (length st.seen_blocks) in
    let st' = report_if long (too_many_steps (length st.seen_blocks)) st in
    let st'' = report_if (ltb 8 st.maximum_depth) (too_deep st.maximum_depth) st' in
    let large = ltb limit (asset_bytes sizes st.used_prompts) in
    let last = report_if-Passes large assets_too_large st'' h in
    let middle =
      report_if-Passes (ltb 8 st.maximum_depth) (too_deep st.maximum_depth) st' last.clean in
    let first = report_if-Passes long (too_many_steps (length st.seen_blocks)) st middle.clean in
    (first.clean, ground (arith, first.holds))

-- A flow for which the validator returns no error is well formed, no block id occurs twice in it, and
-- it has at most 64 blocks.
pub validate_configuration-WellFormed :
    (v : Version) (input : Input) (root : Block)
    → validate_configuration v input (present root) ≡ []
    → WellFormed v root none false × IsDistinct (ids_of root) × (length (ids_of root) ≤ 64)
unfolding validate_configuration validate_root count
validate_configuration-WellFormed v input root h =
    let clean = keep_first-nil (validate_root v input root).errors h in
    let start = unvisited (check_schedules input.known_zone input.schedules) in
    let st = visit v (known_of input) root 1 none none false start in
    let (before, few) = totals-clean input.prompt_sizes input.revision_asset_limit_bytes st clean in
    let passed = visit-Passes v (known_of input) root 1 none none false start before in
    (
      passed.holds.0,
      subst IsDistinct passed.seen (passed.distinct (λ key. omega arith)),
      omega (arith, few, ap length passed.seen),
    )

-- A flow for which the validator of a release returns no error is compiled by the compiler of that
-- release, with a forward tape of one instruction for each block, or is refused with the error of a
-- session that is too long.
pub validate_configuration-compile_flow :
    (digests : Digests) (v : Version) (behavior : RecordingBehavior) (durations : String → Option ℕ)
    (input : Input) (root : Block)
    → validate_configuration v input (present root) ≡ []
    → ((c : Compiled) × IsCompiled digests v behavior durations root c)
      ⊎ (compile_flow digests v behavior durations (present root) ≡ err too_long)
validate_configuration-compile_flow digests v behavior durations input root h =
    let (w, distinct, few) = validate_configuration-WellFormed v input root h in
    compile_flow-WellFormed digests v behavior durations root w distinct
