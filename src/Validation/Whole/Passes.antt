-- ===== src/Validation/Whole/Passes.antt =====
-- Steps of a validator that report nothing: what they then have established, which blocks they have
-- seen, and how steps are composed.
use ivrdroid.Validation.{deepen, see, block_shared, report, report_if, Checked, FlowError, once}
use ivrdroid.Base.{
  ◌≡◌, Bool, List, String, false, true, [], ◌++◌, ◌∷◌, ℕ, refl, Bool-cases, inl, inr, append_assoc,
  append-nil, ◌∙◌, ap, sym, arith, eq_iff,
}
use ivrdroid.Base.Counts.{contains, count, count-append, count-eq-zero, IsDistinct}

-- A step from `st` to `st'` that established `P` and saw the blocks `added`, each for the first time.
pub record Passed (P : Type 0) (added : List String) (st st' : Checked) : Type 0 where
  pub clean : st.errors ≡ []
  pub holds : P
  pub seen : st'.seen_blocks ≡ st.seen_blocks ++ added
  pub distinct : IsDistinct st.seen_blocks → IsDistinct st'.seen_blocks

-- A step that leaves no error has passed.
abbrev pub Passes : Type 0 → List String → (Checked → Checked) → Type 0
Passes P added f = (st : Checked) → (f st).errors ≡ [] → Passed P added st (f st)

pub Passes-then :
    {P Q : Type 0} {a b : List String} {f g : Checked → Checked}
    → Passes P a f
    → Passes Q b g
    → Passes (P × Q) (a ++ b) (λ st. g (f st))
Passes-then {a = a} {b = b} {f = f} {g = g} p q st e =
    let later = q (f st) e in
    let sooner = p st later.clean in
    record {
      clean = sooner.clean;
      holds = (sooner.holds, later.holds);
      seen =
          later.seen
          ∙ ap (λ (s : List String). s ++ b) sooner.seen
          ∙ append_assoc st.seen_blocks a b;
      distinct = λ d. later.distinct (sooner.distinct d);
    }

pub Passes-map :
    {P Q : Type 0} {a : List String} {f : Checked → Checked} → (P → Q) → Passes P a f → Passes Q a f
Passes-map h p st e =
    let s = p st e in
    record { clean = s.clean; holds = h s.holds; seen = s.seen; distinct = s.distinct }

append-no-error : (es : List FlowError) (e : FlowError) → (es ++ e ∷ []) ≡ [] → ⊥
append-no-error [] e h = cc
append-no-error (x ∷ es) e h = cc

pub report-Passes : {P : Type 0} {a : List String} (e : FlowError) → Passes P a (report e)
report-Passes e st h = absurd (append-no-error st.errors e h)

pub report_if-Passes : (test : Bool) (e : FlowError) → Passes (test ≡ false) [] (report_if test e)
report_if-Passes true e st h = absurd (append-no-error st.errors e h)
report_if-Passes false e st h = record {
  clean = h;
  holds = refl;
  seen = sym (append-nil st.seen_blocks);
  distinct = λ d. d;
}

pub idle-Passes : Passes Unit [] (λ st. st)
idle-Passes st h = record {
  clean = h;
  holds = tt;
  seen = sym (append-nil st.seen_blocks);
  distinct = λ d. d;
}

distinct-snoc :
    (xs : List String) (x : String)
    → contains xs x ≡ false
    → IsDistinct xs
    → IsDistinct (xs ++ x ∷ [])
unfolding count
distinct-snoc xs x h d key = ground (
  arith,
  count-append key xs (x ∷ []),
  d key,
  count-eq-zero xs x h,
  eq_iff key x,
  ap (λ (k : String). count k xs),
)

-- A block that is reported by nothing is a new one.
pub once-Passes :
    {P : Type 0} {a : List String} {body : Checked → Checked} (id : String) (depth : ℕ)
    → Passes P a body
    → Passes P (id ∷ a) (once id depth body)
unfolding once
once-Passes {a = a} {body = body} id depth p st = elim (Bool-cases (contains st.seen_blocks id)) [
  | inl found ↦ rw found (λ e. absurd (append-no-error st.errors block_shared e))
  | inr fresh ↦ rw fresh (λ e.
      let s = p (see id depth (deepen depth st)) e in
      record {
        clean = s.clean;
        holds = s.holds;
        seen = s.seen ∙ append_assoc st.seen_blocks (id ∷ []) a;
        distinct = λ d. s.distinct (distinct-snoc st.seen_blocks id fresh d);
      })
]
