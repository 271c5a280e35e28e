-- ===== src/Compiler/Collect/Jobs.antt =====
-- Calls of `collect` that succeed and what they add, and how such calls are put one after another.
use ivrdroid.Base.{
  ◌≡◌, ◌≤◌, ◌+◌, ◌>>=◌, ◌>>◌, ok, guard, Bool, true, false, String, List, [], ◌∷◌, ◌++◌, Option,
  ◌⊎◌, inl, inr, All, All-append, append_assoc, append-nil, arith, refl, sym, ap, ◌∙◌, leb,
  Bool-cases,
}
use ivrdroid.Base.Counts.{count, count-append, count-cons, count-nil, count_self, contains-eq-false}
use ivrdroid.Flow.{Block, Digit, block_id, dtmf_index, insert_by, sort_by}
use ivrdroid.Compiler.{Collected, CompileError, Entry}
use ivrdroid.Compiler.Placed.{
  Open, Placed, Placed-Within, PlacedBlock, Resolved, Within, count-ids, ids,
}
use ivrdroid.Compiler.Collect.{Job, M, enter, job_digit, run_jobs}

-- The call returns; it has added entries with the ids `keys`, in some order, and each is placed.
pub record Done (W : Open) (m : M) (keys : List String) (st : Collected) : Type 0 where
  pub after : Collected
  pub added : List Entry
  pub runs : m ≡ ok after
  pub entries : after.entries ≡ st.entries ++ added
  pub seen : (key : String) → count key after.seen ≡ count key st.seen + count key keys
  pub same : (key : String) → count key (ids added) ≡ count key keys
  pub placed : All (Placed W added) added

-- It does so wherever none of the ids was seen and none occurs twice.
abbrev pub JobOk : Open → Job → List String → Type 0
JobOk W job keys =
    (st : Collected)
    → ((key : String) → count key st.seen + count key keys ≤ 1)
    → Done W (job st) keys st

abbrev pub SameKeys : List Entry → List String → Type 0
SameKeys es keys = (key : String) → count key (ids es) ≡ count key keys

pub JobOk-count :
    (W : Open) (job : Job) (keys keys' : List String)
    → ((key : String) → count key keys' ≡ count key keys)
    → JobOk W job keys
    → JobOk W job keys'
JobOk-count W job keys keys' same h st fits =
    let d = h st (λ key. omega (arith, same key, fits key)) in
    record {
      after = d.after;
      added = d.added;
      runs = d.runs;
      entries = d.entries;
      seen = λ key. omega (arith, d.seen key, same key);
      same = λ key. omega (arith, d.same key, same key);
      placed = d.placed;
    }

pub JobOk-guard :
    (W : Open) (c : Bool) (e : CompileError) (job : Job) (keys : List String)
    → c ≡ true
    → JobOk W job keys
    → JobOk W (λ st. guard c e >> job st) keys
JobOk-guard W true e job keys p h = h
JobOk-guard W false e job keys p h = cc

pub JobOk-weaken :
    (W W' : Open) (job : Job) (keys : List String)
    → ((l : List Entry) (id owner : String) → W l id owner → W' l id owner)
    → JobOk W job keys
    → JobOk W' job keys
JobOk-weaken W W' job keys keep h st fits =
    let d = h st fits in
    let whole : Within d.added d.added = record {
      front = [];
      back = [];
      split = sym (append-nil d.added);
    } in
    record {
      after = d.after;
      added = d.added;
      runs = d.runs;
      entries = d.entries;
      seen = d.seen;
      same = d.same;
      placed = Placed-Within W W' whole (λ id o w. inl (keep d.added id o w)) d.added d.placed;
    }

-- One call after another.
pub JobOk-then :
    (W V U : Open) (j k : Job) (first second : List String)
    → ((l m : List Entry) (id owner : String)
        → SameKeys m second
        → W l id owner
        → U (l ++ m) id owner)
    → ((l m : List Entry) (id owner : String) → V m id owner → U (l ++ m) id owner)
    → JobOk W j first
    → JobOk V k second
    → JobOk U (λ st. j st >>= k) (first ++ second)
JobOk-then W V U j k first second left right h g st fits =
    let both = λ (key : String). count-append key first second in
    let a = h st (λ key. omega (arith, both key, fits key)) in
    let b = g a.after (λ key. omega (arith, both key, fits key, a.seen key)) in
    let front : Within a.added (a.added ++ b.added) = record {
      front = [];
      back = b.added;
      split = refl;
    } in
    let back : Within b.added (a.added ++ b.added) = record {
      front = a.added;
      back = [];
      split = ap (λ x. a.added ++ x) (sym (append-nil b.added));
    } in
    record {
      after = b.after;
      added = a.added ++ b.added;
      runs = rw (a.runs) (b.runs);
      entries =
          b.entries ∙ ap (λ es. es ++ b.added) a.entries ∙ append_assoc st.entries a.added b.added;
      seen = λ key. omega (arith, both key, a.seen key, b.seen key);
      same = λ key. omega (arith, both key, count-ids key a.added b.added, a.same key, b.same key);
      placed =
          All-append (Placed U (a.added ++ b.added)) a.added b.added
            (Placed-Within W U front (λ id o w. inl (left a.added b.added id o b.same w)) a.added
              a.placed)
            (Placed-Within V U back (λ id o v. inl (right a.added b.added id o v)) b.added
              b.placed);
    }

-- A block is entered before its paths are walked.
pub JobOk-enter :
    (W U : Open) (b : Block) (owner : Option String) (body : Job) (keys : List String)
    → ((l : List Entry)
        → SameKeys l keys
        → PlacedBlock U (record { block = b; owner_menu_id = owner } ∷ l) b owner)
    → ((l : List Entry) (id o : String)
        → W l id o
        → U (record { block = b; owner_menu_id = owner } ∷ l) id o
          ⊎ Resolved (record { block = b; owner_menu_id = owner } ∷ l) id o)
    → JobOk W body keys
    → JobOk U (λ st. enter b owner st >>= body) (block_id b ∷ keys)
unfolding enter
JobOk-enter W U b owner body keys head keep h st fits =
    let e : Entry = record { block = b; owner_menu_id = owner } in
    let self = count_self (block_id b) keys in
    let split = λ (key : String). count-cons key (block_id b) keys in
    let more = λ (key : String). count-append key st.seen (block_id b ∷ []) in
    let fresh = contains-eq-false st.seen (block_id b) (omega (arith, fits (block_id b), self)) in
    let entered : Collected = record {
      entries = st.entries ++ e ∷ [];
      seen = st.seen ++ block_id b ∷ [];
    } in
    let d = h entered (λ key. omega (arith, fits key, split key, more key)) in
    let part : Within d.added (e ∷ d.added) = record {
      front = e ∷ [];
      back = [];
      split = ap (λ x. e ∷ x) (sym (append-nil d.added));
    } in
    record {
      after = d.after;
      added = e ∷ d.added;
      runs = rw fresh d.runs;
      entries = d.entries ∙ append_assoc st.entries (e ∷ []) d.added;
      seen = λ key. omega (arith, d.seen key, split key, more key);
      same = λ key. omega (arith, d.same key, split key, count-cons key (block_id b) (ids d.added));
      placed = (
        head d.added d.same,
        Placed-Within W U part (λ id o w. keep d.added id o w) d.added d.placed,
      );
    }

-- Calls that may be run in any order.
pub data JobsOk (W : Open) : List (Digit × Job) → List String → Type 0 where
  none_left : JobsOk W [] []
  and_then :
      {d : Digit} {job : Job} {jobs : List (Digit × Job)} {keys rest : List String}
      → JobOk W job keys
      → JobsOk W jobs rest
      → JobsOk W ((d, job) ∷ jobs) (keys ++ rest)

-- The same calls in another order, with the same ids.
pub record Reordered (W : Open) (jobs : List (Digit × Job)) (keys : List String) : Type 0 where
  pub keys' : List String
  pub fine : JobsOk W jobs keys'
  pub same : (key : String) → count key keys' ≡ count key keys

insert_by-JobsOk :
    (W : Open) (d : Digit) (job : Job) (keys : List String) {jobs : List (Digit × Job)}
    {rest : List String}
    → JobOk W job keys
    → JobsOk W jobs rest
    → Reordered W (insert_by job_digit (d, job) jobs) (keys ++ rest)
insert_by-JobsOk W d job keys h none_left = record {
  keys' = keys ++ [];
  fine = and_then h none_left;
  same = λ key. refl;
}
insert_by-JobsOk W d job keys {jobs = (d', job') ∷ jobs} h (and_then {keys = k'} {rest = r} g hs) =
    elim (Bool-cases (leb (dtmf_index d) (dtmf_index d'))) [
      | inl first ↦ rw first (record {
        keys' = keys ++ (k' ++ r);
        fine = and_then h (and_then g hs);
        same = λ key. refl;
      })
      | inr later ↦
          let o = insert_by-JobsOk W d job keys h hs in
          rw later (record {
            keys' = k' ++ o.keys';
            fine = and_then g o.fine;
            same = λ key. omega (
              arith,
              o.same key,
              count-append key k' o.keys',
              count-append key keys r,
              count-append key keys (k' ++ r),
              count-append key k' r,
            );
          })
    ]

pub sort_by-JobsOk :
    (W : Open) {jobs : List (Digit × Job)} {keys : List String}
    → JobsOk W jobs keys
    → Reordered W (sort_by job_digit jobs) keys
sort_by-JobsOk W none_left = record { keys' = []; fine = none_left; same = λ key. refl }
sort_by-JobsOk W (and_then {d = d} {job = job} {keys = keys} {rest = rest} h hs) =
    let o = sort_by-JobsOk W hs in
    let p = insert_by-JobsOk W d job keys h o.fine in
    record {
      keys' = p.keys';
      fine = p.fine;
      same = λ key. omega (
        arith,
        p.same key,
        o.same key,
        count-append key keys o.keys',
        count-append key keys rest,
      );
    }

-- `W` says the same of a part and of the whole.
pub record Grows (W : Open) : Type 0 where
  pub right : (l m : List Entry) (id owner : String) → W l id owner → W (l ++ m) id owner
  pub left : (l m : List Entry) (id owner : String) → W m id owner → W (l ++ m) id owner

pub run_jobs-JobOk :
    (W : Open) {jobs : List (Digit × Job)} {keys : List String}
    → Grows W
    → JobsOk W jobs keys
    → JobOk W (run_jobs jobs) keys
unfolding run_jobs
run_jobs-JobOk W grows none_left = λ st fits. record {
  after = st;
  added = [];
  runs = refl;
  entries = sym (append-nil st.entries);
  seen = λ key. omega (arith, count-nil key);
  same = λ key. refl;
  placed = tt;
}
run_jobs-JobOk W grows (and_then {job = job} {jobs = jobs} {keys = keys} {rest = rest} h hs) =
    JobOk-then W W W job (run_jobs jobs) keys rest (λ l m id o s w. grows.right l m id o w)
      grows.left h (run_jobs-JobOk W grows hs)
