-- ===== src/Compiler/Collect/Walk.antt =====
-- Calls of `collect` on a well-formed flow with distinct ids: the induction over the tree.
use ivrdroid.Base.{
  ◌≡◌, ◌>>=◌, Bool, true, false, String, List, [], ◌∷◌, ◌++◌, Option, some, none, inl, arith, refl,
  sym, ◌||◌, ◌&&◌,
}
use ivrdroid.Base.Counts.{count-append, count_self, contains-eq-false}
use ivrdroid.Flow.{
  Block, Branches, Child, Menu, Version, absent, after_prompt, below, below_menu, block_id,
  collect_digit, cons, end_call, external_call, has_block, has_external, has_recording, nil,
  play_prompt, present, record_message, return_to_menu, schedule_branch, sort_by,
}
use ivrdroid.Flow.WellFormed.{
  ids_of, ids_of_child, ids_of_branches, returns_to_owner, child_returns, WellFormed,
  WellFormedChild, WellFormedBranches,
}
use ivrdroid.Compiler.{
  CompileError, Entry, closed_hours, completed, digit, holiday, invalid, next_step, no_first_step,
  no_input, not_connected, open_hours, record_paths, return_limit, system_failure,
  unsupported_block, record_notice, external_notice,
}
use ivrdroid.Compiler.Placed.{ChildBefore, Open, PlacedBlock, id_of}
use ivrdroid.Compiler.Collect.{branch_jobs, collect, collect_child, job_digit, run_jobs, enter}
use ivrdroid.Compiler.Collect.Jobs.{
  JobOk, JobOk-count, JobOk-guard, JobOk-weaken, JobsOk, SameKeys, and_then, none_left,
  run_jobs-JobOk, sort_by-JobsOk,
}
use ivrdroid.Compiler.Collect.Succeeds.{
  Waiting, Waiting-Grows, Waiting-mono, Limited, ChildIn, child-ChildIn, ChildIn-left,
  ChildIn-right, head-ChildBefore, roots-ChildBefore, enter-Waiting, then-Waiting, then-Limited,
  limit-Limited, enter-Limited,
}

has_block-true :
    (v : Version) (c : Child) (owner : Option String) (notice : Bool)
    → WellFormedChild v c owner notice
    → has_block c ≡ true
unfolding WellFormedChild
has_block-true v absent owner notice w = absurd w
has_block-true v (present b) owner notice w = refl

-- The call on one path, with the exception that its absence raises.
abbrev ChildOk : Version → CompileError → Child → Option String → Bool → Type 0
ChildOk v e c owner notice =
    JobOk (Waiting owner (child_returns c)) (λ st. collect_child v e c owner notice st)
      (ids_of_child c)

module _ (v : Version) (e f g : CompileError) (a b c : Child) (owner : Option String)
    (notice : Bool) where
  -- Two paths and three paths, one after another.
  pair-JobOk :
      ChildOk v e a owner notice
      → ChildOk v f b owner notice
      → JobOk
          (Waiting owner (child_returns a || child_returns b))
          (λ st. collect_child v e a owner notice st >>= λ st. collect_child v f b owner notice st)
          (ids_of_child a ++ ids_of_child b)
  pair-JobOk h k =
      then-Waiting owner (child_returns a) (child_returns b) _ _ (ids_of_child a) (ids_of_child b) h
        k

  triple-JobOk :
      ChildOk v e a owner notice
      → ChildOk v f b owner notice
      → ChildOk v g c owner notice
      → JobOk
          (Waiting owner (child_returns a || (child_returns b || child_returns c)))
          (λ st. collect_child v e a owner notice st >>= λ st.
            collect_child v f b owner notice st >>= λ st. collect_child v g c owner notice st)
          (ids_of_child a ++ (ids_of_child b ++ ids_of_child c))
  triple-JobOk h k l =
      then-Waiting owner (child_returns a) (child_returns b || child_returns c) _ _ (ids_of_child a)
        (ids_of_child b ++ ids_of_child c) h
        (then-Waiting owner (child_returns b) (child_returns c) _ _ (ids_of_child b)
          (ids_of_child c) k l)

-- The body of a menu: the sorted branches, and the three other paths.
module _ (v : Version) (id : String) (bs : Branches) (t i k : Child) (inner : Bool) where
  menu-JobOk :
      child_returns k ≡ false
      → WellFormedChild v k (some id) inner
      → JobsOk (Waiting (some id) true) (branch_jobs v bs id inner) (ids_of_branches bs)
      → ChildOk v (no_first_step no_input) t (some id) inner
      → ChildOk v (no_first_step invalid) i (some id) inner
      → ChildOk v (no_first_step return_limit) k (some id) inner
      → JobOk
          (Limited id k)
          (λ st. run_jobs (sort_by job_digit (branch_jobs v bs id inner)) st >>= λ st.
            collect_child v (no_first_step no_input) t (some id) inner st >>= λ st.
            collect_child v (no_first_step invalid) i (some id) inner st >>= λ st.
            collect_child v (no_first_step return_limit) k (some id) inner st)
          (ids_of_branches bs ++ (ids_of_child t ++ (ids_of_child i ++ ids_of_child k)))
  menu-JobOk none_back w hs ht hi hk =
      let sorted = sort_by-JobsOk (Waiting (some id) true) hs in
      let run =
        JobOk-count (Waiting (some id) true)
          (run_jobs (sort_by job_digit (branch_jobs v bs id inner))) sorted.keys'
          (ids_of_branches bs) (λ key. sym (sorted.same key))
          (run_jobs-JobOk (Waiting (some id) true) (Waiting-Grows (some id) true) sorted.fine) in
      let limit_in = child-ChildIn v k (some id) inner w in
      let in_i = ChildIn-right (ids_of_child i) (ids_of_child k) k limit_in in
      let in_t = ChildIn-right (ids_of_child t) (ids_of_child i ++ ids_of_child k) k in_i in
      then-Limited id true k _ _ (ids_of_branches bs)
        (ids_of_child t ++ (ids_of_child i ++ ids_of_child k)) in_t run
        (then-Limited id (child_returns t) k _ _ (ids_of_child t) (ids_of_child i ++ ids_of_child k)
          in_i ht
          (then-Limited id (child_returns i) k _ _ (ids_of_child i) (ids_of_child k) limit_in hi
            (limit-Limited id k _ (ids_of_child k) (rw none_back at hk))))

-- A block with no path below it.
leaf-JobOk :
    (W : Open) (b : Block) (owner : Option String)
    → PlacedBlock W (record { block = b; owner_menu_id = owner } ∷ []) b owner
    → JobOk W (λ st. enter b owner st) (block_id b ∷ [])
unfolding enter
leaf-JobOk W b owner placed st fits =
    let self = count_self (block_id b) [] in
    let fresh = contains-eq-false st.seen (block_id b) (omega (arith, fits (block_id b), self)) in
    record {
      after = record {
        entries = st.entries ++ record { block = b; owner_menu_id = owner } ∷ [];
        seen = st.seen ++ block_id b ∷ [];
      };
      added = record { block = b; owner_menu_id = owner } ∷ [];
      runs = rw fresh refl;
      entries = refl;
      seen = λ key. count-append key st.seen (block_id b ∷ []);
      same = λ key. refl;
      placed = (placed, tt);
    }

-- Where the paths of a block stand, from the ids behind it.
module _ (v : Version) (notice : Bool) (owner : Option String) (e : Entry) (l : List Entry) where
  pair-placed :
      (a b : Child)
      → SameKeys l (ids_of_child a ++ ids_of_child b)
      → WellFormedChild v a owner notice
      → WellFormedChild v b owner notice
      → ChildBefore (e ∷ l) (id_of e) a × ChildBefore (e ∷ l) (id_of e) b
  pair-placed a b same wa wb =
      let keys = ids_of_child a ++ ids_of_child b in
      (
        head-ChildBefore e l keys a same
            (ChildIn-left (ids_of_child a) (ids_of_child b) a (child-ChildIn v a owner notice wa)),
        head-ChildBefore e l keys b same
            (ChildIn-right (ids_of_child a) (ids_of_child b) b (child-ChildIn v b owner notice wb)),
      )

  triple-placed :
      (a b c : Child)
      → SameKeys l (ids_of_child a ++ (ids_of_child b ++ ids_of_child c))
      → WellFormedChild v a owner notice
      → WellFormedChild v b owner notice
      → WellFormedChild v c owner notice
      → ChildBefore (e ∷ l) (id_of e) a
        × ChildBefore (e ∷ l) (id_of e) b
        × ChildBefore (e ∷ l) (id_of e) c
  triple-placed a b c same wa wb wc =
      let others = ids_of_child b ++ ids_of_child c in
      let keys = ids_of_child a ++ others in
      let behind = λ (x : Child) (h : ChildIn others x).
        head-ChildBefore e l keys x same (ChildIn-right (ids_of_child a) others x h) in
      (
        head-ChildBefore e l keys a same
            (ChildIn-left (ids_of_child a) others a (child-ChildIn v a owner notice wa)),
        behind b
            (ChildIn-left (ids_of_child b) (ids_of_child c) b (child-ChildIn v b owner notice wb)),
        behind c
            (ChildIn-right (ids_of_child b) (ids_of_child c) c (child-ChildIn v c owner notice wc)),
      )

menu-placed :
    (W : Open) (v : Version) (inner : Bool) (id : String) (menu : Menu) (bs : Branches)
    (t i k : Child) (owner : Option String) (l : List Entry)
    → SameKeys l (ids_of_branches bs ++ (ids_of_child t ++ (ids_of_child i ++ ids_of_child k)))
    → WellFormedBranches v bs id inner
    → WellFormedChild v t (some id) inner
    → WellFormedChild v i (some id) inner
    → WellFormedChild v k (some id) inner
    → PlacedBlock W
        (record { block = collect_digit id menu bs t i k; owner_menu_id = owner } ∷ l)
        (collect_digit id menu bs t i k)
        owner
menu-placed W v inner id menu bs t i k owner l same ws wt wi wk =
    let e : Entry = record { block = collect_digit id menu bs t i k; owner_menu_id = owner } in
    let last = ids_of_child i ++ ids_of_child k in
    let others = ids_of_child t ++ last in
    let keys = ids_of_branches bs ++ others in
    let behind = λ (x : Child) (h : ChildIn others x).
      head-ChildBefore e l keys x same (ChildIn-right (ids_of_branches bs) others x h) in
    (
      roots-ChildBefore v e l keys bs id inner same
          (λ key. omega (arith, count-append key (ids_of_branches bs) others)) ws,
      behind t (ChildIn-left (ids_of_child t) last t (child-ChildIn v t (some id) inner wt)),
      behind i (
          ChildIn-right (ids_of_child t) last i (
            ChildIn-left (ids_of_child i) (ids_of_child k) i
              (child-ChildIn v i (some id) inner wi))),
      behind k (
          ChildIn-right (ids_of_child t) last k (
            ChildIn-right (ids_of_child i) (ids_of_child k) k
              (child-ChildIn v k (some id) inner wk))),
    )

mutual
  unfolding collect collect_child branch_jobs ids_of ids_of_child ids_of_branches returns_to_owner
      child_returns WellFormed WellFormedChild WellFormedBranches

  pub collect-JobOk :
      (v : Version) (b : Block) (owner : Option String) (notice : Bool)
      → WellFormed v b owner notice
      → JobOk (Waiting owner (returns_to_owner b)) (λ st. collect v b owner notice st) (ids_of b)
  collect-JobOk v (play_prompt id prompt next) owner notice w =
      enter-Waiting (play_prompt id prompt next) owner owner (child_returns next) _
        (ids_of_child next)
        (λ l same.
          head-ChildBefore _ l (ids_of_child next) next same
            (child-ChildIn v next owner (after_prompt v notice prompt) w))
        (child-JobOk v (no_first_step next_step) next owner (after_prompt v notice prompt) w)
  collect-JobOk v (collect_digit id menu bs t i k) owner notice (ws, wt, wi, wk, none_back) =
      let inner = below_menu v notice menu.prompt_id in
      let keys = ids_of_branches bs ++ (ids_of_child t ++ (ids_of_child i ++ ids_of_child k)) in
      enter-Limited (Waiting owner false) id menu bs t i k owner _ keys
        (λ l same.
          menu-placed (Waiting owner false) v inner id menu bs t i k owner l same ws wt wi wk)
        (menu-JobOk v id bs t i k inner none_back wk (branches-JobsOk v bs id inner ws)
          (child-JobOk v (no_first_step no_input) t (some id) inner wt)
          (child-JobOk v (no_first_step invalid) i (some id) inner wi)
          (child-JobOk v (no_first_step return_limit) k (some id) inner wk))
  collect-JobOk v (schedule_branch id s o c h) owner notice (wo, wc, wh) =
      enter-Waiting (schedule_branch id s o c h) owner owner _ _
        (ids_of_child o ++ (ids_of_child c ++ ids_of_child h))
        (λ l same. triple-placed v (below v notice) owner _ l o c h same wo wc wh)
        (triple-JobOk v _ _ _ o c h owner (below v notice)
          (child-JobOk v (no_first_step open_hours) o owner (below v notice) wo)
          (child-JobOk v (no_first_step closed_hours) c owner (below v notice) wc)
          (child-JobOk v (no_first_step holiday) h owner (below v notice) wh))
  collect-JobOk v (record_message id n u) owner notice (records, heard, wn, wu) =
      let both : (has_block n && has_block u) ≡ true =
        rw (has_block-true v n owner (below v notice) wn)
          (has_block-true v u owner (below v notice) wu) in
      let W = Waiting owner (child_returns n || child_returns u) in
      let keys = ids_of_child n ++ ids_of_child u in
      enter-Waiting (record_message id n u) owner owner _ _ keys
        (λ l same. pair-placed v (below v notice) owner _ l n u same wn wu)
        (JobOk-guard W (has_recording v) unsupported_block _ keys records (
          JobOk-guard W notice record_notice _ keys heard (
            JobOk-guard W (has_block n && has_block u) record_paths _ keys both (
              pair-JobOk v record_paths record_paths record_paths n u n owner (below v notice)
                (child-JobOk v record_paths n owner (below v notice) wn)
                (child-JobOk v record_paths u owner (below v notice) wu)))))
  collect-JobOk v (external_call id phone s n m f) owner notice (externals, heard, wn, wm, wf) =
      let W = Waiting owner (child_returns n || (child_returns m || child_returns f)) in
      let keys = ids_of_child n ++ (ids_of_child m ++ ids_of_child f) in
      enter-Waiting (external_call id phone s n m f) owner owner _ _ keys
        (λ l same. triple-placed v notice owner _ l n m f same wn wm wf)
        (JobOk-guard W (has_external v) unsupported_block _ keys externals (
          JobOk-guard W notice external_notice _ keys heard (
            triple-JobOk v _ _ _ n m f owner notice
              (child-JobOk v (no_first_step completed) n owner notice wn)
              (child-JobOk v (no_first_step not_connected) m owner notice wm)
              (child-JobOk v (no_first_step system_failure) f owner notice wf))))
  collect-JobOk v (return_to_menu id) none notice w = absurd w
  collect-JobOk v (return_to_menu id) (some m) notice w =
      leaf-JobOk (Waiting (some m) true) (return_to_menu id) (some m)
        (m, refl, inl (refl, refl, omega (arith, count_self id [])))
  collect-JobOk v (end_call id) owner notice w =
      leaf-JobOk (Waiting owner false) (end_call id) owner tt

  child-JobOk :
      (v : Version) (e : CompileError) (c : Child) (owner : Option String) (notice : Bool)
      → WellFormedChild v c owner notice
      → ChildOk v e c owner notice
  child-JobOk v e absent owner notice w = absurd w
  child-JobOk v e (present b) owner notice w = collect-JobOk v b owner notice w

  branches-JobsOk :
      (v : Version) (bs : Branches) (owner : String) (notice : Bool)
      → WellFormedBranches v bs owner notice
      → JobsOk (Waiting (some owner) true) (branch_jobs v bs owner notice) (ids_of_branches bs)
  branches-JobsOk v nil owner notice w = none_left
  branches-JobsOk v (cons id d root rest) owner notice (w, ws) =
      and_then
        (JobOk-weaken (Waiting (some owner) (child_returns root)) (Waiting (some owner) true) _
          (ids_of_child root) (Waiting-mono (some owner) (child_returns root) true (λ p. refl))
          (child-JobOk v (no_first_step (digit d)) root (some owner) notice w))
        (branches-JobsOk v rest owner notice ws)
