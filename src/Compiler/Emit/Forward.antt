-- ===== src/Compiler/Emit/Forward.antt =====
-- The targets on the tape of placed entries: the link between `collect` and `maximum_cost`.
use ivrdroid.Base.{
  ◌*◌, ◌≡◌, ◌<◌, ok, Bool, String, List, [], ◌∷◌, ◌++◌, Option, some, none, inl, inr, ℕ, arith,
  refl, length, get_elem?, get_elem?-middle, All,
}
use ivrdroid.Base.Counts.{IsDistinct}
use ivrdroid.Flow.{
  Block, Branches, Child, DigitBranch, Menu, collect_digit, end_call, external_call, play_prompt,
  record_message, return_to_menu, schedule_branch, sort_by, to_list, insert_by,
}
use ivrdroid.Compiler.{BranchTarget, Entry, Operation, RecordingBehavior}
use ivrdroid.Compiler.Placed.{ChildBefore, Open, PlacedBlock, Resolved, id_of, ids}
use ivrdroid.Compiler.Emit.{
  barge_in_field, branch_digit, branch_targets, counter_of, operation_of, pc_of,
}
use ivrdroid.Compiler.Emit.Positions.{ChildBefore-PathAt, PathAt, position-entry}

-- No return waits for its menu.
abbrev pub Closed : Open
Closed l id owner = ⊥

-- `sorted` keeps what holds of every branch.
All-insert_by :
    (P : DigitBranch → Type 0) (x : DigitBranch) (bs : List DigitBranch)
    → P x
    → All P bs
    → All P (insert_by branch_digit x bs)
All-insert_by P x [] p h = (p, tt)
All-insert_by P x (b ∷ bs) p (q, h) = ground (arith, All-insert_by P x bs p h)

All-sort_by :
    (P : DigitBranch → Type 0) (bs : List DigitBranch) → All P bs → All P (sort_by branch_digit bs)
All-sort_by P [] h = tt
All-sort_by P (b ∷ bs) (p, h) = All-insert_by P b (sort_by branch_digit bs) p (All-sort_by P bs h)

module _ (behavior : RecordingBehavior) (barge_in : Bool) (l : List Entry) where
  -- A return's menu and the menu's limit path.
  pub record ReturnsVia (i menu_pc : ℕ) : Type 0 where
    pub owner : String
    pub menu : Menu
    pub branches : Branches
    pub on_timeout : Child
    pub on_invalid : Child
    pub on_limit : Child
    pub menu_owner : Option String
    pub listed :
        get_elem? l menu_pc
        ≡ some (record {
          block = collect_digit owner menu branches on_timeout on_invalid on_limit;
          owner_menu_id = menu_owner;
        })
    pub limit_pc : ℕ
    pub found : pc_of l on_limit ≡ ok limit_pc
    pub later : i < limit_pc
    pub inside : limit_pc < length l

  abbrev pub Later : ℕ → ℕ → Type 0
  Later i t = (i < t) × (t < length l)

  -- The targets of an operation stand behind its entry.
  abbrev pub Leads : ℕ → Operation → Type 0
  Leads i (Operation.play_prompt prompt next) = Later i next
  Leads i (Operation.collect_digit _ _ _ _ branches t v k _) =
      All (λ b. Later i b.target_pc) branches × Later i t × Later i v × Later i k
  Leads i (Operation.schedule_branch _ o c h) = Later i o × Later i c × Later i h
  Leads i (Operation.record_message _ _ n u) = Later i n × Later i u
  Leads i (Operation.external_call _ _ n m f) = Later i n × Later i m × Later i f
  Leads i (Operation.return_to_menu m) = ReturnsVia i m
  Leads i Operation.end_call = Unit

  pub record HasOperation (i : ℕ) (e : Entry) : Type 0 where
    pub operation : Operation
    pub made : operation_of behavior barge_in l e.block e.owner_menu_id ≡ ok operation
    pub leads : Leads i operation

  targets-ok :
      (i : ℕ) (bs : List DigitBranch)
      → All (λ b. PathAt l i b.root) bs
      → (ts : List BranchTarget) × (branch_targets l bs ≡ ok ts) × All (λ t. Later i t.target_pc) ts
  unfolding branch_targets
  targets-ok i [] h = ([], refl, tt)
  targets-ok i (b ∷ bs) (p, h) =
      let (ts, more, all) = targets-ok i bs h in
      (
        record { digit = b.digit; target_pc = p.counter } ∷ ts,
        rw (p.found, more) refl,
        ((p.later, p.inside), all),
      )

  module _ (distinct : IsDistinct (ids l)) (front back : List Entry) (e : Entry)
      (split : l ≡ front ++ (e ∷ back)) where
    path : (c : Child) → ChildBefore l (id_of e) c → PathAt l (length front) c
    path c h = ChildBefore-PathAt l distinct front back e c split h

    roots :
        (bs : List DigitBranch)
        → All (λ b. ChildBefore l (id_of e) b.root) bs
        → All (λ b. PathAt l (length front) b.root) bs
    roots [] h = tt
    roots (b ∷ bs) (p, h) = (path b.root p, roots bs h)

  module _ (distinct : IsDistinct (ids l)) (front back : List Entry) where
    return-HasOperation :
        (id m : String)
        → l ≡ front ++ (record { block = return_to_menu id; owner_menu_id = some m } ∷ back)
        → Resolved l id m
        → HasOperation (length front) (record { block = return_to_menu id; owner_menu_id = some m })
    unfolding operation_of
    return-HasOperation id m split r =
        let menu_entry : Entry = record {
          block = collect_digit m r.menu r.branches r.on_timeout r.on_invalid r.on_limit;
          owner_menu_id = r.menu_owner;
        } in
        let at = position-entry l distinct r.listed.front r.listed.back menu_entry r.listed.split in
        let k = path distinct front back _ split r.on_limit r.limit_later in
        record {
          operation = Operation.return_to_menu (length r.listed.front);
          made = rw (at, counter_of) refl;
          leads = record {
            owner = m;
            menu = r.menu;
            branches = r.branches;
            on_timeout = r.on_timeout;
            on_invalid = r.on_invalid;
            on_limit = r.on_limit;
            menu_owner = r.menu_owner;
            listed = rw (r.listed.split) (get_elem?-middle r.listed.front menu_entry r.listed.back);
            limit_pc = k.counter;
            found = k.found;
            later = k.later;
            inside = k.inside;
          };
        }

    pub block-HasOperation :
        (b : Block) (owner : Option String)
        → l ≡ front ++ (record { block = b; owner_menu_id = owner } ∷ back)
        → PlacedBlock Closed l b owner
        → HasOperation (length front) (record { block = b; owner_menu_id = owner })
    unfolding operation_of
    block-HasOperation (play_prompt id prompt next) owner split h =
        let n = path distinct front back _ split next h in
        record {
          operation = Operation.play_prompt prompt n.counter;
          made = rw (n.found) refl;
          leads = (n.later, n.inside);
        }
    block-HasOperation (collect_digit id menu bs t v k) owner split (h, ht, hv, hk) =
        let sorted =
          All-sort_by (λ b. PathAt l (length front) b.root) (to_list bs)
            (roots distinct front back _ split (to_list bs) h) in
        let (ts, made, all) =
          targets-ok (length front) (sort_by branch_digit (to_list bs)) sorted in
        let pt = path distinct front back _ split t ht in
        let pv = path distinct front back _ split v hv in
        let pk = path distinct front back _ split k hk in
        record {
          operation =
              Operation.collect_digit menu.prompt_id menu.timeout_ms menu.maximum_attempts
                menu.maximum_menu_returns ts pt.counter pv.counter pk.counter
                (barge_in_field barge_in menu);
          made = rw (made, pt.found, pv.found, pk.found) refl;
          leads = (all, (pt.later, pt.inside), (pv.later, pv.inside), (pk.later, pk.inside));
        }
    block-HasOperation (schedule_branch id s o c h) owner split (ho, hc, hh) =
        let po = path distinct front back _ split o ho in
        let pc = path distinct front back _ split c hc in
        let ph = path distinct front back _ split h hh in
        record {
          operation = Operation.schedule_branch s po.counter pc.counter ph.counter;
          made = rw (po.found, pc.found, ph.found) refl;
          leads = ((po.later, po.inside), (pc.later, pc.inside), (ph.later, ph.inside));
        }
    block-HasOperation (record_message id n u) owner split (hn, hu) =
        let pn = path distinct front back _ split n hn in
        let pu = path distinct front back _ split u hu in
        record {
          operation =
              Operation.record_message (behavior.maximum_duration_seconds * 1000)
                behavior.finish_key pn.counter pu.counter;
          made = rw (pn.found, pu.found) refl;
          leads = ((pn.later, pn.inside), (pu.later, pu.inside));
        }
    block-HasOperation (external_call id phone s n m f) owner split (hn, hm, hf) =
        let pn = path distinct front back _ split n hn in
        let pm = path distinct front back _ split m hm in
        let pf = path distinct front back _ split f hf in
        record {
          operation = Operation.external_call phone (s * 1000) pn.counter pm.counter pf.counter;
          made = rw (pn.found, pm.found, pf.found) refl;
          leads = ((pn.later, pn.inside), (pm.later, pm.inside), (pf.later, pf.inside));
        }
    block-HasOperation (return_to_menu id) owner split (m, same, inl h) = absurd h
    block-HasOperation (return_to_menu id) none split (m, same, inr r) = cc
    block-HasOperation (return_to_menu id) (some w) split (m, same, inr r) =
        let same' : m ≡ w = cc in return-HasOperation id w split (rw same' at r)
    block-HasOperation (end_call id) owner split h = record {
      operation = Operation.end_call;
      made = refl;
      leads = tt;
    }
