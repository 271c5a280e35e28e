-- ===== src/Compiler/Placed.antt =====
-- Where `collect` puts the blocks: the order of a list of entries, and what an entry needs of it.
use ivrdroid.Base.{
  ◌≡◌, ◌≤◌, ◌+◌, String, List, [], ◌∷◌, ◌++◌, Option, some, ◌⊎◌, inl, inr, All, map, append_assoc,
  arith, refl, ◌∙◌,
}
use ivrdroid.Base.Counts.{count, count-append}
use ivrdroid.Flow.{
  Block, Child, Branches, Menu, DigitBranch, play_prompt, collect_digit, schedule_branch,
  record_message, external_call, return_to_menu, end_call, absent, present, block_id, to_list,
}
use ivrdroid.Compiler.{Entry}

abbrev pub id_of : Entry → String
id_of e = block_id e.block

abbrev pub ids : List Entry → List String
ids es = map id_of es

pub ids-append : (xs ys : List Entry) → ids (xs ++ ys) ≡ ids xs ++ ids ys
ids-append [] ys = refl
ids-append (x ∷ xs) ys = rw (ids-append xs ys)

pub count-ids :
    (key : String) (xs ys : List Entry)
    → count key (ids (xs ++ ys)) ≡ count key (ids xs) + count key (ids ys)
count-ids key xs ys = rw (ids-append xs ys) (count-append key (ids xs) (ids ys))

-- An entry with the id `a` stands before one with the id `b`.
pub record Before (l : List Entry) (a b : String) : Type 0 where
  pub front : List Entry
  pub back : List Entry
  pub split : l ≡ front ++ back
  pub in_front : 1 ≤ count a (ids front)
  pub in_back : 1 ≤ count b (ids back)

pub record HasEntry (l : List Entry) (e : Entry) : Type 0 where
  pub front : List Entry
  pub back : List Entry
  pub split : l ≡ front ++ (e ∷ back)

-- `l` is a part of `m`.
pub record Within (l m : List Entry) : Type 0 where
  pub front : List Entry
  pub back : List Entry
  pub split : m ≡ front ++ (l ++ back)

module _ {l m : List Entry} (w : Within l m) where
  pub Before-Within : {a b : String} → Before l a b → Before m a b
  Before-Within {a} {b} h = record {
    front = w.front ++ h.front;
    back = h.back ++ w.back;
    split = w.split ∙ rw (h.split) (simp append_assoc);
    in_front = rw (count-ids a w.front h.front) (omega (arith, h.in_front));
    in_back = rw (count-ids b h.back w.back) (omega (arith, h.in_back));
  }

  pub HasEntry-Within : {e : Entry} → HasEntry l e → HasEntry m e
  HasEntry-Within {e} h = record {
    front = w.front ++ h.front;
    back = h.back ++ w.back;
    split = w.split ∙ rw (h.split) (simp append_assoc);
  }

abbrev pub ChildBefore : List Entry → String → Child → Type 0
ChildBefore l id absent = ⊥
ChildBefore l id (present c) = Before l id (block_id c)

pub ChildBefore-Within :
    {l m : List Entry}
    → Within l m
    → (id : String) (c : Child) → ChildBefore l id c
    → ChildBefore m id c
ChildBefore-Within w id absent h = h
ChildBefore-Within w id (present c) h = Before-Within w h

-- The menu of a return is listed, and its limit path stands behind the return.
pub record Resolved (l : List Entry) (id owner : String) : Type 0 where
  pub menu : Menu
  pub branches : Branches
  pub on_timeout : Child
  pub on_invalid : Child
  pub on_limit : Child
  pub menu_owner : Option String
  pub listed : HasEntry l (record {
    block = collect_digit owner menu branches on_timeout on_invalid on_limit;
    owner_menu_id = menu_owner;
  })
  pub limit_later : ChildBefore l id on_limit

pub Resolved-Within :
    {l m : List Entry}
    → Within l m
    → {id owner : String} → Resolved l id owner
    → Resolved m id owner
Resolved-Within w {id} r = record {
  menu = r.menu;
  branches = r.branches;
  on_timeout = r.on_timeout;
  on_invalid = r.on_invalid;
  on_limit = r.on_limit;
  menu_owner = r.menu_owner;
  listed = HasEntry-Within w r.listed;
  limit_later = ChildBefore-Within w id r.on_limit r.limit_later;
}

-- What is known of a return whose menu is not listed yet.
abbrev pub Open : Type 1
Open = List Entry → String → String → Type 0

module _ (W : Open) (l : List Entry) where
  -- The children of the entry's block stand behind it.
  abbrev pub PlacedBlock : Block → Option String → Type 0
  PlacedBlock (play_prompt id _ next) owner = ChildBefore l id next
  PlacedBlock (collect_digit id _ branches t i k) owner =
      All (λ b. ChildBefore l id b.root) (to_list branches)
      × ChildBefore l id t
      × ChildBefore l id i
      × ChildBefore l id k
  PlacedBlock (schedule_branch id _ o c h) owner =
      ChildBefore l id o × ChildBefore l id c × ChildBefore l id h
  PlacedBlock (record_message id n u) owner = ChildBefore l id n × ChildBefore l id u
  PlacedBlock (external_call id _ _ n m f) owner =
      ChildBefore l id n × ChildBefore l id m × ChildBefore l id f
  PlacedBlock (return_to_menu id) owner =
      (m : String) × (owner ≡ some m) × (W l id m ⊎ Resolved l id m)
  PlacedBlock (end_call id) owner = Unit

  abbrev pub Placed : Entry → Type 0
  Placed e = PlacedBlock e.block e.owner_menu_id

module _ (W W' : Open) {l m : List Entry} (w : Within l m)
    (keep : (id owner : String) → W l id owner → W' m id owner ⊎ Resolved m id owner) where
  roots-Within :
      (id : String) (bs : List DigitBranch)
      → All (λ b. ChildBefore l id b.root) bs
      → All (λ b. ChildBefore m id b.root) bs
  roots-Within id [] h = tt
  roots-Within id (b ∷ bs) (p, h) = (ChildBefore-Within w id b.root p, roots-Within id bs h)

  PlacedBlock-Within :
      (b : Block) (owner : Option String) → PlacedBlock W l b owner → PlacedBlock W' m b owner
  PlacedBlock-Within (play_prompt id _ next) owner h = ChildBefore-Within w id next h
  PlacedBlock-Within (collect_digit id _ branches t i k) owner (p, q, r, s) = (
    roots-Within id (to_list branches) p,
    ChildBefore-Within w id t q,
    ChildBefore-Within w id i r,
    ChildBefore-Within w id k s,
  )
  PlacedBlock-Within (schedule_branch id _ o c h) owner (p, q, r) =
      (ChildBefore-Within w id o p, ChildBefore-Within w id c q, ChildBefore-Within w id h r)
  PlacedBlock-Within (record_message id n u) owner (p, q) =
      (ChildBefore-Within w id n p, ChildBefore-Within w id u q)
  PlacedBlock-Within (external_call id _ _ n k f) owner (p, q, r) =
      (ChildBefore-Within w id n p, ChildBefore-Within w id k q, ChildBefore-Within w id f r)
  PlacedBlock-Within (return_to_menu id) owner (m', same, inl open_still) =
      (m', same, keep id m' open_still)
  PlacedBlock-Within (return_to_menu id) owner (m', same, inr r) =
      (m', same, inr (Resolved-Within w r))
  PlacedBlock-Within (end_call id) owner h = tt

  pub Placed-Within : (es : List Entry) → All (Placed W l) es → All (Placed W' m) es
  Placed-Within [] h = tt
  Placed-Within (e ∷ es) (p, h) = (PlacedBlock-Within e.block e.owner_menu_id p, Placed-Within es h)
