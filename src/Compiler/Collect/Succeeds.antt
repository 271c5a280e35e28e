-- ===== src/Compiler/Collect/Succeeds.antt =====
-- Calls of `collect` on the parts of a well-formed flow with distinct ids.
use ivrdroid.Base.{
  ◌≡◌, ◌≤◌, ◌>>=◌, Bool, true, false, String, List, [], ◌∷◌, ◌++◌, Option, some, inl, inr, All,
  arith, refl, sym, ap, append-nil, ◌||◌,
}
use ivrdroid.Base.Counts.{count, count-append, count-cons, count_self}
use ivrdroid.Flow.{
  Block, Branches, Child, Menu, Version, absent, block_id, collect_digit, cons, end_call,
  external_call, nil, play_prompt, present, record_message, return_to_menu, schedule_branch,
  to_list,
}
use ivrdroid.Flow.WellFormed.{
  ids_of, ids_of_child, ids_of_branches, WellFormedChild, WellFormedBranches,
}
use ivrdroid.Compiler.{Entry}
use ivrdroid.Compiler.Placed.{
  ChildBefore, Open, PlacedBlock, Resolved, count-ids, id_of, ids, ChildBefore-Within,
}
use ivrdroid.Compiler.Collect.{Job, enter}
use ivrdroid.Compiler.Collect.Jobs.{Grows, JobOk, JobOk-enter, JobOk-then, JobOk-weaken, SameKeys}

-- A return in the part may go to the owner of the part's root.
abbrev pub Waiting : Option String → Bool → Open
Waiting owner returns l id m = (owner ≡ some m) × (returns ≡ true) × (1 ≤ count id (ids l))

-- A return to `menu` stands in the part, before the menu's limit path.
abbrev pub Limited : String → Child → Open
Limited menu c l id m = (m ≡ menu) × ChildBefore l id c

pub Waiting-Grows : (owner : Option String) (r : Bool) → Grows (Waiting owner r)
Waiting-Grows owner r = record {
  right = λ l m id o (p, q, h). (p, q, omega (arith, count-ids id l m, h));
  left = λ l m id o (p, q, h). (p, q, omega (arith, count-ids id l m, h));
}

pub Waiting-mono :
    (owner : Option String) (r s : Bool)
    → (r ≡ true → s ≡ true)
    → (l : List Entry) (id m : String) → Waiting owner r l id m
    → Waiting owner s l id m
Waiting-mono owner r s f l id m (p, q, h) = (p, f q, h)

-- The root of a path is among the ids.
abbrev pub ChildIn : List String → Child → Type 0
ChildIn keys absent = ⊥
ChildIn keys (present c) = 1 ≤ count (block_id c) keys

pub ids_of_self : (b : Block) → 1 ≤ count (block_id b) (ids_of b)
unfolding ids_of
ids_of_self (play_prompt id p n) = omega (arith, count_self id (ids_of_child n))
ids_of_self (collect_digit id m bs t i l) = omega (
  arith,
  count_self id (ids_of_branches bs ++ (ids_of_child t ++ (ids_of_child i ++ ids_of_child l))),
)
ids_of_self (schedule_branch id s o c h) =
    omega (arith, count_self id (ids_of_child o ++ (ids_of_child c ++ ids_of_child h)))
ids_of_self (record_message id n u) =
    omega (arith, count_self id (ids_of_child n ++ ids_of_child u))
ids_of_self (external_call id p s n m f) =
    omega (arith, count_self id (ids_of_child n ++ (ids_of_child m ++ ids_of_child f)))
ids_of_self (return_to_menu id) = omega (arith, count_self id [])
ids_of_self (end_call id) = omega (arith, count_self id [])

pub child-ChildIn :
    (v : Version) (c : Child) (owner : Option String) (notice : Bool)
    → WellFormedChild v c owner notice
    → ChildIn (ids_of_child c) c
unfolding WellFormedChild ids_of_child
child-ChildIn v absent owner notice w = w
child-ChildIn v (present b) owner notice w = ids_of_self b

pub ChildIn-left : (xs ys : List String) (c : Child) → ChildIn xs c → ChildIn (xs ++ ys) c
ChildIn-left xs ys absent h = h
ChildIn-left xs ys (present b) h = omega (arith, count-append (block_id b) xs ys)

pub ChildIn-right : (xs ys : List String) (c : Child) → ChildIn ys c → ChildIn (xs ++ ys) c
ChildIn-right xs ys absent h = h
ChildIn-right xs ys (present b) h = omega (arith, count-append (block_id b) xs ys)

-- A path whose root is among the entries behind the first stands behind the first.
pub head-ChildBefore :
    (e : Entry) (l : List Entry) (keys : List String) (c : Child)
    → SameKeys l keys
    → ChildIn keys c
    → ChildBefore (e ∷ l) (id_of e) c
head-ChildBefore e l keys absent same h = h
head-ChildBefore e l keys (present b) same h = record {
  front = e ∷ [];
  back = l;
  split = refl;
  in_front = omega (arith, count_self (id_of e) []);
  in_back = omega (arith, same (block_id b));
}

pub roots-ChildBefore :
    (v : Version) (e : Entry) (l : List Entry) (keys : List String) (bs : Branches) (owner : String)
    (notice : Bool)
    → SameKeys l keys
    → ((key : String) → count key (ids_of_branches bs) ≤ count key keys)
    → WellFormedBranches v bs owner notice
    → All (λ b. ChildBefore (e ∷ l) (id_of e) b.root) (to_list bs)
unfolding WellFormedBranches ids_of_branches
roots-ChildBefore v e l keys nil owner notice same some_keys w = tt
roots-ChildBefore v e l keys (cons id d root rest) owner notice same some_keys (w, ws) = (
  head-ChildBefore e l keys root same (in_keys root (child-ChildIn v root (some owner) notice w)),
  roots-ChildBefore v e l keys rest owner notice same
      (λ key.
        omega (arith, some_keys key, count-append key (ids_of_child root) (ids_of_branches rest)))
      ws,
)
  where
    in_keys : (c : Child) → ChildIn (ids_of_child root) c → ChildIn keys c
    in_keys absent h = h
    in_keys (present b) h = omega (
      arith,
      some_keys (block_id b),
      count-append (block_id b) (ids_of_child root) (ids_of_branches rest),
    )

pub enter-Waiting :
    (b : Block) (owner o' : Option String) (r : Bool) (body : Job) (keys : List String)
    → ((l : List Entry)
        → SameKeys l keys
        → PlacedBlock (Waiting owner r) (record { block = b; owner_menu_id = o' } ∷ l) b o')
    → JobOk (Waiting owner r) body keys
    → JobOk (Waiting owner r) (λ st. enter b o' st >>= body) (block_id b ∷ keys)
enter-Waiting b owner o' r body keys head h =
    JobOk-enter (Waiting owner r) (Waiting owner r) b o' body keys head
      (λ l id m (p, q, in_l). inl (p, q, omega (arith, in_l, count-cons id (block_id b) (ids l)))) h

pub then-Waiting :
    (owner : Option String) (r s : Bool) (j k : Job) (first second : List String)
    → JobOk (Waiting owner r) j first
    → JobOk (Waiting owner s) k second
    → JobOk (Waiting owner (r || s)) (λ st. j st >>= k) (first ++ second)
then-Waiting owner r s j k first second h g =
    let grows = Waiting-Grows owner (r || s) in
    JobOk-then (Waiting owner r) (Waiting owner s) (Waiting owner (r || s)) j k first second
      (λ l m id o same w.
        grows.right l m id o (Waiting-mono owner r (r || s) (λ p. rw p refl) l id o w))
      (λ l m id o w.
        grows.left l m id o (Waiting-mono owner s (r || s) (λ p. ground arith) m id o w))
      h g

-- A returning path, and then the menu's limit path.
pub then-Limited :
    (menu : String) (r : Bool) (on_limit : Child) (j k : Job) (first second : List String)
    → ChildIn second on_limit
    → JobOk (Waiting (some menu) r) j first
    → JobOk (Limited menu on_limit) k second
    → JobOk (Limited menu on_limit) (λ st. j st >>= k) (first ++ second)
then-Limited menu r on_limit j k first second inside h g =
    JobOk-then (Waiting (some menu) r) (Limited menu on_limit) (Limited menu on_limit) j k first
      second (λ l m id o same (p, q, in_l). (cc, later l m id on_limit same inside in_l))
      (λ l m id o (p, c). (
        p,
        ChildBefore-Within
            (record { front = l; back = []; split = ap (λ x. l ++ x) (sym (append-nil m)) }) id
            on_limit c,
      ))
      h g
  where
    later :
        (l m : List Entry) (id : String) (c : Child)
        → SameKeys m second
        → ChildIn second c
        → 1 ≤ count id (ids l)
        → ChildBefore (l ++ m) id c
    later l m id absent same inside in_l = inside
    later l m id (present b) same inside in_l = record {
      front = l;
      back = m;
      split = refl;
      in_front = in_l;
      in_back = omega (arith, same (block_id b));
    }

-- A path with no return to the menu is itself in order.
pub limit-Limited :
    (menu : String) (on_limit : Child) (job : Job) (keys : List String)
    → JobOk (Waiting (some menu) false) job keys
    → JobOk (Limited menu on_limit) job keys
limit-Limited menu on_limit job keys h =
    JobOk-weaken (Waiting (some menu) false) (Limited menu on_limit) job keys
      (λ l id o (p, q, in_l). cc) h

-- With the menu entered, its returns are resolved.
pub enter-Limited :
    (W : Open) (id : String) (menu : Menu) (bs : Branches) (t i k : Child) (owner : Option String)
    (body : Job) (keys : List String)
    → ((l : List Entry)
        → SameKeys l keys
        → PlacedBlock W
            (record { block = collect_digit id menu bs t i k; owner_menu_id = owner } ∷ l)
            (collect_digit id menu bs t i k)
            owner)
    → JobOk (Limited id k) body keys
    → JobOk W (λ st. enter (collect_digit id menu bs t i k) owner st >>= body) (id ∷ keys)
enter-Limited W id menu bs t i k owner body keys head h =
    let b = collect_digit id menu bs t i k in
    let e : Entry = record { block = b; owner_menu_id = owner } in
    JobOk-enter (Limited id k) W b owner body keys head
      (λ l r m (same, later). inr (resolved l r m same later)) h
  where
    resolved :
        (l : List Entry) (r m : String)
        → m ≡ id
        → ChildBefore l r k
        → Resolved
            (record { block = collect_digit id menu bs t i k; owner_menu_id = owner } ∷ l)
            r
            m
    resolved l r m same later = rw same (record {
      menu = menu;
      branches = bs;
      on_timeout = t;
      on_invalid = i;
      on_limit = k;
      menu_owner = owner;
      listed = record { front = []; back = l; split = refl };
      limit_later =
          ChildBefore-Within
            (record {
              front = record { block = collect_digit id menu bs t i k; owner_menu_id = owner } ∷ [];
              back = [];
              split =
                  ap
                    (λ x.
                      record { block = collect_digit id menu bs t i k; owner_menu_id = owner } ∷ x)
                    (sym (append-nil l));
            })
            r k later;
    })
