-- ===== src/Flow/WellFormed.antt =====
-- The flows that a release can run, described by recursion on the tree and without reference to
-- the code that checks them.
use ivrdroid.Base.{Bool, true, false, ◌≡◌, ◌||◌, String, List, [], ◌∷◌, ◌++◌, Option, some, none}
use ivrdroid.Flow.{
  Block, Child, Branches, Version, play_prompt, collect_digit, schedule_branch, record_message,
  external_call, return_to_menu, end_call, absent, present, nil, cons, after_prompt, below,
  below_menu, has_external, has_recording,
}

-- The ids of the blocks of a tree, in the document's order.
unfoldable mutual
  pub ids_of : Block → List String
  ids_of (play_prompt id _ next) = id ∷ ids_of_child next
  ids_of (collect_digit id _ branches on_timeout on_invalid on_limit) =
      id
      ∷ (ids_of_branches branches
          ++ (ids_of_child on_timeout ++ (ids_of_child on_invalid ++ ids_of_child on_limit)))
  ids_of (schedule_branch id _ on_open on_closed on_holiday) =
      id ∷ (ids_of_child on_open ++ (ids_of_child on_closed ++ ids_of_child on_holiday))
  ids_of (record_message id next unavailable) = id ∷ (ids_of_child next ++ ids_of_child unavailable)
  ids_of (external_call id _ _ next missed failed) =
      id ∷ (ids_of_child next ++ (ids_of_child missed ++ ids_of_child failed))
  ids_of (return_to_menu id) = id ∷ []
  ids_of (end_call id) = id ∷ []

  pub ids_of_child : Child → List String
  ids_of_child absent = []
  ids_of_child (present block) = ids_of block

  pub ids_of_branches : Branches → List String
  ids_of_branches nil = []
  ids_of_branches (cons _ _ root rest) = ids_of_child root ++ ids_of_branches rest

-- Whether a tree returns to the menu that owns its root.
unfoldable mutual
  pub returns_to_owner : Block → Bool
  returns_to_owner (play_prompt _ _ next) = child_returns next
  returns_to_owner (collect_digit _ _ _ _ _ _) = false
  returns_to_owner (schedule_branch _ _ o c h) =
      child_returns o || (child_returns c || child_returns h)
  returns_to_owner (record_message _ n u) = child_returns n || child_returns u
  returns_to_owner (external_call _ _ _ n m f) =
      child_returns n || (child_returns m || child_returns f)
  returns_to_owner (return_to_menu _) = true
  returns_to_owner (end_call _) = false

  pub child_returns : Child → Bool
  child_returns absent = false
  child_returns (present block) = returns_to_owner block

-- Every path has a first step; a return stands below a menu, and not on the menu's own limit path;
-- a recording or an external call belongs to the release and follows the notice that it asks for.
unfoldable mutual
  pub WellFormed : Version → Block → Option String → Bool → Type 0
  WellFormed v (play_prompt _ prompt next) owner notice =
      WellFormedChild v next owner (after_prompt v notice prompt)
  WellFormed v (collect_digit id menu branches on_timeout on_invalid on_limit) owner notice =
      WellFormedBranches v branches id (below_menu v notice menu.prompt_id)
      × WellFormedChild v on_timeout (some id) (below_menu v notice menu.prompt_id)
      × WellFormedChild v on_invalid (some id) (below_menu v notice menu.prompt_id)
      × WellFormedChild v on_limit (some id) (below_menu v notice menu.prompt_id)
      × (child_returns on_limit ≡ false)
  WellFormed v (schedule_branch _ _ o c h) owner notice =
      WellFormedChild v o owner (below v notice)
      × WellFormedChild v c owner (below v notice)
      × WellFormedChild v h owner (below v notice)
  WellFormed v (record_message _ next unavailable) owner notice =
      (has_recording v ≡ true)
      × (notice ≡ true)
      × WellFormedChild v next owner (below v notice)
      × WellFormedChild v unavailable owner (below v notice)
  WellFormed v (external_call _ _ _ next missed failed) owner notice =
      (has_external v ≡ true)
      × (notice ≡ true)
      × WellFormedChild v next owner notice
      × WellFormedChild v missed owner notice
      × WellFormedChild v failed owner notice
  WellFormed v (return_to_menu _) none notice = ⊥
  WellFormed v (return_to_menu _) (some m) notice = Unit
  WellFormed v (end_call _) owner notice = Unit

  pub WellFormedChild : Version → Child → Option String → Bool → Type 0
  WellFormedChild v absent owner notice = ⊥
  WellFormedChild v (present block) owner notice = WellFormed v block owner notice

  pub WellFormedBranches : Version → Branches → String → Bool → Type 0
  WellFormedBranches v nil owner notice = Unit
  WellFormedBranches v (cons _ _ root rest) owner notice =
      WellFormedChild v root (some owner) notice × WellFormedBranches v rest owner notice
