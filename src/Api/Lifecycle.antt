-- ===== src/Api/Lifecycle.antt =====
-- What a device was told: a segment or a recording that is acknowledged, and the rows that keep it so.
pub mod Segments
pub mod Recordings
pub mod Retention
pub mod Requests
mod Tests
use ivrdroid.Api.{
  Pending, str_eq, find_by, replace_by, Recording, Segment, Db, is_recording, is_segment,
  is_accepted, is_finished, put_segment, put_recording,
}
use ivrdroid.Api.Sums.{is_segment_same, find_by-cons}
use ivrdroid.Base.{
  eq_iff, Bool-cases, ℕ, ◌≡◌, String, List, [], ◌∷◌, Option, none, some, Bool, true, false,
  if◌then◌else◌, map, refl, sym, subst, ap, inl, inr, ◌∙◌,
}

module _ {ℓ} {A : Type ℓ} (accepts : A → Bool) where
  abbrev pub verdict : Option A → Bool
  verdict none = false
  verdict (some x) = accepts x

  kept_head :
      (k : Bool) (y z : A) (rest : Option A)
      → (accepts z ≡ true → accepts y ≡ true)
      → verdict (if k then some z else rest) ≡ true
      → verdict (if k then some y else rest) ≡ true
  kept_head true y z rest h e = h e
  kept_head false y z rest h e = e

  kept_tail :
      (k : Bool) (z : A) (rest rest' : Option A)
      → (verdict rest ≡ true → verdict rest' ≡ true)
      → verdict (if k then some z else rest) ≡ true
      → verdict (if k then some z else rest') ≡ true
  kept_tail true z rest rest' h e = e
  kept_tail false z rest rest' h e = h e

  module _ (key : A → Bool) where
    -- A row that gives way to one with the same key that is accepted if it was.
    pub verdict-replace_by :
        (test : A → Bool) (y : A) (xs : List A) (t : A)
        → find_by test xs ≡ some t
        → key y ≡ key t
        → (accepts t ≡ true → accepts y ≡ true)
        → verdict (find_by key xs) ≡ true
        → verdict (find_by key (replace_by test y xs)) ≡ true
    verdict-replace_by test y [] t e same h v = cc
    verdict-replace_by test y (z ∷ zs) t e same h v = elim (find_by-cons test z zs t e) [
      | inl (yes_z, equal) ↦
          (let h' : accepts z ≡ true → accepts y ≡ true =
              subst (λ q. accepts q ≡ true → accepts y ≡ true) (sym equal) h in
            let same' : key z ≡ key y = ap key equal ∙ sym same in
            let v' = subst (λ k. verdict (if k then some z else find_by key zs) ≡ true) same' v in
            rw yes_z (kept_head (key y) y z (find_by key zs) h' v'))
      | inr (no_z, later) ↦ rw no_z (
          kept_tail (key z) z (find_by key zs) (find_by key (replace_by test y zs))
            (verdict-replace_by test y zs t later same h) v)
    ]

    -- Rows that all change, with their keys, and stay accepted.
    pub verdict-map :
        (change : A → A)
        → ((x : A) → key (change x) ≡ key x)
        → ((x : A) → accepts x ≡ true → accepts (change x) ≡ true)
        → (xs : List A) → verdict (find_by key xs) ≡ true
        → verdict (find_by key (map change xs)) ≡ true
    verdict-map change same h [] v = cc
    verdict-map change same h (z ∷ zs) v = rw (same z) (
        kept_tail (key z) (change z) (find_by key zs) (find_by key (map change zs))
          (verdict-map change same h zs) (kept_head (key z) (change z) z (find_by key zs) (h z) v))

    -- A new row, where the key of a new row is in no other.
    pub verdict-cons :
        (y : A) (xs : List A)
        → (key y ≡ true → find_by key xs ≡ none)
        → verdict (find_by key xs) ≡ true
        → verdict (find_by key (y ∷ xs)) ≡ true
    verdict-cons y xs fresh v = elim (Bool-cases (key y)) [
      | inl yes_y ↦
          (let clash : verdict none ≡ true = subst (λ o. verdict o ≡ true) (fresh yes_y) v in cc)
      | inr no_y ↦ rw no_y v
    ]

-- The acknowledgements of `_segment_response` and `_recording_response`.
unfoldable pub acknowledged_segment : String → ℕ → Db → Bool
acknowledged_segment id index db =
    verdict (λ s. is_accepted s.status) (find_by (is_segment id index) db.segments)

unfoldable pub acknowledged_recording : String → Db → Bool
acknowledged_recording id db =
    verdict (λ r. is_finished r.status) (find_by (is_recording id) db.recordings)

-- What is acknowledged stays acknowledged.
pub record Keeps (db after : Db) : Type 0 where
  pub segments :
      (id : String) (index : ℕ)
      → acknowledged_segment id index db ≡ true
      → acknowledged_segment id index after ≡ true
  pub recordings :
      (id : String) → acknowledged_recording id db ≡ true → acknowledged_recording id after ≡ true

abbrev pub Keeps-same : (db : Db) → Keeps db db
Keeps-same db = record { segments = λ id index v. v; recordings = λ id v. v }

pub Keeps-trans : (a b c : Db) → Keeps a b → Keeps b c → Keeps a c
Keeps-trans a b c h k = record {
  segments = λ id index v. k.segments id index (h.segments id index v);
  recordings = λ id v. k.recordings id (h.recordings id v);
}

-- The changes that keep what is acknowledged.
pub Keeps-put_segment :
    (s t : Segment) (db : Db)
    → find_by (is_segment s.recording_id s.segment_index) db.segments ≡ some t
    → s.recording_id ≡ t.recording_id
    → s.segment_index ≡ t.segment_index
    → (is_accepted t.status ≡ true → is_accepted s.status ≡ true)
    → Keeps db (put_segment s db)
unfolding put_segment acknowledged_segment acknowledged_recording
Keeps-put_segment s t db here same same_index h = record {
  segments = λ id index v.
      verdict-replace_by (λ q. is_accepted q.status) (is_segment id index)
        (is_segment s.recording_id s.segment_index) s db.segments t here
        (rw (same, same_index) refl) h v;
  recordings = λ id v. v;
}

pub Keeps-put_recording :
    (r q : Recording) (db : Db)
    → find_by (is_recording r.id) db.recordings ≡ some q
    → r.id ≡ q.id
    → (is_finished q.status ≡ true → is_finished r.status ≡ true)
    → Keeps db (put_recording r db)
unfolding put_recording acknowledged_segment acknowledged_recording
Keeps-put_recording r q db here same h = record {
  segments = λ id index v. v;
  recordings = λ id v.
      verdict-replace_by (λ q. is_finished q.status) (is_recording id) (is_recording r.id) r
        db.recordings q here (ap (λ i. str_eq i id) same) h v;
}

pub Keeps-new_segment :
    (s : Segment) (db : Db)
    → find_by (is_segment s.recording_id s.segment_index) db.segments ≡ none
    → Keeps db (record db { segments = s ∷ db.segments })
unfolding acknowledged_segment acknowledged_recording
Keeps-new_segment s db fresh = record {
  segments = λ id index v.
      verdict-cons (λ q. is_accepted q.status) (is_segment id index) s db.segments
        (λ mine. subst (λ k. find_by k db.segments ≡ none) (is_segment_same id index s mine) fresh)
        v;
  recordings = λ id v. v;
}

pub Keeps-new_recording :
    (r : Recording) (db : Db) (uploads : List Pending)
    → find_by (is_recording r.id) db.recordings ≡ none
    → Keeps db (record db { recordings = r ∷ db.recordings; uploads = uploads })
unfolding acknowledged_segment acknowledged_recording
Keeps-new_recording r db uploads fresh = record {
  segments = λ id index v. v;
  recordings = λ id v.
      verdict-cons (λ q. is_finished q.status) (is_recording id) r db.recordings
        (λ mine.
          subst (λ i. find_by (is_recording i) db.recordings ≡ none) ((eq_iff r.id id).0 mine)
            fresh)
        v;
}

pub Keeps-map :
    (change : Recording → Recording) (change' : Segment → Segment) (uploads : List Pending)
    (db : Db)
    → ((id : String) (r : Recording) → is_recording id (change r) ≡ is_recording id r)
    → ((r : Recording) → is_finished r.status ≡ true → is_finished (change r).status ≡ true)
    → ((id : String) (index : ℕ) (s : Segment)
        → is_segment id index (change' s) ≡ is_segment id index s)
    → ((s : Segment) → is_accepted s.status ≡ true → is_accepted (change' s).status ≡ true)
    → Keeps db (record db {
      recordings = map change db.recordings;
      uploads = uploads;
      segments = map change' db.segments;
    })
unfolding acknowledged_segment acknowledged_recording
Keeps-map change change' uploads db same h same' h' = record {
  segments = λ id index v.
      verdict-map (λ q. is_accepted q.status) (is_segment id index) change' (same' id index) h'
        db.segments v;
  recordings = λ id v.
      verdict-map (λ q. is_finished q.status) (is_recording id) change (same id) h db.recordings v;
}

pub Keeps-map-segments :
    (change : Segment → Segment) (db : Db)
    → ((id : String) (index : ℕ) (s : Segment)
        → is_segment id index (change s) ≡ is_segment id index s)
    → ((s : Segment) → is_accepted s.status ≡ true → is_accepted (change s).status ≡ true)
    → Keeps db (record db { segments = map change db.segments })
unfolding acknowledged_segment acknowledged_recording
Keeps-map-segments change db same h = record {
  segments = λ id index v.
      verdict-map (λ q. is_accepted q.status) (is_segment id index) change (same id index) h
        db.segments v;
  recordings = λ id v. v;
}

-- The uploads are not looked at.
pub Keeps-uploads :
    (db after : Db) (uploads : List Pending)
    → Keeps db after
    → Keeps db (record after { uploads = uploads })
unfolding acknowledged_segment acknowledged_recording
Keeps-uploads db after uploads k = record { segments = k.segments; recordings = k.recordings }

pub Keeps-map-recordings :
    (change : Recording → Recording) (db : Db)
    → ((id : String) (r : Recording) → is_recording id (change r) ≡ is_recording id r)
    → ((r : Recording) → is_finished r.status ≡ true → is_finished (change r).status ≡ true)
    → Keeps db (record db { recordings = map change db.recordings })
unfolding acknowledged_segment acknowledged_recording
Keeps-map-recordings change db same h = record {
  segments = λ id index v. v;
  recordings = λ id v.
      verdict-map (λ q. is_finished q.status) (is_recording id) change (same id) h db.recordings v;
}
