-- ===== src/Base/Counts.antt =====
-- How often a text stands in a list: the view in which the order of a list is forgotten.
use mathlib.Core.Bool.{Bool, true, false, not, ◌&&◌, ◌||◌}
use ivrdroid.Base.Tests.{if◌then◌else◌}
use Prim.Native.Nat.{ℕ, ◌+◌, ◌≤◌}
use Prim.Native.String.{String}
use mathlib.Core.Path.{◌≡◌, refl, ap}
use mathlib.Core.List.{List, [], ◌∷◌, ◌++◌}
use native.Mathlib.Omega.{arith}
use text.Mathlib.Text.{◌==◌}
use text.Mathlib.TextEquality.{eq_iff}
use text.Mathlib.TextPositions.{eq_refl}

-- `key in collection`.
unfoldable pub contains : List String → String → Bool
contains [] key = false
contains (x ∷ xs) key = key == x || contains xs key

unfoldable pub count : String → List String → ℕ
count key [] = 0
count key (x ∷ xs) = (if key == x then 1 else 0) + count key xs

pub count-append :
    (key : String) (xs ys : List String) → count key (xs ++ ys) ≡ count key xs + count key ys
unfolding count
count-append key [] ys = omega arith
count-append key (x ∷ xs) ys = ground (arith, count-append key xs ys)

pub contains-eq-false :
    (xs : List String) (key : String) → count key xs ≡ 0 → contains xs key ≡ false
unfolding count contains
contains-eq-false [] key h = refl
contains-eq-false (x ∷ xs) key h = ground (arith, contains-eq-false xs key)

pub count-eq-zero : (xs : List String) (key : String) → contains xs key ≡ false → count key xs ≡ 0
unfolding count contains
count-eq-zero [] key h = refl
count-eq-zero (x ∷ xs) key h = ground (arith, count-eq-zero xs key)

pub count-nil : (key : String) → count key [] ≡ 0
unfolding count
count-nil key = refl

pub count-cons :
    (key x : String) (xs : List String) → count key (x ∷ xs) ≡ count key (x ∷ []) + count key xs
unfolding count
count-cons key x xs = omega arith

pub count_self : (key : String) (xs : List String) → count key (key ∷ xs) ≡ 1 + count key xs
unfolding count
count_self key xs = ground (arith, eq_refl key)

-- No text occurs twice.
abbrev pub IsDistinct : List String → Type 0
IsDistinct xs = (key : String) → count key xs ≤ 1

-- `len(keys) == len(set(keys))`.
unfoldable pub distinct : List String → Bool
unfolding contains
distinct [] = true
distinct (x ∷ xs) = not (contains xs x) && distinct xs

pub distinct-IsDistinct : (xs : List String) → distinct xs ≡ true → IsDistinct xs
unfolding distinct count
distinct-IsDistinct [] h key = omega arith
distinct-IsDistinct (x ∷ xs) h key = ground (
  arith,
  eq_iff key x,
  count-eq-zero xs x,
  distinct-IsDistinct xs,
  λ (p : distinct xs ≡ true). distinct-IsDistinct xs p key,
  ap (λ (k : String). count k xs),
)

pub IsDistinct-distinct : (xs : List String) → IsDistinct xs → distinct xs ≡ true
unfolding distinct
IsDistinct-distinct [] h = refl
IsDistinct-distinct (x ∷ xs) h =
    let none_left = contains-eq-false xs x (omega (arith, h x, count_self x xs)) in
    rw none_left (IsDistinct-distinct xs (λ key. omega (arith, h key, count-cons key x xs)))
