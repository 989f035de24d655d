-- ===== src/Prelude/Counting.antt =====
-- How often a text stands in a list: membership, absence of duplicates, permutations and lengths
-- are all read from this one number.
use Prim.Native.Nat.{ℕ, suc, ◌+◌, ◌-◌, ◌≤◌, ◌<◌}
use Prim.Native.String.{String}
use mathlib.Core.Path.{◌≡◌, refl}
use mathlib.Core.List.{List, [], ◌∷◌, ◌++◌, reverse, reverse-cons}
use mathlib.Core.Bool.{Bool, true, false, ◌||◌}
use native.Mathlib.Omega.{arith}
use text.Mathlib.Text.{◌==◌}
use text.Mathlib.TextEquality.{eq_iff}
use text.Mathlib.TextPositions.{eq_refl}
use yasin_core.Prelude.Tests.{if◌then◌else◌}
use yasin_core.Prelude.Lists.{length}

-- x in xs
unfoldable pub elem : String → List String → Bool
elem x [] = false
elem x (y ∷ ys) = y == x || elem x ys

unfoldable pub count : String → List String → ℕ
count x [] = 0
count x (y ∷ ys) = (if y == x then 1 else 0) + count x ys

pub elem→count : (x : String) (xs : List String) → elem x xs ≡ true → 0 < count x xs
unfolding elem count
elem→count x [] h = ground arith
elem→count x (y ∷ ys) h = ground (arith, elem→count x ys)

pub count→elem : (x : String) (xs : List String) → 0 < count x xs → elem x xs ≡ true
unfolding elem count
count→elem x [] h = ground arith
count→elem x (y ∷ ys) h = ground (arith, count→elem x ys)

pub count-append : (x : String) (xs ys : List String) → count x (xs ++ ys) ≡ count x xs + count x ys
unfolding count
count-append x [] ys = omega arith
count-append x (y ∷ xs) ys = omega (arith, count-append x xs ys)

-- Drops the first occurrence.
remove_first : String → List String → List String
remove_first x [] = []
remove_first x (y ∷ ys) = if y == x then ys else y ∷ remove_first x ys

count-remove_first :
    (x z : String) (ys : List String)
    → count z (remove_first x ys) ≡ count z ys - (if x == z then 1 else 0)
unfolding count remove_first
count-remove_first x z [] = ground arith
count-remove_first x z (y ∷ ys) =
    ground (arith, count-remove_first x z ys, eq_iff y x, eq_iff y z, eq_iff x z)

length-remove_first :
    (x : String) (ys : List String) → 0 < count x ys → length ys ≡ suc (length (remove_first x ys))
unfolding count remove_first
length-remove_first x [] h = ground arith
length-remove_first x (y ∷ ys) h = ground (arith, length-remove_first x ys)

-- A list that holds each text at most as often as another is at most as long.
pub length-le_of_count :
    (xs ys : List String) → ((z : String) → count z xs ≤ count z ys) → length xs ≤ length ys
unfolding count
length-le_of_count [] ys h = omega arith
length-le_of_count (x ∷ xs) ys h =
    let present : 0 < count x ys = ground (arith, h x, eq_refl x) in
    let rest : length xs ≤ length (remove_first x ys) =
      length-le_of_count xs (remove_first x ys)
        (λ z. ground (arith, h z, count-remove_first x z ys)) in
    omega (arith, rest, length-remove_first x ys present)

-- If it is as long too, both hold each text equally often.
pub count-eq_of_length :
    (xs ys : List String)
    → ((z : String) → count z xs ≤ count z ys)
    → length ys ≤ length xs
    → (z : String) → count z xs ≡ count z ys
unfolding count
count-eq_of_length [] [] h l z = refl
count-eq_of_length [] (y ∷ ys) h l z = absurd (omega arith)
count-eq_of_length (x ∷ xs) ys h l z =
    let present : 0 < count x ys = ground (arith, h x, eq_refl x) in
    let rest : count z xs ≡ count z (remove_first x ys) =
      count-eq_of_length xs (remove_first x ys)
        (λ w. ground (arith, h w, count-remove_first x w ys))
        (omega (arith, length-remove_first x ys present)) z in
    ground (arith, rest, h z, count-remove_first x z ys, eq_iff x z, present)

-- [x for x in xs if x != y]
unfoldable pub without : String → List String → List String
without y [] = []
without y (x ∷ xs) = let rest = without y xs in if x == y then rest else x ∷ rest

pub count-without :
    (y z : String) (xs : List String) → count z (without y xs) ≡ (if y == z then 0 else count z xs)
unfolding count without
count-without y z [] = ground arith
count-without y z (x ∷ xs) =
    ground (arith, count-without y z xs, eq_iff x y, eq_iff x z, eq_iff y z)

pub elem-append : (x : String) (xs ys : List String) → elem x (xs ++ ys) ≡ (elem x xs || elem x ys)
unfolding elem
elem-append x [] ys = refl
elem-append x (y ∷ xs) ys = ground (arith, elem-append x xs ys)

pub not_elem→count : (x : String) (xs : List String) → elem x xs ≡ false → count x xs ≡ 0
unfolding elem count
not_elem→count x [] h = refl
not_elem→count x (y ∷ xs) h = ground (arith, not_elem→count x xs)

pub count-reverse : (x : String) (xs : List String) → count x (reverse xs) ≡ count x xs
unfolding count
count-reverse x [] = refl
count-reverse x (y ∷ xs) =
    rw (reverse-cons y xs)
      (ground (arith, count-append x (reverse xs) (y ∷ []), count-reverse x xs))
