-- ===== src/Services/Startup/Sorting.antt =====
-- Sorting rearranges: each text stands in the result as often as in the list.
use yasin_core.Prelude.{String, ◌≡◌, refl, List, [], ◌∷◌, arith, ◌==◌, ◌+◌, if◌then◌else◌}
use yasin_core.Prelude.Counting.{count}
use yasin_core.Services.Startup.{insert, sorted}

count-insert :
    (z x : String) (xs : List String)
    → count z (insert x xs) ≡ (if x == z then 1 else 0) + count z xs
unfolding count insert
count-insert z x [] = refl
count-insert z x (y ∷ ys) = ground (arith, count-insert z x ys)

pub count-sorted : (z : String) (xs : List String) → count z (sorted xs) ≡ count z xs
unfolding count sorted
count-sorted z [] = refl
count-sorted z (x ∷ xs) = ground (arith, count-insert z x (sorted xs), count-sorted z xs)
