-- ===== src/Services/Startup/Drain.antt =====
-- The whole loop: with a round for each name that is left the queue is empty at the end, and each
-- node of the order stands behind its dependencies.
use mathlib.Core.List.{append_assoc, append-nil}
use yasin_core.Prelude.{
  ℕ, zero, suc, ◌+◌, ◌≤◌, String, ◌≡◌, refl, List, [], ◌∷◌, ◌++◌, arith, length, length-append,
}
use yasin_core.Prelude.Counting.{count-append, elem→count, length-le_of_count}
use yasin_core.Dict
use yasin_core.Dict.{Dict}
use yasin_core.Services.Startup.{relax, sorted, visit}
use yasin_core.Services.Startup.Loop.{pending, Respects, IsGraph, Inv, taken, round-Inv}

Respects-snoc :
    (deps : String → List String) (seen order : List String) (n : String)
    → Respects deps seen order
    → pending (seen ++ order) (deps n) ≡ 0
    → Respects deps seen (order ++ n ∷ [])
Respects-snoc deps seen [] n r h = (rw append-nil at h, tt)
Respects-snoc deps seen (x ∷ xs) n r h =
    (r.0, Respects-snoc deps (seen ++ x ∷ []) xs n r.1 (rw append_assoc h))

module _ {names : List String} {deps : String → List String} {graph : Dict (List String)}
    (g : IsGraph names deps graph) where
  pub visit-Inv :
      (fuel : ℕ) (d : Dict ℕ) (queue order : List String)
      → Inv names deps d queue order
      → Respects deps [] order
      → let (queue', order') = visit fuel graph d queue order in
        (d' : Dict ℕ) × Inv names deps d' queue' order' × Respects deps [] order'
  unfolding visit
  visit-Inv zero d queue order inv r = (d, inv, r)
  visit-Inv (suc fuel) d [] order inv r = (d, inv, r)
  visit-Inv (suc fuel) d (node ∷ rest) order inv r =
      let (lowered, queue) = relax (Dict.get_or graph node []) d rest in
      visit-Inv fuel lowered (sorted queue) (order ++ node ∷ []) (round-Inv g d node rest order inv)
        (Respects-snoc deps [] order node r (taken g d node rest order inv).2)

  -- Order and queue together hold no name twice, so they are at most as many as the names.
  Inv-length :
      (d : Dict ℕ) (queue order : List String)
      → Inv names deps d queue order
      → length order + length queue ≤ length names
  Inv-length d queue order inv = omega (
    arith,
    length-append order queue,
    length-le_of_count (order ++ queue) names
        (λ z. ground (arith, count-append z order queue, inv.placed z, elem→count z names)),
  )

  pub visit-drains :
      (fuel : ℕ) (d : Dict ℕ) (queue order : List String)
      → Inv names deps d queue order
      → length names ≤ fuel + length order
      → (visit fuel graph d queue order).0 ≡ []
  unfolding visit
  visit-drains zero d [] order inv l = refl
  visit-drains zero d (node ∷ rest) order inv l =
      absurd (omega (arith, Inv-length d (node ∷ rest) order inv))
  visit-drains (suc fuel) d [] order inv l = refl
  visit-drains (suc fuel) d (node ∷ rest) order inv l =
      let (lowered, queue) = relax (Dict.get_or graph node []) d rest in
      visit-drains fuel lowered (sorted queue) (order ++ node ∷ [])
        (round-Inv g d node rest order inv) (omega (arith, length-append order (node ∷ [])))
