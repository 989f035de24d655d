-- ===== src/Services/Startup/Acyclic.antt =====
-- Which graphs are ordered completely: those with a rank that falls along each dependency.
use yasin_core.Prelude.{
  ℕ, zero, suc, ◌<◌, String, ◌≡◌, refl, true, false, ◌⊎◌, List, [], ◌∷◌, ◌++◌, arith, ◌==◌, eq_iff,
  if◌then◌else◌, inl, inr, Bool-cases,
}
use yasin_core.Prelude.Counting.{count, elem, count→elem}
use yasin_core.Dict.{Dict}
use yasin_core.Services.Startup.Loop.{pending, Respects, Inv}

-- Every dependency has a smaller rank than the name that declares it.
abbrev pub IsRanked : (String → ℕ) → (String → List String) → Type 0
IsRanked rank deps = (n dep : String) → elem dep (deps n) ≡ true → rank dep < rank n

-- Every dependency is a name.
abbrev pub IsClosed : List String → (String → List String) → Type 0
IsClosed names deps = (n dep : String) → elem dep (deps n) ≡ true → elem dep names ≡ true

pending-zero :
    (order deps : List String)
    → ((dep : String) → elem dep deps ≡ true → elem dep order ≡ true)
    → pending order deps ≡ 0
unfolding pending elem
pending-zero order [] h = refl
pending-zero order (dep ∷ deps) h =
    ground (arith, h dep, eq_iff dep dep, pending-zero order deps (λ x m. h x (ground (arith, m))))

pub elem-pending :
    (order deps : List String) (dep : String)
    → pending order deps ≡ 0
    → elem dep deps ≡ true
    → elem dep order ≡ true
unfolding pending elem
elem-pending order [] dep p h = cc
elem-pending order (d ∷ deps) dep p h = ground (arith, elem-pending order deps dep, eq_iff d dep)

module _ {names : List String} {deps : String → List String} (rank : String → ℕ)
    (closed : IsClosed names deps) (ranked : IsRanked rank deps) where
  -- With an empty queue every name of a ranked graph is in the order.
  pub all_placed :
      (d : Dict ℕ) (order : List String)
      → Inv names deps d [] order
      → (bound : ℕ) (n : String) → rank n < bound
      → elem n names ≡ true
      → elem n order ≡ true
  unfolding count
  all_placed d order inv zero n l h = absurd (omega arith)
  all_placed d order inv (suc bound) n l h =
      let nothing_left : pending order (deps n) ≡ 0 = pending-zero order (deps n) (λ dep m.
        all_placed d order inv bound dep (omega (arith, ranked n dep m)) (closed n dep m)) in
      count→elem n order (ground (arith, inv.placed n))

-- How many nodes stand before the first `n`.
pub position : String → List String → ℕ
position n [] = 0
position n (x ∷ xs) = if x == n then 0 else suc (position n xs)

elem-append_one :
    (x y : String) (xs : List String) → elem x (xs ++ y ∷ []) ≡ true → (elem x xs ≡ true) ⊎ (y ≡ x)
unfolding elem
elem-append_one x y [] h = ground (arith, eq_iff y x)
elem-append_one x y (z ∷ xs) h = ground (arith, elem-append_one x y xs)

position-lt :
    (deps : String → List String) (seen order : List String) (n dep : String)
    → Respects deps seen order
    → elem n order ≡ true
    → elem dep (deps n) ≡ true
    → (elem dep seen ≡ true) ⊎ (position dep order < position n order)
unfolding position elem
position-lt deps seen [] n dep r p h = absurd (cc)
position-lt deps seen (x ∷ xs) n dep r p h = elim (Bool-cases (x == n)) [
  | inl here ↦ inl (elem-pending seen (deps n) dep (rw (← (eq_iff x n).0 here) r.0) h)
  | inr there ↦ ground (
    arith,
    position-lt deps (seen ++ x ∷ []) xs n dep r.1,
    elem-append_one dep x seen,
    eq_iff x dep,
  )
]

-- The position in an order that respects the dependencies is such a rank.
pub Respects-IsRanked :
    (deps : String → List String) (names order : List String)
    → Respects deps [] order
    → ((n : String) → elem n names ≡ true → elem n order ≡ true)
    → ((n : String) → elem n names ≡ false → deps n ≡ [])
    → IsRanked (λ n. position n order) deps
unfolding elem
Respects-IsRanked deps names order r all outside n dep h = elim (Bool-cases (elem n names)) [
  | inl named ↦ ground (arith, position-lt deps [] order n dep r (all n named) h)
  | inr other ↦ absurd (ground (arith, outside n other))
]
