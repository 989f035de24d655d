-- ===== src/Services/Startup/Loop.antt =====
-- The loop invariant of Kahn's algorithm, over any graph: the number that is left at a name counts
-- its dependencies that are not yet in the order, and a name stands in the order or in the queue,
-- once, exactly if nothing is left at it.
use yasin_core.Prelude.{
  ℕ, ◌+◌, ◌≤◌, String, ◌≡◌, refl, true, false, ◌&&◌, none, some, List, [], ◌∷◌, ◌++◌, arith, ◌==◌,
  eq_iff, eq_refl, if◌then◌else◌, length, eqb, Bool-cases, inl, inr,
}
use yasin_core.Prelude.Counting.{count, elem, count-append, elem→count}
use yasin_core.Dict
use yasin_core.Dict.{Dict}
use yasin_core.Services.Startup.{relax, sorted}
use yasin_core.Services.Startup.Sorting.{count-sorted}
use yasin_core.Services.Startup.Relax.{relax-get, relax-count, relax-count_absent}

-- How many of the dependencies are not in the order yet.
unfoldable pub pending : List String → List String → ℕ
pending order [] = 0
pending order (dep ∷ deps) = (if elem dep order then 0 else 1) + pending order deps

pub pending-nil : (deps : List String) → pending [] deps ≡ length deps
unfolding pending elem
pending-nil [] = refl
pending-nil (dep ∷ deps) = omega (arith, pending-nil deps)

elem-snoc :
    (x y : String) (xs : List String) → elem x (xs ++ y ∷ []) ≡ (if elem x xs then true else y == x)
unfolding elem
elem-snoc x y [] = ground arith
elem-snoc x y (z ∷ xs) = ground (arith, elem-snoc x y xs)

pub pending-snoc :
    (order deps : List String) (node : String)
    → elem node order ≡ false
    → pending order deps ≡ pending (order ++ node ∷ []) deps + count node deps
unfolding pending count
pending-snoc order [] node h = omega arith
pending-snoc order (dep ∷ deps) node h = ground (
  arith,
  pending-snoc order deps node h,
  elem-snoc dep node order,
  eq_iff node dep,
  eq_iff dep node,
)

-- Each name stands behind all of its dependencies; `seen` are the names before the list.
abbrev pub Respects : (String → List String) → List String → List String → Type 0
Respects deps seen [] = Unit {0}
Respects deps seen (n ∷ ns) = (pending seen (deps n) ≡ 0) × Respects deps (seen ++ n ∷ []) ns

pub record IsGraph (names : List String) (deps : String → List String) (graph : Dict (List String))
    : Type 0 where
  pub edges :
      (n node : String)
      → elem node names ≡ true
      → count n (Dict.get_or graph node []) ≡ count node (deps n)
  pub outside : (n : String) → elem n names ≡ false → deps n ≡ []
  pub distinct : (n : String) → count n names ≤ 1

pub record Inv (names : List String) (deps : String → List String) (d : Dict ℕ)
    (queue order : List String) : Type 0 where
  pub left :
      (n : String) → Dict.get d n ≡ (if elem n names then some (pending order (deps n)) else none)
  pub placed :
      (n : String)
      → count n order + count n queue
        ≡ (if elem n names && eqb (pending order (deps n)) 0 then 1 else 0)

module _ {names : List String} {deps : String → List String} {graph : Dict (List String)}
    (g : IsGraph names deps graph) where
  -- The node that is taken is a name with nothing left, and is not in the order.
  pub taken :
      (d : Dict ℕ) (node : String) (rest order : List String)
      → Inv names deps d (node ∷ rest) order
      → (elem node names ≡ true) × (elem node order ≡ false) × (pending order (deps node) ≡ 0)
  unfolding count
  taken d node rest order inv = elim (Bool-cases (elem node order)) [
    | inl old ↦ absurd (ground (arith, elem→count node order old, inv.placed node, eq_refl node))
    | inr new ↦ (
      ground (arith, inv.placed node, eq_refl node),
      new,
      ground (arith, inv.placed node, eq_refl node),
    )
  ]

  round-left :
      (d : Dict ℕ) (node : String) (rest order : List String)
      → Inv names deps d (node ∷ rest) order
      → (n : String)
      → Dict.get (relax (Dict.get_or graph node []) d rest).0 n
        ≡ (if elem n names then some (pending (order ++ node ∷ []) (deps n)) else none)
  round-left d node rest order inv n =
      let (named, new, _) = taken d node rest order inv in
      let ns = Dict.get_or graph node [] in
      ground (
        arith,
        inv.left n,
        g.edges n node named,
        pending-snoc order (deps n) node new,
        relax-get n ns d rest (pending order (deps n)),
        relax-count_absent n ns d rest,
      )

  round-placed :
      (d : Dict ℕ) (node : String) (rest order : List String)
      → Inv names deps d (node ∷ rest) order
      → (n : String)
      → count n (order ++ node ∷ []) + count n (relax (Dict.get_or graph node []) d rest).1
        ≡ (if elem n names && eqb (pending (order ++ node ∷ []) (deps n)) 0 then 1 else 0)
  unfolding count
  round-placed d node rest order inv n =
      let (named, new, _) = taken d node rest order inv in
      let ns = Dict.get_or graph node [] in
      ground (
        arith,
        inv.left n,
        inv.placed n,
        g.edges n node named,
        count-append n order (node ∷ []),
        pending-snoc order (deps n) node new,
        relax-count n ns d rest (pending order (deps n)),
        relax-count_absent n ns d rest,
      )

  pub round-Inv :
      (d : Dict ℕ) (node : String) (rest order : List String)
      → Inv names deps d (node ∷ rest) order
      → let (lowered, queue) = relax (Dict.get_or graph node []) d rest in
        Inv names deps lowered (sorted queue) (order ++ node ∷ [])
  round-Inv d node rest order inv = record {
    left = round-left d node rest order inv;
    placed = λ n.
        rw (count-sorted n (relax (Dict.get_or graph node []) d rest).1)
          (round-placed d node rest order inv n);
  }
