-- ===== src/Versions/Negotiation.antt =====
-- The order of the versions, and which one `negotiate` picks.
use yasin_core.Prelude.{
  ℕ, ◌+◌, ◌≤◌, ◌<◌, ◌≡◌, ◌⊎◌, refl, ap, ◌∙◌, subst, Bool, true, false, not, ◌&&◌, ◌||◌, Option,
  none, some, List, [], ◌∷◌, if◌then◌else◌, ltb, eqb, Bool-cases, inl, inr, arith,
}
use yasin_core.Cron.{Text}
use yasin_core.Versions.{
  Version, parse, lexicographic, as_tuple, lower_version, upper_limit, release_of, is_release,
  in_caret_range, is_compatible, compatible_versions, highest, max_version, negotiate,
}

lexicographic-irreflexive : (xs : List ℕ) → lexicographic xs xs ≡ false
unfolding lexicographic
lexicographic-irreflexive [] = refl
lexicographic-irreflexive (x ∷ xs) = ground (arith, lexicographic-irreflexive xs)

lexicographic-asymmetric :
    (xs ys : List ℕ) → lexicographic xs ys ≡ true → lexicographic ys xs ≡ false
unfolding lexicographic
lexicographic-asymmetric [] [] h = refl
lexicographic-asymmetric [] (y ∷ ys) h = refl
lexicographic-asymmetric (x ∷ xs) [] h = absurd (cc)
lexicographic-asymmetric (x ∷ xs) (y ∷ ys) h = ground (arith, h, lexicographic-asymmetric xs ys)

-- What lies above one lies above, or has below it, any third.
lexicographic-between :
    (xs ys zs : List ℕ)
    → lexicographic xs ys ≡ false
    → lexicographic ys zs ≡ false
    → lexicographic xs zs ≡ false
unfolding lexicographic
lexicographic-between [] [] zs h l = l
lexicographic-between [] (y ∷ ys) zs h l = absurd (cc)
lexicographic-between (x ∷ xs) ys [] h l = refl
lexicographic-between (x ∷ xs) [] (z ∷ zs) h l = absurd (cc)
lexicographic-between (x ∷ xs) (y ∷ ys) (z ∷ zs) h l =
    ground (arith, h, l, lexicographic-between xs ys zs)

abbrev In : Version → List Version → Type 0
In v [] = ⊥
In v (w ∷ ws) = (w ≡ v) ⊎ In v ws

highest-In : (best : Version) (vs : List Version) → In (highest best vs) (best ∷ vs)
unfolding highest
highest-In best [] = inl refl
highest-In best (v ∷ vs) =
    pick (lower_version best v) (highest-In (if lower_version best v then v else best) vs)
  where
    pick :
        (b : Bool)
        → In (highest (if b then v else best) vs) ((if b then v else best) ∷ vs)
        → In (highest (if b then v else best) vs) (best ∷ v ∷ vs)
    pick true h = inr h
    pick false (inl e) = inl e
    pick false (inr h) = inr (inr h)

-- Nothing in the list is above the highest one.
highest-top :
    (best : Version) (vs : List Version) (w : Version)
    → In w (best ∷ vs)
    → lower_version (highest best vs) w ≡ false
unfolding highest
highest-top best [] w (inl e) =
    subst (λ (x : Version). lower_version best x ≡ false) e
      (lexicographic-irreflexive (as_tuple best))
highest-top best [] w (inr h) = absurd h
highest-top best (v ∷ vs) w h =
    pick (lower_version best v) refl
      (λ x. highest-top (if lower_version best v then v else best) vs x) h
  where
    pick :
        (b : Bool)
        → lower_version best v ≡ b
        → let top = highest (if b then v else best) vs in
          ((x : Version) → In x ((if b then v else best) ∷ vs) → lower_version top x ≡ false)
          → In w (best ∷ v ∷ vs)
          → lower_version top w ≡ false
    pick b e ih (inr (inr i)) = ih w (inr i)
    pick true e ih (inr (inl i)) = ih w (inl i)
    pick false e ih (inl i) = ih w (inl i)
    pick true e ih (inl i) =
        subst (λ (x : Version). lower_version (highest v vs) x ≡ false) i
          (lexicographic-between (as_tuple (highest v vs)) (as_tuple v) (as_tuple best)
            (ih v (inl refl)) (lexicographic-asymmetric (as_tuple best) (as_tuple v) e))
    pick false e ih (inr (inl i)) =
        subst (λ (x : Version). lower_version (highest best vs) x ≡ false) i
          (lexicographic-between (as_tuple (highest best vs)) (as_tuple best) (as_tuple v)
            (ih best (inl refl)) e)

abbrev pub Among : Text → List Text → Type 0
Among sv [] = ⊥
Among sv (x ∷ xs) = (x ≡ sv) ⊎ Among sv xs

compatible_versions-In :
    (expr : Text) (svs : List Text) (sv : Text)
    → Among sv svs
    → is_compatible expr sv ≡ true
    → In (parse sv) (compatible_versions expr svs)
unfolding compatible_versions
compatible_versions-In expr [] sv h c = h
compatible_versions-In expr (x ∷ xs) sv (inl e) c =
    rw (ap (is_compatible expr) e ∙ c) (inl (ap parse e))
compatible_versions-In expr (x ∷ xs) sv (inr h) c = elim (Bool-cases (is_compatible expr x)) [
  | inl e ↦ rw e (inr (compatible_versions-In expr xs sv h c))
  | inr e ↦ rw e (compatible_versions-In expr xs sv h c)
]

-- The version of a compatible server version.
abbrev pub IsOffered : Text → List Text → Version → Type 0
IsOffered expr svs v = (sv : Text) × Among sv svs × (is_compatible expr sv ≡ true) × (parse sv ≡ v)

In-IsOffered :
    (expr : Text) (svs : List Text) (v : Version)
    → In v (compatible_versions expr svs)
    → IsOffered expr svs v
unfolding compatible_versions
In-IsOffered expr [] v h = absurd h
In-IsOffered expr (x ∷ xs) v h = pick (is_compatible expr x) refl (λ i. In-IsOffered expr xs v i) h
  where
    pick :
        (b : Bool)
        → is_compatible expr x ≡ b
        → (In v (compatible_versions expr xs) → IsOffered expr xs v)
        → In v (if b then parse x ∷ compatible_versions expr xs else compatible_versions expr xs)
        → IsOffered expr (x ∷ xs) v
    pick true e ih (inl i) = (x, inl refl, e, i)
    pick true e ih (inr i) = let (sv, a, c, p) = ih i in (sv, inr a, c, p)
    pick false e ih i = let (sv, a, c, p) = ih i in (sv, inr a, c, p)

-- A compatible version that none is above, or the error where none is compatible.
abbrev pub IsBest : Text → List Text → Option Version → Type 0
IsBest expr svs none = (sv : Text) → Among sv svs → is_compatible expr sv ≡ false
IsBest expr svs (some best) =
    IsOffered expr svs best
    × ((sv : Text)
        → Among sv svs
        → is_compatible expr sv ≡ true
        → lower_version best (parse sv) ≡ false)

-- `negotiate` picks a server version that meets the requirement and that no other such version is above, and
-- raises exactly when no server version meets it.
pub negotiate-IsBest : (expr : Text) (svs : List Text) → IsBest expr svs (negotiate expr svs)
unfolding negotiate
negotiate-IsBest expr svs =
    pick (compatible_versions expr svs) (compatible_versions-In expr svs) (In-IsOffered expr svs)
  where
    pick :
        (vs : List Version)
        → ((sv : Text) → Among sv svs → is_compatible expr sv ≡ true → In (parse sv) vs)
        → ((v : Version) → In v vs → IsOffered expr svs v)
        → IsBest expr svs (max_version vs)
    pick [] complete sound = λ sv a. elim (Bool-cases (is_compatible expr sv)) [
      | inl e ↦ absurd (complete sv a e)
      | inr e ↦ e
    ]
    pick (v ∷ vs) complete sound = (
      sound (highest v vs) (highest-In v vs),
      λ sv a c. highest-top v vs (parse sv) (complete sv a c),
    )

lexicographic-nil : (xs : List ℕ) → lexicographic xs [] ≡ false
unfolding lexicographic
lexicographic-nil [] = refl
lexicographic-nil (x ∷ xs) = refl

is_release-le : (t : Text) → is_release t ≤ 1
is_release-le [] = omega arith
is_release-le (c ∷ cs) = omega arith

positive : (n : ℕ) → 0 < n → ltb 0 n ≡ true
positive n h = ground (arith, h)

upper_limit-major : (v : Version) → 0 < v.major → upper_limit v ≡ release_of (v.major + 1) 0 0
upper_limit-major v h = rw (positive v.major h) refl

-- A caret range over a version with a positive major number has the versions of the same major number that are not
-- below it and, besides, the prereleases of the next major version.
pub in_caret_range-major :
    (req core : Version)
    → 0 < req.major
    → in_caret_range req core ≡ (
        (eqb core.major req.major && not (lower_version core req))
        || (eqb core.major (req.major + 1)
            && (eqb core.minor 0 && (eqb core.patch 0 && eqb (is_release core.prerelease) 0))))
unfolding in_caret_range lexicographic
in_caret_range-major req core h =
    rw (in_caret_range, upper_limit-major req h, lexicographic-nil core.prerelease)
      (ground (arith, h, is_release-le core.prerelease))
