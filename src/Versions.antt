-- ===== src/Versions.antt =====
-- yasin_core/compatibility/version.py: versions, their order, version requirements and the negotiation. A text
-- is the list of its characters' codes, and its digits are the ASCII ones.
pub mod Negotiation
mod Tests
use yasin_core.Prelude.{
  ℕ, zero, suc, ◌+◌, Bool, true, false, not, ◌&&◌, ◌||◌, Option, none, some, List, [], ◌∷◌, ◌++◌,
  if◌then◌else◌, ltb, eqb,
}
use yasin_core.Cron.{Text, is_digit, split_on}
use yasin_core.Plugins.Versions.{
  strip, after_prefix, text_eq, decimal, Comparison, at_least, at_most, above, below, same,
  different, operators, find_operator,
}

pub record Version : Type 0 where
  pub major : ℕ
  pub minor : ℕ
  pub patch : ℕ
  pub prerelease : Text

-- text.lstrip("v")
abbrev pub drop_v : Text → Text
drop_v [] = []
drop_v (c ∷ cs) = let rest = drop_v cs in if eqb c b'v' then rest else c ∷ cs

abbrev pub put_first : ℕ → Text × Text → Text × Text
put_first c (a, b) = (c ∷ a, b)

-- The parts before and after the first `-`.
unfoldable pub split_prerelease : Text → Text × Text
split_prerelease [] = ([], [])
split_prerelease (c ∷ cs) =
    let rest = put_first c (split_prerelease cs) in if eqb c b'-' then ([], cs) else rest

-- re.sub(r"\D", "", text)
abbrev pub digits_of : Text → Text
digits_of [] = []
digits_of (c ∷ cs) = let rest = digits_of cs in if is_digit c then c ∷ rest else rest

-- int of the digits, 0 without any
abbrev pub number_of : Text → ℕ
number_of text = decimal 0 (digits_of text)

-- The number of a part, 0 where the part is missing.
abbrev pub part_number : ℕ → List Text → ℕ
part_number n [] = 0
part_number zero (p ∷ ps) = number_of p
part_number (suc n) (p ∷ ps) = part_number n ps

-- Version(version_str)
unfoldable pub parse : Text → Version
unfolding split_on split_prerelease
parse version_str =
    let (release, prerelease) = split_prerelease (drop_v (strip version_str)) in
    let parts = split_on b'.' release in
    record {
      major = part_number 0 parts;
      minor = part_number 1 parts;
      patch = part_number 2 parts;
      prerelease = prerelease;
    }

-- The order of texts, and of tuples as the lists of their entries.
unfoldable pub lexicographic : List ℕ → List ℕ → Bool
lexicographic [] [] = false
lexicographic [] (y ∷ ys) = true
lexicographic (x ∷ xs) [] = false
lexicographic (x ∷ xs) (y ∷ ys) = let rest = lexicographic xs ys in ltb x y || (eqb x y && rest)

abbrev pub is_release : Text → ℕ
is_release [] = 1
is_release (c ∷ cs) = 0

-- _as_tuple; True is above False
abbrev pub as_tuple : Version → List ℕ
as_tuple v = v.major ∷ v.minor ∷ v.patch ∷ is_release v.prerelease ∷ v.prerelease

abbrev pub lower_version : Version → Version → Bool
lower_version v w = lexicographic (as_tuple v) (as_tuple w)

abbrev pub equal_version : Version → Version → Bool
equal_version v w = text_eq (as_tuple v) (as_tuple w)

-- Version(f"{major}.{minor}.{patch}")
abbrev pub release_of : ℕ → ℕ → ℕ → Version
release_of major minor patch = record {
  major = major;
  minor = minor;
  patch = patch;
  prerelease = [];
}

-- The version that a caret range ends before.
abbrev pub upper_limit : Version → Version
upper_limit v =
    if ltb 0 v.major
    then release_of (v.major + 1) 0 0
    else if ltb 0 v.minor
    then release_of 0 (v.minor + 1) 0
    else release_of 0 0 (v.patch + 1)

unfoldable pub in_caret_range : Version → Version → Bool
unfolding lexicographic
in_caret_range req core = not (lower_version core req) && lower_version core (upper_limit req)

unfoldable pub compare_to : Comparison → Version → Version → Bool
unfolding lexicographic
compare_to at_least core req = not (lower_version core req)
compare_to at_most core req = not (lower_version req core)
compare_to above core req = lower_version req core
compare_to below core req = lower_version core req
compare_to same core req = equal_version core req
compare_to different core req = not (equal_version core req)

-- The operators; a requirement without one is an exact one.
abbrev pub meets : Text → Version → Bool
meets expr core = elim (after_prefix (b'^' ∷ []) expr) [
  | some rest ↦ in_caret_range (parse (strip rest)) core
  | none ↦ elim (find_operator operators expr) [
    | some (c, rest) ↦ compare_to c core (parse (strip rest))
    | none ↦ compare_to same core (parse expr)
  ]
]

unfoldable pub is_compatible : Text → Text → Bool
unfolding parse in_caret_range compare_to
is_compatible [] core_version = true
is_compatible (c ∷ cs) core_version =
    let met = meets (strip (c ∷ cs)) (parse core_version) in
    if text_eq (strip (c ∷ cs)) (b'*' ∷ []) then true else met

unfoldable pub compatible_versions : Text → List Text → List Version
unfolding is_compatible parse
compatible_versions expr [] = []
compatible_versions expr (sv ∷ svs) =
    let rest = compatible_versions expr svs in
    if is_compatible expr sv then parse sv ∷ rest else rest

-- max(...): a later version takes the place only if it is higher.
unfoldable pub highest : Version → List Version → Version
unfolding lexicographic
highest best [] = best
highest best (v ∷ vs) = highest (if lower_version best v then v else best) vs

abbrev pub max_version : List Version → Option Version
max_version [] = none
max_version (v ∷ vs) = some (highest v vs)

-- VersionNegotiator.negotiate, before the version is printed; `none` is a VersionMismatchError.
unfoldable pub negotiate : Text → List Text → Option Version
unfolding compatible_versions highest
negotiate client_version_expr server_versions =
    max_version (compatible_versions client_version_expr server_versions)
