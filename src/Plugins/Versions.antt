-- ===== src/Plugins/Versions.antt =====
-- `check_version_compatibility` of yasin_core/plugins/registry.py, on texts as lists of ASCII codes.
use yasin_core.Prelude.{
  ℕ, ◌+◌, ◌-◌, ◌*◌, Bool, true, false, not, ◌&&◌, ◌||◌, Option, none, some, List, [], ◌∷◌, reverse,
  if◌then◌else◌, ltb, eqb,
}
use yasin_core.Cron.{Text, is_space, is_digit, split_on}

abbrev pub strip_left : Text → Text
strip_left [] = []
strip_left (c ∷ cs) = let rest = strip_left cs in if is_space c then rest else c ∷ cs

-- text.strip()
abbrev pub strip : Text → Text
strip text = reverse (strip_left (reverse (strip_left text)))

-- "".join(c for c in v_str if c.isdigit() or c == ".")
abbrev pub cleaned : Text → Text
cleaned [] = []
cleaned (c ∷ cs) = let rest = cleaned cs in if is_digit c || eqb c b'.' then c ∷ rest else rest

-- int(p) of digits
abbrev pub decimal : ℕ → Text → ℕ
decimal n [] = n
decimal n (c ∷ cs) = decimal (n * 10 + (c - b'0')) cs

-- [int(p) for p in pieces if p.isdigit()]
abbrev pub numbers_of : List Text → List ℕ
numbers_of [] = []
numbers_of ([] ∷ ps) = numbers_of ps
numbers_of ((c ∷ cs) ∷ ps) = decimal 0 (c ∷ cs) ∷ numbers_of ps

-- The first three numbers, with zeros for those that are missing.
abbrev pub first_three : List ℕ → ℕ × ℕ × ℕ
first_three [] = (0, 0, 0)
first_three (a ∷ []) = (a, 0, 0)
first_three (a ∷ b ∷ []) = (a, b, 0)
first_three (a ∷ b ∷ c ∷ _) = (a, b, c)

unfoldable pub parse_version : Text → ℕ × ℕ × ℕ
unfolding split_on
parse_version text = first_three (numbers_of (split_on b'.' (cleaned text)))

-- The order of the lists.
abbrev pub version_lt : ℕ × ℕ × ℕ → ℕ × ℕ × ℕ → Bool
version_lt (a, b, c) (x, y, z) = ltb a x || (eqb a x && (ltb b y || (eqb b y && ltb c z)))

abbrev pub version_eq : ℕ × ℕ × ℕ → ℕ × ℕ × ℕ → Bool
version_eq (a, b, c) (x, y, z) = eqb a x && (eqb b y && eqb c z)

-- text.startswith(prefix), with what follows the prefix
abbrev pub after_prefix : Text → Text → Option Text
after_prefix [] text = some text
after_prefix (p ∷ ps) [] = none
after_prefix (p ∷ ps) (c ∷ cs) = if eqb p c then after_prefix ps cs else none

abbrev pub text_eq : Text → Text → Bool
text_eq [] [] = true
text_eq (a ∷ as') (b ∷ bs) = eqb a b && text_eq as' bs
text_eq _ _ = false

pub data Comparison : Type 0 where
  at_least at_most above below same different : Comparison

abbrev pub compare_versions : Comparison → ℕ × ℕ × ℕ → ℕ × ℕ × ℕ → Bool
compare_versions at_least v w = not (version_lt v w)
compare_versions at_most v w = not (version_lt w v)
compare_versions above v w = version_lt w v
compare_versions below v w = version_lt v w
compare_versions same v w = version_eq v w
compare_versions different v w = not (version_eq v w)

-- ^: the same first number, and not less
abbrev pub in_caret : ℕ × ℕ × ℕ → ℕ × ℕ × ℕ → Bool
in_caret (a, b, c) (x, y, z) = eqb a x && not (version_lt (a, b, c) (x, y, z))

-- The operators in the order in which they are tried.
abbrev pub operators : List (Text × Comparison)
operators =
    (b'>' ∷ b'=' ∷ [], at_least)
    ∷ (b'<' ∷ b'=' ∷ [], at_most)
    ∷ (b'>' ∷ [], above)
    ∷ (b'<' ∷ [], below)
    ∷ (b'=' ∷ b'=' ∷ [], same)
    ∷ (b'!' ∷ b'=' ∷ [], different)
    ∷ []

abbrev pub find_operator : List (Text × Comparison) → Text → Option (Comparison × Text)
find_operator [] expr = none
find_operator ((op, c) ∷ ops) expr = elim (after_prefix op expr) [
  | none ↦ find_operator ops expr
  | some rest ↦ some (c, rest)
]

abbrev pub starts_with : Text → Text → Bool
starts_with prefix text = elim (after_prefix prefix text) [ none ↦ false | some rest ↦ true ]

unfoldable pub check_expression : Text → Text → Bool
unfolding parse_version
check_expression expr core = elim (after_prefix (b'^' ∷ []) expr) [
  | some rest ↦ in_caret (parse_version core) (parse_version (strip rest))
  | none ↦ elim (find_operator operators expr) [
    | some (c, rest) ↦ compare_versions c (parse_version core) (parse_version (strip rest))
    | none ↦ starts_with expr core || version_eq (parse_version core) (parse_version expr)
  ]
]

unfoldable pub check_version_compatibility : Text → Text → Bool
unfolding check_expression
check_version_compatibility [] core = true
check_version_compatibility (c ∷ cs) core =
    let checked = check_expression (strip (c ∷ cs)) core in
    if text_eq (c ∷ cs) (b'*' ∷ []) then true else checked
