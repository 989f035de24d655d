-- ===== src/Cron/Printing.antt =====
-- The expressions of a field, how they are written and what they mean.
use yasin_core.Prelude.{
  ℕ, ◌+◌, ◌*◌, ◌≤◌, ◌<◌, Bool, false, ◌||◌, Option, none, some, List, [], ◌∷◌, ◌++◌,
}
use yasin_core.Cron.{Text}
use yasin_core.Cron.Fields.{is_in_range}

-- A number by its decimal digits, the first one apart.
pub record Numeral : Type 0 where
  pub first : ℕ
  pub rest : List ℕ

pub data Span : Type 0 where
  every : Span
  one : Numeral → Span
  between : Numeral → Numeral → Span

pub record Part : Type 0 where
  pub span : Span
  pub step : Option Numeral

abbrev pub digits : List ℕ → Text
digits [] = []
digits (d ∷ ds) = (b'0' + d) ∷ digits ds

abbrev pub print_numeral : Numeral → Text
print_numeral n = digits (n.first ∷ n.rest)

abbrev pub print_span : Span → Text
print_span every = b'*' ∷ []
print_span (one n) = print_numeral n
print_span (between m n) = print_numeral m ++ b'-' ∷ print_numeral n

abbrev pub print_step : Option Numeral → Text
print_step none = []
print_step (some n) = b'/' ∷ print_numeral n

abbrev pub print_part : Part → Text
print_part p = print_span p.span ++ print_step p.step

abbrev pub print_parts : Part → List Part → Text
print_parts p [] = print_part p
print_parts p (q ∷ qs) = print_part p ++ b',' ∷ print_parts q qs

abbrev pub value_from : ℕ → List ℕ → ℕ
value_from n [] = n
value_from n (d ∷ ds) = value_from (n * 10 + d) ds

abbrev pub value : Numeral → ℕ
value n = value_from 0 (n.first ∷ n.rest)

abbrev pub start_of : ℕ → Span → ℕ
start_of lo every = lo
start_of lo (one n) = value n
start_of lo (between m n) = value m

abbrev pub last_of : ℕ → Span → ℕ
last_of hi every = hi
last_of hi (one n) = value n
last_of hi (between m n) = value n

abbrev pub step_of : Option Numeral → ℕ
step_of none = 1
step_of (some n) = value n

-- What a part means: the numbers of its span, every step-th of them from the first one on.
abbrev pub means : ℕ → ℕ → Part → ℕ → Bool
means lo hi p v = is_in_range (start_of lo p.span) (last_of hi p.span) (step_of p.step) v

abbrev pub means_one_of : ℕ → ℕ → List Part → ℕ → Bool
means_one_of lo hi [] v = false
means_one_of lo hi (p ∷ ps) v = means lo hi p v || means_one_of lo hi ps v

abbrev pub AreDigits : List ℕ → Type 0
AreDigits [] = Unit
AreDigits (d ∷ ds) = (d ≤ 9) × AreDigits ds

abbrev pub IsNumeral : Numeral → Type 0
IsNumeral n = AreDigits (n.first ∷ n.rest)

abbrev pub IsSpan : Span → Type 0
IsSpan every = Unit
IsSpan (one n) = IsNumeral n
IsSpan (between m n) = IsNumeral m × IsNumeral n

abbrev pub IsStep : Option Numeral → Type 0
IsStep none = Unit
IsStep (some n) = IsNumeral n × (0 < value n)

abbrev pub IsPart : Part → Type 0
IsPart p = IsSpan p.span × IsStep p.step

abbrev pub AreParts : List Part → Type 0
AreParts [] = Unit
AreParts (p ∷ ps) = IsPart p × AreParts ps
