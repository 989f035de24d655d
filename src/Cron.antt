-- ===== src/Cron.antt =====
-- `parse_cron_field` and `get_next_cron_time` of yasin_core/execution/scheduler.py. A text is the list
-- of its characters' codes, and its digits are the ASCII ones. A `datetime` is kept to the minute;
-- `none` is an exception.
pub mod Calendar
pub mod Fields
pub mod Printing
pub mod Reading
pub mod Search
mod Tests
use Prim.Native.Char.{code}
use yasin_core.Prelude.{
  ℕ, zero, suc, ◌+◌, ◌-◌, ◌*◌, String, Bool, true, false, not, ◌&&◌, ◌||◌, Option, none, some, List,
  [], ◌∷◌, ◌++◌, if◌then◌else◌, ltb, leb, eqb, ◌%◌, ◌>>=◌,
}
use yasin_core.Cron.Calendar.{DateTime, next_minute}
use yasin_core.Prelude.Int.{ℤ, pos, negsuc}

abbrev pub Text : Type 0
Text = List ℕ

abbrev pub codes : String → Text
codes String.[] = []
codes (String.◌∷◌ c s) = code c ∷ codes s

-- n in values
unfoldable pub contains : ℕ → List ℕ → Bool
contains n [] = false
contains n (x ∷ xs) = eqb x n || contains n xs

abbrev pub put_head : ℕ → List Text → List Text
put_head c [] = (c ∷ []) ∷ []
put_head c (w ∷ ws) = (c ∷ w) ∷ ws

-- text.split(sep), for one character
unfoldable pub split_on : ℕ → Text → List Text
split_on sep [] = [] ∷ []
split_on sep (c ∷ cs) =
    let rest = split_on sep cs in if eqb c sep then [] ∷ rest else put_head c rest

abbrev pub is_space : ℕ → Bool
is_space c = eqb c 32 || (leb 9 c && leb c 13) || (leb 28 c && leb c 31)

abbrev pub keep_words : List Text → List Text
keep_words [] = []
keep_words ([] ∷ ws) = keep_words ws
keep_words ((c ∷ cs) ∷ ws) = (c ∷ cs) ∷ keep_words ws

unfoldable pub split_at_spaces : Text → List Text
split_at_spaces [] = [] ∷ []
split_at_spaces (c ∷ cs) =
    let rest = split_at_spaces cs in if is_space c then [] ∷ rest else put_head c rest

-- text.split()
abbrev pub words : Text → List Text
words text = keep_words (split_at_spaces text)

abbrev pub is_digit : ℕ → Bool
is_digit c = leb b'0' c && leb c b'9'

-- The digits of `int`, with single underscores between them; `n` is what was read, `after` tells
-- whether the character before was a digit.
unfoldable pub read_digits : ℕ → Bool → Text → Option ℕ
read_digits n after [] = if after then some n else none
read_digits n after (c ∷ cs) =
    let digit = read_digits (n * 10 + (c - b'0')) true cs in
    let gap = read_digits n false cs in
    if is_digit c then digit else if eqb c b'_' && after then gap else none

-- int(text), for a text without `-`
unfoldable pub read_int : Text → Option ℕ
unfolding read_digits
read_int [] = none
read_int (c ∷ cs) = if eqb c b'+' then read_digits 0 false cs else read_digits 0 false (c ∷ cs)

abbrev pub negated : Option ℕ → Option ℤ
negated none = none
negated (some zero) = some (pos 0)
negated (some (suc n)) = some (negsuc n)

abbrev pub natural : Option ℕ → Option ℤ
natural none = none
natural (some n) = some (pos n)

-- int(text)
unfoldable pub read_step : Text → Option ℤ
unfolding read_int read_digits
read_step [] = none
read_step (c ∷ cs) =
    if eqb c b'-' then negated (read_digits 0 false cs) else natural (read_int (c ∷ cs))

-- start, start + step, ... up to `last`, in at most that many rounds
unfoldable pub count_up : ℕ → ℕ → ℕ → ℕ → List ℕ
count_up zero start last step = []
count_up (suc fuel) start last step =
    let rest = count_up fuel (start + step) last step in if leb start last then start ∷ rest else []

-- range(start, last + 1, step): a step of 0 is a ValueError; with a negative one the range is empty,
-- or holds `start` where `start` is beyond `last + 1`, and goes down to `last + 2`.
unfoldable pub count_down : ℕ → ℕ → ℕ → ℕ → List ℕ
count_down zero start last step = []
count_down (suc fuel) start last step =
    let rest = count_down fuel (start - step) last step in
    if ltb (last + 1) start then start ∷ (if ltb start step then [] else rest) else []

unfoldable pub range : ℕ → ℕ → ℤ → Option (List ℕ)
unfolding count_up count_down
range start last (pos zero) = none
range start last (pos (suc k)) = some (count_up (last + 1 - start) start last (suc k))
range start last (negsuc k) = some (count_down start start last (suc k))

abbrev pub is_star : Text → Bool
is_star (c ∷ []) = eqb c b'*'
is_star _ = false

-- The two numbers of a part without its step.
abbrev pub both : Option ℕ → Option ℕ → Option (ℕ × ℕ)
both (some a) (some b) = some (a, b)
both _ _ = none

-- The part between two bars, by the number of its pieces.
abbrev pub bounds_of : List Text → Option (ℕ × ℕ)
bounds_of (one ∷ []) = both (read_int one) (read_int one)
bounds_of (start ∷ last ∷ []) = both (read_int start) (read_int last)
bounds_of _ = none

unfoldable pub bounds : ℕ → ℕ → Text → Option (ℕ × ℕ)
unfolding split_on read_int
bounds lo hi part = if is_star part then some (lo, hi) else bounds_of (split_on b'-' part)

abbrev pub range_of : Option (ℕ × ℕ) → Option ℤ → Option (List ℕ)
range_of (some (start, last)) (some step) = range start last step
range_of _ _ = none

-- A part, by the number of pieces around `/`.
unfoldable pub part_of : ℕ → ℕ → List Text → Option (List ℕ)
unfolding bounds read_step range
part_of lo hi (span ∷ []) = range_of (bounds lo hi span) (some (pos 1))
part_of lo hi (span ∷ step ∷ []) = range_of (bounds lo hi span) (read_step step)
part_of lo hi _ = none

unfoldable pub parse_part : ℕ → ℕ → Text → Option (List ℕ)
unfolding split_on part_of
parse_part lo hi part = part_of lo hi (split_on b'/' part)

abbrev pub union : Option (List ℕ) → Option (List ℕ) → Option (List ℕ)
union (some xs) (some ys) = some (xs ++ ys)
union _ _ = none

unfoldable pub parse_parts : ℕ → ℕ → List Text → Option (List ℕ)
unfolding parse_part
parse_parts lo hi [] = some []
parse_parts lo hi (part ∷ parts) = union (parse_part lo hi part) (parse_parts lo hi parts)

-- The set of values, as a list.
unfoldable pub parse_cron_field : Text → ℕ → ℕ → Option (List ℕ)
unfolding range split_on parse_parts
parse_cron_field field lo hi =
    if is_star field then range lo hi (pos 1) else parse_parts lo hi (split_on b',' field)

pub record Schedule : Type 0 where
  pub minutes : List ℕ
  pub hours : List ℕ
  pub days : List ℕ
  pub months : List ℕ
  pub days_of_week : List ℕ

-- 7 is Sunday too.
abbrev pub with_sunday : List ℕ → List ℕ
with_sunday days = if contains 7 days then 0 ∷ days else days

-- The five fields, each of which may be refused.
unfoldable pub parse_fields : List Text → Option Schedule
unfolding parse_cron_field contains
parse_fields (a ∷ b ∷ c ∷ d ∷ e ∷ []) = do
  minutes ← parse_cron_field a 0 59
  hours ← parse_cron_field b 0 23
  days ← parse_cron_field c 1 31
  months ← parse_cron_field d 1 12
  days_of_week ← parse_cron_field e 0 7
  some (record {
    minutes = minutes;
    hours = hours;
    days = days;
    months = months;
    days_of_week = with_sunday days_of_week;
  })
parse_fields _ = none

abbrev pub cron_weekday : DateTime → ℕ
cron_weekday t = if eqb t.weekday 6 then 0 else t.weekday + 1

unfoldable pub is_due : Schedule → DateTime → Bool
unfolding contains
is_due s t =
    contains t.minute s.minutes
    && contains t.hour s.hours
    && contains t.day s.days
    && contains t.month s.months
    && contains (cron_weekday t) s.days_of_week

-- The `for` loop, with the rounds that are left; `none` in place of a date is the OverflowError of the
-- addition that made it.
unfoldable pub find_next : ℕ → Schedule → Option DateTime → Option DateTime
unfolding is_due next_minute
find_next zero s current = none
find_next (suc rounds) s none = none
find_next (suc rounds) s (some t) =
    let later = find_next rounds s (next_minute t) in if is_due s t then some t else later

-- `rounds` is 100000 in the source.
abbrev pub search : ℕ → Option Schedule → Option DateTime → Option DateTime
search rounds none current = none
search rounds (some s) current = find_next rounds s current

unfoldable pub get_next_cron_time : ℕ → Text → DateTime → Option DateTime
unfolding next_minute split_at_spaces parse_fields find_next
get_next_cron_time rounds cron_expr base_time =
    search rounds (parse_fields (words cron_expr)) (next_minute base_time)
