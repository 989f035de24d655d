-- ===== src/Cron/Tests.antt =====
-- Every quarter of an hour, and the first minutes; the search around the end of a year.
use yasin_core.Prelude.{ℕ, ◌≡◌, refl, none, some, List, [], ◌∷◌, arith}
use yasin_core.Cron.{
  codes, contains, parse_cron_field, Schedule, words, parse_fields, get_next_cron_time,
  split_at_spaces,
}
use yasin_core.Cron.Calendar.{DateTime, next_minute}
use yasin_core.Cron.Printing.{Numeral, every, between, Part, means_one_of}
use yasin_core.Cron.Reading.{parse_cron_field-print_parts}
use yasin_core.Cron.Search.{First, get_next_cron_time-First}

abbrev digit : ℕ → Numeral
digit d = record { first = d; rest = [] }

abbrev quarters : Part
quarters = record { span = every; step = some (record { first = 1; rest = 5 ∷ [] }) }

abbrev first_minutes : Part
first_minutes = record { span = between (digit 1) (digit 4); step = none }

parse_cron_field-print_parts_example :
    (vs : List ℕ) × (parse_cron_field (codes "*/15,1-4") 0 59 ≡ some vs)
    × ((v : ℕ) → contains v vs ≡ means_one_of 0 59 (quarters ∷ first_minutes ∷ []) v)
parse_cron_field-print_parts_example =
    parse_cron_field-print_parts 0 59 quarters (first_minutes ∷ [])
      (tt, ((omega arith, (omega arith, tt)), omega arith))
      ((((omega arith, tt), (omega arith, tt)), tt), tt)

abbrev new_years_eve : DateTime
new_years_eve = record { year = 2023; month = 12; day = 31; hour = 23; minute = 59; weekday = 6 }

-- At noon on the first of the month.
abbrev noon : Schedule
noon = record {
  minutes = 0 ∷ [];
  hours = 12 ∷ [];
  days = 1 ∷ [];
  months = 1 ∷ 2 ∷ 3 ∷ 4 ∷ 5 ∷ 6 ∷ 7 ∷ 8 ∷ 9 ∷ 10 ∷ 11 ∷ 12 ∷ [];
  days_of_week = 0 ∷ 0 ∷ 1 ∷ 2 ∷ 3 ∷ 4 ∷ 5 ∷ 6 ∷ 7 ∷ [];
}

noon-parsed : parse_fields (words (codes "0 12 1 * *")) ≡ some noon
unfolding parse_fields split_at_spaces contains parse_cron_field
noon-parsed = refl

get_next_cron_time-First_example :
    First noon 1000
      (next_minute new_years_eve)
      (get_next_cron_time 1000 (codes "0 12 1 * *") new_years_eve)
get_next_cron_time-First_example =
    get_next_cron_time-First 1000 (codes "0 12 1 * *") new_years_eve noon noon-parsed
