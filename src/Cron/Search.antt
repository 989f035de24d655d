-- ===== src/Cron/Search.antt =====
-- The minute that `get_next_cron_time` returns.
use yasin_core.Prelude.{
  ℕ, zero, suc, ◌<◌, ◌≡◌, refl, true, false, Option, none, some, arith, ◌⊎◌, inl, inr, Bool-cases,
}
use yasin_core.Cron.{Text, words, Schedule, parse_fields, is_due, find_next, get_next_cron_time}
use yasin_core.Cron.Calendar.{DateTime, next_minute}

abbrev pub minute_after : Option DateTime → Option DateTime
minute_after none = none
minute_after (some t) = next_minute t

-- That many minutes later, if the calendar reaches so far.
abbrev pub advance : ℕ → Option DateTime → Option DateTime
advance zero t = t
advance (suc k) t = advance k (minute_after t)

-- None of the first `n` minutes is due.
abbrev pub NoneDue : Schedule → ℕ → Option DateTime → Type 0
NoneDue s n start = (j : ℕ) (u : DateTime) → j < n → advance j start ≡ some u → is_due s u ≡ false

-- The first due minute of those that are looked at, or none of them is due.
abbrev pub First : Schedule → ℕ → Option DateTime → Option DateTime → Type 0
First s rounds start result =
    ((result ≡ none) × NoneDue s rounds start)
    ⊎ ((k : ℕ) × (u : DateTime) × (k < rounds)
        × (advance k start ≡ some u)
        × (result ≡ some u)
        × (is_due s u ≡ true)
        × NoneDue s k start)

advance-none : (j : ℕ) → advance j none ≡ none
advance-none zero = refl
advance-none (suc j) = advance-none j

earlier :
    (s : Schedule) (n : ℕ) (t : DateTime)
    → is_due s t ≡ false
    → NoneDue s n (next_minute t)
    → NoneDue s (suc n) (some t)
earlier s n t now later zero u l e = ground (arith, now, e)
earlier s n t now later (suc j) u l e = later j u (omega arith) e

find_next-First :
    (s : Schedule) (rounds : ℕ) (start : Option DateTime)
    → First s rounds start (find_next rounds s start)
unfolding find_next
find_next-First s zero start = inl (refl, λ j u l e. absurd (omega arith))
find_next-First s (suc rounds) none =
    inl (refl, λ j u l e. absurd (ground (arith, e, advance-none j)))
find_next-First s (suc rounds) (some t) = elim (Bool-cases (is_due s t)) [
  | inl e ↦ rw e (inr (0, t, omega arith, refl, refl, e, λ j u l f. absurd (omega arith)))
  | inr e ↦ elim (find_next-First s rounds (next_minute t)) [
    | inl (r, all) ↦ rw e (inl (r, earlier s rounds t e all))
    | inr (k, u, l, there, r, due, all) ↦
        rw e (inr (suc k, u, omega arith, there, r, due, earlier s k t e all))
  ]
]

-- `get_next_cron_time` of an expression that is accepted returns the first minute after `base_time`
-- that is due, if one of the next `rounds` minutes within the calendar is, and raises otherwise.
pub get_next_cron_time-First :
    (rounds : ℕ) (cron_expr : Text) (base_time : DateTime) (s : Schedule)
    → parse_fields (words cron_expr) ≡ some s
    → First s rounds (next_minute base_time) (get_next_cron_time rounds cron_expr base_time)
unfolding get_next_cron_time
get_next_cron_time-First rounds cron_expr base_time s h =
    rw (h, get_next_cron_time) (find_next-First s rounds (next_minute base_time))
