-- ===== src/Cron/Reading.antt =====
-- The expressions of a field, read from what is written.
use yasin_core.Prelude.{
  ℕ, zero, suc, ◌+◌, ◌-◌, ◌*◌, ◌<◌, ◌≡◌, ◌≢◌, ◌⊎◌, refl, ap, ◌∙◌, Bool, true, false, ◌||◌, Option,
  none, some, List, [], ◌∷◌, ◌++◌, arith, inl, inr,
}
use yasin_core.Prelude.Int.{pos}
use yasin_core.Cron.{
  Text, contains, split_on, count_up, read_digits, read_int, read_step, is_star, bounds, range,
  part_of, parse_part, union, parse_parts, parse_cron_field,
}
use yasin_core.Cron.Fields.{
  is_in_range, contains-count_up, contains-append, split_on-whole, split_on-append,
}
use yasin_core.Cron.Printing.{
  Numeral, Span, Part, digits, print_numeral, print_span, print_step, print_part, print_parts,
  value_from, value, start_of, last_of, step_of, means, means_one_of, AreDigits, IsNumeral, IsSpan,
  IsStep, IsPart, AreParts, every, one, between,
}

-- No sign and no separator is a digit.
contains-digits : (c : ℕ) (ds : List ℕ) → c < 48 → contains c (digits ds) ≡ false
unfolding contains
contains-digits c [] h = refl
contains-digits c (d ∷ ds) h = ground (arith, contains-digits c ds h)

read_digits-digits :
    (n : ℕ) (ds : List ℕ) → AreDigits ds → read_digits n true (digits ds) ≡ some (value_from n ds)
unfolding read_digits
read_digits-digits n [] h = refl
read_digits-digits n (d ∷ ds) h =
    ground (arith, h.0, read_digits-digits (n * 10 + (48 + d - 48)) ds h.1)

read_numeral : (n : Numeral) → IsNumeral n → read_int (print_numeral n) ≡ some (value n)
unfolding read_int read_digits
read_numeral n h = ground (arith, h.0, read_digits-digits (0 * 10 + (48 + n.first - 48)) n.rest h.1)

read_step_numeral : (n : Numeral) → IsNumeral n → read_step (print_numeral n) ≡ some (pos (value n))
unfolding read_step
read_step_numeral n h = ground (arith, h.0, read_numeral n h)

-- No separator stands inside the text of a span or of a step.
contains-numeral : (c : ℕ) (n : Numeral) → c < 48 → contains c (print_numeral n) ≡ false
contains-numeral c n h = contains-digits c (n.first ∷ n.rest) h

contains-span : (c : ℕ) (s : Span) → c < 48 → c ≢ 42 → c ≢ 45 → contains c (print_span s) ≡ false
unfolding contains
contains-span c every h k l = ground arith
contains-span c (one n) h k l = contains-numeral c n h
contains-span c (between m n) h k l = ground (
  arith,
  contains-append c (print_numeral m) (b'-' ∷ print_numeral n),
  contains-numeral c m h,
  contains-numeral c n h,
)

contains-step : (c : ℕ) (s : Option Numeral) → c < 47 → contains c (print_step s) ≡ false
unfolding contains
contains-step c none h = refl
contains-step c (some n) h = ground (arith, contains-numeral c n)

contains-part : (p : Part) → contains b',' (print_part p) ≡ false
contains-part p = ground (
  arith,
  contains-append b',' (print_span p.span) (print_step p.step),
  contains-span b',' p.span,
  contains-step b',' p.step,
)

is_star-digit : (d : ℕ) (text : Text) → is_star ((b'0' + d) ∷ text) ≡ false
is_star-digit d [] = ground arith
is_star-digit d (c ∷ cs) = refl

split_on-whole_numeral :
    (c : ℕ) (n : Numeral) → c < 48 → split_on c (print_numeral n) ≡ print_numeral n ∷ []
split_on-whole_numeral c n h = split_on-whole c (print_numeral n) (contains-numeral c n h)

bounds-span :
    (lo hi : ℕ) (s : Span)
    → IsSpan s
    → bounds lo hi (print_span s) ≡ some (start_of lo s, last_of hi s)
unfolding bounds
bounds-span lo hi every h = refl
bounds-span lo hi (one n) h =
    rw
      (
        is_star-digit n.first (digits n.rest),
        split_on-whole_numeral b'-' n (omega arith),
        read_numeral n h,
      )
      refl
bounds-span lo hi (between m n) h =
    rw
      (
        is_star-digit m.first (digits m.rest ++ b'-' ∷ print_numeral n),
        split_on-append b'-' (print_numeral m) (print_numeral n)
            (contains-numeral b'-' m (omega arith)),
        split_on-whole_numeral b'-' n (omega arith),
        read_numeral m h.0,
        read_numeral n h.1,
      )
      refl

append-nil : (xs : Text) → xs ++ [] ≡ xs
append-nil [] = refl
append-nil (x ∷ xs) = ap (λ t. x ∷ t) (append-nil xs)

-- One part, read as its range.
parse-part :
    (lo hi : ℕ) (s : Span) (k : Option Numeral)
    → IsSpan s
    → IsStep k
    → parse_part lo hi (print_span s ++ print_step k)
      ≡ range (start_of lo s) (last_of hi s) (pos (step_of k))
unfolding parse_part part_of
parse-part lo hi s none h l =
    rw
      (
        append-nil (print_span s),
        split_on-whole b'/' (print_span s)
            (contains-span b'/' s (omega arith) (omega arith) (omega arith)),
        bounds-span lo hi s h,
      )
      refl
parse-part lo hi s (some n) h l =
    rw
      (
        split_on-append b'/' (print_span s) (print_numeral n)
            (contains-span b'/' s (omega arith) (omega arith) (omega arith)),
        split_on-whole_numeral b'/' n (omega arith),
        bounds-span lo hi s h,
        read_step_numeral n l.0,
      )
      refl

-- What was read holds the numbers that the expression means.
abbrev Reads : Option (List ℕ) → (ℕ → Bool) → Type 0
Reads result f = (vs : List ℕ) × (result ≡ some vs) × ((v : ℕ) → contains v vs ≡ f v)

same-Reads :
    (result : Option (List ℕ)) (f g : ℕ → Bool)
    → ((v : ℕ) → f v ≡ g v)
    → Reads result f
    → Reads result g
same-Reads result f g h (vs, read, l) = (vs, read, λ v. l v ∙ h v)

range-is_in_range :
    (start last k : ℕ) → 0 < k → Reads (range start last (pos k)) (λ v. is_in_range start last k v)
unfolding range
range-is_in_range start last zero h = absurd (omega arith)
range-is_in_range start last (suc k) h = (
  count_up (last + 1 - start) start last (suc k),
  refl,
  λ v. contains-count_up (last + 1 - start) start last k v (omega arith),
)

step_positive : (k : Option Numeral) → IsStep k → 0 < step_of k
step_positive none h = omega arith
step_positive (some n) h = h.1

parse_part-Reads :
    (lo hi : ℕ) (p : Part)
    → IsPart p
    → Reads (parse_part lo hi (print_part p)) (λ v. means lo hi p v)
parse_part-Reads lo hi p h = rw (parse-part lo hi p.span p.step h.0 h.1) (
    range-is_in_range (start_of lo p.span) (last_of hi p.span) (step_of p.step)
      (step_positive p.step h.1))

union-Reads :
    (a b : Option (List ℕ)) (f g : ℕ → Bool)
    → Reads a f
    → Reads b g
    → Reads (union a b) (λ v. f v || g v)
union-Reads a b f g (xs, p, h) (ys, q, l) =
    (xs ++ ys, rw (p, q) refl, λ v. rw (contains-append v xs ys, h v, l v) refl)

parse_parts-Reads :
    (lo hi : ℕ) (p : Part) (ps : List Part)
    → IsPart p
    → AreParts ps
    → Reads
        (parse_parts lo hi (split_on b',' (print_parts p ps)))
        (λ v. means_one_of lo hi (p ∷ ps) v)
unfolding parse_parts contains
parse_parts-Reads lo hi p [] h l = rw (split_on-whole b',' (print_part p) (contains-part p)) (
    union-Reads (parse_part lo hi (print_part p)) (some []) (λ v. means lo hi p v) (λ v. false)
      (parse_part-Reads lo hi p h) ([], refl, λ v. refl))
parse_parts-Reads lo hi p (q ∷ qs) h l =
    rw (split_on-append b',' (print_part p) (print_parts q qs) (contains-part p)) (
      union-Reads (parse_part lo hi (print_part p))
        (parse_parts lo hi (split_on b',' (print_parts q qs))) (λ v. means lo hi p v)
        (λ v. means_one_of lo hi (q ∷ qs) v) (parse_part-Reads lo hi p h)
        (parse_parts-Reads lo hi q qs l.0 l.1))

or-false : (b : Bool) → b ≡ (b || false)
or-false true = refl
or-false false = refl

-- Only a lone star is read without its parts.
is_star-parts :
    (lo hi : ℕ) (s : Span) (k : Option Numeral) (ps : List Part)
    → let p : Part = record { span = s; step = k } in
      ((is_star (print_parts p ps) ≡ true)
        × ((v : ℕ) → is_in_range lo hi 1 v ≡ means_one_of lo hi (p ∷ ps) v))
      ⊎ (is_star (print_parts p ps) ≡ false)
is_star-parts lo hi every none [] = inl (refl, λ v. or-false (is_in_range lo hi 1 v))
is_star-parts lo hi every none (q ∷ qs) = inr refl
is_star-parts lo hi every (some n) [] = inr refl
is_star-parts lo hi every (some n) (q ∷ qs) = inr refl
is_star-parts lo hi (one n) k [] = inr (is_star-digit n.first (digits n.rest ++ print_step k))
is_star-parts lo hi (one n) k (q ∷ qs) =
    inr (is_star-digit n.first ((digits n.rest ++ print_step k) ++ b',' ∷ print_parts q qs))
is_star-parts lo hi (between m n) k [] =
    inr (is_star-digit m.first ((digits m.rest ++ b'-' ∷ print_numeral n) ++ print_step k))
is_star-parts lo hi (between m n) k (q ∷ qs) = inr (
    is_star-digit m.first
      (((digits m.rest ++ b'-' ∷ print_numeral n) ++ print_step k) ++ b',' ∷ print_parts q qs))

-- `parse_cron_field` reads back what is written: the text of a comma-separated list of parts, each a
-- star, a number or a range of two numbers, with or without a positive step, is not refused, and the
-- values are exactly the numbers that one of the parts means: from the first of its span to the
-- last, in steps from the first on.
pub parse_cron_field-print_parts :
    (lo hi : ℕ) (p : Part) (ps : List Part)
    → IsPart p
    → AreParts ps
    → (vs : List ℕ) × (parse_cron_field (print_parts p ps) lo hi ≡ some vs)
      × ((v : ℕ) → contains v vs ≡ means_one_of lo hi (p ∷ ps) v)
unfolding parse_cron_field
parse_cron_field-print_parts lo hi p ps h l = elim (is_star-parts lo hi p.span p.step ps) [
  | inl (e, f) ↦ rw e (
      same-Reads (range lo hi (pos 1)) (λ v. is_in_range lo hi 1 v)
        (λ v. means_one_of lo hi (p ∷ ps) v) f (range-is_in_range lo hi 1 (omega arith)))
  | inr e ↦ rw e (parse_parts-Reads lo hi p ps h l)
]
