-- ===== src/Cron/Fields.antt =====
-- The numbers of a range, and how a text falls into its pieces.
use yasin_core.Prelude.{
  ℕ, zero, suc, ◌+◌, ◌-◌, ◌%◌, ◌≤◌, ◌≡◌, refl, Bool, false, ◌&&◌, ◌||◌, List, [], ◌∷◌, ◌++◌, arith,
  if◌then◌else◌, ltb, leb, eqb, Bool-cases, ltb→lt, inl, inr,
}
use native.Mathlib.Nat.{mod-eq_of_lt, mod-eq-sub-mod}
use yasin_core.Cron.{Text, contains, split_on, count_up}

-- v stands in start, start + step, ... up to `last`.
abbrev pub is_in_range : ℕ → ℕ → ℕ → ℕ → Bool
is_in_range start last step v = leb start v && (leb v last && eqb ((v - start) % step) 0)

mod_step : (x k : ℕ) → x % suc k ≡ (if ltb x (suc k) then x else (x - suc k) % suc k)
mod_step x k = elim (Bool-cases (ltb x (suc k))) [
  | inl e ↦ rw e (mod-eq_of_lt (ltb→lt x (suc k) e))
  | inr e ↦ rw e (mod-eq-sub-mod (ground (arith, e)))
]

pub contains-count_up :
    (fuel start last k v : ℕ)
    → last + 1 ≤ start + fuel
    → contains v (count_up fuel start last (suc k)) ≡ is_in_range start last (suc k) v
unfolding count_up contains
contains-count_up zero start last k v h = ground arith
contains-count_up (suc fuel) start last k v h =
    ground (arith, contains-count_up fuel (start + suc k) last k v, mod_step (v - start) k)

pub contains-append :
    (v : ℕ) (xs ys : List ℕ) → contains v (xs ++ ys) ≡ (contains v xs || contains v ys)
unfolding contains
contains-append v [] ys = refl
contains-append v (x ∷ xs) ys = ground (arith, contains-append v xs ys)

-- A text without the separator is one piece.
pub split_on-whole :
    (sep : ℕ) (text : Text) → contains sep text ≡ false → split_on sep text ≡ text ∷ []
unfolding split_on contains
split_on-whole sep [] h = refl
split_on-whole sep (c ∷ cs) h = ground (arith, split_on-whole sep cs)

-- The first piece ends at the first separator.
pub split_on-append :
    (sep : ℕ) (text rest : Text)
    → contains sep text ≡ false
    → split_on sep (text ++ sep ∷ rest) ≡ text ∷ split_on sep rest
unfolding split_on contains
split_on-append sep [] rest h = ground arith
split_on-append sep (c ∷ cs) rest h = ground (arith, split_on-append sep cs rest)
