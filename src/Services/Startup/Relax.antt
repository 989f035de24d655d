-- ===== src/Services/Startup/Relax.antt =====
-- The inner loop: what a round does to the number that is left at each name, and which names it
-- appends to the queue.
use yasin_core.Prelude.{
  ℕ, ◌+◌, ◌-◌, ◌≤◌, String, ◌≡◌, refl, ◌&&◌, Option, none, some, List, [], ◌∷◌, arith, ◌==◌, eq_iff,
  if◌then◌else◌, ltb, eqb,
}
use yasin_core.Prelude.Counting.{count, count-append}
use yasin_core.Dict
use yasin_core.Dict.{Dict, get-adjust}
use yasin_core.Services.Startup.{relax, append_if_zero}

-- A name that has `k` left, and stands `c` times among the neighbours, is appended if `k = c > 0`.
abbrev pub freed : ℕ → ℕ → ℕ
freed k c = if ltb 0 c && eqb k c then 1 else 0

count-append_if_zero :
    (n x : String) (o : Option ℕ) (queue : List String)
    → count n (append_if_zero o x queue)
      ≡ count n queue
        + (elim o [ none ↦ 0 | some k ↦ if eqb k 0 then (if x == n then 1 else 0) else 0 ])
unfolding count
count-append_if_zero n x none queue = omega arith
count-append_if_zero n x (some k) queue = ground (arith, count-append n queue (x ∷ []))

module _ (n : String) where
  pub relax-get :
      (ns : List String) (d : Dict ℕ) (queue : List String) (k : ℕ)
      → Dict.get d n ≡ some k
      → Dict.get (relax ns d queue).0 n ≡ some (k - count n ns)
  unfolding relax count
  relax-get [] d queue k h = ground (arith, h)
  relax-get (x ∷ ns) d queue k h =
      let d' = Dict.adjust (λ (k : ℕ). k - 1) d x in
      let q' = append_if_zero (Dict.get d' x) x queue in
      ground (
        arith,
        get-adjust (λ (k : ℕ). k - 1) d x n,
        relax-get ns d' q' k,
        relax-get ns d' q' (k - 1),
      )

  pub relax-count :
      (ns : List String) (d : Dict ℕ) (queue : List String) (k : ℕ)
      → Dict.get d n ≡ some k
      → count n ns ≤ k
      → count n (relax ns d queue).1 ≡ count n queue + freed k (count n ns)
  unfolding relax count
  relax-count [] d queue k h l = ground arith
  relax-count (x ∷ ns) d queue k h l =
      let d' = Dict.adjust (λ (k : ℕ). k - 1) d x in
      let q' = append_if_zero (Dict.get d' x) x queue in
      ground (
        arith,
        get-adjust (λ (k : ℕ). k - 1) d x n,
        relax-count ns d' q' k,
        relax-count ns d' q' (k - 1),
        count-append_if_zero n x (Dict.get d' x) queue,
        eq_iff x n,
      )

  -- A name that is no key is never appended.
  pub relax-count_absent :
      (ns : List String) (d : Dict ℕ) (queue : List String)
      → Dict.get d n ≡ none
      → (count n (relax ns d queue).1 ≡ count n queue) × (Dict.get (relax ns d queue).0 n ≡ none)
  unfolding relax count
  relax-count_absent [] d queue h = (refl, h)
  relax-count_absent (x ∷ ns) d queue h =
      let d' = Dict.adjust (λ (k : ℕ). k - 1) d x in
      let q' = append_if_zero (Dict.get d' x) x queue in
      ground (
        arith,
        get-adjust (λ (k : ℕ). k - 1) d x n,
        relax-count_absent ns d' q',
        count-append_if_zero n x (Dict.get d' x) queue,
        eq_iff x n,
      )
