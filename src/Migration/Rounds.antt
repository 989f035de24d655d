-- ===== src/Migration/Rounds.antt =====
-- One round of the search: what `extend` does to the queue and the visited versions.
use yasin_core.Prelude.{
  ℕ, ◌+◌, ◌≤◌, ◌<◌, ◌≡◌, ◌⊎◌, refl, String, Bool, true, false, ◌||◌, List, [], ◌∷◌, ◌++◌,
  if◌then◌else◌, ◌==◌, eq_iff, length, Bool-cases, inl, inr, arith,
}
use yasin_core.Prelude.Counting.{elem}
use yasin_core.Migration.{Migration, neighbors, VersionPath, extend}

-- Each version of the path is a neighbor of the one before it, and the first one is `start`.
abbrev pub AreLinked : List Migration → String → String → List String → Type 0
AreLinked ms start last [] = last ≡ start
AreLinked ms start last (previous ∷ before) =
    (elem last (neighbors ms previous) ≡ true) × AreLinked ms start previous before

abbrev pub AllLinked : List Migration → String → List VersionPath → Type 0
AllLinked ms start [] = Unit
AllLinked ms start (p ∷ ps) = AreLinked ms start p.last p.before × AllLinked ms start ps

abbrev pub in_queue : String → List VersionPath → Bool
in_queue v [] = false
in_queue v (p ∷ ps) = p.last == v || in_queue v ps

-- The migrations to versions that were not visited.
abbrev pub unvisited : List Migration → List String → ℕ
unvisited [] visited = 0
unvisited (m ∷ ms) visited = (if elem m.to_version visited then 0 else 1) + unvisited ms visited

abbrev is_target : String → List Migration → Bool
is_target n [] = false
is_target n (m ∷ ms) = m.to_version == n || is_target n ms

neighbors-is_target :
    (ms : List Migration) (v n : String) → elem n (neighbors ms v) ≡ true → is_target n ms ≡ true
unfolding neighbors elem
neighbors-is_target [] v n h = h
neighbors-is_target (m ∷ ms) v n h = ground (arith, h, neighbors-is_target ms v n)

unvisited-le :
    (ms : List Migration) (n : String) (visited : List String)
    → unvisited ms (n ∷ visited) ≤ unvisited ms visited
unfolding elem
unvisited-le [] n visited = omega arith
unvisited-le (m ∷ ms) n visited = ground (arith, unvisited-le ms n visited)

unvisited-lt :
    (ms : List Migration) (n : String) (visited : List String)
    → is_target n ms ≡ true
    → elem n visited ≡ false
    → unvisited ms (n ∷ visited) < unvisited ms visited
unfolding elem
unvisited-lt [] n visited h l = absurd (cc)
unvisited-lt (m ∷ ms) n visited h l = ground (
  arith,
  h,
  l,
  unvisited-lt ms n visited,
  unvisited-le ms n visited,
  eq_iff m.to_version n,
  eq_iff n m.to_version,
)

in_queue-append :
    (v : String) (ps : List VersionPath) (p : VersionPath)
    → in_queue v (ps ++ p ∷ []) ≡ (in_queue v ps || p.last == v)
in_queue-append v [] p = ground arith
in_queue-append v (q ∷ ps) p = ground (arith, in_queue-append v ps p)

AllLinked-append :
    (ms : List Migration) (start : String) (ps : List VersionPath) (p : VersionPath)
    → AllLinked ms start ps
    → AreLinked ms start p.last p.before
    → AllLinked ms start (ps ++ p ∷ [])
AllLinked-append ms start [] p h l = (l, tt)
AllLinked-append ms start (q ∷ ps) p h l = (h.0, AllLinked-append ms start ps p h.1 l)

length-append_one :
    (ps : List VersionPath) (p : VersionPath) → length (ps ++ p ∷ []) ≡ length ps + 1
length-append_one [] p = refl
length-append_one (q ∷ ps) p = omega (arith, length-append_one ps p)

-- What a round does, for the neighbors `ns` of the path that are left.
pub record IsRound (ms : List Migration) (start : String) (ns : List String)
    (queue : List VersionPath) (visited : List String) (queue' : List VersionPath)
    (visited' : List String) : Type 0 where
  pub linked : AllLinked ms start queue → AllLinked ms start queue'
  pub added : (x : String) → elem x visited' ≡ (elem x visited || elem x ns)
  pub kept : (x : String) → in_queue x queue ≡ true → in_queue x queue' ≡ true
  pub queued :
      (x : String) → elem x visited' ≡ true → (elem x visited ≡ true) ⊎ (in_queue x queue' ≡ true)
  pub measure : length queue' + unvisited ms visited' ≤ length queue + unvisited ms visited

abbrev pub AreNeighbors : List Migration → String → List String → Type 0
AreNeighbors ms v [] = Unit
AreNeighbors ms v (n ∷ ns) = (elem n (neighbors ms v) ≡ true) × AreNeighbors ms v ns

pub extend-IsRound :
    (ms : List Migration) (start : String) (path : VersionPath) (ns : List String)
    (queue : List VersionPath) (visited : List String)
    → AreLinked ms start path.last path.before
    → AreNeighbors ms path.last ns
    → IsRound ms start ns queue visited
        (extend path ns queue visited).0
        (extend path ns queue visited).1
unfolding extend elem
extend-IsRound ms start path [] queue visited l h = record {
  linked = λ a. a;
  added = λ x. ground arith;
  kept = λ x e. e;
  queued = λ x e. inl e;
  measure = omega arith;
}
extend-IsRound ms start path (n ∷ ns) queue visited l h = elim (Bool-cases (elem n visited)) [
  | inl e ↦
      let ih = extend-IsRound ms start path ns queue visited l h.1 in
      rw (extend, e)
        (record {
          linked = ih.linked;
          added = λ x. ground (arith, ih.added x, eq_iff n x, e);
          kept = ih.kept;
          queued = ih.queued;
          measure = ih.measure;
        })
  | inr e ↦
      let new : VersionPath = record { last = n; before = path.last ∷ path.before } in
      let ih = extend-IsRound ms start path ns (queue ++ new ∷ []) (n ∷ visited) l h.1 in
      rw (extend, e)
        (record {
          linked = λ a. ih.linked (AllLinked-append ms start queue new a (h.0, l));
          added = λ x. ground (arith, ih.added x);
          kept = λ x f. ih.kept x (ground (arith, in_queue-append x queue new, f));
          queued = λ x f. elim (ih.queued x f) [
            | inl g ↦ elim (Bool-cases (n == x)) [
              | inl same ↦ inr (ih.kept x (ground (arith, in_queue-append x queue new, same)))
              | inr other ↦ inl (ground (arith, g, other))
            ]
            | inr g ↦ inr g
          ];
          measure = omega (
            arith,
            ih.measure,
            length-append_one queue new,
            unvisited-lt ms n visited (neighbors-is_target ms path.last n h.0) e,
          );
        })
]
