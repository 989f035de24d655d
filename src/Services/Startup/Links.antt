-- ===== src/Services/Startup/Links.antt =====
-- The graph that is built: a name's indegree is the number of its dependencies, and it stands among
-- the successors of a node as often as the node stands among its dependencies.
use yasin_core.Prelude.{
  ℕ, suc, ◌+◌, ◌≤◌, String, ◌≡◌, refl, none, some, List, [], ◌∷◌, ◌++◌, arith, ◌==◌, if◌then◌else◌,
  length,
}
use yasin_core.Prelude.Counting.{count, elem, count-append}
use yasin_core.Dict
use yasin_core.Dict.{Dict, get-adjust}
use yasin_core.Services.{ServiceMetadata}
use yasin_core.Services.Startup.{Graph, from_keys, link, link_all}

-- The declared dependencies of a name; none for a name that is not registered.
abbrev pub dependencies : Dict ServiceMetadata → String → List String
dependencies metadata name = elim (Dict.get metadata name) [
  | none ↦ []
  | some meta ↦ meta.dependencies
]

pub get-from_keys {ℓ} :
    {V : Type ℓ} (x : V) (names : List String) (n : String)
    → Dict.get (from_keys x names) n ≡ (if elem n names then some x else none)
unfolding from_keys Dict.get elem
get-from_keys x [] n = refl
get-from_keys x (name ∷ names) n = ground (arith, get-from_keys x names n)

module _ (n : String) where
  -- What the entries of `n` contribute.
  unfoldable pub weight : (List String → ℕ) → Dict ServiceMetadata → ℕ
  weight f [] = 0
  weight f ((name, meta) ∷ rest) = (if name == n then f meta.dependencies else 0) + weight f rest

  weight-absent :
      (f : List String → ℕ) (md : Dict ServiceMetadata)
      → count n (Dict.keys md) ≡ 0
      → weight f md ≡ 0
  unfolding weight count Dict.keys
  weight-absent f [] h = refl
  weight-absent f ((name, meta) ∷ rest) h = ground (arith, weight-absent f rest)

  pub weight-dependencies :
      (f : List String → ℕ) (md : Dict ServiceMetadata)
      → f [] ≡ 0
      → count n (Dict.keys md) ≤ 1
      → weight f md ≡ f (dependencies md n)
  unfolding weight count Dict.keys Dict.get
  weight-dependencies f [] z h = ground (arith, z)
  weight-dependencies f ((name, meta) ∷ rest) z h =
      ground (arith, weight-dependencies f rest, weight-absent f rest)

  link-indegree :
      (name : String) (deps : List String) (g : Graph) (k : ℕ)
      → Dict.get g.indegree n ≡ some k
      → Dict.get (link name deps g).indegree n ≡ some (k + (if name == n then length deps else 0))
  unfolding link
  link-indegree name [] g k h = ground (arith, h)
  link-indegree name (dep ∷ deps) g k h =
      let g' : Graph = record {
        successors = Dict.adjust (λ l. l ++ name ∷ []) g.successors dep;
        indegree = Dict.adjust suc g.indegree name;
      } in
      ground (
        arith,
        get-adjust suc g.indegree name n,
        link-indegree name deps g' k,
        link-indegree name deps g' (suc k),
      )

  pub link_all-indegree :
      (md : Dict ServiceMetadata) (g : Graph) (k : ℕ)
      → Dict.get g.indegree n ≡ some k
      → Dict.get (link_all md g).indegree n ≡ some (k + weight length md)
  unfolding link_all weight
  link_all-indegree [] g k h = ground (arith, h)
  link_all-indegree ((name, meta) ∷ rest) g k h =
      let c = if name == n then length meta.dependencies else 0 in
      ground (
        arith,
        link-indegree name meta.dependencies g k,
        link_all-indegree rest (link name meta.dependencies g) (k + c),
      )

  link-indegree_absent :
      (name : String) (deps : List String) (g : Graph)
      → Dict.get g.indegree n ≡ none
      → Dict.get (link name deps g).indegree n ≡ none
  unfolding link
  link-indegree_absent name [] g h = h
  link-indegree_absent name (dep ∷ deps) g h =
      link-indegree_absent name deps _ (ground (arith, h, get-adjust suc g.indegree name n))

  pub link_all-indegree_absent :
      (md : Dict ServiceMetadata) (g : Graph)
      → Dict.get g.indegree n ≡ none
      → Dict.get (link_all md g).indegree n ≡ none
  unfolding link_all
  link_all-indegree_absent [] g h = h
  link_all-indegree_absent ((name, meta) ∷ rest) g h =
      link_all-indegree_absent rest _ (link-indegree_absent name meta.dependencies g h)

  module _ (node : String) where
    link-successors :
        (name : String) (deps : List String) (g : Graph) (l : List String)
        → Dict.get g.successors node ≡ some l
        → (r : List String) × (Dict.get (link name deps g).successors node ≡ some r)
          × (count n r ≡ count n l + (if name == n then count node deps else 0))
    unfolding link count
    link-successors name [] g l h = (l, h, ground arith)
    link-successors name (dep ∷ deps) g l h =
        let g' : Graph = record {
          successors = Dict.adjust (λ l. l ++ name ∷ []) g.successors dep;
          indegree = Dict.adjust suc g.indegree name;
        } in
        let l' = if dep == node then l ++ name ∷ [] else l in
        let (r, e, c) = link-successors name deps g' l' (
          ground (arith, get-adjust (λ (l : List String). l ++ name ∷ []) g.successors dep node)) in
        (r, e, ground (arith, c, count-append n l (name ∷ [])))

    pub link_all-successors :
        (md : Dict ServiceMetadata) (g : Graph) (l : List String)
        → Dict.get g.successors node ≡ some l
        → (r : List String) × (Dict.get (link_all md g).successors node ≡ some r)
          × (count n r ≡ count n l + weight (count node) md)
    unfolding link_all weight
    link_all-successors [] g l h = (l, h, omega arith)
    link_all-successors ((name, meta) ∷ rest) g l h =
        let (r, e, c) = link-successors name meta.dependencies g l h in
        let (r', e', c') = link_all-successors rest (link name meta.dependencies g) r e in
        (r', e', omega (arith, c, c'))
