-- ===== src/Services/Startup.antt =====
-- `_get_startup_order` of yasin_core/runtime/service_manager.py: Kahn's algorithm over the declared
-- dependencies, with a queue that is kept sorted. Where Python would raise KeyError (a key of
-- `graph` or `indegree` that is not there) the entry is left alone; both dicts are made from the
-- services' names, and every dependency has been found among them.
pub mod Sorting
pub mod Links
pub mod Relax
pub mod Loop
pub mod Drain
pub mod Acyclic
pub mod Outcome
pub mod Correct
use Prim.Native.Char.{code}
use yasin_core.Prelude.{
  ℕ, zero, suc, ◌-◌, String, Bool, true, false, Option, none, some, List, [], ◌∷◌, ◌++◌,
  if◌then◌else◌, ltb, eqb, length,
}
use yasin_core.Dict
use yasin_core.Dict.{Dict}
use yasin_core.Services.{
  ServiceMetadata, Manager, Result, ok, err, missing_dependency, circular_dependency,
}

-- Texts compare by their code points.
unfoldable pub str_leb : String → String → Bool
str_leb String.[] t = true
str_leb (String.◌∷◌ c s) String.[] = false
str_leb (String.◌∷◌ c s) (String.◌∷◌ d t) =
    let rest = str_leb s t in if eqb (code c) (code d) then rest else ltb (code c) (code d)

unfoldable pub insert : String → List String → List String
unfolding str_leb
insert x [] = x ∷ []
insert x (y ∷ ys) = if str_leb x y then x ∷ y ∷ ys else y ∷ insert x ys

-- sorted(xs), xs.sort()
unfoldable pub sorted : List String → List String
unfolding insert
sorted [] = []
sorted (x ∷ xs) = insert x (sorted xs)

module _ {Service : Type 0} where
  -- The first dependency of `name` that is not registered.
  unfoldable pub first_missing : Dict Service → List String → Option String
  unfolding Dict.has
  first_missing services [] = none
  first_missing services (dep ∷ deps) =
      if Dict.has services dep then first_missing services deps else some dep

  unfoldable pub check_dependencies : Dict Service → Dict ServiceMetadata → Option (String × String)
  unfolding first_missing
  check_dependencies services [] = none
  check_dependencies services ((name, meta) ∷ rest) =
      elim (first_missing services meta.dependencies) [
        | some dep ↦ some (name, dep)
        | none ↦ check_dependencies services rest
      ]

pub record Graph : Type 0 where
  pub successors : Dict (List String)
  pub indegree : Dict ℕ

-- {name: x for name in names}
unfoldable pub from_keys {ℓ} : {V : Type ℓ} → V → List String → Dict V
from_keys x [] = []
from_keys x (name ∷ names) = (name, x) ∷ from_keys x names

-- graph[dep].append(name); indegree[name] += 1
unfoldable pub link : String → List String → Graph → Graph
unfolding Dict.adjust
link name [] g = g
link name (dep ∷ deps) g = link name deps (record {
  successors = Dict.adjust (λ l. l ++ name ∷ []) g.successors dep;
  indegree = Dict.adjust suc g.indegree name;
})

unfoldable pub link_all : Dict ServiceMetadata → Graph → Graph
unfolding link
link_all [] g = g
link_all ((name, meta) ∷ rest) g = link_all rest (link name meta.dependencies g)

-- [name for name in services if indegree[name] == 0]
unfoldable pub roots : Dict ℕ → List String → List String
unfolding Dict.get
roots indegree [] = []
roots indegree (name ∷ names) = elim (Dict.get indegree name) [
  | some zero ↦ name ∷ roots indegree names
  | _ ↦ roots indegree names
]

-- The test `indegree[neighbor] == 0` after the decrement.
abbrev pub append_if_zero : Option ℕ → String → List String → List String
append_if_zero (some zero) name queue = queue ++ name ∷ []
append_if_zero _ name queue = queue

-- The inner loop over the neighbours of the node that was taken.
unfoldable pub relax : List String → Dict ℕ → List String → Dict ℕ × List String
unfolding Dict.adjust Dict.get
relax [] indegree queue = (indegree, queue)
relax (neighbor ∷ rest) indegree queue =
    let lowered = Dict.adjust (λ k. k - 1) indegree neighbor in
    relax rest lowered (append_if_zero (Dict.get lowered neighbor) neighbor queue)

-- The `while queue` loop, with the rounds that are left: the queue at the end, and the order.
unfoldable pub visit :
    ℕ → Dict (List String) → Dict ℕ → List String → List String → List String × List String
unfolding relax sorted Dict.get_or
visit zero graph indegree queue order = (queue, order)
visit (suc fuel) graph indegree [] order = ([], order)
visit (suc fuel) graph indegree (node ∷ rest) order =
    let (lowered, queue) = relax (Dict.get_or graph node []) indegree rest in
    visit fuel graph lowered (sorted queue) (order ++ node ∷ [])

module _ {Service : Type 0} where
  unfoldable pub build_graph : Manager Service → Graph
  unfolding from_keys link_all Dict.keys
  build_graph m =
      let names = Dict.keys m.services in
      link_all m.metadata (record { successors = from_keys [] names; indegree = from_keys 0 names })

  unfoldable pub run_visit : Manager Service → List String × List String
  unfolding build_graph roots sorted visit Dict.keys
  run_visit m =
      let g = build_graph m in
      let names = Dict.keys m.services in
      visit (length names) g.successors g.indegree (sorted (roots g.indegree names)) []

  unfoldable pub startup_order : Manager Service → Result (List String)
  unfolding check_dependencies run_visit
  startup_order m = elim (check_dependencies m.services m.metadata) [
    | some (name, dep) ↦ err (missing_dependency name dep)
    | none ↦
        let order = (run_visit m).1 in
        if ltb (length order) (length m.services) then err circular_dependency else ok order
  ]
