-- ===== src/Plugins/Dependencies.antt =====
-- What `validate_dependencies` accepts.
use yasin_core.Prelude.{
  ℕ, zero, suc, ◌≡◌, refl, subst, String, true, Option, none, some, List, [], ◌∷◌, eq_refl,
  Bool-cases, inl, inr, arith,
}
use yasin_core.Prelude.Counting.{elem}
use yasin_core.Dict
use yasin_core.Dict.{Dict}
use yasin_core.Plugins.{
  YasinPlugin, Host, Validation, valid, invalid, chain, finish, check_core, validate,
  dependencies_of,
}
use yasin_core.Plugins.Versions.{check_version_compatibility}

abbrev pub AllIn : List String → List String → Type 0
AllIn [] names = Unit
AllIn (d ∷ ds) names = (elem d names ≡ true) × AllIn ds names

-- Each name is a registered plugin that accepts the core's version, and its dependencies come after it in the
-- list: no plugin of the list depends on itself, directly or through others.
abbrev pub IsOrdered : Host → Dict YasinPlugin → List String → Type 0
IsOrdered host plugins [] = Unit
IsOrdered host plugins (name ∷ names) =
    ((plugin : YasinPlugin) × (Dict.get plugins name ≡ some plugin)
      × (check_version_compatibility plugin.core_version_compat host.core_version ≡ true)
      × AllIn plugin.dependencies names)
    × IsOrdered host plugins names

abbrev Grows : List String → List String → Type 0
Grows xs ys = (x : String) → elem x xs ≡ true → elem x ys ≡ true

-- A result that holds the names asked for.
abbrev Holds : Host → Dict YasinPlugin → List String → List String → Validation → Type 0
Holds host plugins visited names (invalid e) = Unit
Holds host plugins visited names (valid visited') =
    IsOrdered host plugins visited' × AllIn names visited' × Grows visited visited'

AllIn-Grows : (names xs ys : List String) → AllIn names xs → Grows xs ys → AllIn names ys
AllIn-Grows [] xs ys h g = tt
AllIn-Grows (n ∷ ns) xs ys h g = (g n h.0, AllIn-Grows ns xs ys h.1 g)

module _ (host : Host) (plugins : Dict YasinPlugin) where
  later :
      (dep : String) (deps first second : List String) (r : Validation)
      → elem dep second ≡ true
      → Grows first second
      → Holds host plugins second deps r
      → Holds host plugins first (dep ∷ deps) r
  later dep deps first second (invalid e) a g h = tt
  later dep deps first second (valid third) a g h = (h.0, (h.2 dep a, h.1), λ x e. h.2 x (g x e))

  step :
      (go : List String → String → Validation) (dep : String) (deps visited : List String)
      (r : Validation)
      → ((v : List String)
          → IsOrdered host plugins v
          → Holds host plugins v deps (chain go (valid v) deps))
      → Holds host plugins visited (dep ∷ []) r
      → Holds host plugins visited (dep ∷ deps) (chain go r deps)
  step go dep deps visited (invalid e) ih a = tt
  step go dep deps visited (valid v) ih a =
      later dep deps visited v (chain go (valid v) deps) a.1.0 a.2 (ih v a.0)

  chain-Holds :
      (go : List String → String → Validation) (deps visited : List String)
      → ((v : List String) (d : String)
          → IsOrdered host plugins v
          → Holds host plugins v (d ∷ []) (go v d))
      → IsOrdered host plugins visited
      → Holds host plugins visited deps (chain go (valid visited) deps)
  chain-Holds go [] visited h o = (o, tt, λ x e. e)
  chain-Holds go (dep ∷ deps) visited h o =
      step go dep deps visited (go visited dep) (λ v o'. chain-Holds go deps v h o')
        (h visited dep o)

  -- The checks of the plugin itself, after its dependencies.
  finish-Holds :
      (name : String) (plugin : YasinPlugin) (visited : List String) (r : Validation)
      → Dict.get plugins name ≡ some plugin
      → check_version_compatibility plugin.core_version_compat host.core_version ≡ true
      → Holds host plugins visited plugin.dependencies r
      → Holds host plugins visited (name ∷ []) (finish name r)
  unfolding elem
  finish-Holds name plugin visited (invalid e) g c h = tt
  finish-Holds name plugin visited (valid v) g c h = (
    ((plugin, g, c, h.1), h.0),
    (ground (arith, eq_refl name), tt),
    λ x e. ground (arith, h.2 x e),
  )

  check_core-Holds :
      (name : String) (found : Option YasinPlugin) (visited : List String) (r : Validation)
      → Dict.get plugins name ≡ found
      → Holds host plugins visited (dependencies_of found) r
      → Holds host plugins visited (name ∷ []) (check_core host name found (finish name r))
  check_core-Holds name none visited r g h = tt
  check_core-Holds name (some plugin) visited r g h =
      elim (Bool-cases (check_version_compatibility plugin.core_version_compat host.core_version)) [
        | inl e ↦ rw e (finish-Holds name plugin visited r g e h)
        | inr e ↦ rw e tt
      ]

  validate-Holds :
      (fuel : ℕ) (stack visited : List String) (name : String)
      → IsOrdered host plugins visited
      → Holds host plugins visited (name ∷ []) (validate host fuel plugins stack visited name)
  unfolding validate
  validate-Holds zero stack visited name o = tt
  validate-Holds (suc fuel) stack visited name o = elim (Bool-cases (elem name stack)) [
    | inl e ↦ rw e tt
    | inr e ↦ elim (Bool-cases (elem name visited)) [
      | inl f ↦ rw (e, f) (o, (f, tt), λ x l. l)
      | inr f ↦
          rw (e, f)
            (check_core-Holds name (Dict.get plugins name) visited
              (chain (validate host fuel plugins (name ∷ stack)) (valid visited)
                (dependencies_of (Dict.get plugins name)))
              refl
              (chain-Holds (validate host fuel plugins (name ∷ stack))
                (dependencies_of (Dict.get plugins name)) visited
                (λ v d o'. validate-Holds fuel (name ∷ stack) v d o') o))
    ]
  ]

-- `validate_dependencies` accepts only what can be loaded: when it returns, the plugins it visited, the one asked
-- for among them, are registered and accept the version of the core, and they stand in an order
-- in which every plugin comes with all its dependencies after it. So no plugin below the one asked for is missing,
-- incompatible or part of a cycle.
pub validate-IsOrdered :
    (host : Host) (plugins : Dict YasinPlugin) (fuel : ℕ) (name : String) (visited : List String)
    → validate host fuel plugins [] [] name ≡ valid visited
    → IsOrdered host plugins visited × (elem name visited ≡ true)
validate-IsOrdered host plugins fuel name visited h =
    let held =
      subst (Holds host plugins [] (name ∷ [])) h
        (validate-Holds host plugins fuel [] [] name tt) in
    (held.0, held.1.0)
