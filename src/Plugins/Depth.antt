-- ===== src/Plugins/Depth.antt =====
-- How deep `validate_dependencies` goes.
use yasin_core.Prelude.{
  ℕ, zero, suc, ◌+◌, ◌≤◌, ◌<◌, ◌≡◌, refl, String, Bool, true, false, Option, none, some, List, [],
  ◌∷◌, eq_iff, length, Bool-cases, inl, inr, arith,
}
use yasin_core.Prelude.Counting.{elem, count, elem→count, not_elem→count, length-le_of_count}
use yasin_core.Dict
use yasin_core.Dict.{Dict, get-has, length-keys}
use yasin_core.Plugins.{
  YasinPlugin, Host, too_deep, Validation, valid, invalid, chain, finish, check_core, validate,
  dependencies_of,
}
use yasin_core.Plugins.Versions.{check_version_compatibility}

abbrev pub ran_out : Validation → Bool
ran_out (invalid too_deep) = true
ran_out _ = false

chain-ran_out :
    (go : List String → String → Validation) (deps : List String) (r : Validation)
    → ((v : List String) (d : String) → ran_out (go v d) ≡ false)
    → ran_out r ≡ false
    → ran_out (chain go r deps) ≡ false
chain-ran_out go deps (invalid e) h l = l
chain-ran_out go [] (valid v) h l = refl
chain-ran_out go (dep ∷ deps) (valid v) h l = chain-ran_out go deps (go v dep) h (h v dep)

finish-ran_out :
    (name : String) (r : Validation) → ran_out r ≡ false → ran_out (finish name r) ≡ false
finish-ran_out name (invalid e) h = h
finish-ran_out name (valid v) h = refl

-- The stack holds registered names, none twice.
abbrev IsStack : Dict YasinPlugin → List String → Type 0
IsStack plugins stack = (z : String) → count z stack ≤ count z (Dict.keys plugins)

IsStack-push :
    (plugins : Dict YasinPlugin) (stack : List String) (name : String) (plugin : YasinPlugin)
    → IsStack plugins stack
    → elem name stack ≡ false
    → Dict.get plugins name ≡ some plugin
    → IsStack plugins (name ∷ stack)
unfolding count Dict.has
IsStack-push plugins stack name plugin h fresh g z = ground (
  arith,
  eq_iff name z,
  h z,
  not_elem→count name stack fresh,
  elem→count name (Dict.keys plugins) (get-has plugins name plugin g),
)

check_core-ran_out :
    (host : Host) (name : String) (found : Option YasinPlugin) (r : Validation)
    → ((plugin : YasinPlugin) → found ≡ some plugin → ran_out r ≡ false)
    → ran_out (check_core host name found r) ≡ false
check_core-ran_out host name none r h = refl
check_core-ran_out host name (some plugin) r h =
    elim (Bool-cases (check_version_compatibility plugin.core_version_compat host.core_version)) [
      | inl e ↦ rw e (h plugin refl)
      | inr e ↦ rw e refl
    ]

validate-settles :
    (host : Host) (plugins : Dict YasinPlugin) (fuel : ℕ) (stack visited : List String)
    (name : String)
    → IsStack plugins stack
    → length plugins < fuel + length stack
    → ran_out (validate host fuel plugins stack visited name) ≡ false
unfolding validate
validate-settles host plugins zero stack visited name h l =
    absurd (omega (arith, length-le_of_count stack (Dict.keys plugins) h, length-keys plugins, l))
validate-settles host plugins (suc fuel) stack visited name h l =
    elim (Bool-cases (elem name stack)) [
      | inl e ↦ rw e refl
      | inr e ↦ elim (Bool-cases (elem name visited)) [
        | inl f ↦ rw (e, f) refl
        | inr f ↦
            rw (e, f)
              (check_core-ran_out host name (Dict.get plugins name) (finish name below) (λ plugin g.
                finish-ran_out name below (
                  chain-ran_out (validate host fuel plugins (name ∷ stack))
                    (dependencies_of (Dict.get plugins name)) (valid visited)
                    (λ v d.
                      validate-settles host plugins fuel (name ∷ stack) v d
                        (IsStack-push plugins stack name plugin h e g) (omega (arith, l)))
                    refl)))
      ]
    ]
  where
    below : Validation
    below =
        chain (validate host fuel plugins (name ∷ stack)) (valid visited)
          (dependencies_of (Dict.get plugins name))

-- The recursion of `validate_dependencies` is never deeper than one more than the number of registered plugins: with
-- that fuel it returns or raises, whatever the dependencies are, also around a cycle.
pub validate-terminates :
    (host : Host) (plugins : Dict YasinPlugin) (name : String)
    → ran_out (validate host (suc (length plugins)) plugins [] [] name) ≡ false
unfolding count
validate-terminates host plugins name =
    validate-settles host plugins (suc (length plugins)) [] [] name (λ z. omega arith) (omega arith)
