-- ===== src/Services/Lookup.antt =====
-- What the lookups answer after a registration.
use yasin_core.Prelude.{
  String, ◌≡◌, refl, ◌∙◌, ap, some, false, List, arith, ◌==◌, eq_refl, Bool-cases, Option-cases,
  inl, inr,
}
use yasin_core.Dict
use yasin_core.Dict.{get-put}
use yasin_core.Services.{Manager, ok, register_service, register_named, get_service, has_service}

module _ {Service : Type 0} where
  get_service-same :
      (m m' : Manager Service) (name : String)
      → Dict.get m'.services name ≡ Dict.get m.services name
      → get_service m' name ≡ get_service m name
  unfolding get_service
  get_service-same m m' name h = elim (Option-cases (Dict.get m.services name)) [
    | inl e ↦ rw (h ∙ e, e, get_service) refl
    | inr (service, e) ↦ rw (h ∙ e, e, get_service) refl
  ]

  get_service-found :
      (m : Manager Service) (name : String) (service : Service)
      → Dict.get m.services name ≡ some service
      → get_service m name ≡ ok service
  unfolding get_service
  get_service-found m name service h = rw (h, get_service) refl

  -- If the registry's `register_service` returns, the name was not registered before, it is found with
  -- the service afterwards, and every other name is found or not found as before.
  pub register_named-lookup :
      (m m' : Manager Service) (name : String) (service : Service) (version description : String)
      (dependencies : List String)
      → register_named m name service version description dependencies ≡ ok m'
      → (has_service m name ≡ false)
        × (get_service m' name ≡ ok service)
        × ((other : String) → (name == other) ≡ false → get_service m' other ≡ get_service m other)
  unfolding register_named register_service has_service
  register_named-lookup m m' name service version description dependencies h =
      elim (Bool-cases (Dict.has m.services name)) [
        | inl e ↦ absurd (ground (arith, h, e))
        | inr e ↦
            let put : m'.services ≡ Dict.put m.services name service = ground (arith, h, e) in
            (
              e,
              get_service-found m' name service (
                  ap (λ d. Dict.get d name) put
                  ∙ ground (arith, get-put m.services name name service, eq_refl name)),
              λ other d. get_service-same m m' other (
                  ap (λ d'. Dict.get d' other) put
                  ∙ ground (arith, get-put m.services name other service, d)),
            )
      ]
