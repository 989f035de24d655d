-- ===== src/Services/History.antt =====
-- Histories of calls on one manager, from the empty one: the well-formedness that the theorems about
-- the startup order ask for holds after every one of them.
use yasin_core.Prelude.{String, ◌≡◌, refl, subst, List, [], ◌∷◌}
use yasin_core.Services.{
  ServiceMetadata, Manager, Result, ok, err, Hosting, empty_manager, register_service,
  unregister_service,
}
use yasin_core.Services.Wellformed.{IsWellformed}
use yasin_core.Services.Preserve.{
  empty_manager-IsWellformed, register_service-IsWellformed, drop_service-IsWellformed,
  unregister_service-ok,
}
use yasin_core.Services.Lifecycle.{Host, initialize_services, shutdown_services, reload_services}
use yasin_core.Services.Lifecycle.Keys.{
  SameKeys-IsWellformed, initialize_services-SameKeys, shutdown_services-SameKeys,
}

module _ (hosting : Hosting) where
  open hosting use {Service, World}

  -- The calls that change the manager.
  pub data Call : Type 0 where
    registers : Service → ServiceMetadata → Call
    unregisters : String → Call
    initializes shuts_down reloads : Call

  abbrev pub after_register : Host hosting → Result (Manager Service) → Host hosting
  after_register (m, w) (ok m') = (m', w)
  after_register (m, w) (err e) = (m, w)

  abbrev pub after_unregister : Host hosting → Result (Manager Service) × World → Host hosting
  after_unregister (m, w) (ok m', w') = (m', w')
  after_unregister (m, w) (err e, w') = (m, w')

  -- A caller that goes on after an exception.
  unfoldable pub step : Call → Host hosting → Host hosting
  unfolding register_service unregister_service initialize_services shutdown_services
      reload_services
  step (registers service metadata) (m, w) =
      after_register (m, w) (register_service m service metadata)
  step (unregisters name) (m, w) = after_unregister (m, w) (unregister_service hosting m name w)
  step initializes host = (initialize_services hosting host).1
  step shuts_down host = shutdown_services hosting host
  step reloads (m, w) = (m, (reload_services hosting (m, w)).1)

  unfoldable pub run : List Call → Host hosting → Host hosting
  unfolding step
  run [] host = host
  run (call ∷ calls) host = run calls (step call host)

  after_register-IsWellformed :
      (m : Manager Service) (w : World) (service : Service) (metadata : ServiceMetadata)
      (r : Result (Manager Service))
      → register_service m service metadata ≡ r
      → IsWellformed m
      → IsWellformed (after_register (m, w) r).0
  after_register-IsWellformed m w service metadata (ok m') e wf =
      register_service-IsWellformed m m' service metadata wf e
  after_register-IsWellformed m w service metadata (err x) e wf = wf

  after_unregister-IsWellformed :
      (m : Manager Service) (w : World) (name : String) (r : Result (Manager Service)) (w' : World)
      → unregister_service hosting m name w ≡ (r, w')
      → IsWellformed m
      → IsWellformed (after_unregister (m, w) (r, w')).0
  after_unregister-IsWellformed m w name (ok m') w' e wf =
      subst IsWellformed (unregister_service-ok hosting m m' name w w' e).1
        (drop_service-IsWellformed m name wf)
  after_unregister-IsWellformed m w name (err x) w' e wf = wf

  step-IsWellformed :
      (call : Call) (host : Host hosting) → IsWellformed host.0 → IsWellformed (step call host).0
  unfolding step
  step-IsWellformed (registers service metadata) (m, w) wf =
      after_register-IsWellformed m w service metadata _ refl wf
  step-IsWellformed (unregisters name) (m, w) wf =
      let (r, w') = unregister_service hosting m name w in
      after_unregister-IsWellformed m w name r w' refl wf
  step-IsWellformed initializes host wf =
      SameKeys-IsWellformed host.0 _ (initialize_services-SameKeys hosting host wf) wf
  step-IsWellformed shuts_down host wf =
      SameKeys-IsWellformed host.0 _ (shutdown_services-SameKeys hosting host) wf
  step-IsWellformed reloads (m, w) wf = wf

  run-keeps :
      (calls : List Call) (host : Host hosting)
      → IsWellformed host.0
      → IsWellformed (run calls host).0
  unfolding run
  run-keeps [] host wf = wf
  run-keeps (call ∷ calls) host wf =
      run-keeps calls (step call host) (step-IsWellformed call host wf)

  -- After any sequence of calls from an empty manager, failing ones included, the three dicts of
  -- the manager have the same keys in the same order and no key twice.
  pub run-IsWellformed :
      (calls : List Call) (w : World) → IsWellformed (run calls (empty_manager, w)).0
  run-IsWellformed calls w = run-keeps calls (empty_manager, w) empty_manager-IsWellformed
