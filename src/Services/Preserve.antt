-- ===== src/Services/Preserve.antt =====
-- Every operation keeps a manager well-formed, and taking a service out leaves no dependency on it
-- behind.
use yasin_core.Prelude.{
  String, ◌≡◌, refl, sym, ◌∙◌, ap, subst, true, false, [], ◌∷◌, ◌++◌, arith, eq_iff,
}
use yasin_core.Prelude.Counting.{
  count, elem, count-append, without, count-without, elem→count, not_elem→count, count→elem,
}
use yasin_core.Dict
use yasin_core.Dict.{Dict, get-put, get-remove, keys-put, keys-put_new, keys-remove, has_of_keys}
use yasin_core.Services.{
  ServiceState, uninitialized, ServiceMetadata, Manager, ok, Hosting, empty_manager,
  register_service, add_service, drop_service, dependents, unregister_service,
}
use yasin_core.Services.Wellformed.{IsWellformed}
use yasin_core.Services.Startup.Links.{dependencies}
use yasin_core.Services.Startup.Acyclic.{IsClosed}
use yasin_core.Services.Lifecycle.{set_state}

pub empty_manager-IsWellformed :
    {Service : Type 0} → IsWellformed (empty_manager {Service = Service})
unfolding empty_manager Dict.keys count
empty_manager-IsWellformed = record {
  metadata_keys = refl;
  states_keys = refl;
  distinct = λ name. omega arith;
}

-- No service that declares `name` as a dependency: nothing in the dict does.
dependents-nil :
    (md : Dict ServiceMetadata) (name n : String)
    → dependents name md ≡ []
    → elem name (dependencies md n) ≡ false
unfolding dependents Dict.get elem
dependents-nil [] name n h = refl
dependents-nil ((svc, meta) ∷ rest) name n h = ground (arith, dependents-nil rest name n)

module _ {Service : Type 0} where
  add_service-IsWellformed :
      (m : Manager Service) (service : Service) (metadata : ServiceMetadata)
      → IsWellformed m
      → Dict.has m.services metadata.name ≡ false
      → IsWellformed (add_service m service metadata)
  add_service-IsWellformed m service metadata wf new =
      let name = metadata.name in
      let grown = keys-put_new m.services name service new in
      record {
        metadata_keys =
            keys-put_new m.metadata name metadata
              (has_of_keys m.metadata m.services name wf.metadata_keys ∙ new)
            ∙ ap (λ ks. ks ++ name ∷ []) wf.metadata_keys
            ∙ sym grown;
        states_keys =
            keys-put_new m.states name uninitialized
              (has_of_keys m.states m.services name wf.states_keys ∙ new)
            ∙ ap (λ ks. ks ++ name ∷ []) wf.states_keys
            ∙ sym grown;
        distinct = λ n.
            unfold count Dict.has in
            ground (
              arith,
              grown,
              wf.distinct n,
              count-append n (Dict.keys m.services) (name ∷ []),
              not_elem→count name (Dict.keys m.services) new,
              eq_iff name n,
            );
      }

  -- A registration that is accepted.
  pub register_service-ok :
      (m m' : Manager Service) (service : Service) (metadata : ServiceMetadata)
      → register_service m service metadata ≡ ok m'
      → (Dict.has m.services metadata.name ≡ false) × (add_service m service metadata ≡ m')
  unfolding register_service Dict.has
  register_service-ok m m' service metadata h = ground arith

  pub register_service-IsWellformed :
      (m m' : Manager Service) (service : Service) (metadata : ServiceMetadata)
      → IsWellformed m
      → register_service m service metadata ≡ ok m'
      → IsWellformed m'
  register_service-IsWellformed m m' service metadata wf h =
      let (new, e) = register_service-ok m m' service metadata h in
      subst IsWellformed e (add_service-IsWellformed m service metadata wf new)

  pub drop_service-IsWellformed :
      (m : Manager Service) (name : String) → IsWellformed m → IsWellformed (drop_service m name)
  drop_service-IsWellformed m name wf = record {
    metadata_keys =
        keys-remove m.metadata name
        ∙ ap (without name) wf.metadata_keys
        ∙ sym (keys-remove m.services name);
    states_keys =
        keys-remove m.states name
        ∙ ap (without name) wf.states_keys
        ∙ sym (keys-remove m.services name);
    distinct = λ n.
        rw (keys-remove m.services name)
          (ground (arith, count-without name n (Dict.keys m.services), wf.distinct n));
  }

  pub set_state-IsWellformed :
      (m : Manager Service) (name : String) (state : ServiceState)
      → IsWellformed m
      → elem name (Dict.keys m.services) ≡ true
      → IsWellformed (set_state m name state)
  unfolding Dict.has
  set_state-IsWellformed m name state wf h = record {
    metadata_keys = wf.metadata_keys;
    states_keys = keys-put m.states name state (rw wf.states_keys h) ∙ wf.states_keys;
    distinct = wf.distinct;
  }

  drop_service-IsClosed :
      (m : Manager Service) (name : String)
      → dependents name m.metadata ≡ []
      → IsClosed (Dict.keys m.services) (dependencies m.metadata)
      → IsClosed
          (Dict.keys (drop_service m name).services)
          (dependencies (drop_service m name).metadata)
  drop_service-IsClosed m name free closed n dep h =
      let there : elem dep (dependencies m.metadata n) ≡ true =
        unfold elem in ground (arith, h, get-remove m.metadata name n) in
      rw (keys-remove m.services name) (
        count→elem dep _ (
          ground (
            arith,
            count-without name dep (Dict.keys m.services),
            elem→count dep (Dict.keys m.services) (closed n dep there),
            there,
            dependents-nil m.metadata name n free,
            eq_iff name dep,
          )))

module _ (hosting : Hosting) where
  open hosting use {Service, World}

  -- What an accepted removal says of the manager before, and what it leaves.
  pub unregister_service-ok :
      (m m' : Manager Service) (name : String) (world world' : World)
      → unregister_service hosting m name world ≡ (ok m', world')
      → (dependents name m.metadata ≡ []) × (drop_service m name ≡ m')
  unfolding unregister_service
  unregister_service-ok m m' name world world' h = ground arith

  -- In a well-formed manager: if every declared dependency was registered, that is so after an
  -- accepted removal of a service too.
  pub unregister_service-IsClosed :
      (m m' : Manager Service) (name : String) (world world' : World)
      → unregister_service hosting m name world ≡ (ok m', world')
      → IsClosed (Dict.keys m.services) (dependencies m.metadata)
      → IsClosed (Dict.keys m'.services) (dependencies m'.metadata)
  unregister_service-IsClosed m m' name world world' h closed =
      let (free, e) = unregister_service-ok m m' name world world' h in
      subst (λ (m : Manager Service). IsClosed (Dict.keys m.services) (dependencies m.metadata)) e
        (drop_service-IsClosed m name free closed)
