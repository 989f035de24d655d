-- ===== src/Services.antt =====
-- yasin_core/runtime/models.py, runtime/exceptions.py and the registration half of
-- runtime/service_manager.py. A service is any object: which of the optional methods it has and what
-- a call of one does to the outside world are the parameters of `Hosting`. A service method does
-- not call back into the manager that calls it, and the log output is not modelled.
pub mod Startup
pub mod Lifecycle
pub mod Wellformed
pub mod Preserve
pub mod Lookup
pub mod History
pub mod Tests
use yasin_core.Prelude.{
  String, ◌≡◌, Bool, true, false, Option, none, some, List, [], ◌∷◌, map, if◌then◌else◌, ◌==◌,
}
use yasin_core.Prelude.Counting.{elem}
use yasin_core.Dict
use yasin_core.Dict.{Dict}

pub data ServiceState : Type 0 where
  uninitialized initializing active failed stopped : ServiceState

pub record ServiceMetadata : Type 0 where
  pub name : String
  pub version : String
  pub description : String
  pub dependencies : List String

-- The exception classes, with what their messages name.
pub data ServiceError : Type 0 where
  duplicate_service service_not_found : String → ServiceError
  dependency_error : String → List String → ServiceError
  missing_dependency : String → String → ServiceError
  circular_dependency : ServiceError
  initialization_failed reload_failed : String → String → ServiceError
  reload_dependency_error : ServiceError → ServiceError

pub data Result {ℓ} (A : Type ℓ) : Type ℓ where
  ok : A → Result A
  err : ServiceError → Result A

-- What `health()` of a service returns: a bool, a dict with the two entries that are read, or
-- anything else.
pub data HealthReply : Type 0 where
  bool_reply : Bool → HealthReply
  dict_reply : Option Bool → Option String → HealthReply
  other_reply : HealthReply

-- The methods of a service that the manager may call.
pub data Hook : Type 0 where
  initialize shutdown reload : Hook

-- A call returns, or raises an exception with a message; the world changes either way.
pub record Hosting : Type 1 where
  pub Service : Type 0
  pub World : Type 0
  pub has_method : Hook → Service → Bool
  pub call : Hook → Service → World → Option String × World
  pub has_health : Service → Bool
  pub health : Service → World → Option HealthReply × World

pub record Manager (Service : Type 0) : Type 0 where
  pub services : Dict Service
  pub metadata : Dict ServiceMetadata
  pub states : Dict ServiceState
  pub is_initialized : Bool

-- [svc for svc, meta in metadata.items() if name in meta.dependencies]
unfoldable pub dependents : String → Dict ServiceMetadata → List String
dependents name [] = []
dependents name ((svc, meta) ∷ rest) =
    if elem name meta.dependencies then svc ∷ dependents name rest else dependents name rest

module _ {Service : Type 0} where
  unfoldable pub empty_manager : Manager Service
  empty_manager = record { services = []; metadata = []; states = []; is_initialized = false }

  -- The three assignments of `register_service`.
  abbrev pub add_service : Manager Service → Service → ServiceMetadata → Manager Service
  add_service m service metadata = record m {
    services = Dict.put m.services metadata.name service;
    metadata = Dict.put m.metadata metadata.name metadata;
    states = Dict.put m.states metadata.name uninitialized;
  }

  -- The three deletions of `unregister_service`.
  abbrev pub drop_service : Manager Service → String → Manager Service
  drop_service m name = record m {
    services = Dict.remove m.services name;
    metadata = Dict.remove m.metadata name;
    states = Dict.remove m.states name;
  }

  unfoldable pub register_service :
      Manager Service → Service → ServiceMetadata → Result (Manager Service)
  unfolding Dict.has Dict.put
  register_service m service metadata =
      if Dict.has m.services metadata.name
      then err (duplicate_service metadata.name)
      else ok (add_service m service metadata)

  unfoldable pub get_service : Manager Service → String → Result Service
  unfolding Dict.get
  get_service m name = elim (Dict.get m.services name) [
    | none ↦ err (service_not_found name)
    | some service ↦ ok service
  ]

  unfoldable pub list_services : Manager Service → List String
  unfolding Dict.keys
  list_services m = Dict.keys m.services

  unfoldable pub has_service : Manager Service → String → Bool
  unfolding Dict.has
  has_service m name = Dict.has m.services name

  -- `register_service` of the registry: it builds the metadata.
  unfoldable pub register_named :
      Manager Service → String → Service → String → String → List String → Result (Manager Service)
  unfolding register_service
  register_named m name service version description dependencies =
      register_service m service (record {
        name = name;
        version = version;
        description = description;
        dependencies = dependencies;
      })

  -- `get_service_metadata` of the registry. Every registered service has its metadata, so the last
  -- case is not met in a well-formed manager.
  unfoldable pub get_service_metadata : Manager Service → String → Result ServiceMetadata
  unfolding Dict.get Dict.has
  get_service_metadata m name =
      if Dict.has m.services name
      then (elim (Dict.get m.metadata name) [
        | some metadata ↦ ok metadata
        | none ↦ err (service_not_found name)
      ])
      else err (service_not_found name)

module _ (hosting : Hosting) where
  open hosting use {Service, World, has_method, call}

  -- `if hasattr(service, "m"): service.m()`; an exception is returned as its message.
  unfoldable pub call_hook : Hook → Service → World → Option String × World
  call_hook hook service world =
      if has_method hook service then call hook service world else (none, world)

  -- The shutdown call of an active service that is taken out; its exception is logged only.
  unfoldable pub shutdown_if_active : Manager Service → String → World → World
  unfolding call_hook
  shutdown_if_active m name world = elim (Dict.get m.states name) [
    | some active ↦ elim (Dict.get m.services name) [
      | some service ↦ (call_hook shutdown service world).1
      | none ↦ world
    ]
    | _ ↦ world
  ]

  unfoldable pub unregister_service :
      Manager Service → String → World → Result (Manager Service) × World
  unfolding Dict.has Dict.remove dependents shutdown_if_active
  unregister_service m name world =
      if Dict.has m.services name
      then (elim (dependents name m.metadata) [
        | [] ↦ (ok (drop_service m name), shutdown_if_active m name world)
        | svc ∷ rest ↦ (err (dependency_error name (svc ∷ rest)), world)
      ])
      else (err (service_not_found name), world)
