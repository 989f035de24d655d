-- ===== src/Context/Engine.antt =====
-- `ContextEngine` of yasin_core/context/engine.py, and `RuntimeContext.get`, which asks it for the parent.
use yasin_core.Prelude.{
  ℕ, zero, suc, String, Bool, true, false, not, ◌&&◌, ◌||◌, Option, none, some, List, [], ◌∷◌, ◌++◌,
  if◌then◌else◌, ◌==◌,
}
use yasin_core.Prelude.Counting.{elem}
use yasin_core.Dict
use yasin_core.Dict.{Dict}
use yasin_core.Execution.{Value}
use yasin_core.Context.{RuntimeContext, make_context, is_expired, Payload, serialize, deserialize}

pub data ContextEvent : Type 0 where
  context_created context_deleted context_expired context_updated : String → ContextEvent

-- `released` has the deactivated objects that the engine let go, for those who still hold them.
pub record ContextEngine : Type 0 where
  pub contexts : Dict RuntimeContext
  pub released : List RuntimeContext
  pub published : List ContextEvent

abbrev pub announce : ContextEvent → ContextEngine → ContextEngine
announce e s = record s { published = s.published ++ e ∷ [] }

-- RuntimeContext.deactivate
abbrev pub deactivate : RuntimeContext → RuntimeContext
deactivate ctx = record ctx { active = false }

-- The entry is deactivated and deleted.
unfoldable pub release : String → RuntimeContext → ContextEngine → ContextEngine
unfolding Dict.remove
release context_id ctx s = record s {
  contexts = Dict.remove s.contexts context_id;
  released = s.released ++ deactivate ctx ∷ [];
}

unfoldable pub create_context :
    ℕ
    → String
    → Dict Value
    → Option String
    → Dict Value
    → Option ℕ
    → List String
    → ContextEngine
    → ContextEngine × RuntimeContext
unfolding make_context Dict.put
create_context now fresh_id entries parent_id metadata ttl tags s =
    let ctx = make_context now fresh_id "" parent_id entries metadata ttl tags none none none in
    (
      announce (context_created ctx.id) (record s { contexts = Dict.put s.contexts ctx.id ctx }),
      ctx,
    )

-- _handle_expiration
unfoldable pub handle_expiration : RuntimeContext → ContextEngine → ContextEngine
unfolding Dict.has release
handle_expiration ctx s =
    if Dict.has s.contexts ctx.id
    then announce (context_expired ctx.id) (release ctx.id ctx s)
    else s

abbrev pub unless_expired :
    ℕ → Option RuntimeContext → ContextEngine → ContextEngine × Option RuntimeContext
unless_expired now none s = (s, none)
unless_expired now (some ctx) s =
    if is_expired ctx now then (handle_expiration ctx s, none) else (s, some ctx)

unfoldable pub get_context : ℕ → String → ContextEngine → ContextEngine × Option RuntimeContext
unfolding Dict.get is_expired handle_expiration
get_context now context_id s = unless_expired now (Dict.get s.contexts context_id) s

abbrev pub is_there : Option RuntimeContext → Bool
is_there none = false
is_there (some ctx) = true

unfoldable pub has_context : ℕ → String → ContextEngine → ContextEngine × Bool
unfolding get_context
has_context now context_id s = let (s', ctx) = get_context now context_id s in (s', is_there ctx)

unfoldable pub delete_context : String → ContextEngine → ContextEngine
unfolding Dict.get release
delete_context context_id s = elim (Dict.get s.contexts context_id) [
  | none ↦ s
  | some ctx ↦ announce (context_deleted context_id) (release context_id ctx s)
]

abbrev pub expired_contexts : ℕ → List RuntimeContext → List RuntimeContext
expired_contexts now [] = []
expired_contexts now (ctx ∷ ctxs) =
    let rest = expired_contexts now ctxs in if is_expired ctx now then ctx ∷ rest else rest

unfoldable pub expire_all : List RuntimeContext → ContextEngine → ContextEngine
unfolding handle_expiration
expire_all [] s = s
expire_all (ctx ∷ ctxs) s = expire_all ctxs (handle_expiration ctx s)

-- prune_expired_contexts
unfoldable pub prune : ℕ → ContextEngine → ContextEngine
unfolding Dict.values is_expired expire_all
prune now s = expire_all (expired_contexts now (Dict.values s.contexts)) s

abbrev pub all_tags : List String → RuntimeContext → Bool
all_tags [] ctx = true
all_tags (t ∷ ts) ctx = elem t ctx.tags && all_tags ts ctx

unfoldable pub listed : Bool → List String → Dict RuntimeContext → List String
unfolding elem
listed active_only tags [] = []
listed active_only tags ((cid, ctx) ∷ rest) =
    let later = listed active_only tags rest in
    if (not active_only || ctx.active) && all_tags tags ctx then cid ∷ later else later

unfoldable pub list_contexts : ℕ → Bool → List String → ContextEngine → ContextEngine × List String
unfolding prune listed
list_contexts now active_only tags s =
    let s' = prune now s in (s', listed active_only tags s'.contexts)

abbrev pub deactivate_all : List RuntimeContext → List RuntimeContext
deactivate_all [] = []
deactivate_all (ctx ∷ ctxs) = deactivate ctx ∷ deactivate_all ctxs

unfoldable pub clear_contexts : ContextEngine → ContextEngine
unfolding Dict.values
clear_contexts s = record s {
  contexts = [];
  released = s.released ++ deactivate_all (Dict.values s.contexts);
}

-- d.update(e), and the loop over `data.items()`
unfoldable pub merge : Dict Value → Dict Value → Dict Value
unfolding Dict.put
merge d [] = d
merge d ((k, v) ∷ rest) = merge (Dict.put d k v) rest

unfoldable pub append_new : List String → List String → List String
unfolding elem
append_new tags [] = tags
append_new tags (t ∷ ts) = append_new (if elem t tags then tags else tags ++ t ∷ []) ts

abbrev pub changed :
    ℕ
    → String
    → (RuntimeContext → RuntimeContext)
    → ContextEngine × Option RuntimeContext
    → ContextEngine × Bool
changed now context_id f (s, none) = (s, false)
changed now context_id f (s, some ctx) =
    let ctx' : RuntimeContext = record (f ctx) { updated_at = now } in
    (
      announce (context_updated ctx.id)
          (record s { contexts = Dict.put s.contexts context_id ctx' }),
      true,
    )

unfoldable pub update_context_data : ℕ → String → Dict Value → ContextEngine → ContextEngine × Bool
unfolding get_context merge Dict.put
update_context_data now context_id d s =
    changed now context_id (λ ctx. record ctx { entries = merge ctx.entries d })
      (get_context now context_id s)

unfoldable pub update_context_metadata :
    ℕ → String → Dict Value → ContextEngine → ContextEngine × Bool
unfolding get_context merge Dict.put
update_context_metadata now context_id d s =
    changed now context_id (λ ctx. record ctx { metadata = merge ctx.metadata d })
      (get_context now context_id s)

unfoldable pub add_tags : ℕ → String → List String → ContextEngine → ContextEngine × Bool
unfolding get_context append_new Dict.put
add_tags now context_id tags s =
    changed now context_id (λ ctx. record ctx { tags = append_new ctx.tags tags })
      (get_context now context_id s)

-- The dict that `save_all_contexts_to_storage` writes, and what `load_all_contexts_from_storage` does with it.
unfoldable pub serialize_all : Dict RuntimeContext → Dict Payload
unfolding serialize
serialize_all [] = []
serialize_all ((cid, ctx) ∷ rest) = (cid, serialize ctx) ∷ serialize_all rest

-- `fresh_id` gives the identifier that is drawn for the entry under a key.
unfoldable pub load_all : ℕ → (String → String) → Dict Payload → ContextEngine → ContextEngine
unfolding deserialize Dict.put
load_all now fresh_id [] s = s
load_all now fresh_id ((cid, p) ∷ rest) s =
    load_all now fresh_id rest
      (record s { contexts = Dict.put s.contexts cid (deserialize now (fresh_id cid) p) })

-- What a lookup gives: a value, the default, or the RecursionError.
pub data Lookup : Type 0 where
  value_found : Value → Lookup
  use_default : Lookup
  too_deep : Lookup

abbrev pub parent_of : Option String → Option String
parent_of none = none
parent_of (some p) = if p == "" then none else some p

abbrev pub from_parent :
    (RuntimeContext → ContextEngine → ContextEngine × Lookup)
    → ContextEngine × Option RuntimeContext
    → ContextEngine × Lookup
from_parent go (s, none) = (s, use_default)
from_parent go (s, some ctx) = go ctx s

-- RuntimeContext.get, of a context of the engine
unfoldable pub get_value : ℕ → ℕ → String → RuntimeContext → ContextEngine → ContextEngine × Lookup
unfolding Dict.get get_context
get_value zero now key ctx s = (s, too_deep)
get_value (suc fuel) now key ctx s =
    let up = λ (p : String). from_parent (get_value fuel now key) (get_context now p s) in
    elim (Dict.get ctx.entries key) [
      | some v ↦ (s, value_found v)
      | none ↦ elim (parent_of ctx.parent_id) [ none ↦ (s, use_default) | some p ↦ up p ]
    ]
