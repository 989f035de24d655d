-- ===== src/Context/Restore.antt =====
-- Contexts that are saved, and loaded again.
use yasin_core.Prelude.{
  ℕ, ◌≡◌, ◌≢◌, refl, ap, ◌∙◌, String, false, Option, none, some, [], ◌∷◌, ◌==◌, eq_iff, Bool-cases,
  inl, inr, arith,
}
use yasin_core.Dict
use yasin_core.Dict.{Dict, get-put, get-absent}
use yasin_core.Context.{RuntimeContext, expiry, make_context, serialize, deserialize}
use yasin_core.Context.Engine.{ContextEngine, serialize_all, load_all}

-- A context with an identifier, and with an expiry where it has a time to live.
pub record IsRestorable (ctx : RuntimeContext) : Type 0 where
  pub id_given : ctx.id ≢ ""
  pub expiry_given : expiry ctx.expires_at ctx.ttl ctx.created_at ≡ ctx.expires_at

deserialize-serialize :
    (now : ℕ) (fresh_id : String) (ctx : RuntimeContext)
    → IsRestorable ctx
    → deserialize now fresh_id (serialize ctx) ≡ ctx
unfolding deserialize serialize make_context
deserialize-serialize now fresh_id ctx r =
    ground (arith, eq_iff ctx.id "", r.id_given, r.expiry_given)

-- No key stands twice.
abbrev pub AreRestorable : Dict RuntimeContext → Type 0
AreRestorable [] = Unit
AreRestorable ((cid, ctx) ∷ rest) =
    (Dict.has rest cid ≡ false) × IsRestorable ctx × AreRestorable rest

abbrev or_kept : Option RuntimeContext → Option RuntimeContext → Option RuntimeContext
or_kept none otherwise = otherwise
or_kept (some ctx) otherwise = some ctx

load_all-serialize_all :
    (now : ℕ) (fresh_id : String → String) (contexts : Dict RuntimeContext) (s : ContextEngine)
    (cid : String)
    → AreRestorable contexts
    → Dict.get (load_all now fresh_id (serialize_all contexts) s).contexts cid
      ≡ or_kept (Dict.get contexts cid) (Dict.get s.contexts cid)
unfolding load_all serialize_all Dict.get
load_all-serialize_all now fresh_id [] s cid h = refl
load_all-serialize_all now fresh_id ((k, ctx) ∷ rest) s cid h =
    let s' : ContextEngine = record s { contexts = Dict.put s.contexts k ctx } in
    rw
      (
        load_all,
        deserialize-serialize now (fresh_id k) ctx h.1,
        load_all-serialize_all now fresh_id rest s' cid h.2,
        get-put s.contexts k cid ctx,
      )
      (elim (Bool-cases (k == cid)) [
        | inl e ↦ rw (e, get-absent rest cid (ground (arith, eq_iff k cid, e, h.0))) refl
        | inr e ↦ rw e refl
      ])

or_kept-none : (m : Option RuntimeContext) → or_kept m none ≡ m
or_kept-none none = refl
or_kept-none (some ctx) = refl

-- `save_all_contexts_to_storage` and `load_all_contexts_from_storage` keep every context: an engine without
-- contexts that loads what another one saved has, under every key, the other's context with all its
-- attributes, the inactive and the expired ones too. The condition: each context has an identifier, and an
-- expiry where it has a time to live.
pub load_all-restores :
    (now : ℕ) (fresh_id : String → String) (s t : ContextEngine) (cid : String)
    → AreRestorable s.contexts
    → t.contexts ≡ []
    → Dict.get (load_all now fresh_id (serialize_all s.contexts) t).contexts cid
      ≡ Dict.get s.contexts cid
unfolding Dict.get
load_all-restores now fresh_id s t cid h e =
    load_all-serialize_all now fresh_id s.contexts t cid h
    ∙ ap (λ (d : Dict RuntimeContext). or_kept (Dict.get s.contexts cid) (Dict.get d cid)) e
    ∙ or_kept-none (Dict.get s.contexts cid)
