-- ===== src/Context/Expiry.antt =====
-- What `prune_expired_contexts` keeps.
use yasin_core.Prelude.{
  ℕ, ◌≡◌, refl, sym, ap, ◌∙◌, String, Bool, true, false, ◌||◌, Option, none, some, List, [], ◌∷◌,
  if◌then◌else◌, ◌==◌, eq_iff, Bool-cases, inl, inr, arith,
}
use yasin_core.Dict
use yasin_core.Dict.{Dict, get-remove, get-absent}
use yasin_core.Context.{RuntimeContext, is_expired}
use yasin_core.Context.Engine.{
  ContextEngine, handle_expiration, expired_contexts, expire_all, prune,
}

-- Each context stands under its own identifier, none twice.
abbrev pub IsKeyed : Dict RuntimeContext → Type 0
IsKeyed [] = Unit
IsKeyed ((cid, ctx) ∷ rest) = (cid ≡ ctx.id) × (Dict.has rest cid ≡ false) × IsKeyed rest

get-handle_expiration :
    (ctx : RuntimeContext) (s : ContextEngine) (x : String)
    → Dict.get (handle_expiration ctx s).contexts x
      ≡ (if ctx.id == x then none else Dict.get s.contexts x)
unfolding handle_expiration
get-handle_expiration ctx s x = elim (Bool-cases (Dict.has s.contexts ctx.id)) [
  | inl e ↦ rw e (get-remove s.contexts ctx.id x)
  | inr e ↦ rw e (elim (Bool-cases (ctx.id == x)) [
    | inl f ↦ rw (f, get-absent s.contexts x (ground (arith, eq_iff ctx.id x, f, e))) refl
    | inr f ↦ rw f refl
  ])
]

abbrev named_in : String → List RuntimeContext → Bool
named_in x [] = false
named_in x (ctx ∷ ctxs) = ctx.id == x || named_in x ctxs

get-expire_all :
    (ctxs : List RuntimeContext) (s : ContextEngine) (x : String)
    → Dict.get (expire_all ctxs s).contexts x
      ≡ (if named_in x ctxs then none else Dict.get s.contexts x)
unfolding expire_all
get-expire_all [] s x = refl
get-expire_all (ctx ∷ ctxs) s x =
    ground (arith, get-expire_all ctxs (handle_expiration ctx s) x, get-handle_expiration ctx s x)

abbrev expired_at : ℕ → Option RuntimeContext → Bool
expired_at now none = false
expired_at now (some ctx) = is_expired ctx now

named_in-expired_contexts :
    (now : ℕ) (contexts : Dict RuntimeContext) (x : String)
    → IsKeyed contexts
    → named_in x (expired_contexts now (Dict.values contexts))
      ≡ expired_at now (Dict.get contexts x)
unfolding Dict.values Dict.get
named_in-expired_contexts now [] x h = refl
named_in-expired_contexts now ((cid, ctx) ∷ rest) x h = elim (Bool-cases (cid == x)) [
  | inl e ↦ elim (Bool-cases (is_expired ctx now)) [
    | inl f ↦ rw (e, f, same_id true e) refl
    | inr f ↦
        rw
          (
            e,
            f,
            named_in-expired_contexts now rest x h.2,
            get-absent rest x (ground (arith, eq_iff cid x, e, h.1)),
          )
          refl
  ]
  | inr e ↦ elim (Bool-cases (is_expired ctx now)) [
    | inl f ↦ rw (e, f, same_id false e, named_in-expired_contexts now rest x h.2) refl
    | inr f ↦ rw (e, f, named_in-expired_contexts now rest x h.2) refl
  ]
]
  where
    same_id : (b : Bool) → (cid == x) ≡ b → (ctx.id == x) ≡ b
    same_id b e = ap (λ (y : String). y == x) (sym h.0) ∙ e

abbrev pub unless_passed : ℕ → Option RuntimeContext → Option RuntimeContext
unless_passed now none = none
unless_passed now (some ctx) = if is_expired ctx now then none else some ctx

if_expired :
    (now : ℕ) (m : Option RuntimeContext)
    → (if expired_at now m then none else m) ≡ unless_passed now m
if_expired now none = refl
if_expired now (some ctx) = refl

-- `prune_expired_contexts` drops exactly the expired contexts: where each context stands under its own identifier,
-- an expired one is gone afterwards and every other one is as it was.
pub prune-get :
    (now : ℕ) (s : ContextEngine) (x : String)
    → IsKeyed s.contexts
    → Dict.get (prune now s).contexts x ≡ unless_passed now (Dict.get s.contexts x)
unfolding prune
prune-get now s x h =
    get-expire_all (expired_contexts now (Dict.values s.contexts)) s x
    ∙ ap (λ (b : Bool). if b then none else Dict.get s.contexts x)
        (named_in-expired_contexts now s.contexts x h)
    ∙ if_expired now (Dict.get s.contexts x)
