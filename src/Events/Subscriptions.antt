-- ===== src/Events/Subscriptions.antt =====
-- The two tables of listeners.
use mathlib.Core.Option
use yasin_core.Prelude.{
  ℕ, ◌+◌, ◌≤◌, String, ◌≡◌, refl, sym, ap, ◌∙◌, Bool, false, not, Option, none, some, List, [], ◌∷◌,
  ◌++◌, if◌then◌else◌, eqb, select, arith, ◌==◌, eq_refl, Bool-cases, Option-cases, inl, inr,
}
use yasin_core.Dict
use yasin_core.Dict.{Dict, get-put, get-remove, get_or-put, get_or-get, get_or-none}
use yasin_core.Events.{
  Subscription, EventBus, make_bus, is_subscribed, subscribe, unsubscribe, put_or_delete, keep_in,
}

abbrev pub handlers : List Subscription → List ℕ
handlers [] = []
handlers (sub ∷ subs) = sub.handler ∷ handlers subs

-- How often a handler is subscribed.
abbrev pub times : ℕ → List Subscription → ℕ
times h [] = 0
times h (sub ∷ subs) = (if eqb sub.handler h then 1 else 0) + times h subs

-- The simple table has the handlers of the other one, for the same events and in the same order, and
-- no handler is subscribed twice to an event.
pub record IsSynced (bus : EventBus) : Type 0 where
  pub synced :
      (event : String)
      → Dict.get bus.listeners event ≡ Option.map handlers (Dict.get bus.subscriptions event)
  pub once : (event : String) (h : ℕ) → times h (Dict.get_or bus.subscriptions event []) ≤ 1

handlers-append : (xs ys : List Subscription) → handlers (xs ++ ys) ≡ handlers xs ++ handlers ys
handlers-append [] ys = refl
handlers-append (x ∷ xs) ys = ap (λ l. x.handler ∷ l) (handlers-append xs ys)

times-append : (h : ℕ) (xs ys : List Subscription) → times h (xs ++ ys) ≡ times h xs + times h ys
times-append h [] ys = omega arith
times-append h (x ∷ xs) ys = omega (arith, times-append h xs ys)

times-unsubscribed :
    (h : ℕ) (subs : List Subscription) → is_subscribed h subs ≡ false → times h subs ≡ 0
unfolding is_subscribed
times-unsubscribed h [] e = refl
times-unsubscribed h (sub ∷ subs) e = ground (arith, times-unsubscribed h subs)

times-select :
    (h : ℕ) (keep : Subscription → Bool) (subs : List Subscription)
    → times h (select keep subs) ≤ times h subs
times-select h keep [] = omega arith
times-select h keep (sub ∷ subs) = ground (arith, times-select h keep subs)

handlers-select :
    (callback : ℕ) (subs : List Subscription)
    → handlers (select (λ sub. not (eqb sub.handler callback)) subs)
      ≡ select (λ cb. not (eqb cb callback)) (handlers subs)
handlers-select callback [] = refl
handlers-select callback (sub ∷ subs) = elim (Bool-cases (eqb sub.handler callback)) [
  | inl e ↦ rw e (handlers-select callback subs)
  | inr e ↦ rw e (ap (λ l. sub.handler ∷ l) (handlers-select callback subs))
]

pub make_bus-IsSynced : (size : ℕ) → IsSynced (make_bus size)
unfolding make_bus Dict.get Dict.get_or
make_bus-IsSynced size = record { synced = λ event. refl; once = λ event h. omega arith }

listed :
    (event : String) (bus : EventBus)
    → Dict.get bus.listeners event ≡ Option.map handlers (Dict.get bus.subscriptions event)
    → Dict.get_or bus.listeners event [] ≡ handlers (Dict.get_or bus.subscriptions event [])
listed event bus s = elim (Option-cases (Dict.get bus.subscriptions event)) [
  | inl e ↦
      get_or-none bus.listeners event [] (s ∙ ap (Option.map handlers) e)
      ∙ sym (ap handlers (get_or-none bus.subscriptions event [] e))
  | inr (subs, e) ↦
      get_or-get bus.listeners event [] (handlers subs) (s ∙ ap (Option.map handlers) e)
      ∙ sym (ap handlers (get_or-get bus.subscriptions event [] subs e))
]

-- A subscription keeps the two tables in step, and adds no handler that the event has.
pub subscribe-IsSynced :
    (event : String) (callback : ℕ) (filter_func : Option ℕ) (async_handle : Bool) (bus : EventBus)
    → IsSynced bus
    → IsSynced (subscribe event callback filter_func async_handle bus)
unfolding subscribe
subscribe-IsSynced event callback filter_func async_handle bus s =
    let subs = Dict.get_or bus.subscriptions event [] in
    let sub : Subscription = record {
      handler = callback;
      filter_func = filter_func;
      async_handle = async_handle;
    } in
    elim (Bool-cases (is_subscribed callback subs)) [
      | inl e ↦ rw e s
      | inr e ↦ rw e (record {
        synced = λ other.
            rw
              (
                get-put bus.subscriptions event other (subs ++ sub ∷ []),
                get-put bus.listeners event other
                    (Dict.get_or bus.listeners event [] ++ callback ∷ []),
                listed event bus (s.synced event),
              )
              (ground (arith, s.synced other, handlers-append subs (sub ∷ [])));
        once = λ other h. rw (get_or-put bus.subscriptions event other (subs ++ sub ∷ []) []) (
            ground (
              arith,
              s.once event h,
              s.once other h,
              times-append h subs (sub ∷ []),
              times-unsubscribed callback subs e,
            ));
      })
    ]

-- A list that is kept only if it is not empty.
abbrev if_any {ℓ} : {A : Type ℓ} → List A → Option (List A)
if_any [] = none
if_any (x ∷ xs) = some (x ∷ xs)

get-put_or_delete {ℓ} :
    {A : Type ℓ}
    → (d : Dict (List A)) (event other : String) (items : List A)
    → Dict.get (put_or_delete d event items) other
      ≡ (if event == other then if_any items else Dict.get d other)
unfolding put_or_delete
get-put_or_delete d event other [] = get-remove d event other
get-put_or_delete d event other (x ∷ xs) = get-put d event other (x ∷ xs)

get_or-put_or_delete {ℓ} :
    {A : Type ℓ}
    → (d : Dict (List A)) (event other : String) (items : List A)
    → Dict.get_or (put_or_delete d event items) other []
      ≡ (if event == other then items else Dict.get_or d other [])
unfolding put_or_delete
get_or-put_or_delete d event other [] = elim (Bool-cases (event == other)) [
  | inl e ↦ rw e (get_or-none (Dict.remove d event) other [] (get-remove d event other ∙ rw e refl))
  | inr e ↦ elim (Option-cases (Dict.get d other)) [
    | inl f ↦ rw e (
        get_or-none (Dict.remove d event) other [] (get-remove d event other ∙ rw e f)
        ∙ sym (get_or-none d other [] f))
    | inr (v, f) ↦ rw e (
        get_or-get (Dict.remove d event) other [] v (get-remove d event other ∙ rw e f)
        ∙ sym (get_or-get d other [] v f))
  ]
]
get_or-put_or_delete d event other (x ∷ xs) = get_or-put d event other (x ∷ xs) []

handlers-if_any :
    (subs : List Subscription) → if_any (handlers subs) ≡ Option.map handlers (if_any subs)
handlers-if_any [] = refl
handlers-if_any (sub ∷ subs) = refl

-- The tables stay in step where a known event's list is cut down.
unsubscribed :
    (event : String) (callback : ℕ) (bus : EventBus) (subs : List Subscription)
    → IsSynced bus
    → Dict.get bus.subscriptions event ≡ some subs
    → IsSynced (unsubscribe event callback bus)
unfolding unsubscribe keep_in
unsubscribed event callback bus subs s h =
    let kept = select (λ sub. not (eqb sub.handler callback)) subs in
    let both : Dict.get bus.listeners event ≡ some (handlers subs) =
      s.synced event ∙ ap (Option.map handlers) h in
    let cut = handlers-select callback subs in
    rw (h, both, keep_in)
      (record {
        synced = λ other.
            rw
              (
                get-put_or_delete bus.listeners event other
                    (select (λ cb. not (eqb cb callback)) (handlers subs)),
                get-put_or_delete bus.subscriptions event other kept,
              )
              (elim (Bool-cases (event == other)) [
                | inl e ↦ rw e (ap if_any (sym cut) ∙ handlers-if_any kept)
                | inr e ↦ rw e (s.synced other)
              ]);
        once = λ other k.
            rw (get_or-put_or_delete bus.subscriptions event other kept)
              (elim (Bool-cases (event == other)) [
                | inl e ↦ rw e (
                    let known = get_or-get bus.subscriptions event [] subs h in
                    let le = times-select k (λ sub. not (eqb sub.handler callback)) subs in
                    omega (arith, le, rw known at (s.once event k)))
                | inr e ↦ rw e (s.once other k)
              ]);
      })

times-removed :
    (callback : ℕ) (subs : List Subscription)
    → times callback (select (λ sub. not (eqb sub.handler callback)) subs) ≡ 0
times-removed callback [] = refl
times-removed callback (sub ∷ subs) = ground (arith, times-removed callback subs)

-- Taking a subscription back keeps the two tables in step; the handler is then not subscribed to that
-- event.
pub unsubscribe-IsSynced :
    (event : String) (callback : ℕ) (bus : EventBus)
    → IsSynced bus
    → IsSynced (unsubscribe event callback bus)
      × (times callback (Dict.get_or (unsubscribe event callback bus).subscriptions event []) ≡ 0)
unfolding unsubscribe keep_in
unsubscribe-IsSynced event callback bus s = elim (Option-cases (Dict.get bus.subscriptions event)) [
  | inl e ↦
      let both : Dict.get bus.listeners event ≡ none =
        s.synced event ∙ ap (Option.map handlers) e in
      rw (e, both, keep_in)
        (
          record { synced = s.synced; once = s.once },
          rw (get_or-none bus.subscriptions event [] e) refl,
        )
  | inr (subs, e) ↦ (
    unsubscribed event callback bus subs s e,
    rw (e, keep_in)
        (rw
          (get_or-put_or_delete bus.subscriptions event event
            (select (λ sub. not (eqb sub.handler callback)) subs))
          (ground (arith, times-removed callback subs, eq_refl event))),
  )
]
