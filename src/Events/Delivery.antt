-- ===== src/Events/Delivery.antt =====
-- Which handlers a publication reaches.
use yasin_core.Prelude.{
  append_assoc, append_nil, ℕ, ◌≡◌, refl, ◌∙◌, sym, ap, Bool, true, false, ◌&&◌, not, List, [], ◌∷◌,
  ◌++◌, if◌then◌else◌, select, arith,
}
use yasin_core.Dict
use yasin_core.Events.{
  Event, Subscription, EventBus, Audience, accepts, submit, execute_async_handler, deliver_one,
  deliver, publish, remember,
}

module _ (audience : Audience) where
  open audience use {World, handle, is_coroutine}

  -- Subscriptions whose handlers run in the publication itself, and those that are handed on.
  abbrev pub is_direct : Event → Subscription → Bool
  is_direct event sub =
      accepts audience sub event && (not (is_coroutine sub.handler) && not sub.async_handle)

  abbrev pub is_handed_on : Event → Subscription → Bool
  is_handed_on event sub =
      accepts audience sub event && not (not (is_coroutine sub.handler) && not sub.async_handle)

  -- The handlers one after the other; what they raise is dropped.
  unfoldable pub run_each : Event → List Subscription → World → World
  run_each event [] world = world
  run_each event (sub ∷ subs) world = run_each event subs (handle sub.handler event world).1

  abbrev pub tickets : Event → List Subscription → List (ℕ × Event)
  tickets event [] = []
  tickets event (sub ∷ subs) = (sub.handler, event) ∷ tickets event subs

  -- The bus takes what is handed on.
  abbrev IsOpen : EventBus → Type 0
  IsOpen bus = bus.is_shutdown ≡ false

  deliver_one-effect :
      (sub : Subscription) (event : Event) (bus : EventBus) (world : World)
      → IsOpen bus
      → let (bus', world') = deliver_one audience sub event (bus, world) in
        IsOpen bus'
        × (world' ≡ (if is_direct event sub then (handle sub.handler event world).1 else world))
        × (bus'.submitted ≡ (
            if is_handed_on event sub
            then bus.submitted ++ (sub.handler, event) ∷ []
            else bus.submitted))
  unfolding deliver_one execute_async_handler submit
  deliver_one-effect sub event bus world o =
      (ground (arith, o), ground (arith, o), ground (arith, o))

  run_each-step :
      (direct : Bool) (event : Event) (sub : Subscription) (subs : List Subscription)
      (world : World)
      → run_each event (if direct then sub ∷ subs else subs) world
        ≡ run_each event subs (if direct then (handle sub.handler event world).1 else world)
  unfolding run_each
  run_each-step true event sub subs world = refl
  run_each-step false event sub subs world = refl

  tickets-step :
      (handed_on : Bool) (event : Event) (sub : Subscription) (subs : List Subscription)
      (base : List (ℕ × Event))
      → base ++ tickets event (if handed_on then sub ∷ subs else subs)
        ≡ (if handed_on then base ++ (sub.handler, event) ∷ [] else base) ++ tickets event subs
  tickets-step true event sub subs base =
      sym (append_assoc base ((sub.handler, event) ∷ []) (tickets event subs))
  tickets-step false event sub subs base = refl

  deliver-effect :
      (subs : List Subscription) (event : Event) (bus : EventBus) (world : World)
      → IsOpen bus
      → let (bus', world') = deliver audience subs event (bus, world) in
        (world' ≡ run_each event (select (is_direct event) subs) world)
        × (bus'.submitted ≡ bus.submitted ++ tickets event (select (is_handed_on event) subs))
  unfolding deliver run_each
  deliver-effect [] event bus world o = (refl, sym (append_nil bus.submitted))
  deliver-effect (sub ∷ subs) event bus world o =
      let (bus', world') = deliver_one audience sub event (bus, world) in
      let (o', w, b) = deliver_one-effect sub event bus world o in
      let (w', b') = deliver-effect subs event bus' world' o' in
      let direct = select (is_direct event) subs in
      let handed_on = select (is_handed_on event) subs in
      (
        w'
            ∙ ap (run_each event direct) w
            ∙ sym (run_each-step (is_direct event sub) event sub direct world),
        b'
            ∙ ap (λ l. l ++ tickets event handed_on) b
            ∙ sym (tickets-step (is_handed_on event sub) event sub handed_on bus.submitted),
      )

  -- A publication on a bus that is not shut down runs, in the order of subscription and those for all
  -- events last, exactly the direct handlers of the event and of "*" whose filters accept it, also
  -- where some of them raise; and it hands on exactly the other handlers whose filters accept it.
  pub publish-delivers :
      (event : Event) (bus : EventBus) (world : World)
      → bus.is_shutdown ≡ false
      → let (bus', world') = publish audience event (bus, world) in
        let subs =
          Dict.get_or bus.subscriptions event.name [] ++ Dict.get_or bus.subscriptions "*" [] in
        (world' ≡ run_each event (select (is_direct event) subs) world)
        × (bus'.submitted ≡ bus.submitted ++ tickets event (select (is_handed_on event) subs))
  unfolding publish remember
  publish-delivers event bus world o =
      let subs =
        Dict.get_or bus.subscriptions event.name [] ++ Dict.get_or bus.subscriptions "*" [] in
      deliver-effect subs event (remember event bus) world o
