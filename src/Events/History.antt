-- ===== src/Events/History.antt =====
-- The bounded history of the published events.
use yasin_core.Prelude.{
  ℕ, zero, suc, ◌+◌, ◌-◌, ◌≤◌, ◌<◌, String, ◌≡◌, refl, subst, sym, ap, ◌∙◌, Option, none, some,
  List, [], ◌∷◌, ◌++◌, ltb, length, length-append, append_assoc, append_nil, arith, Bool-cases, inl,
  inr, ◌⊎◌, if◌then◌else◌,
}
use yasin_core.Prelude.Int.{ℤ, pos, negsuc}
use yasin_core.Dict
use yasin_core.Events.{
  Event, Subscription, EventBus, Audience, remember, drop_first, publish, deliver, deliver_one,
  submit, execute_async_handler, drop, slice_from, last_events, named_events, get_history,
}

-- The history is the end of all events: all of them, or as many as the bus keeps.
pub record Keeps (events : List Event) (history : List Event) (size : ℕ) : Type 0 where
  pub dropped : List Event
  pub split : events ≡ dropped ++ history
  pub bounded : length history ≤ size
  pub full : (dropped ≡ []) ⊎ (length history ≡ size)

Keeps-trim :
    (events dropped history : List Event) (size : ℕ)
    → events ≡ dropped ++ history
    → size < length history
    → length history ≤ suc size
    → Keeps events (drop_first history) size
Keeps-trim events dropped [] size e l m = absurd (omega (arith, l))
Keeps-trim events dropped (x ∷ xs) size e l m = record {
  dropped = dropped ++ x ∷ [];
  split = e ∙ sym (append_assoc dropped (x ∷ []) xs);
  bounded = omega (arith, l, m);
  full = inr (omega (arith, l, m));
}

remember-Keeps :
    (events : List Event) (event : Event) (bus : EventBus)
    → Keeps events bus.history bus.max_history_size
    → Keeps (events ++ event ∷ []) (remember event bus).history bus.max_history_size
unfolding remember
remember-Keeps events event bus k =
    let longer : events ++ event ∷ [] ≡ k.dropped ++ (bus.history ++ event ∷ []) =
      ap (λ l. l ++ event ∷ []) k.split ∙ append_assoc k.dropped bus.history (event ∷ []) in
    let size : length (bus.history ++ event ∷ []) ≡ length bus.history + 1 =
      length-append bus.history (event ∷ []) in
    elim (Bool-cases (ltb bus.max_history_size (length (bus.history ++ event ∷ [])))) [
      | inl e ↦ rw e (
          Keeps-trim (events ++ event ∷ []) k.dropped (bus.history ++ event ∷ [])
            bus.max_history_size longer (ground (arith, e)) (omega (arith, size, k.bounded)))
      | inr e ↦ rw e (record {
        dropped = k.dropped;
        split = longer;
        bounded = ground (arith, e);
        full = elim k.full [ inl p ↦ inl p | inr q ↦ absurd (ground (arith, e, size, q)) ];
      })
    ]

submit-history :
    (handler : ℕ) (event : Event) (bus : EventBus)
    → ((submit handler event bus).history ≡ bus.history)
      × ((submit handler event bus).max_history_size ≡ bus.max_history_size)
unfolding submit
submit-history handler event bus = (ground arith, ground arith)

module _ (audience : Audience) where
  open audience use {World}

  deliver_one-history :
      (sub : Subscription) (event : Event) (bus : EventBus) (world : World)
      → let bus' = (deliver_one audience sub event (bus, world)).0 in
        (bus'.history ≡ bus.history) × (bus'.max_history_size ≡ bus.max_history_size)
  unfolding deliver_one execute_async_handler
  deliver_one-history sub event bus world = (
    ground (arith, submit-history sub.handler event bus),
    ground (arith, submit-history sub.handler event bus),
  )

  deliver-history :
      (subs : List Subscription) (event : Event) (bus : EventBus) (world : World)
      → let bus' = (deliver audience subs event (bus, world)).0 in
        (bus'.history ≡ bus.history) × (bus'.max_history_size ≡ bus.max_history_size)
  unfolding deliver
  deliver-history [] event bus world = (refl, refl)
  deliver-history (sub ∷ subs) event bus world =
      let (bus', world') = deliver_one audience sub event (bus, world) in
      let (h, m) = deliver_one-history sub event bus world in
      let (h', m') = deliver-history subs event bus' world' in (h' ∙ h, m' ∙ m)

  -- One event after the other.
  unfoldable pub publish_all : List Event → EventBus × World → EventBus × World
  unfolding publish
  publish_all [] state = state
  publish_all (event ∷ events) state = publish_all events (publish audience event state)

  publish-Keeps :
      (events : List Event) (event : Event) (bus : EventBus) (world : World)
      → Keeps events bus.history bus.max_history_size
      → let bus' = (publish audience event (bus, world)).0 in
        Keeps (events ++ event ∷ []) bus'.history bus'.max_history_size
  unfolding publish remember
  publish-Keeps events event bus world k =
      let subs =
        Dict.get_or bus.subscriptions event.name [] ++ Dict.get_or bus.subscriptions "*" [] in
      let (h, m) = deliver-history subs event (remember event bus) world in
      rw (h, m) (remember-Keeps events event bus k)

  -- After any number of publications the history is the end of the list of all published events: all
  -- of them, or the last ones, as many as the bus keeps, whatever the handlers and filters do.
  pub publish_all-Keeps :
      (before events : List Event) (bus : EventBus) (world : World)
      → Keeps before bus.history bus.max_history_size
      → let bus' = (publish_all events (bus, world)).0 in
        Keeps (before ++ events) bus'.history bus'.max_history_size
  unfolding publish_all
  publish_all-Keeps before [] bus world k = rw (append_nil before) k
  publish_all-Keeps before (event ∷ events) bus world k =
      let (bus', world') = publish audience event (bus, world) in
      subst
        (λ l.
          Keeps l (publish_all events (bus', world')).0.history
            (publish_all events (bus', world')).0.max_history_size)
        (append_assoc before (event ∷ []) events)
        (publish_all-Keeps (before ++ event ∷ []) events bus' world'
          (publish-Keeps before event bus world k))

length-drop : (n : ℕ) (es : List Event) → length (drop n es) ≡ length es - n
unfolding drop
length-drop n [] = ground arith
length-drop zero (e ∷ es) = ground arith
length-drop (suc n) (e ∷ es) = omega (arith, length-drop n es)

-- An event list is what `drop` leaves away and what it leaves.
drop-splits : (n : ℕ) (es : List Event) → (dropped : List Event) × (es ≡ dropped ++ drop n es)
unfolding drop
drop-splits n [] = ([], refl)
drop-splits zero (e ∷ es) = ([], refl)
drop-splits (suc n) (e ∷ es) =
    let (dropped, split) = drop-splits n es in (e ∷ dropped, ap (λ l. e ∷ l) split)

-- How many of `n` events a limit selects: as many as a positive limit says if there are so many, all
-- for 0, and for a negative limit all but so many.
abbrev pub selected : ℤ → ℕ → ℕ
selected (pos zero) n = n
selected (pos (suc k)) n = if ltb n (suc k) then n else suc k
selected (negsuc k) n = n - suc k

last_events-length :
    (limit : ℤ) (events : List Event)
    → length (last_events (some limit) events) ≡ selected limit (length events)
unfolding last_events slice_from
last_events-length (pos zero) events = omega (arith, length-drop 0 events)
last_events-length (pos (suc k)) events = ground (arith, length-drop (length events - suc k) events)
last_events-length (negsuc k) events = length-drop (suc k) events

last_events-splits :
    (limit : ℤ) (events : List Event)
    → (dropped : List Event) × (events ≡ dropped ++ last_events (some limit) events)
unfolding last_events slice_from
last_events-splits (pos zero) events = drop-splits 0 events
last_events-splits (pos (suc k)) events = drop-splits (length events - suc k) events
last_events-splits (negsuc k) events = drop-splits (suc k) events

-- `get_history` with a limit returns the last of the events that it returns without one, in the same
-- order: with a positive limit exactly that many, or all if there are fewer; with the limit 0 all of
-- them; and with a negative limit -n all but the first n.
pub get_history-limit :
    (limit : ℤ) (event_name : Option String) (bus : EventBus)
    → let all = get_history none event_name bus in
      let events = get_history (some limit) event_name bus in
      ((dropped : List Event) × (all ≡ dropped ++ events))
      × (length events ≡ selected limit (length all))
unfolding get_history last_events
get_history-limit limit event_name bus =
    let all = named_events event_name bus.history in
    (last_events-splits limit all, last_events-length limit all)
