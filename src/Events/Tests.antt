-- ===== src/Events/Tests.antt =====
-- A bus that keeps two events; handler 1 raises, handler 2 is a coroutine, filter 0 raises.
use yasin_core.Prelude.{
  ℕ, zero, suc, String, ◌≡◌, refl, arith, inl, false, Option, none, some, [], ◌∷◌, ◌++◌, eqb,
  length, select, List,
}
use yasin_core.Prelude.Int.{negsuc}
use yasin_core.Dict
use yasin_core.Events.{Event, EventBus, Audience, make_bus, subscribe, publish, get_history}
use yasin_core.Events.Delivery.{run_each, is_direct, is_handed_on, tickets, publish-delivers}
use yasin_core.Events.History.{Keeps, publish_all, publish_all-Keeps, selected, get_history-limit}

abbrev raising : ℕ → Option String
raising (suc zero) = some "boom"
raising h = none

-- The world counts the calls.
abbrev demo : Audience
demo = record {
  World = ℕ;
  filter = λ f event. none;
  handle = λ h event w. (raising h, suc w);
  is_coroutine = λ h. eqb h 2;
  loop_is_running = false;
}

abbrev started : Event
started = record { name = "task_started"; event_id = 7 }

abbrev small_bus : EventBus
small_bus = make_bus 2

abbrev one_listener : EventBus
one_listener = subscribe "task_started" 1 none false small_bus

abbrev listening : EventBus
listening =
    subscribe "*" 3 none false (
      subscribe "task_started" 4 (some 0) false
        (subscribe "task_started" 2 none false one_listener))

open_bus : listening.is_shutdown ≡ false
unfolding subscribe make_bus Dict.get_or Dict.put
open_bus = refl

publish-delivers_example :
    let (bus', world') = publish demo started (listening, 0) in
    let subs =
      Dict.get_or listening.subscriptions started.name []
      ++ Dict.get_or listening.subscriptions "*" [] in
    (world' ≡ run_each demo started (select (is_direct demo started) subs) 0)
    × (bus'.submitted
        ≡ listening.submitted ++ tickets demo started (select (is_handed_on demo started) subs))
publish-delivers_example = publish-delivers demo started listening 0 open_bus

fresh-Keeps : Keeps [] small_bus.history small_bus.max_history_size
unfolding make_bus
fresh-Keeps = record { dropped = []; split = refl; bounded = omega arith; full = inl refl }

publish_all-Keeps_example :
    let bus' = (publish_all demo (started ∷ started ∷ started ∷ []) (small_bus, 0)).0 in
    Keeps (started ∷ started ∷ started ∷ []) bus'.history bus'.max_history_size
publish_all-Keeps_example =
    publish_all-Keeps demo [] (started ∷ started ∷ started ∷ []) small_bus 0 fresh-Keeps

-- A limit of -1 leaves the first event away.
abbrev filled : EventBus
filled = (publish_all demo (started ∷ started ∷ started ∷ []) (small_bus, 0)).0

get_history-limit_example :
    let all = get_history none none filled in
    let events = get_history (some (negsuc 0)) none filled in
    ((dropped : List Event) × (all ≡ dropped ++ events))
    × (length events ≡ selected (negsuc 0) (length all))
get_history-limit_example = get_history-limit (negsuc 0) none filled
