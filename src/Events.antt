-- ===== src/Events.antt =====
-- `EventBus` of yasin_core/events/event_bus.py. A handler is known by its identity; what a handler and
-- a filter do are parameters (`Audience`). A handler may change the world but not the bus. What is
-- handed to the executor or to an event loop is listed in `submitted`; an event loop runs elsewhere.
pub mod Subscriptions
pub mod Delivery
pub mod History
mod Tests
use yasin_core.Prelude.{
  ℕ, zero, suc, ◌+◌, ◌-◌, String, Bool, true, false, ◌&&◌, ◌||◌, not, Option, none, some, List, [],
  ◌∷◌, ◌++◌, if◌then◌else◌, ltb, eqb, length, select, ◌==◌,
}
use yasin_core.Prelude.Int.{ℤ, pos, negsuc, neg}
use yasin_core.Dict
use yasin_core.Dict.{Dict}

pub record Event : Type 0 where
  pub name : String
  pub event_id : ℕ

pub record Subscription : Type 0 where
  pub handler : ℕ
  pub filter_func : Option ℕ
  pub async_handle : Bool

-- A filter answers or raises (`none`); a handler ends or raises, and the world changes either way.
pub record Audience : Type 1 where
  pub World : Type 0
  pub filter : ℕ → Event → Option Bool
  pub handle : ℕ → Event → World → Option String × World
  pub is_coroutine : ℕ → Bool
  pub loop_is_running : Bool

pub record EventBus : Type 0 where
  pub subscriptions : Dict (List Subscription)
  pub listeners : Dict (List ℕ)
  pub history : List Event
  pub max_history_size : ℕ
  pub has_executor : Bool
  pub is_shutdown : Bool
  pub submitted : List (ℕ × Event)

unfoldable pub make_bus : ℕ → EventBus
make_bus size = record {
  subscriptions = [];
  listeners = [];
  history = [];
  max_history_size = size;
  has_executor = true;
  is_shutdown = false;
  submitted = [];
}

-- The loop over the subscriptions that are there.
unfoldable pub is_subscribed : ℕ → List Subscription → Bool
is_subscribed callback [] = false
is_subscribed callback (sub ∷ subs) = eqb sub.handler callback || is_subscribed callback subs

unfoldable pub subscribe : String → ℕ → Option ℕ → Bool → EventBus → EventBus
unfolding Dict.get_or Dict.put is_subscribed
subscribe event callback filter_func async_handle bus =
    let subs = Dict.get_or bus.subscriptions event [] in
    if is_subscribed callback subs then bus else record bus {
      subscriptions = Dict.put bus.subscriptions event (
          subs
          ++ (record { handler = callback; filter_func = filter_func; async_handle = async_handle })
            ∷ []);
      listeners =
          Dict.put bus.listeners event (Dict.get_or bus.listeners event [] ++ callback ∷ []);
    }

-- d[event] = items; if not d[event]: del d[event]
unfoldable pub put_or_delete {ℓ} : {A : Type ℓ} → Dict (List A) → String → List A → Dict (List A)
unfolding Dict.put Dict.remove
put_or_delete d event [] = Dict.remove d event
put_or_delete d event (x ∷ xs) = Dict.put d event (x ∷ xs)

-- The list of the event without what `keep` rejects.
unfoldable pub keep_in {ℓ} : {A : Type ℓ} → (A → Bool) → Dict (List A) → String → Dict (List A)
unfolding Dict.get put_or_delete
keep_in keep d event = elim (Dict.get d event) [
  | none ↦ d
  | some items ↦ put_or_delete d event (select keep items)
]

unfoldable pub unsubscribe : String → ℕ → EventBus → EventBus
unfolding keep_in
unsubscribe event callback bus = record bus {
  subscriptions = keep_in (λ sub. not (eqb sub.handler callback)) bus.subscriptions event;
  listeners = keep_in (λ cb. not (eqb cb callback)) bus.listeners event;
}

unfoldable pub clear : EventBus → EventBus
clear bus = record bus { subscriptions = []; listeners = [] }

unfoldable pub reset : EventBus → EventBus
reset bus = record bus { is_shutdown = false; has_executor = false }

unfoldable pub shutdown : EventBus → EventBus
shutdown bus =
    if bus.has_executor then record bus { is_shutdown = true; has_executor = false } else bus

-- pop(0)
abbrev pub drop_first : List Event → List Event
drop_first [] = []
drop_first (e ∷ es) = es

unfoldable pub remember : Event → EventBus → EventBus
remember event bus =
    let history = bus.history ++ event ∷ [] in
    record bus {
      history = if ltb bus.max_history_size (length history) then drop_first history else history;
    }

-- `_get_executor().submit(...)`; after a shutdown it raises, which is logged.
unfoldable pub submit : ℕ → Event → EventBus → EventBus
submit handler event bus =
    if bus.is_shutdown
    then bus
    else record bus { has_executor = true; submitted = bus.submitted ++ (handler, event) ∷ [] }

module _ (audience : Audience) where
  open audience use {World, filter, handle, is_coroutine, loop_is_running}

  -- No filter, or one that says yes; one that raises says no.
  unfoldable pub accepts : Subscription → Event → Bool
  accepts sub event = elim sub.filter_func [
    | none ↦ true
    | some f ↦ elim (filter f event) [ none ↦ false | some b ↦ b ]
  ]

  unfoldable pub execute_async_handler : ℕ → Event → EventBus → EventBus
  unfolding submit
  execute_async_handler handler event bus =
      if loop_is_running
      then record bus { submitted = bus.submitted ++ (handler, event) ∷ [] }
      else submit handler event bus

  unfoldable pub deliver_one : Subscription → Event → EventBus × World → EventBus × World
  unfolding accepts execute_async_handler submit
  deliver_one sub event (bus, world) =
      if not (accepts sub event)
      then (bus, world)
      else if is_coroutine sub.handler
      then (execute_async_handler sub.handler event bus, world)
      else if sub.async_handle
      then (submit sub.handler event bus, world)
      else (bus, (handle sub.handler event world).1)

  unfoldable pub deliver : List Subscription → Event → EventBus × World → EventBus × World
  unfolding deliver_one
  deliver [] event state = state
  deliver (sub ∷ subs) event state = deliver subs event (deliver_one sub event state)

  unfoldable pub publish : Event → EventBus × World → EventBus × World
  unfolding remember Dict.get_or deliver
  publish event (bus, world) =
      deliver (Dict.get_or bus.subscriptions event.name [] ++ Dict.get_or bus.subscriptions "*" [])
        event (remember event bus, world)

unfoldable pub drop : ℕ → List Event → List Event
drop n [] = []
drop zero (e ∷ es) = e ∷ es
drop (suc n) (e ∷ es) = drop n es

-- events[start:]; a negative start counts from the end
unfoldable pub slice_from : ℤ → List Event → List Event
unfolding drop
slice_from (pos n) events = drop n events
slice_from (negsuc n) events = drop (length events - suc n) events

-- events[-limit:], if there is a limit
unfoldable pub last_events : Option ℤ → List Event → List Event
unfolding slice_from
last_events none events = events
last_events (some limit) events = slice_from (neg limit) events

-- `get_history`; the event name `none` or "" selects all events.
unfoldable pub named_events : Option String → List Event → List Event
named_events none events = events
named_events (some name) events = if name == "" then events else select (λ e. e.name == name) events

unfoldable pub get_history : Option ℤ → Option String → EventBus → List Event
unfolding last_events named_events
get_history limit event_name bus = last_events limit (named_events event_name bus.history)

unfoldable pub clear_history : EventBus → EventBus
clear_history bus = record bus { history = [] }
