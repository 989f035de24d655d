-- ===== src/Context/Tests.antt =====
-- An engine with a session that has expired and a request below it.
use yasin_core.Prelude.{◌≡◌, ◌==◌, refl, ap, String, none, some, [], ◌∷◌, true}
use yasin_core.Dict
use yasin_core.Execution.{text}
use yasin_core.Context.{RuntimeContext}
use yasin_core.Context.Engine.{ContextEngine, serialize_all, load_all, prune}
use yasin_core.Context.Restore.{IsRestorable, load_all-restores}
use yasin_core.Context.Expiry.{unless_passed, prune-get}

abbrev session : RuntimeContext
session = record {
  id = "session";
  parent_id = none;
  metadata = [];
  entries = ("user", text "ada") ∷ [];
  active = true;
  ttl = some 5;
  tags = "web" ∷ [];
  created_at = 10;
  updated_at = 12;
  expires_at = some 15;
}

abbrev request : RuntimeContext
request = record session {
  id = "request";
  parent_id = some "session";
  ttl = none;
  expires_at = none;
}

abbrev engine : ContextEngine
engine = record {
  contexts = ("session", session) ∷ ("request", request) ∷ [];
  released = [];
  published = [];
}

abbrev empty_engine : ContextEngine
empty_engine = record { contexts = []; released = []; published = [] }

session-IsRestorable : IsRestorable session
session-IsRestorable = record {
  id_given = λ e. absurd (cc (ap (λ (t : String). t == "") e));
  expiry_given = refl;
}

request-IsRestorable : IsRestorable request
request-IsRestorable = record {
  id_given = λ e. absurd (cc (ap (λ (t : String). t == "") e));
  expiry_given = refl;
}

load_all-restores_example :
    Dict.get
      (load_all 20 (λ cid. cid) (serialize_all engine.contexts) empty_engine).contexts
      "request"
    ≡ Dict.get engine.contexts "request"
unfolding Dict.has
load_all-restores_example =
    load_all-restores 20 (λ cid. cid) engine empty_engine "request"
      (refl, session-IsRestorable, (refl, request-IsRestorable, tt)) refl

prune-get_example :
    Dict.get (prune 15 engine).contexts "session"
    ≡ unless_passed 15 (Dict.get engine.contexts "session")
unfolding Dict.has
prune-get_example = prune-get 15 engine "session" (refl, refl, (refl, refl, tt))
