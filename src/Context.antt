-- ===== src/Context.antt =====
-- yasin_core/context/engine.py and the data of yasin_core/context/manager.py: contexts with a parent, an expiry and
-- tags. A time is a number of clock ticks in place of its ISO text, and one call reads the clock once. The
-- engine holds the context objects; a lookup of a value in a parent runs on fuel, and without fuel it is a
-- RecursionError.
pub mod Engine
pub mod Restore
pub mod Expiry
mod Tests
use yasin_core.Prelude.{
  ℕ, zero, suc, ◌+◌, String, Bool, true, false, not, ◌&&◌, Option, none, some, List, [], ◌∷◌, ◌++◌,
  if◌then◌else◌, leb, ◌==◌,
}
use yasin_core.Prelude.Counting.{elem}
use yasin_core.Dict
use yasin_core.Dict.{Dict}
use yasin_core.Execution.{Value}

pub record RuntimeContext : Type 0 where
  pub id : String
  pub parent_id : Option String
  pub metadata : Dict Value
  pub entries : Dict Value
  pub active : Bool
  pub ttl : Option ℕ
  pub tags : List String
  pub created_at : ℕ
  pub updated_at : ℕ
  pub expires_at : Option ℕ

abbrev pub expiry : Option ℕ → Option ℕ → ℕ → Option ℕ
expiry (some t) ttl created = some t
expiry none (some s) created = some (created + s)
expiry none none created = none

abbrev pub or_now : Option ℕ → ℕ → ℕ
or_now none now = now
or_now (some t) now = t

abbrev pub or_fresh : String → String → String
or_fresh s fresh_id = if s == "" then fresh_id else s

-- RuntimeContext.__init__, with the identifier that `uuid4` gives
unfoldable pub make_context :
    ℕ
    → String
    → String
    → Option String
    → Dict Value
    → Dict Value
    → Option ℕ
    → List String
    → Option ℕ
    → Option ℕ
    → Option ℕ
    → RuntimeContext
make_context now fresh_id id parent_id entries metadata ttl tags created_at updated_at expires_at =
    record {
      id = or_fresh id fresh_id;
      parent_id = parent_id;
      metadata = metadata;
      entries = entries;
      active = true;
      ttl = ttl;
      tags = tags;
      created_at = or_now created_at now;
      updated_at = or_now updated_at now;
      expires_at = expiry expires_at ttl (or_now created_at now);
    }

-- is_expired
abbrev pub time_passed : Option ℕ → ℕ → Bool
time_passed none now = false
time_passed (some t) now = leb t now

unfoldable pub is_expired : RuntimeContext → ℕ → Bool
is_expired ctx now = time_passed ctx.expires_at now

-- RuntimeContext.set, delete and clear, without the event
unfoldable pub set_entry : ℕ → String → Value → RuntimeContext → RuntimeContext
unfolding Dict.put
set_entry now key value ctx = record ctx {
  entries = Dict.put ctx.entries key value;
  updated_at = now;
}

unfoldable pub delete_entry : ℕ → String → RuntimeContext → RuntimeContext
unfolding Dict.remove
delete_entry now key ctx = record ctx { entries = Dict.remove ctx.entries key; updated_at = now }

unfoldable pub clear_entries : ℕ → RuntimeContext → RuntimeContext
clear_entries now ctx = record ctx { entries = []; updated_at = now }

-- What `serialize` returns.
pub record Payload : Type 0 where
  pub id : String
  pub parent_id : Option String
  pub metadata : Dict Value
  pub entries : Dict Value
  pub active : Bool
  pub ttl : Option ℕ
  pub tags : List String
  pub created_at : ℕ
  pub updated_at : ℕ
  pub expires_at : Option ℕ

unfoldable pub serialize : RuntimeContext → Payload
serialize ctx = record {
  id = ctx.id;
  parent_id = ctx.parent_id;
  metadata = ctx.metadata;
  entries = ctx.entries;
  active = ctx.active;
  ttl = ctx.ttl;
  tags = ctx.tags;
  created_at = ctx.created_at;
  updated_at = ctx.updated_at;
  expires_at = ctx.expires_at;
}

unfoldable pub deserialize : ℕ → String → Payload → RuntimeContext
unfolding make_context
deserialize now fresh_id p =
    let ctx =
      make_context now fresh_id p.id p.parent_id p.entries p.metadata p.ttl p.tags
        (some p.created_at) (some p.updated_at) p.expires_at in
    record ctx { active = p.active }
