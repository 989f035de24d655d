-- ===== src/Migration.antt =====
-- `SchemaMigrator` of yasin_core/compatibility/migration.py. A callback's `none` is an exception. The
-- `while` loop of the search runs on fuel.
pub mod Chains
pub mod Rounds
mod Tests
use yasin_core.Prelude.{
  ℕ, zero, suc, String, Bool, true, false, not, ◌&&◌, Option, none, some, List, [], ◌∷◌, ◌++◌,
  reverse, if◌then◌else◌, ◌==◌, length,
}
use yasin_core.Prelude.Counting.{elem}
use yasin_core.Dict.{Dict}
use yasin_core.Execution.{Value}

pub record Migration : Type 0 where
  pub from_version : String
  pub to_version : String
  pub callback : Dict Value → Option (Dict Value)

pub data MigrationError : Type 0 where
  no_path : String → String → MigrationError
  failed_step : String → String → MigrationError
  out_of_fuel : MigrationError

pub data Outcome (A : Type 0) : Type 0 where
  found : A → Outcome A
  error : MigrationError → Outcome A

abbrev pub is_jump : String → String → Migration → Bool
is_jump from to m = m.from_version == from && m.to_version == to

-- self._migrations[(from_version, to_version)] = callback
unfoldable pub register_migration : Migration → List Migration → List Migration
register_migration new [] = new ∷ []
register_migration new (m ∷ ms) =
    let rest = register_migration new ms in
    if is_jump new.from_version new.to_version m then new ∷ ms else m ∷ rest

-- graph.get(node, [])
unfoldable pub neighbors : List Migration → String → List String
neighbors [] node = []
neighbors (m ∷ ms) node =
    let rest = neighbors ms node in if m.from_version == node then m.to_version ∷ rest else rest

-- A path with its last version apart, the others from the last to the first.
pub record VersionPath : Type 0 where
  pub last : String
  pub before : List String

-- The paths to the neighbors that were not visited, appended to the queue, and the visited versions.
unfoldable pub extend :
    VersionPath → List String → List VersionPath → List String → List VersionPath × List String
unfolding elem
extend path [] queue visited = (queue, visited)
extend path (n ∷ ns) queue visited =
    let seen = elem n visited in
    extend path ns
      (if seen then queue else queue ++ record { last = n; before = path.last ∷ path.before } ∷ [])
      (if seen then visited else n ∷ visited)

-- The jumps of a path, from the first one on.
abbrev pub jumps : String → List String → List (String × String) → List (String × String)
jumps last [] rest = rest
jumps last (previous ∷ before) rest = jumps previous before ((previous, last) ∷ rest)

unfoldable pub search_paths :
    ℕ
    → List Migration
    → String
    → String
    → List VersionPath
    → List String
    → Outcome (List (String × String))
unfolding neighbors extend
search_paths zero ms start end queue visited = error out_of_fuel
search_paths (suc fuel) ms start end [] visited = error (no_path start end)
search_paths (suc fuel) ms start end (path ∷ queue) visited =
    let (queue', visited') = extend path (neighbors ms path.last) queue visited in
    let rest = search_paths fuel ms start end queue' visited' in
    if path.last == end then found (jumps path.last path.before []) else rest

-- _find_migration_path
unfoldable pub find_migration_path :
    List Migration → String → String → Outcome (List (String × String))
unfolding search_paths
find_migration_path ms start end =
    let searched =
      search_paths (suc (suc (length ms))) ms start end (record { last = start; before = [] } ∷ [])
        (start ∷ []) in
    if start == end then found [] else searched

-- self._migrations[(from, to)]
unfoldable pub callback_of : List Migration → String → String → Dict Value → Option (Dict Value)
callback_of [] from to d = none
callback_of (m ∷ ms) from to d =
    if is_jump from to m then m.callback d else callback_of ms from to d

abbrev pub or_failed :
    String × String
    → Option (Dict Value)
    → (Dict Value → Outcome (Dict Value))
    → Outcome (Dict Value)
or_failed (from, to) none go = error (failed_step from to)
or_failed (from, to) (some d) go = go d

unfoldable pub apply_jumps :
    List Migration → List (String × String) → Dict Value → Outcome (Dict Value)
unfolding callback_of
apply_jumps ms [] d = found d
apply_jumps ms ((from, to) ∷ rest) d =
    or_failed (from, to) (callback_of ms from to d) (apply_jumps ms rest)

abbrev pub along :
    List Migration → Outcome (List (String × String)) → Dict Value → Outcome (Dict Value)
along ms (error e) d = error e
along ms (found path) d = apply_jumps ms path d

-- SchemaMigrator.migrate
unfoldable pub migrate : List Migration → Dict Value → String → String → Outcome (Dict Value)
unfolding find_migration_path apply_jumps
migrate ms d current target =
    if current == target then found d else along ms (find_migration_path ms current target) d
