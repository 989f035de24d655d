-- ===== src/Migration/Tests.antt =====
-- Three versions in a row.
use yasin_core.Prelude.{List, [], ◌∷◌, String, some}
use yasin_core.Migration.{Migration, find_migration_path}
use yasin_core.Migration.Chains.{Answers, find_migration_path-Answers}

abbrev jump : String → String → Migration
jump from to = record { from_version = from; to_version = to; callback = λ d. some d }

abbrev row : List Migration
row = jump "1.0" "2.0" ∷ jump "2.0" "1.0" ∷ jump "2.0" "3.0" ∷ []

find_migration_path-Answers_example : Answers row "1.0" "3.0" (find_migration_path row "1.0" "3.0")
find_migration_path-Answers_example = find_migration_path-Answers row "1.0" "3.0"
