-- ===== src/Execution/Engine/Retries.antt =====
-- How often a job is tried, and that the workers come to an end.
use yasin_core.Prelude.{ℕ, String, ◌≡◌, false, some, List, [], ◌∷◌, ◌++◌}
use yasin_core.Execution.{Job, queued, failed}
use yasin_core.Execution.Queue.{Item}
use yasin_core.Execution.System.{System}
use yasin_core.Execution.Workers.Reports.{raises}
use yasin_core.Execution.Engine.{work_next}

-- One turn of a worker after the other, in each of which the target raises the next message.
unfoldable pub fail_each : List String → ℕ → System → System
unfolding work_next
fail_each [] now s = s
fail_each (message ∷ rest) now s = fail_each rest now (work_next (raises message) now s)

-- A job that no one cancels.
abbrev pub IsLive : Job → Type 0
IsLive job = (job.cancelled ≡ false) × (job.status ≡ queued)

-- The job at `ref` is live, and its entry is the only one of the queue.
abbrev pub WaitsAlone : ℕ → System → Type 0
WaitsAlone ref s =
    IsLive (s.heap ref) × ((item : Item) × (s.queue.items ≡ item ∷ []) × (item.job ≡ ref))

abbrev Exhausted : ℕ → List String → String → ℕ → ℕ → System → Type 0
Exhausted ref messages last now retries s =
    let after = fail_each (messages ++ last ∷ []) now s in
    WaitsAlone ref (fail_each messages now s)
    × ((after.heap ref).status ≡ failed)
    × ((after.heap ref).error ≡ some last)
    × ((after.heap ref).retry_count ≡ retries)
    × (after.queue.items ≡ [])
