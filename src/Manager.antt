-- ===== src/Manager.antt =====
-- SyncManager (src/core/SyncManager.cpp): init, syncLocal, syncRemote, resumeSync, processSyncTask,
-- stop and isSyncing. The operations of FileSync are arguments, `none` where they throw. Of the
-- tasks of a local run, each is one step on the files, in the order that `schedule` makes of them;
-- `kept` is what is left of their unsynchronised additions to completedTasks. No call of stop comes
-- in while a local run goes on.
use file_sync_tool.Base.{
  ℕ, zero, suc, ◌+◌, ◌*◌, Bool, true, false, Option, none, some, List, [], ◌∷◌, length,
  if◌then◌else◌,
}
use file_sync_tool.Metadata.{SyncTask}

-- The fields of the manager that change, and the state that FileSync works on.
pub record Manager (S : Type 0) : Type 0 where
  pub files : S
  pub syncing : Bool
  pub total : ℕ
  pub completed : ℕ
  pub pool_running : Bool
  pub io_running : Bool

module _ {S : Type 0} where
  -- SyncManager::init, after which the pool and the handler run
  unfoldable pub init : Manager S → Manager S
  init m = record m { pool_running = true; io_running = true }

  abbrev pub counted : Option Bool × S → Manager S → Manager S
  counted (none, s) m = record m { files = s }
  counted (some result, s) m = record m { files = s; completed = m.completed + 1 }

  abbrev pub begin : Manager S → Manager S
  begin m = record m { syncing = true; total = 0; completed = 0 }

  abbrev pub ended : Manager S → Manager S
  ended m = record m { syncing = false }

  module _ (execute : SyncTask → S → Option Bool × S) where
    -- SyncManager::processSyncTask. The result of the task is not read; an exception is caught.
    unfoldable pub process_sync_task : SyncTask → Manager S → Manager S
    process_sync_task task m = counted (execute task m.files) m

    unfoldable pub run_tasks : List SyncTask → Manager S → Manager S
    unfolding process_sync_task
    run_tasks [] m = m
    run_tasks (task ∷ rest) m = run_tasks rest (process_sync_task task m)

    -- completedTasks after the workers have added to it without a lock, so that additions may be
    -- lost.
    abbrev pub raced : (ℕ → ℕ) → Manager S → Manager S
    raced kept m = record m { completed = kept m.completed }

    -- The tasks are submitted and waited for. Workers that have returned take none of them, and the
    -- wait then never ends.
    abbrev pub run_submitted :
        (List SyncTask → List SyncTask)
        → (ℕ → ℕ)
        → List SyncTask
        → Manager S
        → Option (Bool × Manager S)
    run_submitted schedule kept [] m = some (true, ended m)
    run_submitted schedule kept (task ∷ rest) m =
        if m.pool_running
        then some (true, ended (raced kept (run_tasks (schedule (task ∷ rest)) m)))
        else none

    abbrev pub after_detect :
        (List SyncTask → List SyncTask)
        → (ℕ → ℕ)
        → Option (List SyncTask)
        → Manager S
        → Option (Bool × Manager S)
    after_detect schedule kept none m = some (false, ended m)
    after_detect schedule kept (some tasks) m =
        run_submitted schedule kept tasks (record m { total = length tasks })

    -- SyncManager::syncLocal, `none` where it does not return.
    unfoldable pub sync_local :
        (S → Option (List SyncTask))
        → (List SyncTask → List SyncTask)
        → (ℕ → ℕ)
        → Manager S
        → Option (Bool × Manager S)
    unfolding run_tasks
    sync_local detect schedule kept m = after_detect schedule kept (detect m.files) (begin m)

  abbrev pub outcome : Option Bool × S → Manager S → Bool × Manager S
  outcome (none, s) m = (false, record m { files = s })
  outcome (some result, s) m = (result, record m { files = s })

  -- SyncManager::syncRemote
  unfoldable pub sync_remote : (S → Option Bool × S) → Manager S → Bool × Manager S
  sync_remote run m = let (result, m') = outcome (run m.files) (begin m) in (result, ended m')

  -- SyncManager::resumeSync
  unfoldable pub resume_sync : (S → Option Bool × S) → Manager S → Bool × Manager S
  resume_sync run m = outcome (run m.files) m

  -- SyncManager::stop
  unfoldable pub stop : Manager S → Manager S
  stop m = record m { syncing = false; pool_running = false; io_running = false }

  -- Whether getSyncProgress has something to divide by, and 100 * completedTasks before the
  -- division.
  unfoldable pub sync_progress : Manager S → Option (ℕ × ℕ)
  sync_progress m = elim m.total [ zero ↦ none | suc n ↦ some (m.completed * 100, suc n) ]
