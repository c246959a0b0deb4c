-- ===== src/ThreadPool.antt =====
-- ThreadPool (src/thread/ThreadPool.cpp, include/ThreadPool.h). A task is known by a number. A step
-- is what one thread does between two points where another can come in: a caller in submit, stop or
-- setThreadCount, or a worker at one of the places of workerThread.
pub mod Laws
pub mod Stuck
use file_sync_tool.Base.{
  ℕ, zero, suc, ◌+◌, ◌-◌, ◌≡◌, Bool, true, false, Option, none, some, List, [], ◌∷◌, ◌++◌,
  replicate, length, ◌==◌, All, if◌then◌else◌,
}

-- What the threads share. `accepted` and `finished` are the history of submit and of the tasks that
-- came back, which the program does not keep.
pub record Shared : Type 0 where
  pub running : Bool
  pub queue : List ℕ
  pub active : ℕ
  pub accepted : List ℕ
  pub finished : List ℕ

-- Where a worker stands: at `while (running)`, in the wait, in the task, or returned.
pub data Worker : Type 0 where
  looking : Worker
  waiting : Worker
  doing : ℕ → Worker
  gone : Worker

abbrev pub Pool : Type 0
Pool = Shared × List Worker

-- ThreadPool::ThreadPool
unfoldable pub new_pool : ℕ → Pool
new_pool count = (
  record { running = true; queue = []; active = 0; accepted = []; finished = [] },
  replicate count looking,
)

-- ThreadPool::submit
unfoldable pub submit : ℕ → Shared → Shared
submit task s = record s {
  queue = s.queue ++ task ∷ [];
  active = s.active + 1;
  accepted = s.accepted ++ task ∷ [];
}

-- ThreadPool::stop, up to the joins: it returns where every worker is gone.
unfoldable pub stop : Shared → Shared
stop s = record s { running = false }

-- The wait ends where the pool is stopped or the queue is not empty; the queue comes first.
abbrev pub take_task : List ℕ → Shared → Option (Worker × Shared)
take_task [] s = if s.running then none else some (gone, s)
take_task (task ∷ rest) s = some (doing task, record s { queue = rest })

-- One step of ThreadPool::workerThread, `none` where it has to wait. An exception of a task is
-- caught, so a task always comes back to `activeTasks--`.
unfoldable pub worker_step : Worker → Shared → Option (Worker × Shared)
worker_step looking s = some (if s.running then waiting else gone, s)
worker_step waiting s = take_task s.queue s
worker_step (doing task) s =
    some (looking, record s { active = s.active - 1; finished = s.finished ++ task ∷ [] })
worker_step gone s = none

-- ThreadPool::waitForCompletion returns here.
abbrev pub is_complete : Shared → Bool
is_complete s = s.active == 0

-- ThreadPool::setThreadCount from the joins of its stop on, where `stopped` is what the threads
-- then share: new workers, and the queue and the count as they are.
abbrev pub restarted : ℕ → Shared → Pool
restarted count stopped = (record stopped { running = true }, replicate count looking)

-- A worker that has returned, which a join waits for.
abbrev pub IsGone : Worker → Type 0
IsGone looking = ⊥
IsGone waiting = ⊥
IsGone (doing t) = ⊥
IsGone gone = Unit {0}

-- The steps of a pool, in any order. setThreadCount for another count is two steps: its stop, and,
-- where every worker has returned, the start of the new ones. For the count that the pool has it
-- returns at once.
pub data Step : Pool → Pool → Type 0 where
  submits : (task : ℕ) (s : Shared) (ws : List Worker) → Step (s, ws) (submit task s, ws)
  stops : (s : Shared) (ws : List Worker) → Step (s, ws) (stop s, ws)
  resizes :
      (count : ℕ) (s : Shared) (ws : List Worker)
      → (count == length ws) ≡ false
      → All IsGone ws
      → s.running ≡ false
      → Step (s, ws) (restarted count s)
  works :
      (before after : List Worker) (w w' : Worker) (s s' : Shared)
      → worker_step w s ≡ some (w', s')
      → Step (s, before ++ w ∷ after) (s', before ++ w' ∷ after)

pub data Run : Pool → Pool → Type 0 where
  here : (p : Pool) → Run p p
  then_ : {p q r : Pool} → Run p q → Step q r → Run p r
