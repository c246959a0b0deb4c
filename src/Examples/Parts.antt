-- ===== src/Examples/Parts.antt =====
-- The local copy, the thread pool and the RPC server at concrete inputs.
use file_sync_tool.Base.{
  List, ℕ, ◌≡◌, ◌↔◌, refl, ◌∙◌, Bool, true, false, Option, none, some, [], ◌∷◌, ◌++◌, arith,
  append-nil, All, if◌then◌else◌,
}
use file_sync_tool.Base.Text.{Bytes, codes, bytes_eq}
use file_sync_tool.Action.{ok}
use file_sync_tool.Sending.{WriteEvent, accepts}
use file_sync_tool.Socket.{push_back}
use file_sync_tool.Socket.Laws.{content-push_back}
use file_sync_tool.Disk.Memory.{Node, Files, put, memory, memory-IsLawful}
use file_sync_tool.Progress
use file_sync_tool.Local.{Local}
use file_sync_tool.Local.Transfer.{Transfers, transfer_file-Copied}
use file_sync_tool.ThreadPool
use file_sync_tool.ThreadPool.{
  Shared, Worker, Pool, new_pool, submit, Run, Step, worker_step, is_complete, IsGone, restarted,
}
use file_sync_tool.ThreadPool.Laws.{IsSound, AllDone, reachable-IsSound, complete-AllDone}
use file_sync_tool.Base.Int.{ℤ, pos}
use file_sync_tool.Metadata.{FileMetadata, need_sync}
use file_sync_tool.Metadata.Laws.{Same, need_sync_iff}
use file_sync_tool.Sending
use file_sync_tool.Space
use file_sync_tool.Space.{Volume}
use file_sync_tool.FileUtil.{parent}
use file_sync_tool.LargeFile.{transfer_large}
use file_sync_tool.LargeFile.Runs.{Reorders}
use file_sync_tool.LargeFile.Transfer.{Setting, transfer_large-whole, transfer_large-succeeds}
use file_sync_tool.Rpc.{Channel, Service, handle_rpc_client}
use file_sync_tool.Rpc.Connection.{Exchange, requests, answers, handle_rpc_client-Serves}
use file_sync_tool.Wire.{encode, of_word}
use file_sync_tool.Server.Session.{Session, handle_client}
use file_sync_tool.Modes.{rpc_on_session, handle_client-Serves}
use file_sync_tool.ThreadPool.Stuck.{Run-IsStuck}
use file_sync_tool.Rpc.Laws.{Fits}

abbrev files : Files
files p =
    if bytes_eq (codes "s") p
    then some (Node.file (codes "hello") 420)
    else if bytes_eq (codes "d") p
    then some (Node.file (codes "he") 420)
    else none

abbrev start : Local memory
start = record { disk = files; writes = accepts 1 ∷ [] }

transfer_file-Copied_example :
    Transfers memory memory-IsLawful
      (codes "s")
      (codes "d")
      2
      (codes "he" ++ codes "llo")
      start
      (put files (codes "d") (some (Node.file (codes "he") 420)))
unfolding bytes_eq file_sync_tool.Progress.progress_path
transfer_file-Copied_example =
    transfer_file-Copied memory memory-IsLawful (codes "s") (codes "d") 2 (codes "hello")
      (codes "he") start refl refl refl refl refl tt

-- One task through a pool of one worker.
abbrev one_run_end : Pool
one_run_end = (
  record { running = true; queue = []; active = 0; accepted = 7 ∷ []; finished = 7 ∷ [] },
  Worker.looking ∷ [],
)

one_run : Run (new_pool 1) one_run_end
unfolding new_pool submit worker_step
one_run =
    Run.then_
      (Run.then_
        (Run.then_ (Run.then_ (Run.here _) (Step.submits 7 _ _))
          (Step.works [] [] Worker.looking _ _ _ refl))
        (Step.works [] [] Worker.waiting _ _ _ refl))
      (Step.works [] [] (Worker.doing 7) _ _ _ refl)

reachable-IsSound_example : IsSound one_run_end
reachable-IsSound_example = reachable-IsSound 1 one_run_end one_run

complete-AllDone_example : (is_complete one_run_end.0 ≡ true) ↔ AllDone one_run_end
complete-AllDone_example = complete-AllDone 1 one_run_end one_run

-- A pool that was stopped before its worker took the task.
abbrev stopped : Pool
stopped = (
  record { running = false; queue = 7 ∷ []; active = 1; accepted = 7 ∷ []; finished = [] },
  Worker.gone ∷ [],
)

one_more : Run stopped (submit 8 stopped.0, stopped.1)
one_more = Run.then_ (Run.here _) (Step.submits 8 _ _)

Run-IsStuck_example : (is_complete (submit 8 stopped.0) ≡ false) × All IsGone (Worker.gone ∷ [])
unfolding one_more
Run-IsStuck_example =
    Run-IsStuck stopped (submit 8 stopped.0, stopped.1) one_more (tt, tt) (tt, tt) (omega arith)

-- setThreadCount then gives it two workers.
resized : Step stopped (restarted 2 stopped.0)
resized = Step.resizes 2 _ _ refl (tt, tt) refl

-- A service that answers a message with itself.
abbrev echo : Service
echo = record {
  Request = Bytes;
  Response = Bytes;
  parse = some;
  serialize = some;
  type_of = λ r. 1;
  respond = λ r. r;
}

abbrev room : ℕ → Bool
room n = true

abbrev ping : Exchange echo room
ping = record { type = 1; payload = codes "ping"; request = codes "ping"; answer = codes "ping" }

ping-Fits : Fits echo room (codes "ping") (codes "ping")
ping-Fits = record { not_empty = omega arith; short = omega arith; room = refl; parses = refl }

abbrev channel : Channel
channel = record {
  input = push_back (requests echo room (ping ∷ [])) [];
  sends = accepts 3 ∷ [];
  output = [];
  closed = false;
}

handle_rpc_client-Serves_example :
    (c' : Channel) × (handle_rpc_client echo room channel ≡ (ok false, c'))
    × (c'.output ≡ [] ++ answers echo room (ping ∷ []))
    × (c'.closed ≡ true)
handle_rpc_client-Serves_example =
    handle_rpc_client-Serves echo room (ping ∷ []) channel
      (record { fits = ping-Fits; answers = refl; short = omega arith }, tt)
      (content-push_back (requests echo room (ping ∷ [])) []
        ∙ append-nil (requests echo room (ping ∷ [])))
      tt

-- The same request in a connection to the server, after the mode byte.
abbrev rpc_session : Session memory
rpc_session = record {
  disk = files;
  input = push_back (encode 1 1 ++ requests echo room (ping ∷ [])) [];
  writes = [];
  sends = accepts 3 ∷ [];
  output = [];
  processed = 0;
  closed = false;
}

handle_client-Serves_example :
    (w' : Session memory) × (handle_client memory
        (codes "base/")
        room
        (rpc_on_session memory echo room)
        rpc_session
      ≡ (ok false, w'))
    × (w'.output ≡ [] ++ answers echo room (ping ∷ []))
    × (w'.closed ≡ true)
    × (w'.disk ≡ files)
    × (w'.processed ≡ 0)
handle_client-Serves_example =
    handle_client-Serves memory echo room (codes "base/") (ping ∷ []) rpc_session
      (record { fits = ping-Fits; answers = refl; short = omega arith }, tt)
      (content-push_back (encode 1 1 ++ requests echo room (ping ∷ [])) []
        ∙ append-nil (encode 1 1 ++ requests echo room (ping ∷ [])))
      tt

-- It gets there by one submission, a stop, and the worker's look at the flag.
stopped_reachable : Run (new_pool 1) stopped
unfolding new_pool submit worker_step file_sync_tool.ThreadPool.stop
stopped_reachable =
    Run.then_ (Run.then_ (Run.then_ (Run.here _) (Step.submits 7 _ _)) (Step.stops _ _))
      (Step.works [] [] Worker.looking _ _ _ refl)

abbrev entry : ℤ → FileMetadata
entry t = record { path = []; size = 5; mtime = t; mode = 33188; md5 = [] }

need_sync_iff_example :
    (need_sync (entry (pos 1)) (entry (pos 2)) ≡ false) ↔ Same (entry (pos 1)) (entry (pos 2))
need_sync_iff_example = need_sync_iff (entry (pos 1)) (entry (pos 2))

in_order : Reorders (codes "hello") (λ cs. cs)
in_order = record { keeps = λ c there. there; adds = λ c there. there }

abbrev some_calls : List WriteEvent
some_calls = accepts 2 ∷ (file_sync_tool.Sending.interrupted ∷ (accepts 1 ∷ []))

-- A copy of "s" to "d" in the memory, whose content the calls move piecemeal.
abbrev big_room : Bytes → Option Volume
big_room dir = some (record { available = 10; fragment_size = 4096; block_size = 4096 })

abbrev large_copy : Bool × Local memory
large_copy =
    transfer_large memory big_room true (λ cs. cs) some_calls some_calls (codes "s") (codes "d")
      start

start-Setting : Setting memory (codes "s") (codes "d") (codes "hello") start
unfolding bytes_eq file_sync_tool.Progress.progress_path
start-Setting = record {
  st = record { size = 5; mtime = pos 0; mode = 33188 };
  stated = refl;
  readable = refl;
  whole = refl;
  small = omega arith;
  apart = refl;
  no_progress = refl;
}

transfer_large-succeeds_example :
    (large_copy.0 ≡ true) × (memory.content large_copy.1.disk (codes "d") ≡ some (codes "hello"))
unfolding bytes_eq file_sync_tool.Space.check_dest_space of_word parent
transfer_large-succeeds_example =
    transfer_large-succeeds memory memory-IsLawful big_room (λ cs. cs) some_calls some_calls
      (codes "s") (codes "d") (codes "hello") start
      (put files (codes "d") (some (Node.file [] 420))) start-Setting in_order refl refl tt tt

transfer_large-whole_example : memory.content large_copy.1.disk (codes "d") ≡ some (codes "hello")
transfer_large-whole_example =
    transfer_large-whole memory memory-IsLawful big_room true (λ cs. cs) some_calls some_calls
      (codes "s") (codes "d") (codes "hello") start start-Setting in_order
      transfer_large-succeeds_example.0
