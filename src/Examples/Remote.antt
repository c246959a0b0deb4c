-- ===== src/Examples/Remote.antt =====
-- One directory and one file, sent from one file system in memory to another.
use file_sync_tool.Base.{
  ℕ, ◌≡◌, ◌≢◌, ◌<◌, refl, sym, ap, ◌∙◌, subst, Bool, true, false, none, some, List, [], ◌∷◌, ◌++◌,
  arith, length, length-append, append-nil, unwrap, All, Bool-cases, inl, inr, if◌then◌else◌,
}
use file_sync_tool.Base.Int.{pos}
use file_sync_tool.Base.Text.{Bytes, codes, bytes_eq, bytes_eq_iff}
use file_sync_tool.Action.{Result, ok}
use file_sync_tool.Sending.{accepts, interrupted}
use file_sync_tool.Socket.{Event}
use file_sync_tool.Socket.Laws.{content, content-push_back}
use file_sync_tool.Socket.{push_back}
use file_sync_tool.Disk.Memory.{Node, file, Files, memory, memory-IsLawful}
use file_sync_tool.FileUtil.{parent, prefixes}
use file_sync_tool.Metadata.{SyncTask}
use file_sync_tool.Progress.{progress_path}
use file_sync_tool.Client.{Sender, Step, send_all}
use file_sync_tool.Client.Stream.{
  Job, Ready, Apart, directory, file, stream, tasks_of, metadata_stream, sent-send_all, send_all-Up,
}
use file_sync_tool.Server.Tasks.RoundTrip.{AllFit, server_tasks, Reads-receive_task_metadata}
use file_sync_tool.Reads.{Reads}
use file_sync_tool.TcpClient.Laws.{Up}
use file_sync_tool.Server.Tasks.{receive_task_metadata}
use file_sync_tool.Server.Session.{Session, handle_client, close_client, send_ack}
use file_sync_tool.Server.Session.Whole.{Acceptable, Synced, handle_client-Synced}
use file_sync_tool.Remote.{ClientReady, ServerReady, Delivered, remote_sync}
use file_sync_tool.Examples.Serving.{IsFile, IsOther, IsClear, memory-Serves}

abbrev a_file : Bytes
a_file = codes "hello"

abbrev source_files : Files
source_files p =
    if bytes_eq (codes "s/f") p
    then some (Node.file a_file 420)
    else if bytes_eq (codes "s/d") p
    then some (Node.dir 493)
    else none

abbrev dir_task : SyncTask
dir_task = record {
  src_path = codes "s/d";
  dest_path = codes "/d";
  is_directory = true;
  mode = 16877;
}

abbrev file_task : SyncTask
file_task = record {
  src_path = codes "s/f";
  dest_path = codes "/f";
  is_directory = false;
  mode = 33188;
}

abbrev jobs : List Job
jobs = (dir_task, []) ∷ ((file_task, a_file) ∷ [])

abbrev Short : Bytes → Type 0
Short p = length p < 14

short-Apart : Apart Short
unfolding progress_path
short-Apart dest p h = elim (Bool-cases (bytes_eq (progress_path dest) p)) [
  | inr other ↦ other
  | inl equal ↦
      let same : progress_path dest ≡ p = (bytes_eq_iff (progress_path dest) p).0 equal in
      absurd (omega (arith, ap length same, length-append dest (codes ".sync_progress")))
]

all_Ready : Ready memory memory-IsLawful Short short-Apart source_files false jobs
unfolding bytes_eq
all_Ready =
    ((omega arith, directory refl), ((omega arith, file a_file _ refl refl refl refl refl), tt))

abbrev sender : Sender memory
sender = record {
  disk = source_files;
  link = record {
    open_socket = true;
    connected = true;
    sent = [];
    sends = accepts 1 ∷ [];
    input = [];
  };
}

abbrev no_async : Bytes → Step memory Bool
no_async path s = (ok false, s)

sender-Ready : ClientReady memory memory-IsLawful false jobs sender
sender-Ready = record {
  Source = Short;
  apart = short-Apart;
  ready = all_Ready;
  up = (refl, tt);
  nothing_sent = refl;
}

abbrev room : ℕ → Bool
room n = true

abbrev base : Bytes
base = codes "b"

abbrev session : Session memory
session = record {
  disk = λ p. none;
  input = push_back (stream jobs) [];
  writes = interrupted ∷ (accepts 2 ∷ []);
  sends = [];
  output = [];
  processed = 0;
  closed = false;
}

jobs_fit : AllFit room jobs
jobs_fit = (
  record {
    src = record { no_nul = ground arith; short = omega arith; room = refl };
    dest = record { no_nul = ground arith; short = omega arith; room = refl };
    mode = omega arith;
    size = omega arith;
  },
  (
    record {
      src = record { no_nul = ground arith; short = omega arith; room = refl };
      dest = record { no_nul = ground arith; short = omega arith; room = refl };
      mode = omega arith;
      size = omega arith;
    },
    tt,
  ),
)

jobs-Acceptable : Acceptable memory memory-IsLawful IsOther IsFile IsClear memory-Serves base jobs
unfolding bytes_eq prefixes parent
jobs-Acceptable = record {
  whole = ((λ _. refl), ((λ h. cc), tt));
  places = (
    ((λ _. refl), ((λ _. refl), tt)),
    (
      (
        refl,
        λ dir e.
            subst (λ d. All (λ p. p ≢ [] → IsOther p) (prefixes [] d)) (unwrap e) ((λ _. refl), tt),
      ),
      tt,
    ),
  );
  distinct = ((refl, tt), (tt, tt));
}

session-Ready : ServerReady memory memory-IsLawful base room jobs session
unfolding bytes_eq
session-Ready = record {
  Dir = IsOther;
  File = IsFile;
  Good = IsClear;
  serves = memory-Serves;
  fit = jobs_fit;
  countable = omega arith;
  acceptable = jobs-Acceptable;
  writable = tt;
  good = refl;
}

abbrev no_rpc : Session memory → Result Bool × Session memory
no_rpc w = (ok false, w)

abbrev deliver : Bytes → List Event
deliver bs = push_back bs []

deliver-all : (bs : Bytes) → content (deliver bs) ≡ bs
deliver-all bs = content-push_back bs [] ∙ append-nil bs

remote_sync_example :
    (t : Sender memory) × (send_all memory false false no_async (tasks_of jobs) sender ≡ (ok tt, t))
    × (w' : Session memory) × (handle_client memory base room no_rpc
          (record session { input = deliver t.link.sent })
        ≡ (ok true, w'))
    × Delivered memory base jobs session w'
remote_sync_example =
    remote_sync memory memory memory-IsLawful memory-IsLawful base room no_rpc false no_async
      deliver jobs sender session deliver-all sender-Ready session-Ready

handle_client-Synced_example :
    (w' : Session memory) × (handle_client memory base room no_rpc session
      ≡ (ok true, close_client memory (send_ack memory true w')))
    × Synced memory IsClear base jobs [] session w'
handle_client-Synced_example =
    handle_client-Synced memory memory-IsLawful IsOther IsFile IsClear memory-Serves base room
      no_rpc jobs [] session jobs_fit (omega arith) jobs-Acceptable
      (content-push_back (stream jobs) []) tt refl

send_all-Up_example :
    (t : Sender memory) × (send_all memory false false no_async (tasks_of jobs) sender ≡ (ok tt, t))
    × Up t.link
    × (t.link.sent ≡ [] ++ stream jobs)
send_all-Up_example =
    send_all-Up memory memory-IsLawful Short short-Apart source_files false no_async jobs sender
      all_Ready refl (refl, tt)

abbrev after : Sender memory
after = (send_all memory false false no_async (tasks_of jobs) sender).1

abbrev EndsWell : Type 0
EndsWell =
    (send_all memory false false no_async (tasks_of jobs) sender ≡ (ok tt, after))
    × (after.link.connected ≡ true)

ends_well : EndsWell
ends_well =
    let (t, run, up, _) =
      send_all-Up memory memory-IsLawful Short short-Apart source_files false no_async jobs sender
        all_Ready refl (refl, tt) in
    (run ∙ ap (λ r. (ok tt, r.1)) (sym run), ap (λ r. r.1.link.connected) run ∙ up.0)

sent-send_all_example : after.link.sent ≡ [] ++ stream jobs
sent-send_all_example =
    sent-send_all memory memory-IsLawful Short short-Apart source_files false no_async jobs sender
      after all_Ready refl ends_well.0 ends_well.1

Reads-receive_task_metadata_example :
    Reads (receive_task_metadata room (pos 2)) (metadata_stream jobs) (server_tasks jobs)
Reads-receive_task_metadata_example = Reads-receive_task_metadata room jobs jobs_fit
