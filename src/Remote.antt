-- ===== src/Remote.antt =====
-- A remote synchronisation from end to end: FileSync::syncRemote on the client,
-- SyncServer::handleClient on the server, and a network that delivers the bytes in order, in any
-- pieces.
use file_sync_tool.Base.{
  ℕ, ◌+◌, ◌<◌, ◌≡◌, refl, sym, ap, ◌∙◌, Bool, true, false, some, List, [], ◌++◌, append-nil, length,
  All,
}
use file_sync_tool.Base.Text.{Bytes, bytes_eq}
use file_sync_tool.Action.{Result, ok}
use file_sync_tool.Wire.{two32}
use file_sync_tool.Sending.Laws.{NeverFails}
use file_sync_tool.Socket.{Event}
use file_sync_tool.Socket.Laws.{content}
use file_sync_tool.Disk.{Disk, IsLawful}
use file_sync_tool.TcpClient.Laws.{Up}
use file_sync_tool.Client.{Sender, Step, send_all}
use file_sync_tool.Client.Stream.{Job, tasks_of, stream, Ready, Apart, send_all-Up}
use file_sync_tool.Server.Tasks.RoundTrip.{AllFit}
use file_sync_tool.Server.Session.{Session, handle_client, close_client, send_ack}
use file_sync_tool.Server.Session.Jobs.{Serves}
use file_sync_tool.Server.Session.Whole.{Acceptable, dest_of, handle_client-Synced}

-- The client's side: the tasks of `jobs` have their sources on the disk `d`.
pub record ClientReady (D : Disk) (L : IsLawful D) (async_running : Bool) (jobs : List Job)
    (s : Sender D) : Type 1 where
  pub Source : Bytes → Type 0
  pub apart : Apart Source
  pub ready : Ready D L Source apart s.disk async_running jobs
  pub up : Up s.link
  pub nothing_sent : s.link.sent ≡ []

-- The server's side.
pub record ServerReady (D : Disk) (L : IsLawful D) (base : Bytes) (can_allocate : ℕ → Bool)
    (jobs : List Job) (w : Session D) : Type 1 where
  pub Dir : Bytes → Type 0
  pub File : Bytes → Type 0
  pub Good : D.State → Type 0
  pub serves : Serves D Dir File Good
  pub fit : AllFit can_allocate jobs
  pub countable : length (tasks_of jobs) + length (tasks_of jobs) < two32
  pub acceptable : Acceptable D L Dir File Good serves base jobs
  pub writable : NeverFails w.writes
  pub good : Good w.disk

-- What both sides are left with.
pub record Delivered (D : Disk) (base : Bytes) (jobs : List Job) (w w' : Session D) : Type 0 where
  pub files :
      All
        (λ (j : Job). j.0.is_directory ≡ false → D.content w'.disk (dest_of base j) ≡ some j.1)
        jobs
  pub others :
      (q : Bytes)
      → All (λ (j : Job). bytes_eq (dest_of base j) q ≡ false) jobs
      → D.content w'.disk q ≡ D.content w.disk q
  pub processed : w'.processed ≡ w.processed + length jobs
  pub closed : w'.closed ≡ true

module _ (C S : Disk) (LC : IsLawful C) (LS : IsLawful S) (base : Bytes) (can_allocate : ℕ → Bool)
    (rpc : Session S → Result Bool × Session S) (async_running : Bool)
    (send_async : Bytes → Step C Bool) (network : Bytes → List Event) where
  -- The server's session, with what the network makes of the client's bytes as its input.
  abbrev arrived : Session S → Bytes → Session S
  arrived w bs = record w { input = network bs }

  -- A synchronisation without resume, of tasks whose sources are directories, or regular files
  -- that can be read and whose size is what stat says, below 10 MiB where the asynchronous handler
  -- runs, none with a path that ends in .sync_progress (such files are written while the tasks are
  -- sent); the tasks fit the wire format, are fewer than 2^31, and have destinations of their own
  -- that the server's disk can make; the network delivers the bytes in order, in pieces of any
  -- size, and neither the client's calls of send nor the server's of write fail. Then the client
  -- sends all the tasks, and the server ends with true, has the bytes of each file under its base
  -- directory, has changed no other file, has counted each task, and has closed the socket.
  pub remote_sync :
      (jobs : List Job) (s : Sender C) (w : Session S)
      → ((bs : Bytes) → content (network bs) ≡ bs)
      → ClientReady C LC async_running jobs s
      → ServerReady S LS base can_allocate jobs w
      → (t : Sender C) × (send_all C false async_running send_async (tasks_of jobs) s ≡ (ok tt, t))
        × (w' : Session S) × (handle_client S base can_allocate rpc (arrived w t.link.sent)
            ≡ (ok true, w'))
        × Delivered S base jobs w w'
  remote_sync jobs s w delivers c v =
      let (t, run, _, sent) =
        send_all-Up C LC c.Source c.apart s.disk async_running send_async jobs s c.ready refl
          c.up in
      let (w', served, done) =
        handle_client-Synced S LS v.Dir v.File v.Good v.serves base can_allocate rpc jobs []
          (arrived w t.link.sent) v.fit v.countable v.acceptable
          (delivers t.link.sent
            ∙ sent
            ∙ ap (λ bs. bs ++ stream jobs) c.nothing_sent
            ∙ sym (append-nil (stream jobs)))
          v.writable v.good in
      (
        t,
        run,
        close_client S (send_ack S true w'),
        served,
        unfold send_ack in
            record {
              files = done.files;
              others = done.others;
              processed = done.processed;
              closed = refl;
            },
      )
