-- ===== src/Server/Session/Whole.antt =====
-- A whole connection on the server: all its tasks, the acknowledgement and the end.
use file_sync_tool.Base.{
  ℕ, ◌+◌, ◌≡◌, refl, sym, ap, ◌∙◌, subst, Bool, true, false, some, List, [], ◌∷◌, ◌++◌, arith,
  append_assoc, length, All, inl, inr, Bool-cases, if◌then◌else◌, ◌<◌,
}
use file_sync_tool.Base.Int.{pos}
use file_sync_tool.Base.Text.{Bytes, bytes_eq}
use file_sync_tool.Action.{Result, ok, pure, bind-eq}
use file_sync_tool.Wire.{encode, decode, encode_int, encode_off, two32}
use file_sync_tool.Wire.Laws.{length-encode, decode-encode}
use file_sync_tool.Sending.Laws.{NeverFails}
use file_sync_tool.Socket.{Event, Recv, receive_bytes}
use file_sync_tool.Socket.Laws.{content}
use file_sync_tool.Reads.{Reads, Reads-bytes}
use file_sync_tool.Disk.{Disk, IsLawful}
use file_sync_tool.Metadata.{SyncTask}
use file_sync_tool.Client.Stream.{Job, data_bytes, data_stream, metadata_stream, tasks_of, stream}
use file_sync_tool.Server.Tasks.{ServerTask, receive_int, receive_task_metadata}
use file_sync_tool.Server.Tasks.RoundTrip.{
  server_task, server_tasks, size_read, AllFit, Reads-receive_int, Reads-receive_task_metadata,
}
use file_sync_tool.Server.Session.{
  Session, receiving, process_directory, process_file, process_task, process_tasks, handle_sync,
  close_client, send_ack, finish, dispatch, handle_client,
}
use file_sync_tool.Server.Session.Jobs.{Serves, Stepped, Placed, directory_step, file_step}

-- A directory has no data.
abbrev pub WholeJob : Job → Type 0
WholeJob (task, bytes) = task.is_directory ≡ true → bytes ≡ []

abbrev pub dest_of : Bytes → Job → Bytes
dest_of base (task, bytes) = base ++ task.dest_path

-- No two tasks have the same destination.
abbrev pub Distinct : Bytes → List Job → Type 0
Distinct base [] = Unit {0}
Distinct base (j ∷ rest) =
    All (λ (k : Job). bytes_eq (dest_of base k) (dest_of base j) ≡ false) rest × Distinct base rest

-- What all the tasks leave behind.
pub record Synced (D : Disk) (Good : D.State → Type 0) (base : Bytes) (jobs : List Job)
    (rest : Bytes) (w w' : Session D) : Type 0 where
  pub files :
      All
        (λ (j : Job). j.0.is_directory ≡ false → D.content w'.disk (dest_of base j) ≡ some j.1)
        jobs
  pub others :
      (q : Bytes)
      → All (λ (j : Job). bytes_eq (dest_of base j) q ≡ false) jobs
      → D.content w'.disk q ≡ D.content w.disk q
  pub left : content w'.input ≡ rest
  pub writable : NeverFails w'.writes
  pub sends : w'.sends ≡ w.sends
  pub output : w'.output ≡ w.output
  pub processed : w'.processed ≡ w.processed + length jobs
  pub closed : w'.closed ≡ w.closed
  pub good : Good w'.disk

module _ (D : Disk) (L : IsLawful D) (Dir File : Bytes → Type 0) (Good : D.State → Type 0)
    (S : Serves D Dir File Good) (base : Bytes) where
  abbrev Steps : SyncTask → Bytes → Bytes → Session D → Bool → Type 0
  Steps task bytes rest w is_directory =
      (w' : Session D) × (process_task D base (server_task task bytes) w ≡ (ok tt, w'))
      × Stepped D Good (base ++ task.dest_path) is_directory bytes rest w w'

  abbrev Place : SyncTask → Type 0
  Place task = Placed D L Dir File Good S task.is_directory (base ++ task.dest_path)

  process_task-eq :
      (task : ServerTask) (b : Bool)
      → task.is_directory ≡ b
      → process_task D base task
        ≡ (if b then process_directory D base task else process_file D base task)
  unfolding process_task
  process_task-eq task b e =
      ap (λ c. if c then process_directory D base task else process_file D base task) e

  job_step :
      (task : SyncTask) (bytes rest : Bytes) (w : Session D)
      → WholeJob (task, bytes)
      → Place task
      → content w.input ≡ data_bytes bytes ++ rest
      → NeverFails w.writes
      → Good w.disk
      → Steps task bytes rest w task.is_directory
  unfolding data_bytes
  job_step task bytes rest w whole placed e k g =
      let path : Bytes = base ++ task.dest_path in
      let e' : content w.input ≡ encode_off (pos 0) ++ (bytes ++ rest) =
        e ∙ append_assoc (encode_off (pos 0)) bytes rest in
      let t : ServerTask = server_task task bytes in
      elim (Bool-cases task.is_directory) [
        | inl dir ↦
            let none_ : bytes ≡ [] = whole dir in
            let (w', run, s) =
              directory_step D L Dir File Good S base t w rest
                (subst (λ b. Placed D L Dir File Good S b path) dir placed)
                (e' ∙ ap (λ bs. encode_off (pos 0) ++ (bs ++ rest)) none_) k g in
            (
              w',
              ap (λ m. m w) (process_task-eq t true dir) ∙ run,
              subst (λ b. Stepped D Good path b bytes rest w w') (sym dir)
                  (subst (λ bs. Stepped D Good path true bs rest w w') (sym none_) s),
            )
        | inr plain ↦
            let (w', run, s) =
              file_step D L Dir File Good S base t bytes w rest
                (subst (λ b. Placed D L Dir File Good S b path) plain placed)
                (ap (λ b. size_read b bytes) plain) e' k g in
            (
              w',
              ap (λ m. m w) (process_task-eq t false plain) ∙ run,
              subst (λ b. Stepped D Good path b bytes rest w w') (sym plain) s,
            )
      ]

  -- What the tasks need: whole sources, places that can be made, and destinations of their own.
  pub record Acceptable (jobs : List Job) : Type 0 where
    pub whole : All WholeJob jobs
    pub places : All (λ (j : Job). Place j.0) jobs
    pub distinct : Distinct base jobs

  process_tasks-Synced :
      (jobs : List Job) (rest : Bytes) (w : Session D)
      → Acceptable jobs
      → content w.input ≡ data_stream jobs ++ rest
      → NeverFails w.writes
      → Good w.disk
      → (w' : Session D) × (process_tasks D base (server_tasks jobs) w ≡ (ok tt, w'))
        × Synced D Good base jobs rest w w'
  unfolding process_tasks
  process_tasks-Synced [] rest w a e k g = (
    w,
    unfold pure in refl,
    record {
      files = tt;
      others = λ q _. refl;
      left = e;
      writable = k;
      sends = refl;
      output = refl;
      processed = omega arith;
      closed = refl;
      good = g;
    },
  )
  process_tasks-Synced ((task, bytes) ∷ jobs) rest w a e k g =
      let (w1, run1, s1) =
        job_step task bytes (data_stream jobs ++ rest) w a.whole.0 a.places.0
          (e ∙ append_assoc (data_bytes bytes) (data_stream jobs) rest) k g in
      let (w2, run2, s2) =
        process_tasks-Synced jobs rest w1
          (record { whole = a.whole.1; places = a.places.1; distinct = a.distinct.1 }) s1.left
          s1.writable s1.good in
      (
        w2,
        bind-eq _ _ run1 ∙ run2,
        record {
          files =
              (λ plain. s2.others (base ++ task.dest_path) a.distinct.0 ∙ s1.file plain, s2.files);
          others = λ q off. s2.others q off.1 ∙ s1.others q off.0;
          left = s2.left;
          writable = s2.writable;
          sends = s2.sends ∙ s1.sends;
          output = s2.output ∙ s1.output;
          processed = omega (arith, s2.processed, s1.processed);
          closed = s2.closed ∙ s1.closed;
          good = s2.good;
        },
      )

  receiving-Reads :
      {A : Type 0} (m : Recv A) (bs rest : Bytes) {a : A} (w : Session D)
      → Reads m bs a
      → content w.input ≡ bs ++ rest
      → (left : List Event) × (receiving D m w ≡ (ok a, record w { input = left }))
        × (content left ≡ rest)
  receiving-Reads m bs rest w h e =
      let (left, run, after) = h.at w.input rest e in
      (left, ap (λ r. (r.0, record w { input = r.1 })) run, after)

  -- What was read before does not show.
  Synced-from :
      {w' : Session D} (jobs : List Job) (rest : Bytes) (w : Session D) (before : List Event)
      → Synced D Good base jobs rest (record w { input = before }) w'
      → Synced D Good base jobs rest w w'
  Synced-from jobs rest w before s = record {
    files = s.files;
    others = s.others;
    left = s.left;
    writable = s.writable;
    sends = s.sends;
    output = s.output;
    processed = s.processed;
    closed = s.closed;
    good = s.good;
  }

  module _ (can_allocate : ℕ → Bool) where
    dispatch-sync :
        (rpc : Session D → Result Bool × Session D) (mode : Bytes) (w : Session D)
        → decode mode ≡ 0
        → dispatch D base can_allocate rpc (ok mode, w)
          ≡ finish D (handle_sync D base can_allocate w)
    dispatch-sync rpc mode w e = rw e

    -- The body of a connection, from the task count on.
    handle_sync-Synced :
        (jobs : List Job) (rest : Bytes) (w : Session D)
        → AllFit can_allocate jobs
        → length (tasks_of jobs) + length (tasks_of jobs) < two32
        → Acceptable jobs
        → content w.input
          ≡ encode_int (pos (length (tasks_of jobs)))
            ++ ((metadata_stream jobs ++ data_stream jobs) ++ rest)
        → NeverFails w.writes
        → Good w.disk
        → (w' : Session D) × (handle_sync D base can_allocate w ≡ (ok tt, w'))
          × Synced D Good base jobs rest w w'
    unfolding handle_sync
    handle_sync-Synced jobs rest w fit count a e k g =
        let n : ℕ = length (tasks_of jobs) in
        let (in1, run1, e1) =
          receiving-Reads receive_int (encode_int (pos n)) _ w (Reads-receive_int (pos n) count)
            e in
        let w1 : Session D = record w { input = in1 } in
        let (in2, run2, e2) =
          receiving-Reads (receive_task_metadata can_allocate (pos n)) (metadata_stream jobs)
            (data_stream jobs ++ rest) w1 (Reads-receive_task_metadata can_allocate jobs fit)
            (e1 ∙ append_assoc (metadata_stream jobs) (data_stream jobs) rest) in
        let w2 : Session D = record w { input = in2 } in
        let (w3, run3, s) = process_tasks-Synced jobs rest w2 a e2 k g in
        (w3, bind-eq _ _ run1 ∙ bind-eq _ _ run2 ∙ run3, Synced-from jobs rest w in2 s)

    module _ (rpc : Session D → Result Bool × Session D) where
      -- On a stream that holds what the client writes for `jobs`, which fit the wire format, have
      -- destinations of their own that the disk can make, and fewer than 2^31 of them:
      -- handleClient returns true after ACK and with the socket closed, has each file whole at its
      -- destination, has changed no other file, has counted each task, and has left on the stream
      -- just what follows.
      pub handle_client-Synced :
          (jobs : List Job) (rest : Bytes) (w : Session D)
          → AllFit can_allocate jobs
          → length (tasks_of jobs) + length (tasks_of jobs) < two32
          → Acceptable jobs
          → content w.input ≡ stream jobs ++ rest
          → NeverFails w.writes
          → Good w.disk
          → (w' : Session D) × (handle_client D base can_allocate rpc w
              ≡ (ok true, close_client D (send_ack D true w')))
            × Synced D Good base jobs rest w w'
      unfolding handle_client stream
      handle_client-Synced jobs rest w fit count a e k g =
          let tail : Bytes =
            encode_int (pos (length (tasks_of jobs)))
            ++ (metadata_stream jobs ++ data_stream jobs) in
          let (in1, run1, e1) =
            receiving-Reads (receive_bytes 1) (encode 1 0) (tail ++ rest) w
              (Reads-bytes 1 (encode 1 0) (sym (length-encode 1 0)))
              (e ∙ append_assoc (encode 1 0) tail rest) in
          let w1 : Session D = record w { input = in1 } in
          let (w2, run2, s) =
            handle_sync-Synced jobs rest w1 fit count a (e1 ∙ append_assoc _ _ rest) k g in
          (
            w2,
            ap (dispatch D base can_allocate rpc) run1
                ∙ dispatch-sync rpc (encode 1 0) w1 (decode-encode 1 0 (omega arith))
                ∙ ap (finish D) run2,
            Synced-from jobs rest w in1 s,
          )
