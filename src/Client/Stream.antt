-- ===== src/Client/Stream.antt =====
-- The bytes that a synchronisation without resume sends, for tasks whose sources are directories or
-- readable files that the asynchronous path does not take.
mod Blocks
pub use Blocks.{Frame, Apart}
use Blocks.{Emits-send_file_sync}
use file_sync_tool.Base.{
  ℕ, zero, suc, ◌<◌, ◌≡◌, refl, sym, ap, ◌∙◌, subst, Bool, true, false, not, ◌&&◌, Option, none,
  some, List, [], ◌∷◌, ◌++◌, arith, length, drop, All, ltb, leb, if◌then◌else◌, append-nil,
}
use file_sync_tool.Base.Int.{ℤ, pos}
use file_sync_tool.Base.Text.{Bytes}
use file_sync_tool.Action.{ok, ◌>>=◌, ◌>>◌, pure}
use file_sync_tool.Wire.{encode, encode_int, encode_off}
use file_sync_tool.Disk.{Disk, Stat, IsLawful}
use file_sync_tool.Metadata.{SyncTask}
use file_sync_tool.TcpClient.Laws.{Up}
use file_sync_tool.Client.{
  Sender, Step, large_file_threshold, put, type_number, size_of, put_size, put_file_size, put_task,
  put_tasks, send_file_sync, resume_offset, send_data, send_file, send_task, send_tasks, send_all,
}
use file_sync_tool.Client.Emits.{Emits, Emits-pure, Emits-put, Emits-then, Emits-when}

-- A source that is a regular file of these bytes, which the asynchronous path does not take, or a
-- directory.
pub data Readable (D : Disk) (d : D.State) (async_running : Bool) (task : SyncTask)
    : Bytes → Type 0 where
  directory : task.is_directory ≡ true → Readable D d async_running task []
  file :
      (bytes : Bytes) (st : Stat)
      → task.is_directory ≡ false
      → D.open_read d task.src_path ≡ some bytes
      → D.stat d task.src_path ≡ some st
      → st.size ≡ length bytes
      → (leb large_file_threshold (length bytes) && async_running) ≡ false
      → Readable D d async_running task bytes

-- The metadata of a task on the wire, for a source of these bytes.
abbrev pub size_bytes : Bool → Bytes → Bytes
size_bytes true bytes = []
size_bytes false bytes = encode_off (pos (length bytes))

unfoldable pub task_bytes : SyncTask → Bytes → Bytes
task_bytes task bytes =
    encode_int (type_number task.is_directory)
    ++ (encode 8 (length task.src_path)
        ++ (task.src_path
            ++ (encode 8 (length task.dest_path)
                ++ (task.dest_path ++ (encode 4 task.mode ++ size_bytes task.is_directory bytes)))))

-- The offset and the data of a task.
unfoldable pub data_bytes : Bytes → Bytes
data_bytes bytes = encode_off (pos 0) ++ bytes

abbrev pub Job : Type 0
Job = SyncTask × Bytes

abbrev pub metadata_stream : List Job → Bytes
metadata_stream [] = []
metadata_stream ((task, bytes) ∷ rest) = task_bytes task bytes ++ metadata_stream rest

abbrev pub data_stream : List Job → Bytes
data_stream [] = []
data_stream ((task, bytes) ∷ rest) = data_bytes bytes ++ data_stream rest

abbrev pub tasks_of : List Job → List SyncTask
tasks_of [] = []
tasks_of ((task, _) ∷ rest) = task ∷ tasks_of rest

unfoldable pub stream : List Job → Bytes
stream jobs =
    encode 1 0
    ++ (encode_int (pos (length (tasks_of jobs))) ++ (metadata_stream jobs ++ data_stream jobs))

module _ (D : Disk) (L : IsLawful D) (Source : Bytes → Type 0) (apart : Apart Source)
    (d : D.State) where
  abbrev Here : D.State → Type 0
  Here = Frame D Source d

  Emits-put_file_size :
      (path : Bytes) (st : Stat)
      → Source path
      → D.stat d path ≡ some st
      → Emits D Here (put_file_size D path) (encode_off (pos st.size))
  unfolding put_file_size
  Emits-put_file_size path st hs e =
      Emits-when D Here _ (put D (encode_off (pos st.size))) _
        (λ s h. ap (λ o. put_size D o s) ((h path hs).1 ∙ e))
        (Emits-put D Here (encode_off (pos st.size)))

  resume_offset-false : (e : D.State) (dest : Bytes) (n : ℕ) → resume_offset D false e dest n ≡ 0
  unfolding resume_offset
  resume_offset-false e dest n = ground arith

  module _ (async_running : Bool) where
    Emits-put_size :
        (task : SyncTask) (bytes : Bytes)
        → Source task.src_path
        → Readable D d async_running task bytes
        → Emits D Here
            (if task.is_directory then pure tt else put_file_size D task.src_path)
            (size_bytes task.is_directory bytes)
    Emits-put_size task bytes hs (directory e) = rw e (Emits-pure D Here)
    Emits-put_size task bytes hs (file _ st e opened stated size small) =
        rw (e, ← size) (Emits-put_file_size task.src_path st hs stated)

    Emits-put_task :
        (task : SyncTask) (bytes : Bytes)
        → Source task.src_path
        → Readable D d async_running task bytes
        → Emits D Here (put_task D task) (task_bytes task bytes)
    unfolding put_task task_bytes
    Emits-put_task task bytes hs r = Emits-then D Here _ _ _ _ (Emits-put D Here _) (
        Emits-then D Here _ _ _ _ (Emits-put D Here _) (
          Emits-then D Here _ _ _ _ (Emits-put D Here _) (
            Emits-then D Here _ _ _ _ (Emits-put D Here _) (
              Emits-then D Here _ _ _ _ (Emits-put D Here _) (
                Emits-then D Here _ _ _ _ (Emits-put D Here _) (Emits-put_size task bytes hs r))))))

    abbrev pub Ready : List Job → Type 0
    Ready jobs = All (λ (j : Job). Source j.0.src_path × Readable D d async_running j.0 j.1) jobs

    Emits-put_tasks :
        (jobs : List Job)
        → Ready jobs
        → Emits D Here (put_tasks D (tasks_of jobs)) (metadata_stream jobs)
    unfolding put_tasks
    Emits-put_tasks [] h = Emits-pure D Here
    Emits-put_tasks ((task, bytes) ∷ rest) h =
        Emits-then D Here _ _ _ _ (Emits-put_task task bytes h.0.0 h.0.1) (Emits-put_tasks rest h.1)

  module _ (async_running : Bool) (send_async : Bytes → Step D Bool) where
    Emits-send_data :
        (task : SyncTask) (bytes : Bytes)
        → Source task.src_path
        → D.open_read d task.src_path ≡ some bytes
        → (leb large_file_threshold (length bytes) && async_running) ≡ false
        → Emits D Here (send_data D false async_running send_async task (length bytes) 0) bytes
    unfolding send_data
    Emits-send_data task bytes hs opened small =
        Emits-when D Here _ (send_file_sync D task.src_path task.dest_path 0) bytes
          (λ s h. ground arith)
          (Emits-send_file_sync D L Source apart d task.src_path task.dest_path bytes 0 hs opened)

    Emits-send_file :
        (task : SyncTask) (bytes : Bytes) (st : Stat)
        → Source task.src_path
        → D.open_read d task.src_path ≡ some bytes
        → D.stat d task.src_path ≡ some st
        → st.size ≡ length bytes
        → (leb large_file_threshold (length bytes) && async_running) ≡ false
        → Emits D Here (send_file D false async_running send_async task) (data_bytes bytes)
    unfolding send_file data_bytes
    Emits-send_file task bytes st hs opened stated size small =
        Emits-when D Here _
          (put D (encode_off (pos 0))
            >> send_data D false async_running send_async task (length bytes) 0)
          _
          (λ s h.
            let sized : size_of (D.stat s.disk task.src_path) ≡ length bytes =
              ap size_of ((h task.src_path hs).1 ∙ stated) ∙ size in
            rw (sized, resume_offset-false s.disk task.dest_path (length bytes)))
          (Emits-then D Here _ _ _ _ (Emits-put D Here _)
            (Emits-send_data task bytes hs opened small))

    Emits-send_task :
        (task : SyncTask) (bytes : Bytes)
        → Source task.src_path
        → Readable D d async_running task bytes
        → Emits D Here (send_task D false async_running send_async task) (data_bytes bytes)
    unfolding send_task
    Emits-send_task task bytes hs (directory e) =
        simp e (unfold data_bytes in rw append-nil (Emits-put D Here (encode_off (pos 0))))
    Emits-send_task task bytes hs (file _ st e opened stated size small) =
        simp e (Emits-send_file task bytes st hs opened stated size small)

    Emits-send_tasks :
        (jobs : List Job)
        → Ready async_running jobs
        → Emits D Here
            (send_tasks D false async_running send_async (tasks_of jobs))
            (data_stream jobs)
    unfolding send_tasks
    Emits-send_tasks [] h = Emits-pure D Here
    Emits-send_tasks ((task, bytes) ∷ rest) h =
        Emits-then D Here _ _ _ _ (Emits-send_task task bytes h.0.0 h.0.1)
          (Emits-send_tasks rest h.1)

    Emits-send_all :
        (jobs : List Job)
        → Ready async_running jobs
        → Emits D Here (send_all D false async_running send_async (tasks_of jobs)) (stream jobs)
    unfolding send_all stream
    Emits-send_all jobs h = Emits-then D Here _ _ _ _ (Emits-put D Here _) (
        Emits-then D Here _ _ _ _ (Emits-put D Here _) (
          Emits-then D Here _ _ _ _ (Emits-put_tasks async_running jobs h)
            (Emits-send_tasks jobs h)))

    -- For sources that are directories, or regular files that can be read and whose size is what
    -- stat says, below 10 MiB where the asynchronous handler runs, none with a path that ends in
    -- .sync_progress: where syncRemote without resume gets as far as the acknowledgement with the
    -- connection still up, it has sent the mode byte, the task count, the metadata of every task,
    -- and then the offset 0 and all the bytes of every source, in this order and nothing else.
    pub sent-send_all :
        (jobs : List Job) (s t : Sender D)
        → Ready async_running jobs
        → s.disk ≡ d
        → send_all D false async_running send_async (tasks_of jobs) s ≡ (ok tt, t)
        → t.link.connected ≡ true
        → t.link.sent ≡ s.link.sent ++ stream jobs
    sent-send_all jobs s t h same run up =
        ((Emits-send_all jobs h).emits s t run
          (λ p hp. (ap (λ e. D.open_read e p) same, ap (λ e. D.stat e p) same)) up).1

    -- For sources that are directories, or regular files that can be read and whose size is what
    -- stat says, below 10 MiB where the asynchronous handler runs, none with a path that ends in
    -- .sync_progress, a connection that is up and calls of send that do not fail: syncRemote
    -- without resume gets as far as the acknowledgement, whatever part of a buffer each call
    -- accepts, with the connection up and all the bytes of `stream` sent.
    pub send_all-Up :
        (jobs : List Job) (s : Sender D)
        → Ready async_running jobs
        → s.disk ≡ d
        → Up s.link
        → (t : Sender D) × (send_all D false async_running send_async (tasks_of jobs) s
            ≡ (ok tt, t))
          × Up t.link
          × (t.link.sent ≡ s.link.sent ++ stream jobs)
    send_all-Up jobs s h same up =
        let frame : Here s.disk =
          λ p hp. (ap (λ e. D.open_read e p) same, ap (λ e. D.stat e p) same) in
        let (t, run, up_t) = (Emits-send_all jobs h).runs s frame up in
        (t, run, up_t, sent-send_all jobs s t h same run up_t.0)
