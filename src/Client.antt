-- ===== src/Client.antt =====
-- The sending side of a remote synchronisation: FileSync::syncRemote and sendFileSync
-- (src/core/FileSync.cpp). The tasks that detectChanges found are an argument, and so is the
-- transfer through AsyncIOHandler (sendFileViaAsyncIO) for the files that take that path. The
-- pauses of the speed limit change no state.
pub mod Emits
pub mod Stream
use file_sync_tool.Base.{
  ℕ, zero, suc, ◌+◌, ◌-◌, Bool, true, false, not, ◌&&◌, Option, none, some, List, [], ◌∷◌, ◌++◌,
  length, take, drop, ltb, leb, ◌==◌, if◌then◌else◌,
}
use file_sync_tool.Base.Int.{ℤ, pos, pos_part, ltb_ℤ}
use file_sync_tool.Base.Text.{Bytes, bytes_eq, codes}
use file_sync_tool.Action.{Result, ok, stop, refused, out_of_fuel, Act, ◌>>=◌, ◌>>◌, pure, fail}
use file_sync_tool.Wire.{encode, encode_int, encode_off, two64}
use file_sync_tool.Disk.{Disk, Stat}
use file_sync_tool.Progress.{is_pos, save_progress, clear_progress, load_progress}
use file_sync_tool.Metadata.{SyncTask}
use file_sync_tool.TcpClient.{TcpClient, Connecting, connect, disconnect, send, receive}

pub record Sender (D : Disk) : Type 0 where
  pub disk : D.State
  pub link : TcpClient

abbrev pub large_file_threshold : ℕ
large_file_threshold = 10485760

-- int taskType
abbrev pub type_number : Bool → ℤ
type_number true = pos 1
type_number false = pos 0

abbrev pub size_of : Option Stat → ℕ
size_of none = 0
size_of (some st) = st.size

module _ (D : Disk) where
  abbrev pub Step : Type 0 → Type 0
  Step A = Act (Sender D) A

  -- client.send of a value, whose result syncRemote does not read
  unfoldable pub put : Bytes → Step (Unit {0})
  unfolding send
  put bs s = (ok tt, record s { link = (send bs s.link).1 })

  -- The size of a file is sent only where stat succeeds.
  abbrev pub put_size : Option Stat → Step (Unit {0})
  put_size none = pure tt
  put_size (some st) = put (encode_off (pos st.size))

  unfoldable pub put_file_size : Bytes → Step (Unit {0})
  put_file_size path s = put_size (D.stat s.disk path) s

  -- The first loop of syncRemote: the metadata of one task.
  unfoldable pub put_task : SyncTask → Step (Unit {0})
  put_task task = do
    put (encode_int (type_number task.is_directory))
    put (encode 8 (length task.src_path))
    put task.src_path
    put (encode 8 (length task.dest_path))
    put task.dest_path
    put (encode 4 task.mode)
    if task.is_directory then pure tt else put_file_size task.src_path

  unfoldable pub put_tasks : List SyncTask → Step (Unit {0})
  put_tasks [] = pure tt
  put_tasks (task ∷ rest) = do put_task task; put_tasks rest

  -- client.send of file data, with what a failure records
  abbrev pub send_block : Bytes → ℕ → ℕ → Bytes → Step (Unit {0})
  send_block dest transferred total block s =
      let (good, link) = send block s.link in
      let saved = save_progress D s.disk dest transferred total in
      let more = save_progress D s.disk dest (transferred + length block) total in
      if good
      then (ok tt, record { disk = more; link = link })
      else (stop refused, record { disk = saved; link = link })

  -- The loop of sendFileSync over the bytes from the offset on, 4096 at a time.
  unfoldable pub send_blocks : ℕ → Bytes → ℕ → ℕ → Bytes → Step (Unit {0})
  send_blocks fuel dest transferred total [] = pure tt
  send_blocks zero dest transferred total (b ∷ bs) = fail out_of_fuel
  send_blocks (suc fuel) dest transferred total (b ∷ bs) = do
    send_block dest transferred total (take 4096 (b ∷ bs))
    send_blocks fuel dest (transferred + length (take 4096 (b ∷ bs))) total (drop 4096 (b ∷ bs))

  unfoldable pub finish_file : Bytes → Step (Unit {0})
  finish_file dest s = (ok tt, record s { disk = clear_progress D s.disk dest })

  -- What sendFileSync does with the source file that it opened.
  abbrev pub send_opened : Option Bytes → Bytes → ℕ → Step (Unit {0})
  send_opened none dest offset s = (stop refused, s)
  send_opened (some bytes) dest offset s =
      (do
        send_blocks (length bytes) dest offset (length bytes) (drop offset bytes)
        finish_file dest)
        s

  -- FileSync::sendFileSync
  unfoldable pub send_file_sync : Bytes → Bytes → ℕ → Step (Unit {0})
  unfolding send_blocks finish_file
  send_file_sync src dest offset s = send_opened (D.open_read s.disk src) dest offset s

  -- Where a resumed transfer starts: what the progress file says, if it is inside the file.
  unfoldable pub resume_offset : Bool → D.State → Bytes → ℕ → ℕ
  resume_offset resume s dest file_size =
      let p = load_progress D s dest in
      if resume && is_pos p.offset && is_pos p.total_size && ltb_ℤ p.offset (pos file_size)
      then pos_part p.offset
      else 0

  module _ (resume async_running : Bool) (send_async : Bytes → Step Bool) where
    abbrev pub fall_back : SyncTask → ℕ → Bool → Step (Unit {0})
    fall_back task offset true = pure tt
    fall_back task offset false = send_file_sync task.src_path task.dest_path offset

    unfoldable pub send_data : SyncTask → ℕ → ℕ → Step (Unit {0})
    send_data task file_size offset =
        if leb large_file_threshold file_size && async_running && not (ltb 0 offset)
        then (do done ← send_async task.src_path; fall_back task offset done)
        else send_file_sync task.src_path task.dest_path offset

    unfoldable pub send_file : SyncTask → Step (Unit {0})
    send_file task s =
        let file_size = size_of (D.stat s.disk task.src_path) in
        let offset = resume_offset resume s.disk task.dest_path file_size in
        (do put (encode_off (pos offset)); send_data task file_size offset) s

    -- The second loop of syncRemote: the offset and the data of one task.
    unfoldable pub send_task : SyncTask → Step (Unit {0})
    send_task task = if task.is_directory then put (encode_off (pos 0)) else send_file task

    unfoldable pub send_tasks : List SyncTask → Step (Unit {0})
    send_tasks [] = pure tt
    send_tasks (task ∷ rest) = do send_task task; send_tasks rest

    -- From the mode byte to the last byte of data.
    unfoldable pub send_all : List SyncTask → Step (Unit {0})
    send_all tasks = do
      put (encode 1 0)
      put (encode_int (pos (length tasks)))
      put_tasks tasks
      send_tasks tasks

    abbrev pub acknowledged : Bytes → Bool
    acknowledged got = bytes_eq got (codes "ACK")

    abbrev pub await_ack : Result (Unit {0}) × Sender D → Result Bool × Sender D
    await_ack (ok _, s) =
        let (got, link) = receive 3 s.link in
        (ok (acknowledged got), record s { link = disconnect link })
    await_ack (stop refused, s) = (ok false, record s { link = disconnect s.link })
    await_ack (stop e, s) = (stop e, s)

    -- FileSync::syncRemote
    unfoldable pub sync_remote :
        Connecting → (D.State → List SyncTask) → Sender D → Result Bool × Sender D
    sync_remote k detect_changes s =
        let (up, link) = connect k s.link in
        let run = await_ack (send_all (detect_changes s.disk) (record s { link = link })) in
        if up then run else (ok false, record s { link = link })
