-- ===== src/Server/Session.antt =====
-- SyncServer::receiveFileData, sendAck and handleClient (src/server/SyncServer.cpp), with
-- TcpServer::send and closeClient (src/network/TcpServer.cpp).
pub mod Data
pub mod Files
pub mod Jobs
pub mod Whole
use file_sync_tool.Base.{
  ℕ, zero, suc, ◌+◌, ◌-◌, min, Bool, true, false, Option, none, some, List, [], ◌∷◌, ◌++◌, length,
  ◌==◌, not, if◌then◌else◌,
}
use file_sync_tool.Base.Int.{ℤ, pos, pos_part, ◌-ℤ◌, ltb_ℤ}
use file_sync_tool.Base.Text.{Bytes, codes}
use file_sync_tool.Action.{Result, ok, stop, refused, out_of_fuel, Act, ◌>>=◌, ◌>>◌, pure, require}
use file_sync_tool.Wire.{decode}
use file_sync_tool.Socket.{Event, Recv, robust_read, receive_bytes}
use file_sync_tool.Sending.{WriteEvent, write_loop, send_loop}
use file_sync_tool.Disk.{Disk, or_empty}
use file_sync_tool.FileUtil.{parent, set_file_mode, create_directory}
use file_sync_tool.Server.Tasks.{ServerTask, receive_int, receive_off, receive_task_metadata}

-- The state that one connection works on: the disk, what arrives, what calls of write and send do,
-- what was sent to the client, SyncServer::processedTasks, and whether the socket is closed.
pub record Session (D : Disk) : Type 0 where
  pub disk : D.State
  pub input : List Event
  pub writes : List WriteEvent
  pub sends : List WriteEvent
  pub output : Bytes
  pub processed : ℕ
  pub closed : Bool

abbrev pub buffer_size : ℕ
buffer_size = 65536

-- task.fileSize - received, where it is positive.
abbrev pub bytes_left : ℤ → ℤ → ℕ
bytes_left size start = pos_part (size -ℤ start)

module _ (D : Disk) where
  abbrev pub Step : Type 0 → Type 0
  Step A = Act (Session D) A

  abbrev pub receiving : {A : Type 0} → Recv A → Step A
  receiving m w = let (r, es) = m w.input in (r, record w { input = es })

  -- A disk operation that reports success, and whose failure ends the method.
  abbrev pub must : (D.State → Bool × D.State) → Step (Unit {0})
  must f w = let (good, t) = f w.disk in require good (record w { disk = t })

  unfoldable pub write_chunk : Bytes → Bytes → Step (Unit {0})
  unfolding write_loop require
  write_chunk path bs w =
      let (done, all, rest) = write_loop w.writes bs in
      require all (record w { disk = D.append w.disk path done; writes = rest })

  -- The body of the loop, after its call of robustRead.
  abbrev pub store_read :
      Bytes → Option Bytes × List Event → (ℕ → Step (Unit {0})) → Step (Unit {0})
  store_read path (none, es) next w = (stop refused, record w { input = es })
  store_read path (some [], es) next w = (stop refused, record w { input = es })
  store_read path (some (b ∷ bs), es) next w =
      (write_chunk path (b ∷ bs) >>= λ _. next (length (b ∷ bs))) (record w { input = es })

  -- The loop `while (received < task.fileSize)`, on the number of bytes still to come. A round
  -- stores a byte or ends the loop.
  unfoldable pub receive_data_loop : ℕ → Bytes → ℕ → Step (Unit {0})
  receive_data_loop zero path remaining w =
      if remaining == 0 then (ok tt, w) else (stop out_of_fuel, w)
  receive_data_loop (suc fuel) path remaining w =
      let more =
        store_read path (robust_read w.input (min buffer_size remaining))
          (λ n. receive_data_loop fuel path (remaining - n)) w in
      if remaining == 0 then (ok tt, w) else more

  -- open, with the offset at which the transfer starts.
  abbrev pub opened : Option D.State → ℤ → Step ℤ
  opened none offset w = (stop refused, w)
  opened (some t) offset w = (ok offset, record w { disk = t })

  abbrev pub size_of : D.State → Bytes → ℕ
  size_of s path = length (or_empty (D.content s path))

  -- lseek(destFd, 0, SEEK_END) against the offset that the client sent
  abbrev pub check_resume : Bytes → ℤ → Option D.State → Step ℤ
  check_resume path offset none w = (stop refused, w)
  check_resume path offset (some t) w =
      if pos_part offset == size_of t path
      then (ok offset, record w { disk = t })
      else opened (D.open_trunc t path) (pos 0) (record w { disk = t })

  unfoldable pub open_dest : Bytes → ℤ → Step ℤ
  open_dest path offset w =
      if ltb_ℤ (pos 0) offset
      then check_resume path offset (D.open_append w.disk path) w
      else opened (D.open_trunc w.disk path) offset w

  -- SyncServer::receiveFileData
  unfoldable pub receive_file_data : Bytes → ℤ → ℤ → Step (Unit {0})
  unfolding open_dest receive_data_loop write_chunk
  receive_file_data path size offset = do
    start ← open_dest path offset
    receive_data_loop (bytes_left size start) path (bytes_left size start)

  abbrev pub make_parent : Bytes → Step (Unit {0})
  make_parent path = elim (parent path) [
    | none ↦ pure tt
    | some dir ↦ must (λ s. create_directory D s dir 493)
  ]

  -- processedTasks.fetch_add(1)
  unfoldable pub count_task : Step (Unit {0})
  count_task w = (ok tt, record w { processed = w.processed + 1 })

  -- setFileMode, whose result is not read
  unfoldable pub apply_mode : Bytes → ℕ → Step (Unit {0})
  unfolding set_file_mode
  apply_mode path mode w = (ok tt, record w { disk = (set_file_mode D w.disk path mode).1 })

  module _ (base : Bytes) where
    unfoldable pub process_directory : ServerTask → Step (Unit {0})
    process_directory task = do
      offset ← receiving receive_off
      must (λ s. create_directory D s (base ++ task.dest_path) task.mode)
      count_task

    unfoldable pub process_file : ServerTask → Step (Unit {0})
    process_file task = do
      offset ← receiving receive_off
      make_parent (base ++ task.dest_path)
      receive_file_data (base ++ task.dest_path) task.file_size offset
      apply_mode (base ++ task.dest_path) task.mode
      count_task

    unfoldable pub process_task : ServerTask → Step (Unit {0})
    process_task task = if task.is_directory then process_directory task else process_file task

    unfoldable pub process_tasks : List ServerTask → Step (Unit {0})
    process_tasks [] = pure tt
    process_tasks (task ∷ rest) = process_task task >> process_tasks rest

    -- From the task count on: the body of handleClient in synchronisation mode.
    unfoldable pub handle_sync : (ℕ → Bool) → Step (Unit {0})
    handle_sync can_allocate = do
      count ← receiving receive_int
      tasks ← receiving (receive_task_metadata can_allocate count)
      process_tasks tasks

  -- tcpServer->closeClient
  abbrev pub close_client : Session D → Session D
  close_client w = record w { closed = true }

  -- SyncServer::sendAck, whose result handleClient does not read
  unfoldable pub send_ack : Bool → Session D → Session D
  unfolding send_loop
  send_ack success w =
      let (done, all, rest) = send_loop w.sends (if success then codes "ACK" else codes "NAK") in
      record w { output = w.output ++ done; sends = rest }

  -- Every `return false` after the mode byte sends NAK and closes; an exception does neither.
  abbrev pub finish : Result (Unit {0}) × Session D → Result Bool × Session D
  finish (ok _, w) = (ok true, close_client (send_ack true w))
  finish (stop refused, w) = (ok false, close_client (send_ack false w))
  finish (stop e, w) = (stop e, w)

  module _ (base : Bytes) (can_allocate : ℕ → Bool)
      (rpc : Session D → Result Bool × Session D) where
    abbrev pub dispatch : Result Bytes × Session D → Result Bool × Session D
    dispatch (stop refused, w) = (ok false, close_client w)
    dispatch (stop e, w) = (stop e, w)
    dispatch (ok mode, w) =
        if decode mode == 1
        then rpc w
        else if not (decode mode == 0)
        then (ok false, close_client w)
        else finish (handle_sync base can_allocate w)

    -- SyncServer::handleClient. The RPC server is the argument `rpc`.
    unfoldable pub handle_client : Session D → Result Bool × Session D
    handle_client w = dispatch (receiving (receive_bytes 1) w)
