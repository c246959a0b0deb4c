-- ===== src/Server/Tasks.antt =====
-- SyncServer::receiveInt, receiveSizeT, receiveOffT, receiveModeT and receiveTaskMetadata
-- (src/server/SyncServer.cpp). ServerSyncTask::resumeOffset is never set or read and is left out.
pub mod RoundTrip
use file_sync_tool.Base.{
  ℕ, zero, suc, ◌+◌, Bool, true, false, List, [], ◌∷◌, ltb, ◌==◌, if◌then◌else◌, not,
}
use file_sync_tool.Base.Int.{ℤ, pos, pos_part}
use file_sync_tool.Base.Text.{Bytes}
use file_sync_tool.Action.{threw, overran, ◌>>=◌, pure, fail}
use file_sync_tool.Wire.{decode, of_word, two32, two64}
use file_sync_tool.Socket.{Recv, receive_bytes}

pub record ServerTask : Type 0 where
  pub dest_path : Bytes
  pub src_path : Bytes
  pub is_directory : Bool
  pub mode : ℕ
  pub file_size : ℤ

unfoldable pub receive_int : Recv ℤ
receive_int = do bs ← receive_bytes 4; pure (of_word two32 (decode bs))

unfoldable pub receive_size : Recv ℕ
receive_size = do bs ← receive_bytes 8; pure (decode bs)

unfoldable pub receive_off : Recv ℤ
receive_off = do bs ← receive_bytes 8; pure (of_word two64 (decode bs))

unfoldable pub receive_mode : Recv ℕ
receive_mode = do bs ← receive_bytes 4; pure (decode bs)

-- The std::string made of a char pointer: what stands before the first NUL.
unfoldable pub c_string : Bytes → Bytes
c_string [] = []
c_string (b ∷ bs) = let rest = b ∷ c_string bs in if b == 0 then [] else rest

unfoldable pub receive_file_size : Bool → Recv ℤ
receive_file_size true = pure (pos 0)
receive_file_size false = receive_off

abbrev pub is_one : ℤ → Bool
is_one (pos n) = n == 1
is_one _ = false

-- What the allocator answers is the argument `can_allocate`.
module _ (can_allocate : ℕ → Bool) where
  -- A path: its length, and its bytes in a buffer of one more. The length 2^64 - 1 wraps to a
  -- buffer of no bytes, which the first byte received overruns.
  unfoldable pub receive_path_bytes : ℕ → Recv Bytes
  unfolding c_string
  receive_path_bytes len =
      if len == 0
      then pure []
      else if not (ltb (len + 1) two64)
      then fail overran
      else if can_allocate (len + 1)
      then (do bs ← receive_bytes len; pure (c_string bs))
      else fail threw

  unfoldable pub receive_path : Recv Bytes
  receive_path = do len ← receive_size; receive_path_bytes len

  -- One round of the loop of receiveTaskMetadata.
  unfoldable pub receive_task : Recv ServerTask
  receive_task = do
    task_type ← receive_int
    src ← receive_path
    dest ← receive_path
    mode ← receive_mode
    size ← receive_file_size (is_one task_type)
    pure (record {
      dest_path = dest;
      src_path = src;
      is_directory = is_one task_type;
      mode = mode;
      file_size = size;
    })

  unfoldable pub receive_tasks : ℕ → Recv (List ServerTask)
  receive_tasks zero = pure []
  receive_tasks (suc n) = do task ← receive_task; rest ← receive_tasks n; pure (task ∷ rest)

  -- SyncServer::receiveTaskMetadata. A negative count means no round.
  unfoldable pub receive_task_metadata : ℤ → Recv (List ServerTask)
  receive_task_metadata count = receive_tasks (pos_part count)
