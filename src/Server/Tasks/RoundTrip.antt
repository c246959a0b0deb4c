-- ===== src/Server/Tasks/RoundTrip.antt =====
-- What the server reads of the metadata that a client wrote.
use file_sync_tool.Base.{
  ℕ, suc, ◌+◌, ◌^◌, ◌<◌, ◌≡◌, ◌≢◌, refl, sym, subst, Bool, true, false, List, [], ◌∷◌, ◌++◌, arith,
  append_assoc, length, All, lt→ltb, ◌==◌,
}
use file_sync_tool.Base.Int.{ℤ, pos}
use file_sync_tool.Base.Text.{Bytes}
use file_sync_tool.Action.{◌>>=◌}
use file_sync_tool.Wire.{encode, decode, of_word, two32, two64, encode_int, encode_off}
use file_sync_tool.Wire.Laws.{
  InRange, length-encode, decode-encode, decode-encode_int, decode-encode_off,
}
use file_sync_tool.Socket.{Recv}
use file_sync_tool.Reads.{Reads, Reads-pure, Reads-bytes, Reads-bind, Reads-map}
use file_sync_tool.Metadata.{SyncTask}
use file_sync_tool.Client.{type_number}
use file_sync_tool.Client.Stream.{Job, size_bytes, task_bytes, metadata_stream, tasks_of}
use file_sync_tool.Server.Tasks.{
  ServerTask, receive_int, receive_size, receive_off, receive_mode, c_string, receive_path_bytes,
  receive_path, receive_file_size, is_one, receive_task, receive_tasks, receive_task_metadata,
}

pub Reads-receive_int : (z : ℤ) → InRange two32 z → Reads receive_int (encode_int z) z
unfolding receive_int
Reads-receive_int z h = subst (Reads _ (encode_int z)) (decode-encode_int z h) (
    Reads-map (λ bs. of_word two32 (decode bs))
      (Reads-bytes 4 (encode_int z) (unfold encode_int in sym (length-encode 4 _))))

pub Reads-receive_off : (z : ℤ) → InRange two64 z → Reads receive_off (encode_off z) z
unfolding receive_off
Reads-receive_off z h = subst (Reads _ (encode_off z)) (decode-encode_off z h) (
    Reads-map (λ bs. of_word two64 (decode bs))
      (Reads-bytes 8 (encode_off z) (unfold encode_off in sym (length-encode 8 _))))

-- receiveInt and receiveOff read back an int and an off_t in range from the four and the eight
-- bytes that the client writes for them, negative ones included, however the bytes arrive, and
-- leave what follows.
pub Reads-receive_words :
    (z w : ℤ)
    → InRange two32 z
    → InRange two64 w
    → Reads receive_int (encode_int z) z × Reads receive_off (encode_off w) w
Reads-receive_words z w h k = (Reads-receive_int z h, Reads-receive_off w k)

Reads-receive_size : (n : ℕ) → n < 2 ^ 64 → Reads receive_size (encode 8 n) n
unfolding receive_size
Reads-receive_size n h =
    subst (Reads _ (encode 8 n)) (decode-encode 8 n h)
      (Reads-map decode (Reads-bytes 8 (encode 8 n) (sym (length-encode 8 n))))

Reads-receive_mode : (n : ℕ) → n < 2 ^ 32 → Reads receive_mode (encode 4 n) n
unfolding receive_mode
Reads-receive_mode n h =
    subst (Reads _ (encode 4 n)) (decode-encode 4 n h)
      (Reads-map decode (Reads-bytes 4 (encode 4 n) (sym (length-encode 4 n))))

-- No byte is NUL.
abbrev pub HasNoNul : Bytes → Type 0
HasNoNul = All (λ b. b ≢ 0)

pub c_string-HasNoNul : (bs : Bytes) → HasNoNul bs → c_string bs ≡ bs
unfolding c_string
c_string-HasNoNul [] h = refl
c_string-HasNoNul (b ∷ bs) h = ground (arith, c_string-HasNoNul bs h.1, h.0)

abbrev pub size_read : Bool → Bytes → ℤ
size_read true bytes = pos 0
size_read false bytes = pos (length bytes)

-- The task as the server holds it.
abbrev pub server_task : SyncTask → Bytes → ServerTask
server_task task bytes = record {
  dest_path = task.dest_path;
  src_path = task.src_path;
  is_directory = task.is_directory;
  mode = task.mode;
  file_size = size_read task.is_directory bytes;
}

Reads-receive_file_size :
    (is_directory : Bool) (bytes : Bytes)
    → length bytes + length bytes < two64
    → Reads
        (receive_file_size is_directory)
        (size_bytes is_directory bytes)
        (size_read is_directory bytes)
unfolding receive_file_size
Reads-receive_file_size true bytes h = Reads-pure (pos 0)
Reads-receive_file_size false bytes h = Reads-receive_off (pos (length bytes)) h

is_one-type_number : (b : Bool) → is_one (type_number b) ≡ b
is_one-type_number true = refl
is_one-type_number false = refl

Reads-type_number : (b : Bool) → Reads receive_int (encode_int (type_number b)) (type_number b)
Reads-type_number true = Reads-receive_int (pos 1) (omega arith)
Reads-type_number false = Reads-receive_int (pos 0) (omega arith)

abbrev pub server_tasks : List Job → List ServerTask
server_tasks [] = []
server_tasks ((task, bytes) ∷ rest) = server_task task bytes ∷ server_tasks rest

suc-ne-zero : (n : ℕ) → (suc n == 0) ≡ false
suc-ne-zero n = ground arith

module _ (can_allocate : ℕ → Bool) where
  -- A path that the server can take: no NUL, and room for it and one byte more.
  pub record FitsPath (path : Bytes) : Type 0 where
    pub no_nul : HasNoNul path
    pub short : length path + 1 < two64
    pub room : can_allocate (length path + 1) ≡ true

  Reads-receive_path_bytes :
      (path : Bytes)
      → FitsPath path
      → Reads (receive_path_bytes can_allocate (length path)) path path
  unfolding receive_path_bytes
  Reads-receive_path_bytes [] h = Reads-pure []
  Reads-receive_path_bytes (b ∷ bs) h =
      let path : Bytes = b ∷ bs in
      rw (suc-ne-zero (length bs), lt→ltb _ _ h.short, h.room)
        (subst (Reads _ path) (c_string-HasNoNul path h.no_nul)
          (Reads-map c_string (Reads-bytes (length path) path refl)))

  Reads-receive_path :
      (path : Bytes)
      → FitsPath path
      → Reads (receive_path can_allocate) (encode 8 (length path) ++ path) path
  unfolding receive_path
  Reads-receive_path path h =
      Reads-bind (receive_path_bytes can_allocate)
        (Reads-receive_size (length path) (let q = h.short in omega arith))
        (Reads-receive_path_bytes path h)

  -- The same at the head of a block, in the shape of the stream.
  Reads-path-then :
      {B : Type 0} (path cs : Bytes) (f : Bytes → Recv B) {b : B}
      → FitsPath path
      → Reads (f path) cs b
      → Reads (receive_path can_allocate >>= f) (encode 8 (length path) ++ (path ++ cs)) b
  Reads-path-then path cs f {b} h k =
      subst (λ bs. Reads (receive_path can_allocate >>= f) bs b)
        (append_assoc (encode 8 (length path)) path cs) (Reads-bind f (Reads-receive_path path h) k)

  -- A task that the wire format can carry and the server can take.
  pub record Fits (task : SyncTask) (bytes : Bytes) : Type 0 where
    pub src : FitsPath task.src_path
    pub dest : FitsPath task.dest_path
    pub mode : task.mode < 2 ^ 32
    pub size : length bytes + length bytes < two64

  Reads-receive_task :
      (task : SyncTask) (bytes : Bytes)
      → Fits task bytes
      → Reads (receive_task can_allocate) (task_bytes task bytes) (server_task task bytes)
  unfolding receive_task task_bytes
  Reads-receive_task task bytes h = Reads-bind _ (Reads-type_number task.is_directory) (
      Reads-path-then task.src_path _ _ h.src (
        Reads-path-then task.dest_path _ _ h.dest (
          Reads-bind _ (Reads-receive_mode task.mode h.mode) (
            rw (is_one-type_number task.is_directory) (
              Reads-map
                (λ size. record {
                  dest_path = task.dest_path;
                  src_path = task.src_path;
                  is_directory = task.is_directory;
                  mode = task.mode;
                  file_size = size;
                })
                (Reads-receive_file_size task.is_directory bytes h.size))))))

  abbrev pub AllFit : List Job → Type 0
  AllFit = All (λ (j : Job). Fits j.0 j.1)

  Reads-receive_tasks :
      (jobs : List Job)
      → AllFit jobs
      → Reads
          (receive_tasks can_allocate (length (tasks_of jobs)))
          (metadata_stream jobs)
          (server_tasks jobs)
  unfolding receive_tasks
  Reads-receive_tasks [] h = Reads-pure []
  Reads-receive_tasks ((task, bytes) ∷ rest) h =
      Reads-bind _ (Reads-receive_task task bytes h.0)
        (Reads-map (λ tasks. server_task task bytes ∷ tasks) (Reads-receive_tasks rest h.1))

  -- receiveTaskMetadata reads back the tasks whose metadata the client wrote, in order, taking
  -- exactly those bytes off the stream however it is cut into pieces, for paths without NUL that
  -- the server can allocate and modes and sizes in the range of their types.
  pub Reads-receive_task_metadata :
      (jobs : List Job)
      → AllFit jobs
      → Reads
          (receive_task_metadata can_allocate (pos (length (tasks_of jobs))))
          (metadata_stream jobs)
          (server_tasks jobs)
  unfolding receive_task_metadata
  Reads-receive_task_metadata jobs h = Reads-receive_tasks jobs h
