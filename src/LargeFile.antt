-- ===== src/LargeFile.antt =====
-- The chunked copy of a large file: FileSync::robustPread, robustPwrite, transferChunk and
-- transferLargeFileAsync (src/core/FileSync.cpp). The chunks run one after another in any order;
-- each call of pread or pwrite does what an event says. The progress that the chunks save on the
-- way is left out, which is removed at the end: a source that is the progress file of its own
-- destination is beyond the model.
pub mod Laws
pub mod Runs
pub mod Success
pub mod Transfer
use file_sync_tool.Base.{
  ℕ, zero, suc, ◌+◌, ◌-◌, ◌*◌, ◌/◌, ◌%◌, min, Bool, true, false, ◌&&◌, Option, none, some, List, [],
  ◌∷◌, ◌++◌, length, take, drop, replicate, ◌==◌, if◌then◌else◌,
}
use file_sync_tool.Base.Int.{ℤ, pos, pos_part}
use file_sync_tool.Base.Text.{Bytes}
use file_sync_tool.Wire.{of_word, two32}
use file_sync_tool.Sending.{WriteEvent, accepts, interrupted, fails}
use file_sync_tool.Disk.{Disk, Stat, or_empty}
use file_sync_tool.Progress.{clear_progress}
use file_sync_tool.Space.{Volume, check_dest_space}
use file_sync_tool.Local.{Local, on_disk, cleanup_corrupted_file}

-- ASYNC_CHUNK_SIZE
abbrev pub chunk_size : ℕ
chunk_size = 4194304

abbrev pub past_end : ℕ → Bytes → Bytes
past_end o [] = []
past_end o (b ∷ bs) = replicate o 0 ++ b ∷ bs

-- What pwrite does to the bytes of a file: past the end the gap is filled with zeros.
unfoldable pub write_at : ℕ → Bytes → Bytes → Bytes
write_at zero [] xs = xs
write_at zero (b ∷ bs) [] = b ∷ write_at zero bs []
write_at zero (b ∷ bs) (x ∷ xs) = b ∷ write_at zero bs xs
write_at (suc o) bs [] = past_end (suc o) bs
write_at (suc o) bs (x ∷ xs) = x ∷ write_at o bs xs

abbrev pub prepend : Bytes → Option Bytes × List WriteEvent → Option Bytes × List WriteEvent
prepend got (none, es) = (none, es)
prepend got (some more, es) = (some (got ++ more), es)

-- FileSync::robustPread of what follows an offset: an event says how many bytes a call returns at
-- most. `none` is -1; 0 bytes end it.
unfoldable pub robust_pread : List WriteEvent → ℕ → Bytes → Option Bytes × List WriteEvent
robust_pread es zero bs = (some [], es)
robust_pread [] (suc n) bs = (some (take (suc n) bs), [])
robust_pread (interrupted ∷ es) (suc n) bs = robust_pread es (suc n) bs
robust_pread (fails ∷ es) (suc n) bs = (none, es)
robust_pread (accepts zero ∷ es) (suc n) bs = (some [], es)
robust_pread (accepts (suc k) ∷ es) (suc n) [] = (some [], es)
robust_pread (accepts (suc k) ∷ es) (suc n) (b ∷ bs) =
    prepend (b ∷ take (min k n) bs) (robust_pread es (n - min k n) (drop (min k n) bs))

-- FileSync::robustPwrite: the file after it, and whether the count of bytes written is the whole.
unfoldable pub robust_pwrite : List WriteEvent → ℕ → Bytes → Bytes → Bytes × Bool × List WriteEvent
robust_pwrite es o [] xs = (xs, true, es)
robust_pwrite [] o (b ∷ bs) xs = (write_at o (b ∷ bs) xs, true, [])
robust_pwrite (interrupted ∷ es) o (b ∷ bs) xs = robust_pwrite es o (b ∷ bs) xs
robust_pwrite (fails ∷ es) o (b ∷ bs) xs = (xs, false, es)
robust_pwrite (accepts zero ∷ es) o (b ∷ bs) xs = (xs, false, es)
robust_pwrite (accepts (suc k) ∷ es) o (b ∷ bs) xs =
    robust_pwrite es (o + length (b ∷ take k bs)) (drop k bs) (write_at o (b ∷ take k bs) xs)

pub record Copying : Type 0 where
  pub dest : Bytes
  pub reads : List WriteEvent
  pub writes : List WriteEvent
  pub has_error : Bool
  pub transferred : ℕ

abbrev pub Chunk : Type 0
Chunk = ℕ × ℕ

abbrev pub store : ℕ → Bytes → Copying → Bool × Copying
store o bs s =
    let (dest, all, rest) = robust_pwrite s.writes o bs s.dest in
    (all, record s { dest = dest; writes = rest })

-- bytesRead != chunkSize
abbrev pub read_whole : Chunk → Option Bytes × List WriteEvent → Copying → Bool × Copying
read_whole (o, size) (none, es) s = (false, record s { reads = es })
read_whole (o, size) (some bs, es) s =
    if length bs == size
    then store o bs (record s { reads = es })
    else (false, record s { reads = es })

module _ (src : Bytes) where
  -- FileSync::transferChunk; the buffer has room for a chunk.
  unfoldable pub transfer_chunk : Chunk → Copying → Bool × Copying
  unfolding robust_pread robust_pwrite
  transfer_chunk (o, size) s = read_whole (o, size) (robust_pread s.reads size (drop o src)) s

  abbrev pub after_chunk : ℕ → Bool × Copying → Bool × Copying
  after_chunk size (false, s) = (false, record s { has_error = true })
  after_chunk size (true, s) = (true, record s { transferred = s.transferred + size })

  -- The body of one asynchronous call.
  unfoldable pub run_chunk : Chunk → Copying → Bool × Copying
  unfolding transfer_chunk
  run_chunk (o, size) s =
      if s.has_error then (false, s) else after_chunk size (transfer_chunk (o, size) s)

  -- Whether all of the calls returned true.
  unfoldable pub run_chunks : List Chunk → Copying → Bool × Copying
  unfolding run_chunk
  run_chunks [] s = (true, s)
  run_chunks (c ∷ cs) s =
      let (good, t) = run_chunk c s in let (rest, u) = run_chunks cs t in (good && rest, u)

-- The loop over numChunks: where each chunk starts and its size.
unfoldable pub chunks : ℕ → ℕ → ℕ → List Chunk
chunks zero offset size = []
chunks (suc count) offset size =
    (offset, min chunk_size (size - offset)) ∷ chunks count (offset + chunk_size) size

-- (fileSize - offset + ASYNC_CHUNK_SIZE - 1) / ASYNC_CHUNK_SIZE, an off_t, as the int numChunks
-- holds it: from 2^31 chunks on it is negative or too small.
unfoldable pub chunk_count : ℕ → ℕ → ℤ
unfolding of_word
chunk_count offset size = of_word two32 ((size - offset + (chunk_size - 1)) / chunk_size % two32)

-- The rounds of the loop from 0 to numChunks, and the chunks of a transfer from the start.
abbrev pub all_chunks : ℕ → List Chunk
all_chunks size = chunks (pos_part (chunk_count 0 size)) 0 size

-- The chunks from the pre-allocated destination on, for a transfer from the start; `order` is how
-- they come to run.
unfoldable pub copy_chunks :
    Bytes → ℕ → (List Chunk → List Chunk) → List WriteEvent → List WriteEvent → Bool × Copying
unfolding run_chunks chunks chunk_count
copy_chunks src size order reads writes = run_chunks src (order (all_chunks size)) (record {
  dest = replicate size 0;
  reads = reads;
  writes = writes;
  has_error = false;
  transferred = 0;
})

-- What statvfs answers, whether ftruncate succeeds, how the chunks come to run, and what the calls
-- of pread and pwrite do are arguments.
module _ (D : Disk) (statvfs : Bytes → Option Volume) (truncates : Bool)
    (order : List Chunk → List Chunk) (reads writes : List WriteEvent) where
  -- The end of transferLargeFileAsync; the emptied destination has got the bytes of the chunks.
  abbrev pub end_large : Bytes → Bool × Copying → Local D → Bool × Local D
  end_large dest (false, c) s =
      (false, cleanup_corrupted_file D dest (on_disk D (λ t. D.append t dest c.dest) s))
  end_large dest (true, c) s =
      (true, on_disk D (λ t. clear_progress D (D.append t dest c.dest) dest) s)

  -- What pread finds in the source once ftruncate has filled the destination with zeros.
  abbrev pub source_bytes : Bytes → Bytes → ℕ → D.State → Bytes
  source_bytes src dest size t = or_empty (D.content (D.append t dest (replicate size 0)) src)

  abbrev pub with_output : Bytes → Bytes → ℕ → Option D.State → Local D → Bool × Local D
  with_output src dest size none s = (false, s)
  with_output src dest size (some t) s =
      let s' : Local D = record s { disk = t } in
      if truncates
      then end_large dest (copy_chunks (source_bytes src dest size t) size order reads writes) s'
      else (false, cleanup_corrupted_file D dest s')

  abbrev pub with_source : Bytes → Bytes → ℕ → Option Bytes → Local D → Bool × Local D
  with_source src dest size none s = (false, s)
  with_source src dest size (some _) s = with_output src dest size (D.open_trunc s.disk dest) s

  abbrev pub with_stat : Bytes → Bytes → Option Stat → Local D → Bool × Local D
  with_stat src dest none s = (false, s)
  with_stat src dest (some st) s =
      if check_dest_space statvfs dest (pos st.size)
      then with_source src dest st.size (D.open_read s.disk src) s
      else (false, s)

  -- FileSync::transferLargeFileAsync for the offset 0, which its caller passes. The progress that
  -- the chunks save is left out: it is removed at the end, whether they succeed or not.
  unfoldable pub transfer_large : Bytes → Bytes → Local D → Bool × Local D
  unfolding copy_chunks check_dest_space cleanup_corrupted_file clear_progress
  transfer_large src dest s = with_stat src dest (D.stat s.disk src) s
