-- ===== src/Local.antt =====
-- A synchronisation on one machine: FileSync::transferFile, resumeSync, handleConflict,
-- cleanupCorruptedFile, syncFile, syncDirectory, executeSyncTask and syncLocal
-- (src/core/FileSync.cpp). The transfer of large files on a thread pool is an argument, `none`
-- where no pool is set, and so is what detectChanges finds. The output stream hands each block to
-- the kernel at once, and the input stream reads each block when it is asked for. The pauses of the
-- speed limit change no state.
pub mod Transfer
use file_sync_tool.Base.{
  ℕ, zero, suc, ◌+◌, Bool, true, false, not, Option, none, some, List, [], ◌∷◌, ◌++◌, length, take,
  drop, ltb, leb, if◌then◌else◌,
}
use file_sync_tool.Base.Int.{pos_part}
use file_sync_tool.Base.Text.{Bytes, codes, bytes_eq}
use file_sync_tool.Sending.{WriteEvent, write_loop}
use file_sync_tool.Disk.{Disk, Stat, or_empty}
use file_sync_tool.FileUtil.{parent, file_exists, set_file_mode, create_directory}
use file_sync_tool.Metadata.{SyncTask}
use file_sync_tool.Progress.{progress_path, save_progress, load_progress, clear_progress, resumable}

-- The disk, and what the calls of write are going to do.
pub record Local (D : Disk) : Type 0 where
  pub disk : D.State
  pub writes : List WriteEvent

pub data Strategy : Type 0 where
  overwrite skip rename other : Strategy

abbrev pub block_size : ℕ
block_size = 4096

module _ (D : Disk) where
  abbrev pub Run : Type 0
  Run = Local D → Bool × Local D

  abbrev pub on_disk : (D.State → D.State) → Local D → Local D
  on_disk f s = record s { disk = f s.disk }

  -- destFile.write: whether all was written
  unfoldable pub write_block : Bytes → Bytes → Run
  write_block path bs s =
      let (done, all, rest) = write_loop s.writes bs in
      (all, record { disk = D.append s.disk path done; writes = rest })

  -- The last, short block, whose write is not checked; there is none where the file ends on a
  -- block.
  unfoldable pub write_last : Bytes → Bytes → Local D → Local D
  unfolding write_block
  write_last path [] s = s
  write_last path (b ∷ bs) s = (write_block path (b ∷ bs) s).1

  abbrev pub after_block : Bytes → ℕ → ℕ → ℕ → Bool × Local D → Run → Bool × Local D
  after_block path transferred n total (false, s) next =
      (false, on_disk (λ t. save_progress D t path transferred total) s)
  after_block path transferred n total (true, s) next =
      next (on_disk (λ t. save_progress D t path (transferred + n) total) s)

  -- What a read of the open source finds from a position on.
  abbrev pub rest_of : Bytes → ℕ → D.State → Bytes
  rest_of src position t = drop position (or_empty (D.content t src))

  -- The loop of transferFile with its last read. A round takes 4096 bytes, so as many rounds as
  -- there are bytes are enough for a source that does not grow under the transfer, as it does where
  -- it is the destination itself.
  unfoldable pub copy_blocks : ℕ → Bytes → Bytes → ℕ → ℕ → Run
  unfolding write_block write_last
  copy_blocks zero src path transferred total s =
      (true, write_last path (rest_of src transferred s.disk) s)
  copy_blocks (suc fuel) src path transferred total s =
      let bs = rest_of src transferred s.disk in
      let more =
        after_block path transferred block_size total (write_block path (take block_size bs) s)
          (copy_blocks fuel src path (transferred + block_size) total) in
      if ltb (length bs) block_size then (true, write_last path bs s) else more

  abbrev pub end_copy : Bytes → Bool × Local D → Bool × Local D
  end_copy path (false, s) = (false, s)
  end_copy path (true, s) = (true, on_disk (λ t. clear_progress D t path) s)

  abbrev pub copy_from : Bytes → Bytes → ℕ → Run
  copy_from src path offset s =
      let total = length (rest_of src 0 s.disk) in
      end_copy path (copy_blocks total src path offset total s)

  -- Both files are opened before either is checked: a destination without a source is emptied.
  abbrev pub copy_opened : Bytes → Bytes → ℕ → Option Bytes → Option D.State → Run
  copy_opened src path offset none none s = (false, s)
  copy_opened src path offset none (some t) s = (false, record s { disk = t })
  copy_opened src path offset (some _) none s = (false, s)
  copy_opened src path offset (some _) (some t) s =
      copy_from src path offset (record s { disk = t })

  -- The destination stream: at the end for a positive offset, emptied otherwise.
  abbrev pub open_output : D.State → Bytes → ℕ → Option D.State
  open_output t path zero = D.open_trunc t path
  open_output t path (suc n) = D.open_append t path

  -- FileSync::transferFile
  unfoldable pub transfer_file : Bytes → Bytes → ℕ → Run
  unfolding copy_blocks
  transfer_file src dest offset s =
      copy_opened src dest offset (D.open_read s.disk src) (open_output s.disk dest offset) s

  -- FileSync::resumeSync
  unfoldable pub resume_sync : Bytes → Bytes → Run
  unfolding transfer_file
  resume_sync src dest s =
      let progress = load_progress D s.disk dest in
      if resumable progress then transfer_file src dest (pos_part progress.offset) s else (false, s)

  abbrev pub renamed : Option D.State → Run
  renamed none s = (false, s)
  renamed (some t) s = (true, record s { disk = t })

  -- FileSync::handleConflict
  unfoldable pub handle_conflict : Strategy → Bytes → Run
  handle_conflict Strategy.overwrite dest s = (true, s)
  handle_conflict Strategy.skip dest s = (false, s)
  handle_conflict Strategy.rename dest s = renamed (D.rename s.disk dest (dest ++ codes ".bak")) s
  handle_conflict Strategy.other dest s = (true, s)

  abbrev pub remove_if_there : Bytes → D.State → D.State
  remove_if_there path t = if file_exists D t path then D.remove t path else t

  -- FileSync::cleanupCorruptedFile
  unfoldable pub cleanup_corrupted_file : Bytes → Local D → Local D
  cleanup_corrupted_file dest =
      on_disk (λ t. remove_if_there (progress_path dest) (remove_if_there dest t))

  -- A mode that is set without a look at the result.
  abbrev pub with_mode : Bytes → ℕ → Local D → Local D
  with_mode path mode = on_disk (λ t. (set_file_mode D t path mode).1)

  abbrev pub ensure_parent : Bytes → Run
  ensure_parent path s = elim (parent path) [
    | none ↦ (true, s)
    | some dir ↦ let (made, t) = create_directory D s.disk dir 493 in (made, record s { disk = t })
  ]

  abbrev pub resolve_conflict : Strategy → Bytes → Run
  resolve_conflict strategy dest s =
      if file_exists D s.disk dest then handle_conflict strategy dest s else (true, s)

  abbrev pub is_large : ℕ → Option Stat → Bool
  is_large threshold none = false
  is_large threshold (some st) = leb threshold st.size

  module _ (strategy : Strategy) (large : Option (Bytes → Bytes → Run)) where
    abbrev pub finish_plain : SyncTask → Bool × Local D → Bool × Local D
    finish_plain task (true, s) = (true, with_mode task.dest_path task.mode s)
    finish_plain task (false, s) = (false, cleanup_corrupted_file task.dest_path s)

    abbrev pub copy_plain : SyncTask → Run
    copy_plain task s = finish_plain task (transfer_file task.src_path task.dest_path 0 s)

    abbrev pub finish_large : SyncTask → Bool × Local D → Bool × Local D
    finish_large task (true, s) = (true, with_mode task.dest_path task.mode s)
    finish_large task (false, s) = copy_plain task (cleanup_corrupted_file task.dest_path s)

    abbrev pub copy_whole : SyncTask → Option (Bytes → Bytes → Run) → Run
    copy_whole task none s = copy_plain task s
    copy_whole task (some run) s =
        if is_large 10485760 (D.stat s.disk task.src_path)
        then finish_large task (run task.src_path task.dest_path s)
        else copy_plain task s

    -- A resumed transfer that fails falls back to a whole one.
    abbrev pub after_resume : SyncTask → Bool × Local D → Bool × Local D
    after_resume task (true, s) = (
      true,
      with_mode task.dest_path task.mode (on_disk (λ t. clear_progress D t task.dest_path) s),
    )
    after_resume task (false, s) = copy_whole task large s

    abbrev pub copy_data : SyncTask → Run
    copy_data task s =
        let progress = load_progress D s.disk task.dest_path in
        if resumable progress
        then after_resume task
            (transfer_file task.src_path task.dest_path (pos_part progress.offset) s)
        else copy_whole task large s

    abbrev pub and_then : Bool × Local D → Run → Bool × Local D
    and_then (false, s) next = (false, s)
    and_then (true, s) next = next s

    -- FileSync::syncFile
    unfoldable pub sync_file : SyncTask → Run
    unfolding transfer_file handle_conflict cleanup_corrupted_file
    sync_file task s =
        if not (file_exists D s.disk task.src_path)
        then (false, s)
        else and_then (ensure_parent task.dest_path s)
            (λ t. and_then (resolve_conflict strategy task.dest_path t) (copy_data task))

    -- FileSync::syncDirectory
    unfoldable pub sync_directory : SyncTask → Run
    sync_directory task s =
        and_then
          (let (made, t) = create_directory D s.disk task.dest_path 493 in
            (made, record s { disk = t }))
          (λ s'.
            let (set, t) = set_file_mode D s'.disk task.dest_path task.mode in
            (set, record s' { disk = t }))

    -- FileSync::executeSyncTask
    unfoldable pub execute_sync_task : SyncTask → Run
    unfolding sync_file sync_directory
    execute_sync_task task s = if task.is_directory then sync_directory task s else sync_file task s

    -- The loop of syncLocal ends at the first task that fails.
    unfoldable pub execute_tasks : List SyncTask → Run
    unfolding execute_sync_task
    execute_tasks [] s = (true, s)
    execute_tasks (task ∷ rest) s = and_then (execute_sync_task task s) (execute_tasks rest)

    -- FileSync::syncLocal, `detect` being what detectChanges finds.
    unfoldable pub sync_local : Bytes → (D.State → List SyncTask) → Run
    unfolding execute_tasks
    sync_local dest_dir detect s =
        and_then
          (let (made, t) = create_directory D s.disk dest_dir 493 in (made, record s { disk = t }))
          (λ t. execute_tasks (detect t.disk) t)
