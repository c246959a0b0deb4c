-- ===== src/Examples/Async.antt =====
-- The asynchronous I/O at concrete inputs.
use file_sync_tool.Base.{ℕ, ◌≡◌, refl, Bool, true, some, arith}
use file_sync_tool.Base.Int.{pos}
use file_sync_tool.Base.Text.{Bytes, codes}
use file_sync_tool.Sending.{accepts}
use file_sync_tool.AsyncIo.{
  Handler, writable, new_handler, start_io, register_write, remove, handle_event,
}
use file_sync_tool.AsyncIo.Laws.{IsConsistent, Keeps, Run, Run-IsConsistent}
use file_sync_tool.AsyncIo.SendFile.{Callback, send_file_via_async_io}
use file_sync_tool.AsyncIo.SendFile.Waits.{Waits, send_file_via_async_io-Waits}

-- A handler whose callbacks count.
abbrev Counting : Type 0
Counting = Handler Bool Bool × ℕ

abbrev count_read : Bool → ℕ → Bytes → Counting → Counting
count_read r fd bs (h, n) = (h, 1)

abbrev count_write : Bool → ℕ → Counting → Counting
count_write c fd (h, n) = (remove fd h, 2)

abbrev keep_count : ℕ → Bytes → ℕ → ℕ
keep_count fd bs n = n

abbrev begin : Counting
begin = (new_handler true, 0)

abbrev registered_one : Handler Bool Bool
registered_one = register_write true 4 (codes "abc") true (start_io (new_handler true))

count-Keeps : Keeps count_read count_write keep_count
unfolding remove
count-Keeps = record { reads = λ r fd bs w c. c; writes = λ callback fd w c q. ground (arith, c q) }

begin-IsConsistent : IsConsistent begin.0
begin-IsConsistent q = refl

one_run :
    Run count_read count_write keep_count begin
      (handle_event count_read count_write keep_count 4 (writable (accepts 2)) (registered_one, 0))
one_run = Run.handles _ _ 4 (writable (accepts 2)) (
    Run.writes _ (start_io (new_handler true)) 0 true 4 (codes "abc") true
      (Run.starts _ (new_handler true) 0 (Run.here _)))

Run-IsConsistent_example :
    IsConsistent
      (handle_event count_read count_write keep_count 4
        (writable (accepts 2))
        (registered_one, 0)).0
Run-IsConsistent_example =
    Run-IsConsistent count_read count_write keep_count count-Keeps begin
      (handle_event count_read count_write keep_count 4 (writable (accepts 2)) (registered_one, 0))
      begin-IsConsistent one_run

-- The two bytes taken leave one in the table.
two_taken :
    (handle_event count_read count_write keep_count 4
        (writable (accepts 2))
        (registered_one, 0)).0.write_buffers
      4
    ≡ some (codes "c")
unfolding handle_event register_write start_io
two_taken = refl

abbrev running : Handler Callback Callback
running = record (new_handler true) { running = true }

send_file_via_async_io-Waits_example : Waits 4 (codes "abc") (
    send_file_via_async_io true 4
      (some (record { size = 3; mtime = pos 0; mode = 33188 }))
      (some (codes "abc"))
      running)
send_file_via_async_io-Waits_example =
    send_file_via_async_io-Waits 4 (record { size = 3; mtime = pos 0; mode = 33188 }) (codes "abc")
      running refl refl (omega arith)
