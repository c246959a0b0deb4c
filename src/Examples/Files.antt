-- ===== src/Examples/Files.antt =====
-- Single files, directories and progress files, on a file system in memory.
use file_sync_tool.Base.{
  ◌≡◌, refl, ap, ◌∙◌, true, false, none, some, List, [], ◌∷◌, ◌++◌, arith, All,
}
use file_sync_tool.Base.Int.{pos}
use file_sync_tool.Base.Text.{Bytes, codes, bytes_eq}
use file_sync_tool.Action.{stop, refused}
use file_sync_tool.Sending
use file_sync_tool.Socket.{Event, chunk, receive_bytes}
use file_sync_tool.Socket
use file_sync_tool.Socket.Laws.{ReceivesAll, receive_bytes-all, receive_bytes-short}
use file_sync_tool.Disk.Memory.{Node, Files, put, memory, memory-IsLawful}
use file_sync_tool.FileUtil.{prefixes, create_directory}
use file_sync_tool.FileUtil.Laws.{Exists, create_directory-Exists, create_directory-Done}
use file_sync_tool.Progress.{progress_path, progress_text, resumable, load_progress, save_progress}
use file_sync_tool.Progress.Laws.{
  HasNoSpace, recorded, parse_progress-text, resumable-HasNoSpace, load-save,
}
use file_sync_tool.Server.Session.{Session}
use file_sync_tool.Server.Session.Files.{
  Receives, receive_file_data-fresh, receive_file_data-resumed, receive_file_data-mismatch,
}
use file_sync_tool.Examples.Serving.{target, IsOther, IsClear, memory-Makes, memory-Serves}

abbrev empty_files : Files
empty_files p = none

-- The first three bytes of a file.
abbrev part_there : Files
part_there = put empty_files target (some (Node.file (codes "abc") 420))

abbrev session_on : Files → List Event → Session memory
session_on s es = record {
  disk = s;
  input = es;
  writes = file_sync_tool.Sending.interrupted ∷ [];
  sends = [];
  output = [];
  processed = 0;
  closed = false;
}

abbrev three_events : List Event
three_events = chunk 1 (2 ∷ []) ∷ (file_sync_tool.Socket.interrupted ∷ (chunk 3 (4 ∷ []) ∷ []))

appends_clear : (s : Files) (bs : Bytes) → IsClear s → IsClear (memory.append s target bs)
unfolding bytes_eq
appends_clear s bs g = memory-Serves.appends s target bs g refl

receive_file_data-fresh_example :
    Receives memory memory-IsLawful IsClear target appends_clear
      (pos 3)
      (pos 0)
      (1 ∷ (2 ∷ (3 ∷ [])))
      (4 ∷ [])
      (session_on part_there three_events)
unfolding bytes_eq
receive_file_data-fresh_example =
    receive_file_data-fresh memory memory-IsLawful IsClear target appends_clear (1 ∷ (2 ∷ (3 ∷ [])))
      (4 ∷ []) (session_on part_there three_events) refl refl tt refl

receive_file_data-resumed_example :
    Receives memory memory-IsLawful IsClear target appends_clear
      (pos 6)
      (pos 3)
      (codes "abc" ++ (1 ∷ (2 ∷ (3 ∷ []))))
      (4 ∷ [])
      (session_on part_there three_events)
unfolding bytes_eq
receive_file_data-resumed_example =
    receive_file_data-resumed memory memory-IsLawful IsClear target appends_clear (codes "abc")
      (1 ∷ (2 ∷ (3 ∷ []))) (4 ∷ []) (session_on part_there three_events) (omega arith) refl refl
      refl tt refl

-- The client goes on from byte 2 of a file of 3, and the next two bytes are lost to the file.
receive_file_data-mismatch_example :
    Receives memory memory-IsLawful IsClear target appends_clear
      (pos 3)
      (pos 2)
      ((1 ∷ []) ++ (2 ∷ (3 ∷ [])))
      (4 ∷ [])
      (session_on part_there three_events)
unfolding bytes_eq
receive_file_data-mismatch_example =
    receive_file_data-mismatch memory memory-IsLawful IsClear target appends_clear 2 (1 ∷ [])
      (2 ∷ (3 ∷ [])) (4 ∷ []) (session_on part_there three_events) (omega arith) refl (omega arith)
      refl refl refl tt refl

receive_bytes-all_example : ReceivesAll three_events 3
receive_bytes-all_example = receive_bytes-all three_events 3 (omega arith)

receive_bytes-short_example : (receive_bytes 5 three_events).0 ≡ stop refused
receive_bytes-short_example = receive_bytes-short three_events 5 (omega arith)

abbrev nested : Bytes
nested = codes "a/b"

create_directory-Done_example :
    ((create_directory memory empty_files nested 493).0 ≡ true)
    × IsClear (create_directory memory empty_files nested 493).1
unfolding bytes_eq prefixes
create_directory-Done_example =
    create_directory-Done memory memory-IsLawful IsOther IsClear memory-Makes empty_files nested 493
      refl ((λ _. refl), ((λ _. refl), tt))

create_directory-Exists_example :
    All (Exists memory (create_directory memory empty_files nested 493).1) (prefixes [] nested)
create_directory-Exists_example =
    create_directory-Exists memory memory-IsLawful empty_files nested 493
      create_directory-Done_example.0

abbrev recorded_path : Bytes
recorded_path = codes "b"

resumable-HasNoSpace_example : HasNoSpace (98 ∷ [])
resumable-HasNoSpace_example = resumable-HasNoSpace (98 ∷ []) (progress_text (98 ∷ []) 12 345) (
    ap resumable (parse_progress-text 98 [] 12 345 (refl, tt) (omega arith) (omega arith))
    ∙ unfold resumable in refl)

load-save_example :
    load_progress memory (save_progress memory empty_files (98 ∷ []) 12 345) (98 ∷ [])
    ≡ recorded (98 ∷ []) 12 345
unfolding save_progress bytes_eq progress_path
load-save_example =
    load-save memory memory-IsLawful empty_files 98 [] 12 345 (refl, tt) (omega arith) (omega arith)
      refl refl
