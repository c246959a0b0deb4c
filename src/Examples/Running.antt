-- ===== src/Examples/Running.antt =====
-- The life of a server and the command line at concrete inputs.
use file_sync_tool.Base.{
  ℕ, ◌≡◌, refl, true, false, Option, none, some, List, [], ◌∷◌, if◌then◌else◌,
}
use file_sync_tool.Base.Int.{ℤ, pos}
use file_sync_tool.Base.Text.{Bytes, codes, bytes_eq}
use file_sync_tool.SyncServer.{
  new_sync_server, start_server, Moment, polls, stops, timeout, ready, run_server,
}
use file_sync_tool.SyncServer.Accepts.{
  Serves, all_bound, all_created, accepted_before_stop, run_server-Serves,
}
use file_sync_tool.Cli.{Flag, defaults, exits, Program, main}
use file_sync_tool.Cli.Flags.{settings_of}
use file_sync_tool.Cli.Laws.{expected, main-expected}

-- Two connections, one accept that fails, a stop, and one that comes too late.
abbrev an_hour : List Moment
an_hour =
    polls (ready ((true, some 7) ∷ ((false, none) ∷ ((true, none) ∷ []))))
    ∷ (polls timeout
        ∷ (polls (ready ((true, some 8) ∷ []))
            ∷ (stops ∷ (polls (ready ((true, some 9) ∷ [])) ∷ []))))

two_accepted : accepted_before_stop an_hour ≡ 7 ∷ (8 ∷ [])
two_accepted = refl

run_server-Serves_example :
    ((start_server all_bound all_created 4 new_sync_server).0 ≡ true)
    × Serves 4 an_hour (run_server an_hour (start_server all_bound all_created 4 new_sync_server).1)
run_server-Serves_example = run_server-Serves new_sync_server 4 an_hour refl

-- Numbers of one text only.
abbrev read_port : Bytes → Option ℤ
read_port bs = if bytes_eq bs (codes "9000") then some (pos 9000) else none

abbrev read_count : Bytes → Option ℕ
read_count bs = if bytes_eq bs (codes "4") then some 4 else none

-- Only a remote run with resume succeeds.
abbrev program : Program
program = record {
  server_started = λ dir port threads. false;
  remote_synced = λ s resumes. resumes;
  resumed = λ s. false;
  local_synced = λ s. false;
}

abbrev flags : List Flag
flags =
    Flag.resume
    ∷ (Flag.source (codes "a")
        ∷ (Flag.port (codes "9000")
            ∷ (Flag.host (codes "h")
                ∷ (Flag.destination (codes "b") ∷ (Flag.threads (codes "4") ∷ [])))))

main-expected_example :
    main read_port read_count program flags
    ≡ expected read_port read_count program (settings_of read_port read_count flags defaults)
unfolding bytes_eq
main-expected_example =
    main-expected read_port read_count program flags
      (tt, (tt, ((pos 9000, refl), (tt, (tt, ((4, refl), tt))))))

exit_zero : main read_port read_count program flags ≡ exits 0
unfolding main bytes_eq
exit_zero = refl
