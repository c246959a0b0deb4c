-- ===== src/Cli/Laws.antt =====
-- What the options come to, whatever their order.
use file_sync_tool.Base.{
  ℕ, ◌≡◌, refl, sym, ap, ◌∙◌, Bool, true, Option, List, [], ◌∷◌, arith, if◌then◌else◌, All,
}
use file_sync_tool.Base.Int.{ℤ}
use file_sync_tool.Base.Text.{Bytes}
use file_sync_tool.Cli.{
  Flag, source, destination, host, port, threads, limit, conflict, server_dir, resume, server, help,
  version, unknown, Settings, defaults, Ending, exits, goes_on, Program, is_blank, with_number,
  read_flags, run_client, exit_code, run_settings, run_parsed, main,
}
use file_sync_tool.Cli.Flags.{IsFine, or_else_value, settings_of}

module _ (stoi : Bytes → Option ℤ) (stoul : Bytes → Option ℕ) where
  read_flags-settings_of :
      (fs : List Flag) (s : Settings)
      → All (IsFine stoi stoul) fs
      → read_flags stoi stoul fs s ≡ goes_on ((settings_of stoi stoul) fs s)
  unfolding read_flags
  read_flags-settings_of [] s fine = refl
  read_flags-settings_of (source bs ∷ fs) s (_, fine) =
      read_flags-settings_of fs (record s { source_dir = bs }) fine
  read_flags-settings_of (destination bs ∷ fs) s (_, fine) =
      read_flags-settings_of fs (record s { dest_dir = bs }) fine
  read_flags-settings_of (host bs ∷ fs) s (_, fine) =
      read_flags-settings_of fs (record s { host_name = bs; is_remote = true }) fine
  read_flags-settings_of (port bs ∷ fs) s ((n, e), fine) =
      ap
        (λ o.
          with_number stoi stoul o (λ k. read_flags stoi stoul fs (record s { port_number = k })))
        e
      ∙ read_flags-settings_of fs (record s { port_number = n }) fine
      ∙ ap
          (λ o. goes_on (
            (settings_of stoi stoul) fs (record s { port_number = or_else_value o s.port_number })))
          (sym e)
  read_flags-settings_of (threads bs ∷ fs) s ((n, e), fine) =
      ap
        (λ o.
          with_number stoi stoul o (λ k. read_flags stoi stoul fs (record s { thread_count = k })))
        e
      ∙ read_flags-settings_of fs (record s { thread_count = n }) fine
      ∙ ap
          (λ o. goes_on (
            (settings_of stoi stoul) fs
              (record s { thread_count = or_else_value o s.thread_count })))
          (sym e)
  read_flags-settings_of (limit bs ∷ fs) s ((n, e), fine) =
      ap
        (λ o.
          with_number stoi stoul o (λ k. read_flags stoi stoul fs (record s { speed_limit = k })))
        e
      ∙ read_flags-settings_of fs (record s { speed_limit = n }) fine
      ∙ ap
          (λ o. goes_on (
            (settings_of stoi stoul) fs (record s { speed_limit = or_else_value o s.speed_limit })))
          (sym e)
  read_flags-settings_of (conflict bs ∷ fs) s (_, fine) =
      read_flags-settings_of fs (record s { strategy = bs }) fine
  read_flags-settings_of (resume ∷ fs) s (_, fine) =
      read_flags-settings_of fs (record s { resumes = true }) fine
  read_flags-settings_of (server ∷ fs) s (_, fine) =
      read_flags-settings_of fs (record s { is_server = true }) fine
  read_flags-settings_of (server_dir bs ∷ fs) s (_, fine) =
      read_flags-settings_of fs (record s { base_dir = bs }) fine
  read_flags-settings_of (help ∷ fs) s (bad, fine) = absurd bad
  read_flags-settings_of (version ∷ fs) s (bad, fine) = absurd bad
  read_flags-settings_of (unknown ∷ fs) s (bad, fine) = absurd bad

  -- What the settings ask for.
  abbrev pub client_result : Program → Settings → Bool
  client_result p s =
      if s.is_remote
      then p.remote_synced s s.resumes
      else if s.resumes
      then p.resumed s
      else p.local_synced s

  abbrev pub expected : Program → Settings → Ending
  expected p s =
      if s.is_server
      then exits (exit_code stoi stoul (p.server_started s.base_dir s.port_number s.thread_count))
      else if is_blank s.source_dir
      then exits 1
      else if is_blank s.dest_dir
      then exits 1
      else exits (exit_code stoi stoul (client_result p s))

  run_settings-expected : (p : Program) (s : Settings) → run_settings stoi stoul p s ≡ expected p s
  unfolding run_settings run_client
  run_settings-expected p s = go s.resumes s.is_remote refl refl
    where
      go :
          (r m : Bool)
          → s.resumes ≡ r
          → s.is_remote ≡ m
          → run_settings stoi stoul p s ≡ expected p s
      go r m e k = ground arith

  -- Where every option can be read and none ends the program, main takes each setting from its last
  -- option, whatever the order of different options, and then: starts the server if --server is
  -- there, refuses without a source and a destination, and otherwise makes the one call that the
  -- host and the resume option choose. Its exit code is 0 exactly if that call succeeded.
  pub main-expected :
      (p : Program) (flags : List Flag)
      → All (IsFine stoi stoul) flags
      → main stoi stoul p flags ≡ expected p ((settings_of stoi stoul) flags defaults)
  unfolding main
  main-expected p flags fine =
      ap (run_parsed stoi stoul p) (read_flags-settings_of flags defaults fine)
      ∙ run_settings-expected p ((settings_of stoi stoul) flags defaults)
