-- ===== src/Cli.antt =====
-- The command line (src/cli/main.cpp): the options, the choice of what runs, and the exit code.
-- What getopt_long gives is a list of options; std::stoi and std::stoul are arguments, `none` where
-- they throw, and so is what the server and the SyncManager return.
pub mod Flags
pub mod Laws
use file_sync_tool.Base.{
  ℕ, Bool, true, false, not, ◌&&◌, ◌||◌, Option, none, some, List, [], ◌∷◌, if◌then◌else◌,
}
use file_sync_tool.Base.Int.{ℤ, pos}
use file_sync_tool.Base.Text.{Bytes, codes}

pub data Flag : Type 0 where
  source destination host port threads limit conflict server_dir : Bytes → Flag
  resume server help version unknown : Flag

-- The variables of main that the options set.
pub record Settings : Type 0 where
  pub source_dir : Bytes
  pub dest_dir : Bytes
  pub host_name : Bytes
  pub port_number : ℤ
  pub thread_count : ℕ
  pub speed_limit : ℕ
  pub strategy : Bytes
  pub resumes : Bool
  pub is_remote : Bool
  pub is_server : Bool
  pub base_dir : Bytes

abbrev pub defaults : Settings
defaults = record {
  source_dir = [];
  dest_dir = [];
  host_name = [];
  port_number = pos 8888;
  thread_count = 8;
  speed_limit = 0;
  strategy = codes "overwrite";
  resumes = false;
  is_remote = false;
  is_server = false;
  base_dir = [];
}

-- How main ends early: with an exit code, or by an exception that nothing catches.
pub data Ending : Type 0 where
  exits : ℕ → Ending
  terminates : Ending

pub data Parsed : Type 0 where
  ends : Ending → Parsed
  goes_on : Settings → Parsed

-- What the rest of the program returns.
pub record Program : Type 0 where
  pub server_started : Bytes → ℤ → ℕ → Bool
  pub remote_synced : Settings → Bool → Bool
  pub resumed : Settings → Bool
  pub local_synced : Settings → Bool

abbrev pub is_blank : Bytes → Bool
is_blank [] = true
is_blank (b ∷ bs) = false

module _ (stoi : Bytes → Option ℤ) (stoul : Bytes → Option ℕ) where
  abbrev pub with_number : {A : Type 0} → Option A → (A → Parsed) → Parsed
  with_number none next = ends terminates
  with_number (some n) next = next n

  -- The switch of the loop, and the loop.
  abbrev pub read_flag : Flag → Settings → (Settings → Parsed) → Parsed
  read_flag (source bs) s next = next (record s { source_dir = bs })
  read_flag (destination bs) s next = next (record s { dest_dir = bs })
  read_flag (host bs) s next = next (record s { host_name = bs; is_remote = true })
  read_flag (port bs) s next = with_number (stoi bs) (λ n. next (record s { port_number = n }))
  read_flag (threads bs) s next = with_number (stoul bs) (λ n. next (record s { thread_count = n }))
  read_flag (limit bs) s next = with_number (stoul bs) (λ n. next (record s { speed_limit = n }))
  read_flag (conflict bs) s next = next (record s { strategy = bs })
  read_flag resume s next = next (record s { resumes = true })
  read_flag server s next = next (record s { is_server = true })
  read_flag (server_dir bs) s next = next (record s { base_dir = bs })
  read_flag help s next = ends (exits 0)
  read_flag version s next = ends (exits 0)
  read_flag unknown s next = ends (exits 1)

  unfoldable pub read_flags : List Flag → Settings → Parsed
  read_flags [] s = goes_on s
  read_flags (f ∷ fs) s = read_flag f s (read_flags fs)

  -- The four calls of the SyncManager.
  unfoldable pub run_client : Program → Settings → Bool
  run_client p s =
      if s.resumes && s.is_remote
      then p.remote_synced s true
      else if s.resumes
      then p.resumed s
      else if s.is_remote
      then p.remote_synced s false
      else p.local_synced s

  abbrev pub exit_code : Bool → ℕ
  exit_code true = 0
  exit_code false = 1

  -- What follows the loop. A server that has started runs until a signal, and main then returns 0.
  unfoldable pub run_settings : Program → Settings → Ending
  unfolding run_client
  run_settings p s =
      if s.is_server
      then exits (exit_code (p.server_started s.base_dir s.port_number s.thread_count))
      else if is_blank s.source_dir || is_blank s.dest_dir
      then exits 1
      else exits (exit_code (run_client p s))

  abbrev pub run_parsed : Program → Parsed → Ending
  run_parsed p (ends e) = e
  run_parsed p (goes_on s) = run_settings p s

  unfoldable pub main : Program → List Flag → Ending
  unfolding read_flags run_settings
  main p flags = run_parsed p (read_flags flags defaults)
