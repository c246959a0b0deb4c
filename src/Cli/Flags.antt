-- ===== src/Cli/Flags.antt =====
-- The settings that the options of src/cli/main.cpp ask for, each by itself.
use file_sync_tool.Base.{ℕ, ◌≡◌, Bool, true, false, ◌||◌, Option, none, some, List, [], ◌∷◌}
use file_sync_tool.Base.Int.{ℤ}
use file_sync_tool.Base.Text.{Bytes}
use file_sync_tool.Cli.{
  Flag, source, destination, host, port, threads, limit, conflict, server_dir, resume, server, help,
  version, unknown, Settings,
}

abbrev pub or_else_value : {A : Type 0} → Option A → A → A
or_else_value none start = start
or_else_value (some a) start = a

-- The last value that a list of options gives, or a default.
abbrev pub last_of : {A : Type 0} → (Flag → Option A) → A → List Flag → A
last_of value start [] = start
last_of value start (f ∷ fs) = last_of value (or_else_value (value f) start) fs

-- Whether an option is there.
abbrev pub any_of : (Flag → Bool) → Bool → List Flag → Bool
any_of test start [] = start
any_of test start (f ∷ fs) = any_of test (test f || start) fs

module _ (stoi : Bytes → Option ℤ) (stoul : Bytes → Option ℕ) where
  abbrev pub source_in : Flag → Option Bytes
  source_in (source bs) = some bs
  source_in (destination bs) = none
  source_in (host bs) = none
  source_in (port bs) = none
  source_in (threads bs) = none
  source_in (limit bs) = none
  source_in (conflict bs) = none
  source_in resume = none
  source_in server = none
  source_in (server_dir bs) = none
  source_in help = none
  source_in version = none
  source_in unknown = none

  abbrev pub destination_in : Flag → Option Bytes
  destination_in (source bs) = none
  destination_in (destination bs) = some bs
  destination_in (host bs) = none
  destination_in (port bs) = none
  destination_in (threads bs) = none
  destination_in (limit bs) = none
  destination_in (conflict bs) = none
  destination_in resume = none
  destination_in server = none
  destination_in (server_dir bs) = none
  destination_in help = none
  destination_in version = none
  destination_in unknown = none

  abbrev pub host_in : Flag → Option Bytes
  host_in (source bs) = none
  host_in (destination bs) = none
  host_in (host bs) = some bs
  host_in (port bs) = none
  host_in (threads bs) = none
  host_in (limit bs) = none
  host_in (conflict bs) = none
  host_in resume = none
  host_in server = none
  host_in (server_dir bs) = none
  host_in help = none
  host_in version = none
  host_in unknown = none

  abbrev pub port_in : Flag → Option ℤ
  port_in (source bs) = none
  port_in (destination bs) = none
  port_in (host bs) = none
  port_in (port bs) = stoi bs
  port_in (threads bs) = none
  port_in (limit bs) = none
  port_in (conflict bs) = none
  port_in resume = none
  port_in server = none
  port_in (server_dir bs) = none
  port_in help = none
  port_in version = none
  port_in unknown = none

  abbrev pub threads_in : Flag → Option ℕ
  threads_in (source bs) = none
  threads_in (destination bs) = none
  threads_in (host bs) = none
  threads_in (port bs) = none
  threads_in (threads bs) = stoul bs
  threads_in (limit bs) = none
  threads_in (conflict bs) = none
  threads_in resume = none
  threads_in server = none
  threads_in (server_dir bs) = none
  threads_in help = none
  threads_in version = none
  threads_in unknown = none

  abbrev pub limit_in : Flag → Option ℕ
  limit_in (source bs) = none
  limit_in (destination bs) = none
  limit_in (host bs) = none
  limit_in (port bs) = none
  limit_in (threads bs) = none
  limit_in (limit bs) = stoul bs
  limit_in (conflict bs) = none
  limit_in resume = none
  limit_in server = none
  limit_in (server_dir bs) = none
  limit_in help = none
  limit_in version = none
  limit_in unknown = none

  abbrev pub conflict_in : Flag → Option Bytes
  conflict_in (source bs) = none
  conflict_in (destination bs) = none
  conflict_in (host bs) = none
  conflict_in (port bs) = none
  conflict_in (threads bs) = none
  conflict_in (limit bs) = none
  conflict_in (conflict bs) = some bs
  conflict_in resume = none
  conflict_in server = none
  conflict_in (server_dir bs) = none
  conflict_in help = none
  conflict_in version = none
  conflict_in unknown = none

  abbrev pub server_dir_in : Flag → Option Bytes
  server_dir_in (source bs) = none
  server_dir_in (destination bs) = none
  server_dir_in (host bs) = none
  server_dir_in (port bs) = none
  server_dir_in (threads bs) = none
  server_dir_in (limit bs) = none
  server_dir_in (conflict bs) = none
  server_dir_in resume = none
  server_dir_in server = none
  server_dir_in (server_dir bs) = some bs
  server_dir_in help = none
  server_dir_in version = none
  server_dir_in unknown = none

  abbrev pub is_host : Flag → Bool
  is_host (source bs) = false
  is_host (destination bs) = false
  is_host (host bs) = true
  is_host (port bs) = false
  is_host (threads bs) = false
  is_host (limit bs) = false
  is_host (conflict bs) = false
  is_host resume = false
  is_host server = false
  is_host (server_dir bs) = false
  is_host help = false
  is_host version = false
  is_host unknown = false

  abbrev pub is_resume : Flag → Bool
  is_resume (source bs) = false
  is_resume (destination bs) = false
  is_resume (host bs) = false
  is_resume (port bs) = false
  is_resume (threads bs) = false
  is_resume (limit bs) = false
  is_resume (conflict bs) = false
  is_resume resume = true
  is_resume server = false
  is_resume (server_dir bs) = false
  is_resume help = false
  is_resume version = false
  is_resume unknown = false

  abbrev pub is_server_flag : Flag → Bool
  is_server_flag (source bs) = false
  is_server_flag (destination bs) = false
  is_server_flag (host bs) = false
  is_server_flag (port bs) = false
  is_server_flag (threads bs) = false
  is_server_flag (limit bs) = false
  is_server_flag (conflict bs) = false
  is_server_flag resume = false
  is_server_flag server = true
  is_server_flag (server_dir bs) = false
  is_server_flag help = false
  is_server_flag version = false
  is_server_flag unknown = false

  -- The settings by option, each with its last value.
  abbrev pub settings_of : List Flag → Settings → Settings
  settings_of fs s = record {
    source_dir = last_of source_in s.source_dir fs;
    dest_dir = last_of destination_in s.dest_dir fs;
    host_name = last_of host_in s.host_name fs;
    port_number = last_of port_in s.port_number fs;
    thread_count = last_of threads_in s.thread_count fs;
    speed_limit = last_of limit_in s.speed_limit fs;
    strategy = last_of conflict_in s.strategy fs;
    resumes = any_of is_resume s.resumes fs;
    is_remote = any_of is_host s.is_remote fs;
    is_server = any_of is_server_flag s.is_server fs;
    base_dir = last_of server_dir_in s.base_dir fs;
  }

  -- An option with a number that can be read, or one that is not the end of the program.
  abbrev pub IsFine : Flag → Type 0
  IsFine (source bs) = Unit {0}
  IsFine (destination bs) = Unit {0}
  IsFine (host bs) = Unit {0}
  IsFine (port bs) = (n : ℤ) × (stoi bs ≡ some n)
  IsFine (threads bs) = (n : ℕ) × (stoul bs ≡ some n)
  IsFine (limit bs) = (n : ℕ) × (stoul bs ≡ some n)
  IsFine (conflict bs) = Unit {0}
  IsFine resume = Unit {0}
  IsFine server = Unit {0}
  IsFine (server_dir bs) = Unit {0}
  IsFine help = ⊥
  IsFine version = ⊥
  IsFine unknown = ⊥
