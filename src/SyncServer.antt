-- ===== src/SyncServer.antt =====
-- The life of a SyncServer (src/server/SyncServer.cpp): setBaseDirectory, start with its accept
-- thread, and stop. A connection is known by its descriptor, and so is the task that handles it.
pub mod Accepts
use file_sync_tool.Base.{
  ℕ, Bool, true, false, not, Option, none, some, List, [], ◌∷◌, ◌++◌, if◌then◌else◌,
}
use file_sync_tool.Base.Text.{Bytes}
use file_sync_tool.TcpServer.{
  TcpServer, Binding, new_tcp_server, start_tcp, stop_tcp, accept_client,
}
use file_sync_tool.ThreadPool
use file_sync_tool.ThreadPool.{Shared, Pool, new_pool, submit}
use file_sync_tool.Rpc.Handlers.{with_slash}

-- The members; `none` is a null pointer. The accept thread is there or not.
pub record SyncServer : Type 0 where
  pub tcp : Option TcpServer
  pub pool : Option Pool
  pub io_running : Bool
  pub rpc_base : Option Bytes
  pub running : Bool
  pub processed : ℕ
  pub base : Bytes
  pub has_accept_thread : Bool

-- SyncServer::SyncServer
abbrev pub new_sync_server : SyncServer
new_sync_server = record {
  tcp = none;
  pool = none;
  io_running = false;
  rpc_base = none;
  running = false;
  processed = 0;
  base = [];
  has_accept_thread = false;
}

-- SyncServer::setBaseDirectory
unfoldable pub set_base_directory : Bytes → SyncServer → SyncServer
unfolding with_slash
set_base_directory dir s = record s { base = with_slash dir }

-- Which of the calls succeed that make the epoll instances of the asynchronous I/O and of the
-- accept thread, and that registers the listening socket with the latter.
pub record Epolls : Type 0 where
  pub io_ok : Bool
  pub accept_ok : Bool
  pub add_ok : Bool

-- SyncServer::start
abbrev pub start_listening : Epolls → ℕ → Bool × TcpServer → SyncServer → Bool × SyncServer
start_listening e threads (false, t) s = (false, record s { tcp = some t })
start_listening e threads (true, t) s = (
  true,
  record s {
    tcp = some t;
    pool = some (new_pool threads);
    io_running = e.io_ok;
    rpc_base = some (with_slash s.base);
    running = true;
    processed = 0;
    has_accept_thread = if e.accept_ok then e.add_ok else false;
  },
)

unfoldable pub start_server : Binding → Epolls → ℕ → SyncServer → Bool × SyncServer
unfolding start_tcp new_pool with_slash
start_server b e threads s =
    let started = start_listening e threads (start_tcp b new_tcp_server) s in
    if s.running then (false, s) else started

abbrev pub stopped_tcp : Option TcpServer → Option TcpServer
stopped_tcp none = none
stopped_tcp (some t) = some (stop_tcp t)

abbrev pub stopped_pool : Option Pool → Option Pool
stopped_pool none = none
stopped_pool (some (shared, workers)) = some (file_sync_tool.ThreadPool.stop shared, workers)

-- SyncServer::stop
unfoldable pub stop_server : SyncServer → SyncServer
unfolding stop_tcp file_sync_tool.ThreadPool.stop
stop_server s =
    if s.running
    then record s {
      tcp = stopped_tcp s.tcp;
      running = false;
      io_running = false;
      pool = stopped_pool s.pool;
    }
    else s

-- What a call of epoll_wait in the accept thread gives: an error, a timeout, or events, each with
-- whether it says that the listening socket is readable, and with what accept then answers.
pub data Poll : Type 0 where
  error : Poll
  timeout : Poll
  ready : List (Bool × Option ℕ) → Poll

abbrev pub accepted_by : Option ℕ → Option TcpServer → Option ℕ
accepted_by answer none = none
accepted_by answer (some t) = accept_client answer t

abbrev pub submitted : ℕ → Option Pool → Option Pool
submitted fd none = none
submitted fd (some (shared, workers)) = some (submit fd shared, workers)

-- The loop over the events. An accept that fails ends it where the server has been stopped.
abbrev pub after_accept : Option ℕ → (SyncServer → SyncServer) → SyncServer → SyncServer
after_accept none next s = if s.running then next s else s
after_accept (some fd) next s = next (record s { pool = submitted fd s.pool })

unfoldable pub accept_events : List (Bool × Option ℕ) → SyncServer → SyncServer
unfolding accept_client submit
accept_events [] s = s
accept_events ((false, answer) ∷ es) s = accept_events es s
accept_events ((true, answer) ∷ es) s = after_accept (accepted_by answer s.tcp) (accept_events es) s

-- One round of the accept thread, which is gone where the server does not run.
abbrev pub accept_poll : Poll → SyncServer → SyncServer
accept_poll error s = s
accept_poll timeout s = s
accept_poll (ready es) s = accept_events es s

unfoldable pub accept_round : Poll → SyncServer → SyncServer
unfolding accept_events
accept_round poll s =
    if not s.running
    then record s { has_accept_thread = false }
    else if s.has_accept_thread
    then accept_poll poll s
    else s

-- What happens to a server: a round of its accept thread, or a call of stop.
pub data Moment : Type 0 where
  polls : Poll → Moment
  stops : Moment

unfoldable pub run_server : List Moment → SyncServer → SyncServer
unfolding accept_round stop_server
run_server [] s = s
run_server (polls poll ∷ ms) s = run_server ms (accept_round poll s)
run_server (stops ∷ ms) s = run_server ms (stop_server s)
