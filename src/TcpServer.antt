-- ===== src/TcpServer.antt =====
-- TcpServer (src/network/TcpServer.cpp). What the system calls answer is an argument.
use file_sync_tool.Base.{
  ℕ, Bool, true, false, not, Option, none, List, [], ◌∷◌, ◌++◌, take, drop, if◌then◌else◌,
}
use file_sync_tool.Base.Text.{Bytes, bytes_eq, codes}
use file_sync_tool.Sending.{WriteEvent, send_loop}
use file_sync_tool.Socket.{Event, chunk, interrupted, failure, push_back}

-- `listening` is `serverSock >= 0`.
pub record TcpServer : Type 0 where
  pub listening : Bool
  pub running : Bool

-- Which of socket, setsockopt, bind and listen succeed.
pub record Binding : Type 0 where
  pub socket_ok : Bool
  pub option_ok : Bool
  pub bind_ok : Bool
  pub listen_ok : Bool

abbrev pub new_tcp_server : TcpServer
new_tcp_server = record { listening = false; running = false }

-- TcpServer::start. Each failure leaves the descriptor -1.
unfoldable pub start_tcp : Binding → TcpServer → Bool × TcpServer
start_tcp b t =
    if not b.socket_ok
    then (false, record t { listening = false })
    else if not b.option_ok
    then (false, record t { listening = false })
    else if not b.bind_ok
    then (false, record t { listening = false })
    else if not b.listen_ok
    then (false, record t { listening = false })
    else (true, record t { listening = true; running = true })

-- TcpServer::stop
unfoldable pub stop_tcp : TcpServer → TcpServer
stop_tcp t = record t { listening = false; running = false }

-- TcpServer::accept, with what the call of accept answers; `none` is -1.
unfoldable pub accept_client : Option ℕ → TcpServer → Option ℕ
accept_client answer t = if t.running then answer else none

-- TcpServer::receive: one call of recv.
unfoldable pub receive_client : ℕ → List Event → Bytes × List Event
receive_client size [] = ([], [])
receive_client size (interrupted ∷ es) = ([], es)
receive_client size (failure ∷ es) = ([], es)
receive_client size (chunk b bs ∷ es) = (take size (b ∷ bs), push_back (drop size (b ∷ bs)) es)

-- TcpServer::sendHeartbeat and receiveHeartbeat: "HB" with its NUL.
unfoldable pub send_server_heartbeat : List WriteEvent → Bytes × Bool × List WriteEvent
unfolding send_loop
send_server_heartbeat es = send_loop es (codes "HB" ++ (0 ∷ []))

unfoldable pub receive_client_heartbeat : List Event → Bool × List Event
unfolding receive_client
receive_client_heartbeat es =
    let (got, rest) = receive_client 3 es in (bytes_eq got (codes "HB" ++ (0 ∷ [])), rest)
