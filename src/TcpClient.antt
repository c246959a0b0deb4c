-- ===== src/TcpClient.antt =====
-- TcpClient (src/network/TcpClient.cpp). What socket, inet_pton and connect answer, what each call
-- of send does, and what arrives, are arguments. `open_socket` is `sockfd >= 0`.
pub mod Laws
use file_sync_tool.Base.{
  ℕ, ◌+◌, Bool, true, false, not, ◌&&◌, List, [], ◌∷◌, ◌++◌, take, drop, length, ◌==◌,
  if◌then◌else◌,
}
use file_sync_tool.Base.Text.{Bytes, bytes_eq, codes}
use file_sync_tool.Sending.{WriteEvent, send_loop}
use file_sync_tool.Socket.{Event, chunk, interrupted, failure, push_back}

pub record TcpClient : Type 0 where
  pub open_socket : Bool
  pub connected : Bool
  -- the bytes that the kernel has accepted for the peer
  pub sent : Bytes
  pub sends : List WriteEvent
  pub input : List Event

pub record Connecting : Type 0 where
  pub socket_ok : Bool
  pub address_ok : Bool
  pub connect_ok : Bool

-- TcpClient::connect
unfoldable pub connect : Connecting → TcpClient → Bool × TcpClient
connect k c =
    if not k.socket_ok
    then (false, record c { open_socket = false })
    else if not k.address_ok
    then (false, record c { open_socket = false })
    else if not k.connect_ok
    then (false, record c { open_socket = false })
    else (true, record c { open_socket = true; connected = true })

-- TcpClient::disconnect
unfoldable pub disconnect : TcpClient → TcpClient
disconnect c = record c { open_socket = false; connected = false }

-- TcpClient::send
unfoldable pub send : Bytes → TcpClient → Bool × TcpClient
unfolding send_loop
send data_ c =
    let (done, all, rest) = send_loop c.sends data_ in
    if not c.connected
    then (false, c)
    else (all, record c { connected = all; sent = c.sent ++ done; sends = rest })

-- TcpClient::receive: one call of recv, and what it returned.
unfoldable pub receive_connected : ℕ → List Event → Bytes × Bool × List Event
receive_connected size [] = ([], false, [])
receive_connected size (interrupted ∷ es) = ([], false, es)
receive_connected size (failure ∷ es) = ([], false, es)
receive_connected size (chunk b bs ∷ es) =
    (take size (b ∷ bs), true, push_back (drop size (b ∷ bs)) es)

unfoldable pub receive : ℕ → TcpClient → Bytes × TcpClient
unfolding receive_connected
receive size c =
    let (got, good, rest) = receive_connected size c.input in
    if not c.connected then ([], c) else (got, record c { connected = good; input = rest })

-- TcpClient::sendHeartbeat and receiveHeartbeat: "HB" with its NUL.
abbrev pub heartbeat : Bytes
heartbeat = codes "HB" ++ 0 ∷ []

unfoldable pub send_heartbeat : TcpClient → Bool × TcpClient
unfolding send
send_heartbeat c = send heartbeat c

unfoldable pub receive_heartbeat : TcpClient → Bool × TcpClient
unfolding receive
receive_heartbeat c = let (got, c') = receive 3 c in (bytes_eq got heartbeat, c')
