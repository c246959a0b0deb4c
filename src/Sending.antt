-- ===== src/Sending.antt =====
-- The loops that hand a buffer to the kernel: the write loop of SyncServer::receiveFileData
-- (src/server/SyncServer.cpp), and TcpServer::send and TcpClient::send (src/network).
pub mod Laws
use file_sync_tool.Base.{Bool, true, false, List, [], ◌∷◌, ◌++◌, take, drop}
use file_sync_tool.Base.Text.{Bytes}
use file_sync_tool.Base.{ℕ}

-- What one call of write(2) or send(2) does with the bytes it is given.
pub data WriteEvent : Type 0 where
  accepts : ℕ → WriteEvent
  interrupted : WriteEvent
  fails : WriteEvent

-- The loop `while (totalWritten < n)` of SyncServer::receiveFileData: the bytes that were accepted,
-- and whether all were. A call for which the list has no event accepts all that it is given.
unfoldable pub write_loop : List WriteEvent → Bytes → Bytes × Bool × List WriteEvent
write_loop [] bs = (bs, true, [])
write_loop (e ∷ es) [] = ([], true, e ∷ es)
write_loop (accepts k ∷ es) (b ∷ bs) =
    let (done, all, rest) = write_loop es (drop k (b ∷ bs)) in (take k (b ∷ bs) ++ done, all, rest)
write_loop (interrupted ∷ es) (b ∷ bs) = write_loop es (b ∷ bs)
write_loop (fails ∷ es) (b ∷ bs) = ([], false, es)

-- The loop of TcpServer::send and TcpClient::send: any error ends it.
unfoldable pub send_loop : List WriteEvent → Bytes → Bytes × Bool × List WriteEvent
send_loop [] bs = (bs, true, [])
send_loop (e ∷ es) [] = ([], true, e ∷ es)
send_loop (accepts k ∷ es) (b ∷ bs) =
    let (done, all, rest) = send_loop es (drop k (b ∷ bs)) in (take k (b ∷ bs) ++ done, all, rest)
send_loop (interrupted ∷ es) (b ∷ bs) = ([], false, es)
send_loop (fails ∷ es) (b ∷ bs) = ([], false, es)
