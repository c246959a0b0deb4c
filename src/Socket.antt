-- ===== src/Socket.antt =====
-- The receiving end of a connection: SyncServer::robustRead and SyncServer::receiveBytes
-- (src/server/SyncServer.cpp), and the chain of receives as a monad.
--
-- What the peer and the kernel do is a list of events, one for each call of read: data that has
-- arrived, an interrupted call (EINTR), or an error. Where the list ends the peer has closed.
pub mod Laws
use file_sync_tool.Base.{
  ℕ, zero, suc, ◌-◌, Option, none, some, List, [], ◌∷◌, ◌++◌, length, take, drop, ltb, ◌==◌,
  if◌then◌else◌,
}
use file_sync_tool.Base.Text.{Bytes}
use file_sync_tool.Action.{Result, ok, stop, refused, out_of_fuel, Act}

-- A chunk is not empty: read returns 0 only at the end of the stream.
pub data Event : Type 0 where
  chunk : ℕ → Bytes → Event
  interrupted : Event
  failure : Event

abbrev pub Recv : Type 0 → Type 0
Recv A = Act (List Event) A

-- What a call of read left of a chunk is there for the next call.
abbrev pub push_back : Bytes → List Event → List Event
push_back [] es = es
push_back (b ∷ bs) es = chunk b bs ∷ es

abbrev pub prepend : Bytes → Option Bytes × List Event → Option Bytes × List Event
prepend bs (none, es) = (none, es)
prepend bs (some cs, es) = (some (bs ++ cs), es)

-- SyncServer::robustRead, each clause a call of read; `none` is the return value -1.
unfoldable pub robust_read : List Event → ℕ → Option Bytes × List Event
robust_read [] count = (some [], [])
robust_read (interrupted ∷ es) count =
    let again = robust_read es count in if count == 0 then (some [], interrupted ∷ es) else again
robust_read (failure ∷ es) count = if count == 0 then (some [], failure ∷ es) else (none, es)
robust_read (chunk b bs ∷ es) count =
    let more = prepend (b ∷ bs) (robust_read es (count - length (b ∷ bs))) in
    if ltb (length (b ∷ bs)) count
    then more
    else (some (take count (b ∷ bs)), push_back (drop count (b ∷ bs)) es)

abbrev pub prepend_ok : Bytes → Result Bytes × List Event → Result Bytes × List Event
prepend_ok bs (stop e, es) = (stop e, es)
prepend_ok bs (ok cs, es) = (ok (bs ++ cs), es)

-- The test `n <= 0` after each call of robustRead.
abbrev pub after_read : Option Bytes × List Event → (Bytes → Recv Bytes) → Result Bytes × List Event
after_read (none, es) next = (stop refused, es)
after_read (some [], es) next = (stop refused, es)
after_read (some (b ∷ bs), es) next = next (b ∷ bs) es

-- The loop of SyncServer::receiveBytes. Each round receives a byte or ends the loop, so `size`
-- rounds of fuel are enough.
unfoldable pub receive_loop : ℕ → ℕ → Recv Bytes
receive_loop zero size es = if size == 0 then (ok [], es) else (stop out_of_fuel, es)
receive_loop (suc fuel) size es =
    let more =
      after_read (robust_read es size)
        (λ got rest. prepend_ok got (receive_loop fuel (size - length got) rest)) in
    if size == 0 then (ok [], es) else more

-- SyncServer::receiveBytes
unfoldable pub receive_bytes : ℕ → Recv Bytes
unfolding receive_loop robust_read
receive_bytes size = receive_loop size size
