-- ===== src/Rpc.antt =====
-- The RPC protocol: RpcServer::recvAll, sendAll, receiveRequest, sendResponse and handleRpcClient
-- (src/rpc/RpcServer.cpp). The messages are those of generated code: their types, parsing and
-- serialising are arguments, and so is what the handlers answer; Rpc/Handlers has those of the
-- server.
pub mod Laws
pub mod Connection
pub mod Ends
pub mod Messages
pub mod Handlers
pub mod Listing
pub mod Client
pub mod Calls
pub mod Served
use file_sync_tool.Base.{
  ℕ, zero, suc, ◌+◌, ◌-◌, ◌%◌, ◌^◌, Bool, true, false, Option, none, some, List, [], ◌∷◌, ◌++◌,
  length, take, drop, ltb, ◌==◌, if◌then◌else◌,
}
use file_sync_tool.Base.Text.{Bytes}
use file_sync_tool.Action.{
  Result, ok, stop, refused, threw, out_of_fuel, Act, ◌>>=◌, ◌>>◌, pure, fail, require,
}
use file_sync_tool.Wire.{encode, decode, two32}
use file_sync_tool.Sending.{WriteEvent, accepts, interrupted, fails}
use file_sync_tool.Socket.Laws.{content}
use file_sync_tool.Socket.{Event, chunk, interrupted, failure, Recv, push_back, prepend_ok}

-- RpcServer::recvAll, each clause a call of recv.
unfoldable pub recv_all : List Event → ℕ → Result Bytes × List Event
recv_all es zero = (ok [], es)
recv_all [] (suc n) = (stop refused, [])
recv_all (interrupted ∷ es) (suc n) = recv_all es (suc n)
recv_all (failure ∷ es) (suc n) = (stop refused, es)
recv_all (chunk b bs ∷ es) (suc n) =
    let rest = recv_all es (suc n - length (b ∷ bs)) in
    if ltb (length (b ∷ bs)) (suc n)
    then prepend_ok (b ∷ bs) rest
    else (ok (take (suc n) (b ∷ bs)), push_back (drop (suc n) (b ∷ bs)) es)

abbrev pub recv : ℕ → Recv Bytes
recv n es = recv_all es n

-- RpcServer::sendAll. A call that accepts nothing ends it, an interrupted one does not.
unfoldable pub send_buffer : List WriteEvent → Bytes → Bytes × Bool × List WriteEvent
send_buffer [] bs = (bs, true, [])
send_buffer (e ∷ es) [] = ([], true, e ∷ es)
send_buffer (accepts zero ∷ es) (b ∷ bs) = ([], false, es)
send_buffer (accepts (suc k) ∷ es) (b ∷ bs) =
    let (done, all, rest) = send_buffer es (drop k bs) in (b ∷ (take k bs ++ done), all, rest)
send_buffer (interrupted ∷ es) (b ∷ bs) = send_buffer es (b ∷ bs)
send_buffer (fails ∷ es) (b ∷ bs) = ([], false, es)

-- One connection.
pub record Channel : Type 0 where
  pub input : List Event
  pub sends : List WriteEvent
  pub output : Bytes
  pub closed : Bool

-- What the generated code and the handlers do.
pub record Service : Type 1 where
  pub Request : Type 0
  pub Response : Type 0
  pub parse : Bytes → Option Request
  pub serialize : Response → Option Bytes
  pub type_of : Response → ℕ
  -- the response of the request's handler, or the one that reports the failure
  pub respond : Request → Response

abbrev pub parsed : {A : Type 0} → Option A → Recv A
parsed none = fail refused
parsed (some a) = pure a

module _ (S : Service) (can_allocate : ℕ → Bool) where
  -- The payload, after its length.
  unfoldable pub receive_payload : ℕ → Recv S.Request
  receive_payload zero = fail refused
  receive_payload (suc n) =
      if can_allocate (suc n) then (recv (suc n) >>= λ bs. parsed (S.parse bs)) else fail threw

  -- RpcServer::receiveRequest. The type before the length is not looked at.
  unfoldable pub receive_request : Recv S.Request
  unfolding receive_payload
  receive_request = do type ← recv 4; size ← recv 4; receive_payload (decode size)

  abbrev pub receiving_request : Channel → Result S.Request × Channel
  receiving_request c = let (r, es) = receive_request c.input in (r, record c { input = es })

  unfoldable pub put_bytes : Bytes → Act Channel (Unit {0})
  unfolding send_buffer require
  put_bytes bs c =
      let (done, all, rest) = send_buffer c.sends bs in
      require all (record c { output = c.output ++ done; sends = rest })

  -- The length is cut to 32 bits, and so is what is sent of the payload.
  abbrev pub put_response : ℕ → Option Bytes → Act Channel (Unit {0})
  put_response type none = fail refused
  put_response type (some bs) = do
    put_bytes (encode 4 type)
    put_bytes (encode 4 (length bs))
    put_bytes (take (length bs % two32) bs)

  -- RpcServer::sendResponse
  unfoldable pub send_response : S.Response → Act Channel (Unit {0})
  unfolding put_bytes
  send_response r = put_response (S.type_of r) (S.serialize r)

  abbrev pub close : Channel → Channel
  close c = record c { closed = true }

  abbrev pub after_response :
      Result (Unit {0}) × Channel → (Channel → Result Bool × Channel) → Result Bool × Channel
  after_response (ok _, c) next = next c
  after_response (stop refused, c) next = (ok false, close c)
  after_response (stop e, c) next = (stop e, c)

  abbrev pub after_request :
      Bool → Result S.Request × Channel → (Channel → Result Bool × Channel) → Result Bool × Channel
  after_request first (ok request, c) next =
      after_response (send_response (S.respond request) c) next
  after_request first (stop refused, c) next = (ok first, close c)
  after_request first (stop e, c) next = (stop e, c)

  -- The loop of handleRpcClient. A round takes at least nine bytes off the stream or ends the loop.
  unfoldable pub serve : ℕ → Bool → Channel → Result Bool × Channel
  unfolding receive_request send_response
  serve zero first c = (stop out_of_fuel, c)
  serve (suc fuel) first c = after_request first (receiving_request c) (serve fuel false)

  -- RpcServer::handleRpcClient, with fuel for a round for each byte that arrives.
  unfoldable pub handle_rpc_client : Channel → Result Bool × Channel
  unfolding serve
  handle_rpc_client c = serve (suc (length (content c.input))) true c
