-- ===== src/Rpc/Client.antt =====
-- The RPC client: src/rpc/RpcClient.cpp. The parsing and serialising of generated code is an
-- argument, and so is what socket, inet_pton and connect answer. Each event of a list is one call
-- of send or recv; unlike the server, the client gives up where a call is interrupted.
use file_sync_tool.Base.{
  ℕ, zero, suc, ◌-◌, ◌%◌, Bool, true, false, Option, none, some, List, [], ◌∷◌, ◌++◌, length, take,
  drop, ltb, if◌then◌else◌,
}
use file_sync_tool.Base.Text.{Bytes}
use file_sync_tool.Action.{Result, ok, stop, refused, threw, Act, ◌>>=◌, ◌>>◌, pure, fail, require}
use file_sync_tool.Wire.{encode, decode, two32}
use file_sync_tool.Sending.{WriteEvent, accepts, interrupted, fails}
use file_sync_tool.Socket.{Event, chunk, interrupted, failure, push_back, prepend_ok}
use file_sync_tool.Rpc.Messages.{
  ListFilesResponse, GetFileMetaResponse, RpcRequest, RpcResponse, ResponsePayload, list_files,
  get_file_meta, no_response, files_listed, meta_found, rpc_list_files, rpc_get_file_meta,
}

-- SerializeToString and ParseFromString of the two outer messages.
pub record Codec : Type 0 where
  pub serialize_request : RpcRequest → Option Bytes
  pub parse_request : Bytes → Option RpcRequest
  pub serialize_response : RpcResponse → Option Bytes
  pub parse_response : Bytes → Option RpcResponse

-- The object, with the connection of its socket: what arrives, what each call of send does, and
-- what was sent.
pub record RpcClient : Type 0 where
  pub has_socket : Bool
  pub connected : Bool
  pub input : List Event
  pub sends : List WriteEvent
  pub output : Bytes

-- RpcClient::sendAll
unfoldable pub client_send : List WriteEvent → Bytes → Bytes × Bool × List WriteEvent
client_send [] bs = (bs, true, [])
client_send (e ∷ es) [] = ([], true, e ∷ es)
client_send (accepts zero ∷ es) (b ∷ bs) = ([], false, es)
client_send (accepts (suc k) ∷ es) (b ∷ bs) =
    let (done, all, rest) = client_send es (drop k bs) in (b ∷ (take k bs ++ done), all, rest)
client_send (interrupted ∷ es) (b ∷ bs) = ([], false, es)
client_send (fails ∷ es) (b ∷ bs) = ([], false, es)

-- RpcClient::recvAll
unfoldable pub client_recv : List Event → ℕ → Result Bytes × List Event
client_recv es zero = (ok [], es)
client_recv [] (suc n) = (stop refused, [])
client_recv (interrupted ∷ es) (suc n) = (stop refused, es)
client_recv (failure ∷ es) (suc n) = (stop refused, es)
client_recv (chunk b bs ∷ es) (suc n) =
    let rest = client_recv es (suc n - length (b ∷ bs)) in
    if ltb (length (b ∷ bs)) (suc n)
    then prepend_ok (b ∷ bs) rest
    else (ok (take (suc n) (b ∷ bs)), push_back (drop (suc n) (b ∷ bs)) es)

unfoldable pub put_all : Bytes → Act RpcClient (Unit {0})
unfolding client_send require
put_all bs c =
    let (done, all, rest) = client_send c.sends bs in
    require all (record c { output = c.output ++ done; sends = rest })

unfoldable pub get_all : ℕ → Act RpcClient Bytes
unfolding client_recv
get_all n c = let (r, es) = client_recv c.input n in (r, record c { input = es })

-- RpcClient::disconnect
abbrev pub disconnect_client : RpcClient → RpcClient
disconnect_client c = record c { has_socket = false; connected = false }

-- Which of socket, inet_pton and connect succeed.
pub record Reach : Type 0 where
  pub socket : Bool
  pub address : Bool
  pub connects : Bool

abbrev pub after_mode : Result (Unit {0}) × RpcClient → Result (Unit {0}) × RpcClient
after_mode (ok _, c) = (ok tt, record c { connected = true })
after_mode (stop e, c) = (stop refused, disconnect_client c)

-- RpcClient::connect. A failed call of socket leaves the descriptor -1.
unfoldable pub connect_client : Reach → Act RpcClient (Unit {0})
unfolding put_all
connect_client r c =
    if r.socket
    then if r.address
      then if r.connects
        then after_mode (put_all (1 ∷ []) (record c { has_socket = true }))
        else (stop refused, record c { has_socket = false })
      else (stop refused, record c { has_socket = false })
    else (stop refused, record c { has_socket = false })

abbrev pub listed_in : ResponsePayload → Act RpcClient ListFilesResponse
listed_in no_response = fail refused
listed_in (files_listed r) = pure r
listed_in (meta_found r) = fail refused

abbrev pub found_in : ResponsePayload → Act RpcClient GetFileMetaResponse
found_in no_response = fail refused
found_in (files_listed r) = fail refused
found_in (meta_found r) = pure r

abbrev pub list_request : Bytes → Bool → RpcRequest
list_request dir recursive = record {
  type = rpc_list_files;
  payload = list_files (record { directory = dir; recursive = recursive });
}

abbrev pub meta_request : Bytes → RpcRequest
meta_request path = record {
  type = rpc_get_file_meta;
  payload = get_file_meta (record { file_path = path });
}

module _ (C : Codec) (can_allocate : ℕ → Bool) where
  abbrev pub parsed_response : Option RpcResponse → Act RpcClient RpcResponse
  parsed_response none = fail refused
  parsed_response (some r) = pure r

  unfoldable pub get_payload : ℕ → Act RpcClient RpcResponse
  get_payload zero = fail refused
  get_payload (suc n) =
      if can_allocate (suc n)
      then (get_all (suc n) >>= λ bs. parsed_response (C.parse_response bs))
      else fail threw

  abbrev pub get_response : Act RpcClient RpcResponse
  get_response = do type ← get_all 4; size ← get_all 4; get_payload (decode size)

  abbrev pub exchange : Bytes → ℕ → Act RpcClient RpcResponse
  exchange request type = do
    put_all (encode 4 type)
    put_all (encode 4 (length request))
    put_all (take (length request % two32) request)
    get_response

  -- RpcClient::sendRequest. The length is cut to 32 bits, and so is what is sent of the payload.
  unfoldable pub send_request : Bytes → ℕ → Act RpcClient RpcResponse
  unfolding put_all get_all get_payload
  send_request request type c =
      let run = exchange request type c in if c.connected then run else (stop refused, c)

  abbrev pub sending : ℕ → Option Bytes → Act RpcClient RpcResponse
  sending type none = fail refused
  sending type (some bs) = send_request bs type

  -- RpcClient::listFiles
  unfoldable pub call_list_files : Bytes → Bool → Act RpcClient ListFilesResponse
  unfolding send_request
  call_list_files dir recursive =
      sending rpc_list_files (C.serialize_request (list_request dir recursive)) >>= λ r.
      if r.success then listed_in r.payload else fail refused

  -- RpcClient::getFileMeta
  unfoldable pub call_get_file_meta : Bytes → Act RpcClient GetFileMetaResponse
  unfolding send_request
  call_get_file_meta path =
      sending rpc_get_file_meta (C.serialize_request (meta_request path)) >>= λ r.
      if r.success then found_in r.payload else fail refused
