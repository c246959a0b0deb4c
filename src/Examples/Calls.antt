-- ===== src/Examples/Calls.antt =====
-- The RPC client and server at concrete inputs.
use file_sync_tool.Base.{
  ℕ, zero, suc, ◌≡◌, refl, Bool, true, false, Option, none, some, List, [], ◌∷◌, arith,
  if◌then◌else◌,
}
use file_sync_tool.Base.Int.{ℤ, pos}
use file_sync_tool.Base.Text.{Bytes, codes, bytes_eq}
use file_sync_tool.Action.{ok, ◌>>=◌, pure}
use file_sync_tool.Wire.{encode, decode}
use file_sync_tool.Sending.{accepts, fails}
use file_sync_tool.Socket.{chunk, push_back, failure}
use file_sync_tool.Disk.Memory.{Node, Files, memory}
use file_sync_tool.Rpc.{Channel, Service, recv_all, handle_rpc_client}
use file_sync_tool.Rpc.Laws.{frame}
use file_sync_tool.Rpc.Ends.{Ends, handle_rpc_client-Ends}
use file_sync_tool.Rpc.Messages.{
  RequestPayload, ResponsePayload, RpcRequest, RpcResponse, no_files, no_meta,
}
use file_sync_tool.Rpc.Handlers.{respond_to, handle_list_files, handle_get_file_meta}
use file_sync_tool.Rpc.Client.{
  Codec, RpcClient, call_list_files, call_get_file_meta, list_request, meta_request,
}
use file_sync_tool.Rpc.Served.{
  IsAnswerable, IsConnected, Delivers, rpc_service, listing_result, call_list_files-served,
  call_get_file_meta-served,
}
use file_sync_tool.Examples.Scanning.{length_hash}

abbrev any_size : ℕ → Bool
any_size n = true

-- A codec of a few messages.
abbrev request_bytes : RequestPayload → Option Bytes
request_bytes RequestPayload.no_request = none
request_bytes (RequestPayload.list_files r) = some (1 ∷ r.directory)
request_bytes (RequestPayload.get_file_meta r) = some (2 ∷ r.file_path)

abbrev response_bytes : ResponsePayload → Option Bytes
response_bytes ResponsePayload.no_response = none
response_bytes (ResponsePayload.files_listed r) = some (1 ∷ r.directory)
response_bytes (ResponsePayload.meta_found r) = some (2 ∷ r.meta.path)

abbrev request_in : Bytes → Option RpcRequest
request_in [] = none
request_in (zero ∷ bs) = none
request_in (suc zero ∷ bs) = some (list_request bs false)
request_in (suc (suc n) ∷ bs) = some (meta_request bs)

-- The answers that the handlers give on the disk below.
abbrev response_in : Bytes → Option RpcResponse
response_in [] = none
response_in (zero ∷ bs) = none
response_in (suc zero ∷ bs) = some (record {
  type = 1;
  success = true;
  error = [];
  payload = ResponsePayload.files_listed (record no_files { directory = bs });
})
response_in (suc (suc n) ∷ bs) = some (record {
  type = 2;
  success = true;
  error = [];
  payload = ResponsePayload.meta_found (record { meta = no_meta; success = true; error = [] });
})

abbrev few : Codec
few = record {
  serialize_request = λ m. request_bytes m.payload;
  parse_request = request_in;
  serialize_response = λ r. response_bytes r.payload;
  parse_response = response_in;
}

-- An empty directory.
abbrev disk : Files
disk p = if bytes_eq (codes "base/d") p then some (Node.dir 493) else none

abbrev no_names : Files → Bytes → Option (List Bytes)
no_names s p = some []

abbrev pub no_time : Files → Bytes → ℤ
no_time s p = pos 0

abbrev service : Service
service =
    rpc_service few any_size any_size memory length_hash no_names no_time (codes "base/") disk 1

abbrev client : Bytes → RpcClient
client arrived = record {
  has_socket = true;
  connected = true;
  input = push_back arrived [];
  sends = accepts 2 ∷ [];
  output = [];
}

abbrev server : Bytes → Channel
server arrived = record {
  input = push_back arrived [];
  sends = accepts 3 ∷ [];
  output = [];
  closed = false;
}

abbrev list_client : RpcClient
list_client = client (frame 1 (1 ∷ codes "d"))

abbrev list_server : Channel
list_server = server (frame 1 (1 ∷ codes "d"))

list-IsAnswerable :
    IsAnswerable few any_size any_size memory length_hash no_names no_time
      (codes "base/")
      disk
      1
      (list_request (codes "d") false)
unfolding respond_to bytes_eq
list-IsAnswerable = record {
  request = 1 ∷ codes "d";
  answer = 1 ∷ codes "d";
  serialized = refl;
  request_parses = refl;
  request_fits = record { not_empty = omega arith; short = omega arith; room = refl };
  answered = refl;
  answer_parses = refl;
  answer_fits = record { not_empty = omega arith; short = omega arith; room = refl };
}

list-IsConnected :
    IsConnected few any_size any_size memory length_hash no_names no_time
      (codes "base/")
      disk
      1
      list_client
      list_server
unfolding encode
list-IsConnected = record {
  up = record { steady = tt; taking = tt };
  on = refl;
  client_silent = refl;
  server_silent = refl;
  accepting = tt;
}

list-Delivers :
    Delivers few any_size any_size memory length_hash no_names no_time
      (codes "base/")
      disk
      1
      (call_list_files few any_size (codes "d") false)
      list_client
      list_server
unfolding call_list_files ◌>>=◌ encode decode pure handle_rpc_client recv_all respond_to bytes_eq
list-Delivers = record { there = refl; back = refl }

call_list_files-served_example :
    (call_list_files few any_size (codes "d") false list_client).0
    ≡ listing_result few any_size any_size memory length_hash no_names no_time
        (codes "base/")
        disk
        1
        (handle_list_files memory length_hash no_names no_time
          (codes "base/")
          disk
          1
          (record { directory = codes "d"; recursive = false }))
call_list_files-served_example =
    call_list_files-served few any_size any_size memory length_hash no_names no_time (codes "base/")
      disk 1 (codes "d") false list_client list_server list-IsAnswerable list-IsConnected
      list-Delivers

-- The file is not there.
abbrev meta_client : RpcClient
meta_client = client (frame 2 (2 ∷ []))

abbrev meta_server : Channel
meta_server = server (frame 2 (2 ∷ codes "f"))

meta-IsAnswerable :
    IsAnswerable few any_size any_size memory length_hash no_names no_time
      (codes "base/")
      disk
      1
      (meta_request (codes "f"))
unfolding respond_to bytes_eq
meta-IsAnswerable = record {
  request = 2 ∷ codes "f";
  answer = 2 ∷ [];
  serialized = refl;
  request_parses = refl;
  request_fits = record { not_empty = omega arith; short = omega arith; room = refl };
  answered = refl;
  answer_parses = refl;
  answer_fits = record { not_empty = omega arith; short = omega arith; room = refl };
}

meta-IsConnected :
    IsConnected few any_size any_size memory length_hash no_names no_time
      (codes "base/")
      disk
      1
      meta_client
      meta_server
unfolding encode
meta-IsConnected = record {
  up = record { steady = tt; taking = tt };
  on = refl;
  client_silent = refl;
  server_silent = refl;
  accepting = tt;
}

meta-Delivers :
    Delivers few any_size any_size memory length_hash no_names no_time
      (codes "base/")
      disk
      1
      (call_get_file_meta few any_size (codes "f"))
      meta_client
      meta_server
unfolding call_get_file_meta ◌>>=◌ encode decode pure handle_rpc_client recv_all respond_to bytes_eq
meta-Delivers = record { there = refl; back = refl }

call_get_file_meta-served_example :
    (call_get_file_meta few any_size (codes "f") meta_client).0
    ≡ ok (
        handle_get_file_meta memory length_hash no_names no_time
          (codes "base/")
          disk
          (record { file_path = codes "f" }))
call_get_file_meta-served_example =
    call_get_file_meta-served few any_size any_size memory length_hash no_names no_time
      (codes "base/") disk 1 (codes "f") meta_client meta_server meta-IsAnswerable meta-IsConnected
      meta-Delivers

-- A peer that sends three bytes and breaks off.
abbrev broken : Channel
broken = record {
  input = chunk 1 (0 ∷ (0 ∷ [])) ∷ (failure ∷ []);
  sends = fails ∷ [];
  output = [];
  closed = false;
}

handle_rpc_client-Ends_example : Ends (handle_rpc_client service any_size broken).0
handle_rpc_client-Ends_example = handle_rpc_client-Ends service any_size broken
