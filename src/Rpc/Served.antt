-- ===== src/Rpc/Served.antt =====
-- The RPC client and the RPC server together, over a network that delivers the bytes in order.
use file_sync_tool.Base.{
  ℕ, ◌≡◌, refl, sym, ap, ◌∙◌, Bool, true, false, Option, none, some, List, [], ◌∷◌, ◌++◌,
  append-nil, if◌then◌else◌,
}
use file_sync_tool.Base.Int.{ℤ}
use file_sync_tool.Base.Text.{Bytes}
use file_sync_tool.Action.{Result, ok, stop, refused, Act, ◌>>=◌, pure, fail, bind-eq}
use file_sync_tool.Socket.Laws.{content}
use file_sync_tool.Disk.{Disk}
use file_sync_tool.Digest.{Hash}
use file_sync_tool.Rpc.{Channel, Service, handle_rpc_client}
use file_sync_tool.Rpc.Laws.{Accepting, frame}
use file_sync_tool.Rpc.Connection.{Exchange, answers, handle_rpc_client-Serves}
use file_sync_tool.Rpc.Messages.{
  ListFilesResponse, GetFileMetaResponse, RpcRequest, RpcResponse, ResponsePayload, no_response,
  files_listed, meta_found,
}
use file_sync_tool.Rpc.Handlers.{
  handle_list_files, handle_get_file_meta, respond_to, respond_listed,
}
use file_sync_tool.Rpc.Client.{
  Codec, RpcClient, send_request, sending, listed_in, found_in, list_request, meta_request,
  call_list_files, call_get_file_meta,
}
use file_sync_tool.Rpc.Calls.Moves.{IsUp}
use file_sync_tool.Rpc.Calls.{
  IsTaken, IsQuiet, bind-IsQuiet, send_request-answered, send_request-sent,
}

module _ (C : Codec) (server_room client_room : ℕ → Bool) (D : Disk) (H : Hash)
    (entries : D.State → Bytes → Option (List Bytes)) (ctime : D.State → Bytes → ℤ) (base : Bytes)
    (s : D.State) (fuel : ℕ) where
  abbrev pub answer_to : RpcRequest → RpcResponse
  answer_to m = respond_to D H entries ctime base s fuel m

  -- The server with its handlers.
  abbrev pub rpc_service : Service
  rpc_service = record {
    Request = RpcRequest;
    Response = RpcResponse;
    parse = C.parse_request;
    serialize = C.serialize_response;
    type_of = λ r. r.type;
    respond = answer_to;
  }

  -- A request and its answer, each in a frame that the other side can take, and parsed by it as
  -- what was serialised.
  pub record IsAnswerable (m : RpcRequest) : Type 0 where
    pub request : Bytes
    pub answer : Bytes
    pub serialized : C.serialize_request m ≡ some request
    pub request_parses : C.parse_request request ≡ some m
    pub request_fits : IsTaken server_room request
    pub answered : C.serialize_response (answer_to m) ≡ some answer
    pub answer_parses : C.parse_response answer ≡ some (answer_to m)
    pub answer_fits : IsTaken client_room answer

  -- A client that has connected, and a server that has taken the connection; neither has sent more.
  pub record IsConnected (k : RpcClient) (c : Channel) : Type 0 where
    pub up : IsUp k
    pub on : k.connected ≡ true
    pub client_silent : k.output ≡ []
    pub server_silent : c.output ≡ []
    pub accepting : Accepting c.sends

  -- What each side sends arrives at the other, where the client makes one call.
  pub record Delivers {A : Type 0} (call : Act RpcClient A) (k : RpcClient) (c : Channel)
      : Type 0 where
    pub there : content c.input ≡ (call k).1.output
    pub back : content k.input ≡ (handle_rpc_client rpc_service server_room c).1.output

  module _ {A : Type 0} (m : RpcRequest) (finish : RpcResponse → Act RpcClient A) where
    abbrev calling : Act RpcClient A
    calling = sending C client_room m.type (C.serialize_request m) >>= finish

    calling-served :
        (k : RpcClient) (c : Channel) (x : Result A)
        → IsAnswerable m
        → IsConnected k c
        → Delivers calling k c
        → ((r : RpcResponse) → IsQuiet C client_room (finish r))
        → ((d : RpcClient) → (finish (answer_to m) d).0 ≡ x)
        → (calling k).0 ≡ x
    calling-served k c x a j net quiet last =
        let one : Exchange rpc_service server_room = record {
          type = m.type;
          payload = a.request;
          request = m;
          answer = a.answer;
        } in
        let sends : sending C client_room m.type (C.serialize_request m)
            ≡ send_request C client_room a.request m.type =
          ap (sending C client_room m.type) a.serialized in
        let out : (calling k).1.output ≡ frame m.type a.request =
          bind-IsQuiet C client_room (sending C client_room m.type (C.serialize_request m)) finish k
            quiet
          ∙ ap (λ f. (f k).1.output) sends
          ∙ send_request-sent C client_room m.type a.request k j.up j.on a.request_fits.short
          ∙ ap (λ o. o ++ frame m.type a.request) j.client_silent in
        let (c1, run1, out1, shut1) =
          handle_rpc_client-Serves rpc_service server_room (one ∷ []) c
            (
              record {
                fits = record {
                  not_empty = a.request_fits.not_empty;
                  short = a.request_fits.short;
                  room = a.request_fits.room;
                  parses = a.request_parses;
                };
                answers = a.answered;
                short = a.answer_fits.short;
              },
              tt,
            )
            (net.there ∙ out ∙ sym (append-nil (frame m.type a.request))) j.accepting in
        let arrives : content k.input ≡ frame (answer_to m).type a.answer =
          net.back
          ∙ ap (λ r. r.1.output) run1
          ∙ out1
          ∙ ap (λ o. o ++ answers rpc_service server_room (one ∷ [])) j.server_silent
          ∙ append-nil (frame (answer_to m).type a.answer) in
        let (k1, run2) =
          send_request-answered C client_room m.type (answer_to m).type a.request a.answer
            (answer_to m) k j.up j.on a.request_fits.short a.answer_fits a.answer_parses arrives in
        ap (λ r. r.0)
          (bind-eq (sending C client_room m.type (C.serialize_request m)) finish
            (ap (λ f. f k) sends ∙ run2))
        ∙ last k1

  abbrev finish_listed : RpcResponse → Act RpcClient ListFilesResponse
  finish_listed r = if r.success then listed_in r.payload else fail refused

  abbrev finish_found : RpcResponse → Act RpcClient GetFileMetaResponse
  finish_found r = if r.success then found_in r.payload else fail refused

  -- What listFiles returns of what the handler found.
  abbrev pub listing_result : Option ListFilesResponse → Result ListFilesResponse
  listing_result none = stop refused
  listing_result (some r) = ok r

  finish_listed-IsQuiet : (r : RpcResponse) → IsQuiet C client_room (finish_listed r)
  unfolding pure fail
  finish_listed-IsQuiet r c = quiet r.success r.payload
    where
      quiet :
          (b : Bool) (p : ResponsePayload)
          → ((if b then listed_in p else fail refused) c).1.output ≡ c.output
      quiet false p = refl
      quiet true no_response = refl
      quiet true (files_listed x) = refl
      quiet true (meta_found x) = refl

  finish_found-IsQuiet : (r : RpcResponse) → IsQuiet C client_room (finish_found r)
  unfolding pure fail
  finish_found-IsQuiet r c = quiet r.success r.payload
    where
      quiet :
          (b : Bool) (p : ResponsePayload)
          → ((if b then found_in p else fail refused) c).1.output ≡ c.output
      quiet false p = refl
      quiet true no_response = refl
      quiet true (files_listed x) = refl
      quiet true (meta_found x) = refl

  listed_result :
      (type : ℕ) (o : Option ListFilesResponse) (d : RpcClient)
      → (finish_listed (respond_listed D H entries ctime base s type o) d).0 ≡ listing_result o
  unfolding pure fail
  listed_result type none d = refl
  listed_result type (some r) d = refl

  -- A call of RpcClient::listFiles that a running server answers, over a network that delivers both
  -- directions in any pieces, returns the listing that handleListFiles makes of that directory on
  -- the server's disk, and fails exactly where the handler does. Each message has to fit its frame.
  pub call_list_files-served :
      (dir : Bytes) (recursive : Bool) (k : RpcClient) (c : Channel)
      → IsAnswerable (list_request dir recursive)
      → IsConnected k c
      → Delivers (call_list_files C client_room dir recursive) k c
      → (call_list_files C client_room dir recursive k).0
        ≡ listing_result (
            handle_list_files D H entries ctime base s fuel
              (record { directory = dir; recursive = recursive }))
  unfolding call_list_files respond_to
  call_list_files-served dir recursive k c a j net =
      calling-served (list_request dir recursive) finish_listed k c _ a j
        (record { there = net.there; back = net.back }) finish_listed-IsQuiet (listed_result 1 _)

  -- The same for RpcClient::getFileMeta, which returns what handleGetFileMeta answers for that
  -- path, also where there is no such file.
  pub call_get_file_meta-served :
      (path : Bytes) (k : RpcClient) (c : Channel)
      → IsAnswerable (meta_request path)
      → IsConnected k c
      → Delivers (call_get_file_meta C client_room path) k c
      → (call_get_file_meta C client_room path k).0
        ≡ ok (handle_get_file_meta D H entries ctime base s (record { file_path = path }))
  unfolding call_get_file_meta respond_to pure
  call_get_file_meta-served path k c a j net =
      calling-served (meta_request path) finish_found k c _ a j
        (record { there = net.there; back = net.back }) finish_found-IsQuiet (λ d. refl)
