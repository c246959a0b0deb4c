-- ===== src/Modes.antt =====
-- A connection to the server in RPC mode: SyncServer::handleClient (src/server/SyncServer.cpp) with
-- RpcServer::handleRpcClient (src/rpc/RpcServer.cpp) on the same socket.
use file_sync_tool.Base.{ℕ, ◌≡◌, refl, sym, ap, ◌∙◌, Bool, true, List, ◌++◌, arith, All}
use file_sync_tool.Base.Text.{Bytes}
use file_sync_tool.Action.{Result, ok}
use file_sync_tool.Wire.{encode, decode}
use file_sync_tool.Wire.Laws.{length-encode, decode-encode}
use file_sync_tool.Socket.Laws.{content}
use file_sync_tool.Disk.{Disk}
use file_sync_tool.Server.Session.{Session, dispatch, handle_client}
use file_sync_tool.Reads.{Reads-bytes}
use file_sync_tool.Rpc.{Channel, Service, handle_rpc_client}
use file_sync_tool.Rpc.Laws.{Accepting}
use file_sync_tool.Rpc.Connection.{
  Exchange, IsServed, requests, answers, hung_up, handle_rpc_client-Serves,
}

module _ (D : Disk) (S : Service) (can_allocate : ℕ → Bool) where
  abbrev pub channel_of : Session D → Channel
  channel_of w = record { input = w.input; sends = w.sends; output = w.output; closed = w.closed }

  abbrev pub with_channel : Session D → Channel → Session D
  with_channel w c = record w {
    input = c.input;
    sends = c.sends;
    output = c.output;
    closed = c.closed;
  }

  -- handleRpcClient on the socket of a session.
  unfoldable pub rpc_on_session : Session D → Result Bool × Session D
  rpc_on_session w =
      let (r, c) = handle_rpc_client S can_allocate (channel_of w) in (r, with_channel w c)

  dispatch-rpc :
      (base mode : Bytes) (w : Session D)
      → decode mode ≡ 1
      → dispatch D base can_allocate rpc_on_session (ok mode, w) ≡ rpc_on_session w
  dispatch-rpc base mode w e = rw e

  -- A connection whose first byte is 1, as RpcClient::connect sends it, and that goes on with
  -- well-formed requests in any pieces, with calls of send that do not fail: handleClient leaves it
  -- to the RPC server, which answers each request with its handler's response, in order, and closes
  -- the socket; no acknowledgement follows, no file and no task count changes.
  pub handle_client-Serves :
      (base : Bytes) (es : List (Exchange S can_allocate)) (w : Session D)
      → All (IsServed S can_allocate) es
      → content w.input ≡ encode 1 1 ++ requests S can_allocate es
      → Accepting w.sends
      → (w' : Session D) × (handle_client D base can_allocate rpc_on_session w
          ≡ (ok (hung_up S can_allocate true es), w'))
        × (w'.output ≡ w.output ++ answers S can_allocate es)
        × (w'.closed ≡ true)
        × (w'.disk ≡ w.disk)
        × (w'.processed ≡ w.processed)
  unfolding handle_client rpc_on_session
  handle_client-Serves base es w good e k =
      let (in1, run1, e1) =
        (Reads-bytes 1 (encode 1 1) (sym (length-encode 1 1))).at w.input
          (requests S can_allocate es) e in
      let w1 : Session D = record w { input = in1 } in
      let (c, run2, out, shut) =
        handle_rpc_client-Serves S can_allocate es (channel_of w1) good e1 k in
      (
        with_channel w1 c,
        ap (λ r. dispatch D base can_allocate rpc_on_session (r.0, record w { input = r.1 })) run1
            ∙ dispatch-rpc base (encode 1 1) w1 (decode-encode 1 1 (omega arith))
            ∙ ap (λ r. (r.0, with_channel w1 r.1)) run2,
        out,
        shut,
        refl,
        refl,
      )
