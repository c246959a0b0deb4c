-- ===== src/Rpc/Connection.antt =====
-- A connection on which every request is well formed: one response each, in order.
use file_sync_tool.Base.{
  ℕ, zero, suc, ◌<◌, ◌≤◌, length-append, ◌≡◌, refl, sym, ap, ◌∙◌, Bool, true, false, some, List, [],
  ◌∷◌, ◌++◌, arith, append_assoc, append-nil, length, All,
}
use file_sync_tool.Base.Text.{Bytes}
use file_sync_tool.Action.{Result, ok, stop, refused, ◌>>=◌}
use file_sync_tool.Wire.{encode, two32}
use file_sync_tool.Wire.Laws.{length-encode}
use file_sync_tool.Sending.{interrupted}
use file_sync_tool.Socket.{Event, chunk, interrupted, failure}
use file_sync_tool.Socket.Laws.{content}
use file_sync_tool.Rpc.{
  recv_all, Channel, Service, receive_request, close, after_response, after_request, serve,
  handle_rpc_client,
}
use file_sync_tool.Rpc.Laws.{Accepting, frame, Fits, Reads-receive_request, send_response-Puts}

module _ (S : Service) (can_allocate : ℕ → Bool) where
  -- One request and its answer.
  pub record Exchange : Type 0 where
    pub type : ℕ
    pub payload : Bytes
    pub request : S.Request
    pub answer : Bytes

  pub record IsServed (e : Exchange) : Type 0 where
    pub fits : Fits S can_allocate e.payload e.request
    pub answers : S.serialize (S.respond e.request) ≡ some e.answer
    pub short : length e.answer < two32

  abbrev pub requests : List Exchange → Bytes
  requests [] = []
  requests (e ∷ es) = frame e.type e.payload ++ requests es

  abbrev pub answers : List Exchange → Bytes
  answers [] = []
  answers (e ∷ es) = frame (S.type_of (S.respond e.request)) e.answer ++ answers es

  length-requests : (es : List Exchange) → length es ≤ length (requests es)
  length-requests [] = omega arith
  length-requests (e ∷ es) = omega (
    arith,
    length-requests es,
    length-encode 4 e.type,
    length-append (encode 4 e.type) (encode 4 (length e.payload) ++ e.payload),
    length-append (frame e.type e.payload) (requests es),
  )

  -- The value that the loop ends with when the client hangs up.
  abbrev pub hung_up : Bool → List Exchange → Bool
  hung_up first [] = first
  hung_up first (e ∷ es) = false

  hung_up-false : (es : List Exchange) → hung_up false es ≡ false
  hung_up-false [] = refl
  hung_up-false (e ∷ es) = refl

  recv_all-empty :
      (es : List Event) (n : ℕ) → content es ≡ [] → (recv_all es (suc n)).0 ≡ stop refused
  unfolding recv_all
  recv_all-empty [] n h = refl
  recv_all-empty (interrupted ∷ es) n h = recv_all-empty es n h
  recv_all-empty (failure ∷ es) n h = refl
  recv_all-empty (chunk b bs ∷ es) n h = absurd (omega (arith, ap length h))

  receive_request-empty :
      (es : List Event)
      → content es ≡ []
      → (left : List Event) × (receive_request S can_allocate es ≡ (stop refused, left))
  unfolding receive_request ◌>>=◌
  receive_request-empty es h = ((recv_all es 4).1, rw (recv_all-empty es 3 h) refl)

  abbrev pub Serves : ℕ → Bool → List Exchange → Channel → Type 0
  Serves fuel first es c =
      (c' : Channel) × (serve S can_allocate fuel first c ≡ (ok (hung_up first es), c'))
      × (c'.output ≡ c.output ++ answers es)
      × (c'.closed ≡ true)

  serve-Serves :
      (es : List Exchange) (fuel : ℕ) (first : Bool) (c : Channel)
      → All IsServed es
      → length es < fuel
      → content c.input ≡ requests es
      → Accepting c.sends
      → Serves fuel first es c
  unfolding serve
  serve-Serves es zero first c good h e k = absurd (omega arith)
  serve-Serves [] (suc fuel) first c good h e k =
      let (left, run) = receive_request-empty c.input e in
      (
        close S can_allocate (record c { input = left }),
        ap
            (λ r.
              after_request S can_allocate first (r.0, record c { input = r.1 })
                (serve S can_allocate fuel false))
            run,
        sym (append-nil c.output),
        refl,
      )
  serve-Serves (x ∷ es) (suc fuel) first c good h e k =
      let next : Channel → Result Bool × Channel = serve S can_allocate fuel false in
      let (left, run, after) =
        (Reads-receive_request S can_allocate x.type x.payload x.request good.0.fits).at c.input
          (requests es) e in
      let c0 : Channel = record c { input = left } in
      let (c1, run1, out1, in1, _, more1) =
        send_response-Puts S can_allocate (S.respond x.request) x.answer c0 good.0.answers
          good.0.short k in
      let (c2, run2, out2, shut2) =
        serve-Serves es fuel false c1 good.1 (omega arith) (ap content in1 ∙ after) more1 in
      (
        c2,
        ap (λ r. after_request S can_allocate first (r.0, record c { input = r.1 }) next) run
            ∙ ap (λ r. after_response S can_allocate r next) run1
            ∙ run2
            ∙ ap (λ b. (ok b, c2)) (hung_up-false es),
        out2 ∙ ap (λ o. o ++ answers es) out1 ∙ append_assoc c.output _ (answers es),
        shut2,
      )

  -- On a connection whose client sends well-formed requests, in any pieces, and hangs up after
  -- them, with calls of send that do not fail, handleRpcClient answers each with its handler's
  -- response, in order, closes the socket, and returns true if there was no request and false if
  -- there was one.
  pub handle_rpc_client-Serves :
      (es : List Exchange) (c : Channel)
      → All IsServed es
      → content c.input ≡ requests es
      → Accepting c.sends
      → (c' : Channel) × (handle_rpc_client S can_allocate c ≡ (ok (hung_up true es), c'))
        × (c'.output ≡ c.output ++ answers es)
        × (c'.closed ≡ true)
  unfolding handle_rpc_client
  handle_rpc_client-Serves es c good e k =
      let n : ℕ = length (content c.input) in
      serve-Serves es (suc n) true c good (omega (arith, ap length e, length-requests es)) e k
