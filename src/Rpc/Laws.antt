-- ===== src/Rpc/Laws.antt =====
-- The framing: recvAll, sendAll, receiveRequest and sendResponse of src/rpc/RpcServer.cpp.
use file_sync_tool.Base.{
  ℕ, zero, suc, ◌-◌, ◌%◌, ◌≤◌, ◌<◌, ◌≡◌, refl, sym, ap, ◌∙◌, subst, Bool, true, some, List, [], ◌∷◌,
  ◌++◌, arith, append_assoc, append-nil, length, length-append, take, drop, take-append,
  drop-append, take-append_left, drop-append_left, take-append_right, drop-append_right, take_all,
  take-append-drop, ltb, Bool-cases, inl, inr,
}
use native.Mathlib.Nat.{mod-eq_of_lt}
use file_sync_tool.Base.Text.{Bytes}
use file_sync_tool.Action.{Result, ok, Act, ◌>>=◌, ◌>>◌, require, bind-eq}
use file_sync_tool.Wire.{encode, decode, two32}
use file_sync_tool.Wire.Laws.{length-encode, decode-encode}
use file_sync_tool.Sending.{WriteEvent, accepts, interrupted, fails}
use file_sync_tool.Socket.{Event, chunk, interrupted, failure, Recv, push_back}
use file_sync_tool.Socket.Laws.{content, content-push_back}
use file_sync_tool.Reads.{Reads, Reads-pure, Reads-bind}
use file_sync_tool.Rpc.{
  recv_all, recv, send_buffer, Channel, Service, parsed, receive_payload, receive_request,
  put_bytes, put_response, send_response,
}

abbrev TakesAll : List Event → ℕ → Type 0
TakesAll es n =
    (rest : List Event) × (recv_all es n ≡ (ok (take n (content es)), rest))
    × (content rest ≡ drop n (content es))

recv_all-TakesAll : (es : List Event) (n : ℕ) → n ≤ length (content es) → TakesAll es n
unfolding recv_all
recv_all-TakesAll es zero h = (es, refl, refl)
recv_all-TakesAll [] (suc n) h = absurd (omega arith)
recv_all-TakesAll (interrupted ∷ es) (suc n) h = recv_all-TakesAll es (suc n) h
recv_all-TakesAll (failure ∷ es) (suc n) h = absurd (omega arith)
recv_all-TakesAll (chunk b bs ∷ es) (suc n) h = elim (Bool-cases (ltb (length (b ∷ bs)) (suc n))) [
  | inl more ↦
      let (rest, e, d) =
        recv_all-TakesAll es (suc n - length (b ∷ bs))
          (omega (arith, length-append bs (content es))) in
      (
        rest,
        ground (arith, more, e, take-append_right (suc n) (b ∷ bs) (content es)),
        d ∙ sym (drop-append_right (suc n) (b ∷ bs) (content es) (ground arith)),
      )
  | inr last ↦ (
    push_back (drop (suc n) (b ∷ bs)) es,
    ground (arith, last, take-append_left (suc n) (b ∷ bs) (content es)),
    content-push_back (drop (suc n) (b ∷ bs)) es
        ∙ sym (drop-append_left (suc n) (b ∷ bs) (content es) (ground arith)),
  )
]

Reads-recv : (n : ℕ) (bs : Bytes) → n ≡ length bs → Reads (recv n) bs bs
Reads-recv n bs h = record {
  at = λ es rest e.
      let fits : n ≤ length (content es) = omega (arith, ap length e, length-append bs rest) in
      let (left, run, after) = recv_all-TakesAll es n fits in
      (
        left,
        run ∙ ap (λ got. (ok got, left)) (rw e (take-append n bs rest h)),
        after ∙ rw e (drop-append n bs rest h),
      );
}

-- No call fails, and each takes a byte or is interrupted.
abbrev pub Accepting : List WriteEvent → Type 0
Accepting [] = Unit {0}
Accepting (accepts zero ∷ es) = ⊥
Accepting (accepts (suc k) ∷ es) = Accepting es
Accepting (interrupted ∷ es) = Accepting es
Accepting (fails ∷ es) = ⊥

record Sent (es : List WriteEvent) (bs : Bytes) : Type 0 where
  whole : (send_buffer es bs).0 ≡ bs
  all : (send_buffer es bs).1 ≡ true
  more : Accepting (send_buffer es bs).2

send_buffer-Sent : (es : List WriteEvent) (bs : Bytes) → Accepting es → Sent es bs
unfolding send_buffer
send_buffer-Sent [] bs h = record { whole = refl; all = refl; more = tt }
send_buffer-Sent (e ∷ es) [] h = record { whole = refl; all = refl; more = h }
send_buffer-Sent (accepts zero ∷ es) (b ∷ bs) h = absurd h
send_buffer-Sent (accepts (suc k) ∷ es) (b ∷ bs) h =
    let s = send_buffer-Sent es (drop k bs) h in
    record {
      whole = ap (λ x. b ∷ (take k bs ++ x)) s.whole ∙ ap (λ x. b ∷ x) (take-append-drop k bs);
      all = s.all;
      more = s.more;
    }
send_buffer-Sent (interrupted ∷ es) (b ∷ bs) h =
    let s = send_buffer-Sent es (b ∷ bs) h in record { whole = s.whole; all = s.all; more = s.more }
send_buffer-Sent (fails ∷ es) (b ∷ bs) h = absurd h

-- The bytes of a message on the wire.
abbrev pub frame : ℕ → Bytes → Bytes
frame type payload = encode 4 type ++ (encode 4 (length payload) ++ payload)

module _ (S : Service) (can_allocate : ℕ → Bool) where
  -- A message that the framing can carry and the server can take.
  pub record Fits (payload : Bytes) (request : S.Request) : Type 0 where
    pub not_empty : 0 < length payload
    pub short : length payload < two32
    pub room : can_allocate (length payload) ≡ true
    pub parses : S.parse payload ≡ some request

  Reads-receive_payload :
      (payload : Bytes) (request : S.Request)
      → Fits payload request
      → Reads (receive_payload S can_allocate (length payload)) payload request
  unfolding receive_payload
  Reads-receive_payload [] request h = let p = h.not_empty in absurd (omega arith)
  Reads-receive_payload (b ∷ bs) request h =
      let m : Recv S.Request = recv (length (b ∷ bs)) >>= λ x. parsed (S.parse x) in
      rw (h.room) (
        subst (λ x. Reads m x request) (append-nil (b ∷ bs))
          (Reads-bind (λ x. parsed (S.parse x)) (Reads-recv (length (b ∷ bs)) (b ∷ bs) refl)
            (subst (λ o. Reads (parsed o) [] request) (sym h.parses) (Reads-pure request))))

  -- receiveRequest reads back a message that was framed with its length, however it arrives.
  pub Reads-receive_request :
      (type : ℕ) (payload : Bytes) (request : S.Request)
      → Fits payload request
      → Reads (receive_request S can_allocate) (frame type payload) request
  unfolding receive_request
  Reads-receive_request type payload request h =
      Reads-bind _ (Reads-recv 4 (encode 4 type) (sym (length-encode 4 type))) (
        Reads-bind (λ size. receive_payload S can_allocate (decode size))
          (Reads-recv 4 (encode 4 (length payload)) (sym (length-encode 4 (length payload))))
          (subst (λ n. Reads (receive_payload S can_allocate n) payload request)
            (sym (decode-encode 4 (length payload) (let q = h.short in omega arith)))
            (Reads-receive_payload payload request h)))

  abbrev pub Puts : Act Channel (Unit {0}) → Bytes → Channel → Type 0
  Puts m bs c =
      (c' : Channel) × (m c ≡ (ok tt, c'))
      × (c'.output ≡ c.output ++ bs)
      × (c'.input ≡ c.input)
      × (c'.closed ≡ c.closed)
      × Accepting c'.sends

  put_bytes-Puts :
      (bs : Bytes) (c : Channel) → Accepting c.sends → Puts (put_bytes S can_allocate bs) bs c
  unfolding put_bytes require
  put_bytes-Puts bs c h =
      let s = send_buffer-Sent c.sends bs h in
      let sent : Bytes → Bool → Result (Unit {0}) × Channel = λ d all.
        require all (record c { output = c.output ++ d; sends = (send_buffer c.sends bs).2 }) in
      (
        record c { output = c.output ++ bs; sends = (send_buffer c.sends bs).2 },
        ap (λ d. sent d (send_buffer c.sends bs).1) s.whole ∙ ap (sent bs) s.all,
        refl,
        refl,
        refl,
        s.more,
      )

  Puts-then :
      (m k : Act Channel (Unit {0})) (bs cs : Bytes) (c : Channel)
      → Puts m bs c
      → ((d : Channel) → Accepting d.sends → Puts k cs d)
      → Puts (m >> k) (bs ++ cs) c
  Puts-then m k bs cs c (c1, run1, out1, in1, shut1, more1) next =
      let (c2, run2, out2, in2, shut2, more2) = next c1 more1 in
      (
        c2,
        bind-eq m (λ _. k) run1 ∙ run2,
        out2 ∙ ap (λ x. x ++ cs) out1 ∙ append_assoc c.output bs cs,
        in2 ∙ in1,
        shut2 ∙ shut1,
        more2,
      )

  pub send_response-Puts :
      (r : S.Response) (bs : Bytes) (c : Channel)
      → S.serialize r ≡ some bs
      → length bs < two32
      → Accepting c.sends
      → Puts (send_response S can_allocate r) (frame (S.type_of r) bs) c
  unfolding send_response
  send_response-Puts r bs c e short h =
      let whole : take (length bs % two32) bs ≡ bs =
        ap (λ n. take n bs) (mod-eq_of_lt short) ∙ take_all (length bs) bs (omega arith) in
      subst (λ o. Puts (put_response S can_allocate (S.type_of r) o) (frame (S.type_of r) bs) c)
        (sym e)
        (Puts-then _ _ (encode 4 (S.type_of r)) _ c (put_bytes-Puts _ c h) (λ d hd.
          Puts-then _ _ (encode 4 (length bs)) bs d (put_bytes-Puts _ d hd) (λ f hf.
            subst (λ x. Puts (put_bytes S can_allocate x) bs f) (sym whole)
              (put_bytes-Puts bs f hf))))
