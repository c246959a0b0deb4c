-- ===== src/Rpc/Calls.antt =====
-- A call of the RPC client that is answered, and client and server together.
pub mod Moves
use file_sync_tool.Base.{
  ℕ, zero, suc, ◌-◌, ◌%◌, ◌≤◌, ◌<◌, ◌≡◌, refl, sym, ap, ◌∙◌, Bool, true, Option, none, some, List,
  [], ◌∷◌, ◌++◌, arith, append_assoc, append-nil, length, length-append, take, drop, take-append,
  drop-append, take-append_left, drop-append_left, take-append_right, drop-append_right, take_all,
  take-append-drop, ltb, Bool-cases, inl, inr, if◌then◌else◌,
}
use native.Mathlib.Nat.{mod-eq_of_lt}
use file_sync_tool.Base.Text.{Bytes}
use file_sync_tool.Action.{
  Result, ok, stop, refused, threw, Act, continue, ◌>>=◌, ◌>>◌, pure, fail, require, bind-eq,
}
use file_sync_tool.Wire.{encode, decode, two32}
use file_sync_tool.Wire.Laws.{length-encode, decode-encode}
use file_sync_tool.Sending.{WriteEvent, accepts, interrupted, fails}
use file_sync_tool.Socket.{Event, chunk, interrupted, failure, push_back}
use file_sync_tool.Socket.Laws.{content, content-push_back}
use file_sync_tool.Rpc.Laws.{frame}
use file_sync_tool.Rpc.Messages.{RpcResponse}
use file_sync_tool.Rpc.Client.{
  Codec, RpcClient, client_send, client_recv, put_all, get_all, parsed_response, get_payload,
  exchange, get_response, send_request,
}
use file_sync_tool.Rpc.Calls.Moves.{
  Gets, IsUp, Puts, Sent, Steady, Takes, Taking, client_recv-Gets, client_send-Sent, get_all-Takes,
  push_back-Steady, put_all-Puts,
}

-- A frame that a client can take: not empty, of a length that the field holds and memory has.
pub record IsTaken (can_allocate : ℕ → Bool) (bs : Bytes) : Type 0 where
  pub not_empty : 0 < length bs
  pub short : length bs < two32
  pub room : can_allocate (length bs) ≡ true

module _ (C : Codec) (can_allocate : ℕ → Bool) where
  get_payload-Takes :
      (bs : Bytes) (r : RpcResponse)
      → IsTaken can_allocate bs
      → C.parse_response bs ≡ some r
      → Takes (get_payload C can_allocate (length bs)) bs r
  unfolding get_payload pure
  get_payload-Takes [] r t e c rest up h = let p = t.not_empty in absurd (omega arith)
  get_payload-Takes (b ∷ bs) r t e c rest up h =
      let n : ℕ = length (b ∷ bs) in
      let (c1, run, left, out, up1) = get_all-Takes n (b ∷ bs) refl c rest up h in
      let read : Act RpcClient RpcResponse =
        get_all n >>= λ x. parsed_response C can_allocate (C.parse_response x) in
      (
        c1,
        ap (λ y. (if y then read else fail threw) c) t.room
            ∙ bind-eq (get_all n) (λ x. parsed_response C can_allocate (C.parse_response x)) run
            ∙ ap (λ o. parsed_response C can_allocate o c1) e,
        left,
        out,
        up1,
      )

  get_response-Takes :
      (type : ℕ) (bs : Bytes) (r : RpcResponse)
      → IsTaken can_allocate bs
      → C.parse_response bs ≡ some r
      → Takes (get_response C can_allocate) (frame type bs) r
  get_response-Takes type bs r t e c rest up h =
      let h1 = h ∙ append_assoc (encode 4 type) (encode 4 (length bs) ++ bs) rest in
      let (c1, run1, in1, out1, up1) =
        get_all-Takes 4 (encode 4 type) (sym (length-encode 4 type)) c
          ((encode 4 (length bs) ++ bs) ++ rest) up h1 in
      let h2 = in1 ∙ append_assoc (encode 4 (length bs)) bs rest in
      let (c2, run2, in2, out2, up2) =
        get_all-Takes 4 (encode 4 (length bs)) (sym (length-encode 4 (length bs))) c1 (bs ++ rest)
          up1 h2 in
      let (c3, run3, in3, out3, up3) = get_payload-Takes bs r t e c2 rest up2 in2 in
      let size : decode (encode 4 (length bs)) ≡ length bs =
        decode-encode 4 (length bs) (let q = t.short in omega arith) in
      (
        c3,
        bind-eq (get_all 4) _ run1
            ∙ bind-eq (get_all 4) _ run2
            ∙ ap (λ n. get_payload C can_allocate n c2) size
            ∙ run3,
        in3,
        out3 ∙ out2 ∙ out1,
        up3,
      )

  -- The client sends the frame of a request before it looks at what arrives.
  abbrev pub SendsFrame : ℕ → Bytes → RpcClient → Type 0
  SendsFrame type request c =
      (c' : RpcClient) × (send_request C can_allocate request type c
        ≡ get_response C can_allocate c')
      × (c'.output ≡ c.output ++ frame type request)
      × (c'.input ≡ c.input)
      × IsUp c'

  send_request-SendsFrame :
      (type : ℕ) (request : Bytes) (c : RpcClient)
      → IsUp c
      → c.connected ≡ true
      → length request < two32
      → SendsFrame type request c
  unfolding send_request
  send_request-SendsFrame type request c up on short =
      let whole : take (length request % two32) request ≡ request =
        ap (λ n. take n request) (mod-eq_of_lt short)
        ∙ take_all (length request) request (omega arith) in
      let (c1, run1, out1, in1, up1) = put_all-Puts (encode 4 type) c up in
      let (c2, run2, out2, in2, up2) = put_all-Puts (encode 4 (length request)) c1 up1 in
      let (c3, run3, out3, in3, up3) = put_all-Puts request c2 up2 in
      (
        c3,
        ap (λ b. if b then exchange C can_allocate request type c else (stop refused, c)) on
            ∙ bind-eq (put_all (encode 4 type)) _ run1
            ∙ bind-eq (put_all (encode 4 (length request))) _ run2
            ∙ ap (λ bs. (put_all bs >> get_response C can_allocate) c2) whole
            ∙ bind-eq (put_all request) _ run3,
        out3
            ∙ ap (λ o. o ++ request) (out2 ∙ ap (λ o. o ++ encode 4 (length request)) out1)
            ∙ append_assoc (c.output ++ encode 4 type) (encode 4 (length request)) request
            ∙ append_assoc c.output (encode 4 type) (encode 4 (length request) ++ request),
        in3 ∙ in2 ∙ in1,
        up3,
      )

  -- A request that is answered with a frame of any type: the client returns the response.
  pub send_request-answered :
      (type answer_type : ℕ) (request answer : Bytes) (r : RpcResponse) (c : RpcClient)
      → IsUp c
      → c.connected ≡ true
      → length request < two32
      → IsTaken can_allocate answer
      → C.parse_response answer ≡ some r
      → content c.input ≡ frame answer_type answer
      → (c' : RpcClient) × (send_request C can_allocate request type c ≡ (ok r, c'))
  send_request-answered type answer_type request answer r c up on short t e h =
      let (c1, run1, out1, in1, up1) = send_request-SendsFrame type request c up on short in
      let arrives = ap content in1 ∙ h ∙ sym (append-nil (frame answer_type answer)) in
      let (c2, run2, in2, out2, up2) =
        get_response-Takes answer_type answer r t e c1 [] up1 arrives in
      (c2, run1 ∙ run2)

  -- A step that sends nothing, whatever comes of it.
  abbrev pub IsQuiet : {A : Type 0} → Act RpcClient A → Type 0
  IsQuiet m = (c : RpcClient) → (m c).1.output ≡ c.output

  pub bind-IsQuiet :
      {A B : Type 0} (m : Act RpcClient A) (f : A → Act RpcClient B) (c : RpcClient)
      → ((a : A) → IsQuiet (f a))
      → ((m >>= f) c).1.output ≡ (m c).1.output
  unfolding ◌>>=◌
  bind-IsQuiet {A} {B} m f c k = go (m c)
    where
      go : (r : Result A × RpcClient) → (continue r.0 f r.1).1.output ≡ r.1.output
      go (ok a, d) = k a d
      go (stop e, d) = refl

  get_all-IsQuiet : (n : ℕ) → IsQuiet (get_all n)
  unfolding get_all
  get_all-IsQuiet n c = refl

  parsed-IsQuiet : (o : Option RpcResponse) → IsQuiet (parsed_response C can_allocate o)
  unfolding pure fail
  parsed-IsQuiet none c = refl
  parsed-IsQuiet (some r) c = refl

  get_payload-IsQuiet : (n : ℕ) → IsQuiet (get_payload C can_allocate n)
  unfolding get_payload fail
  get_payload-IsQuiet zero c = refl
  get_payload-IsQuiet (suc n) c = elim (Bool-cases (can_allocate (suc n))) [
    | inl room ↦ rw room (
        bind-IsQuiet (get_all (suc n)) (λ bs. parsed_response C can_allocate (C.parse_response bs))
          c (λ bs. parsed-IsQuiet (C.parse_response bs))
        ∙ get_all-IsQuiet (suc n) c)
    | inr full ↦ rw full refl
  ]

  get_response-IsQuiet : IsQuiet (get_response C can_allocate)
  get_response-IsQuiet c =
      bind-IsQuiet (get_all 4) _ c (λ type d.
        bind-IsQuiet (get_all 4) _ d (λ size. get_payload-IsQuiet (decode size))
        ∙ get_all-IsQuiet 4 d)
      ∙ get_all-IsQuiet 4 c

  pub send_request-sent :
      (type : ℕ) (request : Bytes) (c : RpcClient)
      → IsUp c
      → c.connected ≡ true
      → length request < two32
      → (send_request C can_allocate request type c).1.output ≡ c.output ++ frame type request
  send_request-sent type request c up on short =
      let (c1, run1, out1, in1, up1) = send_request-SendsFrame type request c up on short in
      ap (λ r. r.1.output) run1 ∙ get_response-IsQuiet c1 ∙ out1
