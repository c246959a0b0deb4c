-- ===== src/Rpc/Ends.antt =====
-- handleRpcClient comes to an end on whatever arrives.
use file_sync_tool.Base.{
  ℕ, zero, suc, ◌+◌, ◌-◌, ◌<◌, ◌≤◌, ◌≡◌, refl, ap, ◌∙◌, subst, Bool, true, false, Option, none,
  some, List, [], ◌∷◌, ◌++◌, arith, length, length-append, length-drop, drop, ltb, Bool-cases, inl,
  inr,
}
use file_sync_tool.Base.Text.{Bytes}
use file_sync_tool.Action.{
  Result, ok, stop, refused, threw, overran, out_of_fuel, Act, ◌>>=◌, ◌>>◌, continue, pure, fail,
  require,
}
use file_sync_tool.Wire.{decode}
use file_sync_tool.Sending.{interrupted}
use file_sync_tool.Socket.{Event, chunk, interrupted, failure, Recv, prepend_ok}
use file_sync_tool.Socket.Laws.{content, content-push_back}
use file_sync_tool.Rpc.{
  recv_all, recv, send_buffer, Channel, Service, parsed, receive_payload, receive_request,
  put_bytes, put_response, send_response, after_response, after_request, serve, handle_rpc_client,
}

-- A receive that took at least `n` bytes, or ended for a reason of the program.
abbrev Took : {A : Type 0} → ℕ → List Event → Result A × List Event → Type 0
Took n es (ok a, rest) = length (content rest) + n ≤ length (content es)
Took n es (stop out_of_fuel, rest) = ⊥
Took n es (stop refused, rest) = Unit {0}
Took n es (stop threw, rest) = Unit {0}
Took n es (stop overran, rest) = Unit {0}

prepend-Took :
    (b : ℕ) (bs : Bytes) (n : ℕ) (es : List Event) (r : Result Bytes × List Event)
    → Took n es r
    → Took (n + length (b ∷ bs)) (chunk b bs ∷ es) (prepend_ok (b ∷ bs) r)
prepend-Took b bs n es (ok got, rest) h = omega (arith, length-append bs (content es))
prepend-Took b bs n es (stop refused, rest) h = tt
prepend-Took b bs n es (stop threw, rest) h = tt
prepend-Took b bs n es (stop overran, rest) h = tt
prepend-Took b bs n es (stop out_of_fuel, rest) h = h

recv_all-Took : (es : List Event) (n : ℕ) → Took n es (recv_all es n)
unfolding recv_all
recv_all-Took es zero = omega arith
recv_all-Took [] (suc n) = tt
recv_all-Took (interrupted ∷ es) (suc n) = recv_all-Took es (suc n)
recv_all-Took (failure ∷ es) (suc n) = tt
recv_all-Took (chunk b bs ∷ es) (suc n) = elim (Bool-cases (ltb (length (b ∷ bs)) (suc n))) [
  | inl more ↦
      let step =
        prepend-Took b bs (suc n - length (b ∷ bs)) es _
          (recv_all-Took es (suc n - length (b ∷ bs))) in
      let same : (suc n - length (b ∷ bs)) + length (b ∷ bs) ≡ suc n = ground arith in
      rw more (
        subst
          (λ k.
            Took k (chunk b bs ∷ es) (prepend_ok (b ∷ bs) (recv_all es (suc n - length (b ∷ bs)))))
          same step)
  | inr last ↦
      let left = content-push_back (drop (suc n) (b ∷ bs)) es in
      rw last (
        ground (
          arith,
          ap length left,
          length-append (drop (suc n) (b ∷ bs)) (content es),
          length-drop (suc n) (b ∷ bs),
          length-append bs (content es),
        ))
]

module _ {A B : Type 0} where
  continue-Took :
      (m n : ℕ) (es : List Event) (r : Result A × List Event) (f : A → Recv B)
      → Took m es r
      → ((a : A) (rest : List Event) → Took n rest (f a rest))
      → Took (m + n) es (continue r.0 f r.1)
  continue-Took m n es (ok a, rest) f h k = go (f a rest) (k a rest)
    where
      go : (x : Result B × List Event) → Took n rest x → Took (m + n) es x
      go (ok b, left) q = omega arith
      go (stop refused, left) q = tt
      go (stop threw, left) q = tt
      go (stop overran, left) q = tt
      go (stop out_of_fuel, left) q = q
  continue-Took m n es (stop refused, rest) f h k = tt
  continue-Took m n es (stop threw, rest) f h k = tt
  continue-Took m n es (stop overran, rest) f h k = tt
  continue-Took m n es (stop out_of_fuel, rest) f h k = h

  bind-Took :
      (m n : ℕ) (es : List Event) (x : Recv A) (f : A → Recv B)
      → Took m es (x es)
      → ((a : A) (rest : List Event) → Took n rest (f a rest))
      → Took (m + n) es ((x >>= f) es)
  unfolding ◌>>=◌
  bind-Took m n es x f h k = continue-Took m n es (x es) f h k

-- An ending other than that of the model's fuel.
abbrev pub Ends : {A : Type 0} → Result A → Type 0
Ends (ok a) = Unit {0}
Ends (stop refused) = Unit {0}
Ends (stop threw) = Unit {0}
Ends (stop overran) = Unit {0}
Ends (stop out_of_fuel) = ⊥

module _ (S : Service) (can_allocate : ℕ → Bool) where
  parsed-Took : (o : Option S.Request) (rest : List Event) → Took 0 rest (parsed o rest)
  unfolding pure fail
  parsed-Took none rest = tt
  parsed-Took (some r) rest = omega arith

  receive_payload-Took : (n : ℕ) (es : List Event) → Took 0 es (receive_payload S can_allocate n es)
  unfolding receive_payload fail
  receive_payload-Took zero es = tt
  receive_payload-Took (suc n) es = elim (Bool-cases (can_allocate (suc n))) [
    | inr no_room ↦ rw no_room tt
    | inl room ↦ rw room (
        less 0 (suc n) es ((recv (suc n) >>= λ bs. parsed (S.parse bs)) es) (
          bind-Took (suc n) 0 es (recv (suc n)) (λ bs. parsed (S.parse bs))
            (recv_all-Took es (suc n)) (λ bs rest. parsed-Took (S.parse bs) rest)))
  ]
    where
      less :
          (k n : ℕ) (es : List Event) (r : Result S.Request × List Event)
          → Took (n + k) es r
          → Took k es r
      less k n es (ok a, rest) h = omega arith
      less k n es (stop refused, rest) h = tt
      less k n es (stop threw, rest) h = tt
      less k n es (stop overran, rest) h = tt
      less k n es (stop out_of_fuel, rest) h = h

  receive_request-Took : (es : List Event) → Took 8 es (receive_request S can_allocate es)
  unfolding receive_request
  receive_request-Took es = bind-Took 4 4 es (recv 4) _ (recv_all-Took es 4) λ type rest.
      bind-Took 4 0 rest (recv 4) _ (recv_all-Took rest 4)
        λ size left. receive_payload-Took (decode size) left

  -- A put changes no input and does not run out of fuel.
  abbrev Keeps : Channel → Result (Unit {0}) × Channel → Type 0
  Keeps c (r, d) = Ends r × (d.input ≡ c.input)

  require-Keeps : (b : Bool) (c : Channel) → Keeps c (require b c)
  unfolding require
  require-Keeps true c = (tt, refl)
  require-Keeps false c = (tt, refl)

  put_bytes-Keeps : (bs : Bytes) (c : Channel) → Keeps c (put_bytes S can_allocate bs c)
  unfolding put_bytes
  put_bytes-Keeps bs c =
      let (ends, same) = require-Keeps (send_buffer c.sends bs).1 (record c {
        output = c.output ++ (send_buffer c.sends bs).0;
        sends = (send_buffer c.sends bs).2;
      }) in
      (ends, same)

  bind-Keeps :
      (m k : Act Channel (Unit {0})) (c : Channel)
      → Keeps c (m c)
      → ((d : Channel) → Keeps d (k d))
      → Keeps c ((m >> k) c)
  unfolding ◌>>=◌
  bind-Keeps m k c h next = go (m c) h
    where
      go : (r : Result (Unit {0}) × Channel) → Keeps c r → Keeps c (continue r.0 (λ _. k) r.1)
      go (ok _, d) (q, same) = let (ends, kept) = next d in (ends, kept ∙ same)
      go (stop refused, d) q = q
      go (stop threw, d) q = q
      go (stop overran, d) q = q
      go (stop out_of_fuel, d) q = q

  send_response-Keeps : (r : S.Response) (c : Channel) → Keeps c (send_response S can_allocate r c)
  unfolding send_response fail
  send_response-Keeps r c = go (S.serialize r)
    where
      go : (o : Option Bytes) → Keeps c (put_response S can_allocate (S.type_of r) o c)
      go none = (tt, refl)
      go (some bs) =
          bind-Keeps _ _ c (put_bytes-Keeps _ c)
            λ d. bind-Keeps _ _ d (put_bytes-Keeps _ d) λ e. put_bytes-Keeps _ e

  after_response-Ends :
      (n : ℕ) (d : Channel) (r : Result (Unit {0}) × Channel)
      (next : Channel → Result Bool × Channel)
      → Keeps d r
      → length (content d.input) < n
      → ((e : Channel) → length (content e.input) < n → Ends (next e).0)
      → Ends (after_response S can_allocate r next).0
  after_response-Ends n d (ok _, e) next (_, same) h k =
      k e (omega (arith, ap (λ es. length (content es)) same, h))
  after_response-Ends n d (stop refused, e) next h k l = tt
  after_response-Ends n d (stop threw, e) next h k l = tt
  after_response-Ends n d (stop overran, e) next h k l = tt
  after_response-Ends n d (stop out_of_fuel, e) next (h, _) k l = h

  after_request-Ends :
      (n : ℕ) (first : Bool) (c : Channel) (r : Result S.Request × List Event)
      (next : Channel → Result Bool × Channel)
      → Took 8 c.input r
      → length (content c.input) < suc n
      → ((e : Channel) → length (content e.input) < n → Ends (next e).0)
      → Ends (after_request S can_allocate first (r.0, record c { input = r.1 }) next).0
  after_request-Ends n first c (ok request, rest) next h k l =
      let d : Channel = record c { input = rest } in
      after_response-Ends n d _ next (send_response-Keeps (S.respond request) d)
        (omega (arith, h, k)) l
  after_request-Ends n first c (stop refused, rest) next h k l = tt
  after_request-Ends n first c (stop threw, rest) next h k l = tt
  after_request-Ends n first c (stop overran, rest) next h k l = tt
  after_request-Ends n first c (stop out_of_fuel, rest) next h k l = h

  serve-Ends :
      (fuel : ℕ) (first : Bool) (c : Channel)
      → length (content c.input) < fuel
      → Ends (serve S can_allocate fuel first c).0
  unfolding serve
  serve-Ends zero first c h = absurd (omega (arith, h))
  serve-Ends (suc fuel) first c h =
      after_request-Ends fuel first c (receive_request S can_allocate c.input)
        (serve S can_allocate fuel false) (receive_request-Took c.input) h (serve-Ends fuel false)

  -- Whatever bytes arrive, in whatever pieces, whichever calls of recv and send fail, and whatever
  -- the messages and the handlers are, handleRpcClient ends: one round for each byte is enough,
  -- since a round that goes on to the next has taken at least eight bytes off the stream.
  pub handle_rpc_client-Ends : (c : Channel) → Ends (handle_rpc_client S can_allocate c).0
  unfolding handle_rpc_client
  handle_rpc_client-Ends c = serve-Ends (suc (length (content c.input))) true c (omega arith)
