-- ===== src/Rpc/Calls/Moves.antt =====
-- What sendAll and recvAll of src/rpc/RpcClient.cpp move where no call fails.
use file_sync_tool.Base.{
  ℕ, zero, suc, ◌-◌, ◌≤◌, ◌≡◌, refl, sym, ap, ◌∙◌, Bool, true, List, [], ◌∷◌, ◌++◌, arith, length,
  length-append, take, drop, take-append, drop-append, take-append_left, drop-append_left,
  take-append_right, drop-append_right, take-append-drop, ltb, Bool-cases, inl, inr,
}
use file_sync_tool.Base.Text.{Bytes}
use file_sync_tool.Action.{Result, ok, Act, require}
use file_sync_tool.Sending.{WriteEvent, accepts, interrupted, fails}
use file_sync_tool.Socket.{Event, chunk, interrupted, failure, push_back}
use file_sync_tool.Socket.Laws.{content, content-push_back}
use file_sync_tool.Rpc.Client.{RpcClient, client_send, client_recv, put_all, get_all}

-- No call of recv is interrupted or fails.
abbrev pub Steady : List Event → Type 0
Steady [] = Unit {0}
Steady (chunk b bs ∷ es) = Steady es
Steady (interrupted ∷ es) = ⊥
Steady (failure ∷ es) = ⊥

-- Each call of send takes a byte at least.
abbrev pub Taking : List WriteEvent → Type 0
Taking [] = Unit {0}
Taking (accepts zero ∷ es) = ⊥
Taking (accepts (suc k) ∷ es) = Taking es
Taking (interrupted ∷ es) = ⊥
Taking (fails ∷ es) = ⊥

pub push_back-Steady : (bs : Bytes) (es : List Event) → Steady es → Steady (push_back bs es)
push_back-Steady [] es h = h
push_back-Steady (b ∷ bs) es h = h

abbrev pub Gets : List Event → ℕ → Type 0
Gets es n =
    (rest : List Event) × (client_recv es n ≡ (ok (take n (content es)), rest))
    × (content rest ≡ drop n (content es))
    × Steady rest

pub client_recv-Gets : (es : List Event) (n : ℕ) → Steady es → n ≤ length (content es) → Gets es n
unfolding client_recv
client_recv-Gets es zero k h = (es, refl, refl, k)
client_recv-Gets [] (suc n) k h = absurd (omega arith)
client_recv-Gets (interrupted ∷ es) (suc n) k h = absurd k
client_recv-Gets (failure ∷ es) (suc n) k h = absurd k
client_recv-Gets (chunk b bs ∷ es) (suc n) k h = elim (Bool-cases (ltb (length (b ∷ bs)) (suc n))) [
  | inl more ↦
      let (rest, e, d, steady) =
        client_recv-Gets es (suc n - length (b ∷ bs)) k
          (omega (arith, length-append bs (content es))) in
      (
        rest,
        ground (arith, more, e, take-append_right (suc n) (b ∷ bs) (content es)),
        d ∙ sym (drop-append_right (suc n) (b ∷ bs) (content es) (ground arith)),
        steady,
      )
  | inr last ↦ (
    push_back (drop (suc n) (b ∷ bs)) es,
    ground (arith, last, take-append_left (suc n) (b ∷ bs) (content es)),
    content-push_back (drop (suc n) (b ∷ bs)) es
        ∙ sym (drop-append_left (suc n) (b ∷ bs) (content es) (ground arith)),
    push_back-Steady (drop (suc n) (b ∷ bs)) es k,
  )
]

pub record Sent (es : List WriteEvent) (bs : Bytes) : Type 0 where
  pub whole : (client_send es bs).0 ≡ bs
  pub all : (client_send es bs).1 ≡ true
  pub more : Taking (client_send es bs).2

pub client_send-Sent : (es : List WriteEvent) (bs : Bytes) → Taking es → Sent es bs
unfolding client_send
client_send-Sent [] bs h = record { whole = refl; all = refl; more = tt }
client_send-Sent (e ∷ es) [] h = record { whole = refl; all = refl; more = h }
client_send-Sent (accepts zero ∷ es) (b ∷ bs) h = absurd h
client_send-Sent (accepts (suc k) ∷ es) (b ∷ bs) h =
    let s = client_send-Sent es (drop k bs) h in
    record {
      whole = ap (λ x. b ∷ (take k bs ++ x)) s.whole ∙ ap (λ x. b ∷ x) (take-append-drop k bs);
      all = s.all;
      more = s.more;
    }
client_send-Sent (interrupted ∷ es) (b ∷ bs) h = absurd h
client_send-Sent (fails ∷ es) (b ∷ bs) h = absurd h

-- A client whose calls all move something.
pub record IsUp (c : RpcClient) : Type 0 where
  pub steady : Steady c.input
  pub taking : Taking c.sends

-- A step that sends nothing and takes `bs` off the stream.
abbrev pub Takes : {A : Type 0} → Act RpcClient A → Bytes → A → Type 0
Takes {A} m bs a =
    (c : RpcClient) (rest : Bytes)
    → IsUp c
    → content c.input ≡ bs ++ rest
    → (c' : RpcClient) × (m c ≡ (ok a, c'))
      × (content c'.input ≡ rest)
      × (c'.output ≡ c.output)
      × IsUp c'

pub get_all-Takes : (n : ℕ) (bs : Bytes) → n ≡ length bs → Takes (get_all n) bs bs
unfolding get_all
get_all-Takes n bs h c rest up e =
    let fits : n ≤ length (content c.input) = omega (arith, ap length e, length-append bs rest) in
    let (left, run, after, steady) = client_recv-Gets c.input n up.steady fits in
    let got : take n (content c.input) ≡ bs = ap (take n) e ∙ take-append n bs rest h in
    (
      record c { input = left },
      ap (λ r. (r.0, record c { input = r.1 })) (run ∙ ap (λ x. (ok x, left)) got),
      after ∙ ap (drop n) e ∙ drop-append n bs rest h,
      refl,
      record { steady = steady; taking = up.taking },
    )

-- A step that sends `bs`.
abbrev pub Puts : Act RpcClient (Unit {0}) → Bytes → Type 0
Puts m bs =
    (c : RpcClient)
    → IsUp c
    → (c' : RpcClient) × (m c ≡ (ok tt, c'))
      × (c'.output ≡ c.output ++ bs)
      × (c'.input ≡ c.input)
      × IsUp c'

pub put_all-Puts : (bs : Bytes) → Puts (put_all bs) bs
unfolding put_all require
put_all-Puts bs c up =
    let s = client_send-Sent c.sends bs up.taking in
    let sent : Bytes → Bool → Result (Unit {0}) × RpcClient = λ d all.
      require all (record c { output = c.output ++ d; sends = (client_send c.sends bs).2 }) in
    (
      record c { output = c.output ++ bs; sends = (client_send c.sends bs).2 },
      ap (λ d. sent d (client_send c.sends bs).1) s.whole ∙ ap (sent bs) s.all,
      refl,
      refl,
      record { steady = up.steady; taking = s.more },
    )
