-- ===== src/Socket/Laws.antt =====
-- What a receive returns depends on the bytes of the stream alone, not on how they arrive.
use file_sync_tool.Base.{
  ℕ, zero, suc, ◌-◌, ◌≤◌, ◌<◌, ◌≡◌, refl, sym, ap, ◌∙◌, ◌⊎◌, inl, inr, Option, none, some, List, [],
  ◌∷◌, ◌++◌, arith, append-nil, length, take, drop, length-append, length-take, take-append_left,
  drop-append_left, take-append_right, drop-append_right, ltb, Bool-cases,
}
use file_sync_tool.Base.Text.{Bytes}
use file_sync_tool.Action.{ok, stop, refused}
use file_sync_tool.Socket.{
  Event, chunk, interrupted, failure, Recv, push_back, robust_read, prepend_ok, after_read,
  receive_loop, receive_bytes,
}

-- The bytes that arrive before the stream ends or fails.
abbrev pub content : List Event → Bytes
content [] = []
content (chunk b bs ∷ es) = b ∷ (bs ++ content es)
content (interrupted ∷ es) = content es
content (failure ∷ es) = []

pub content-push_back :
    (bs : Bytes) (es : List Event) → content (push_back bs es) ≡ bs ++ content es
content-push_back [] es = refl
content-push_back (b ∷ bs) es = refl

abbrev pub ReadsAll : List Event → ℕ → Type 0
ReadsAll es n =
    (rest : List Event) × (robust_read es n ≡ (some (take n (content es)), rest))
    × (content rest ≡ drop n (content es))

-- robustRead returns the next `n` bytes of a stream that still has them.
pub robust_read-all : (es : List Event) (n : ℕ) → n ≤ length (content es) → ReadsAll es n
unfolding robust_read
robust_read-all [] zero h = ([], refl, refl)
robust_read-all [] (suc n) h = absurd (omega arith)
robust_read-all (interrupted ∷ es) zero h = (interrupted ∷ es, refl, refl)
robust_read-all (interrupted ∷ es) (suc n) h =
    let (rest, e, d) = robust_read-all es (suc n) h in (rest, ground (arith, e), d)
robust_read-all (failure ∷ es) zero h = (failure ∷ es, refl, refl)
robust_read-all (failure ∷ es) (suc n) h = absurd (omega arith)
robust_read-all (chunk b bs ∷ es) n h = elim (Bool-cases (ltb (length (b ∷ bs)) n)) [
  | inl more ↦
      let (rest, e, d) =
        robust_read-all es (n - length (b ∷ bs)) (omega (arith, length-append bs (content es))) in
      (
        rest,
        ground (arith, more, e, take-append_right n (b ∷ bs) (content es)),
        d ∙ sym (drop-append_right n (b ∷ bs) (content es) (ground arith)),
      )
  | inr last ↦ (
    push_back (drop n (b ∷ bs)) es,
    ground (arith, last, take-append_left n (b ∷ bs) (content es)),
    content-push_back (drop n (b ∷ bs)) es
        ∙ sym (drop-append_left n (b ∷ bs) (content es) (ground arith)),
  )
]

abbrev pub FallsShort : List Event → ℕ → Type 0
FallsShort es n =
    ((robust_read es n).0 ≡ none)
    ⊎ ((robust_read es n).0 ≡ some (content es)) × (content (robust_read es n).1 ≡ [])

-- Where fewer than `n` bytes are left, it returns an error or all of them.
pub robust_read-short : (es : List Event) (n : ℕ) → length (content es) < n → FallsShort es n
unfolding robust_read
robust_read-short [] n h = inr (refl, refl)
robust_read-short (interrupted ∷ es) n h = ground (arith, robust_read-short es n h)
robust_read-short (failure ∷ es) n h = inl (ground arith)
robust_read-short (chunk b bs ∷ es) n h = ground (
  arith,
  robust_read-short es (n - length (b ∷ bs)),
  length-append bs (content es),
  length-append (b ∷ bs) (content es),
)

receive_loop-zero : (fuel : ℕ) (es : List Event) → receive_loop fuel 0 es ≡ (ok [], es)
unfolding receive_loop
receive_loop-zero zero es = refl
receive_loop-zero (suc fuel) es = refl

after_read-some :
    (got : Bytes) (rest : List Event) (next : Bytes → Recv Bytes)
    → 0 < length got
    → after_read (some got, rest) next ≡ next got rest
after_read-some [] rest next h = absurd (omega arith)
after_read-some (b ∷ bs) rest next h = refl

-- The three outcomes of a call of robustRead in the loop.
after_read-short :
    (r : Option Bytes × List Event) (next : Bytes → Recv Bytes)
    → ((got : Bytes) (rest : List Event)
        → r ≡ (some got, rest)
        → 0 < length got
        → (next got rest).0 ≡ stop refused)
    → (after_read r next).0 ≡ stop refused
after_read-short (none, es) next k = refl
after_read-short (some [], es) next k = refl
after_read-short (some (b ∷ bs), es) next k = k (b ∷ bs) es refl (omega arith)

abbrev again : ℕ → ℕ → Bytes → Recv Bytes
again fuel n got rest = prepend_ok got (receive_loop fuel (n - length got) rest)

receive_loop-suc :
    (fuel n : ℕ) (es : List Event)
    → receive_loop (suc fuel) (suc n) es ≡ after_read (robust_read es (suc n)) (again fuel (suc n))
unfolding receive_loop
receive_loop-suc fuel n es = ground arith

abbrev pub ReceivesAll : List Event → ℕ → Type 0
ReceivesAll es n =
    (rest : List Event) × (receive_bytes n es ≡ (ok (take n (content es)), rest))
    × (content rest ≡ drop n (content es))

-- receiveBytes returns the next `n` bytes of a stream that still has them and leaves the rest,
-- however the bytes are cut into chunks and wherever calls of read are interrupted.
pub receive_bytes-all : (es : List Event) (n : ℕ) → n ≤ length (content es) → ReceivesAll es n
unfolding receive_bytes
receive_bytes-all es zero h = (es, refl, refl)
receive_bytes-all es (suc n) h =
    let (rest, e, d) = robust_read-all es (suc n) h in
    let got : Bytes = take (suc n) (content es) in
    let k : length got ≡ suc n = omega (arith, length-take (suc n) (content es)) in
    let z : suc n - length got ≡ 0 = omega arith in
    (
      rest,
      receive_loop-suc n n es
          ∙ ap (λ r. after_read r (again n (suc n))) e
          ∙ after_read-some got rest (again n (suc n)) (omega arith)
          ∙ ap (λ m. prepend_ok got (receive_loop n m rest)) z
          ∙ ap (prepend_ok got) (receive_loop-zero n rest)
          ∙ ap (λ bs. (ok bs, rest)) (append-nil got),
      d,
    )

receive_loop-short :
    (fuel n : ℕ) (es : List Event)
    → length (content es) < n
    → n ≤ fuel
    → (receive_loop fuel n es).0 ≡ stop refused
receive_loop-short zero n es h f = absurd (omega arith)
receive_loop-short (suc fuel) zero es h f = absurd (omega arith)
receive_loop-short (suc fuel) (suc n) es h f = rw (receive_loop-suc fuel n es) (
    after_read-short (robust_read es (suc n)) (again fuel (suc n)) λ got rest e some_read.
      ground (
        arith,
        e,
        robust_read-short es (suc n) h,
        receive_loop-short fuel (suc n - length got) rest,
      ))

-- Where fewer than `n` bytes arrive before the stream ends or fails, receiveBytes returns false,
-- and never a short or unending read.
pub receive_bytes-short :
    (es : List Event) (n : ℕ) → length (content es) < n → (receive_bytes n es).0 ≡ stop refused
unfolding receive_bytes
receive_bytes-short es n h = receive_loop-short n n es h (omega arith)
