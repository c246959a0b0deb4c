-- ===== src/Reads.antt =====
-- What it is for a receive to take bytes off a stream and return a value: a judgement with one rule
-- for each way to build a receive. How the bytes are cut into chunks, and where calls of read are
-- interrupted, does not matter.
use file_sync_tool.Base.{
  ℕ, ◌≤◌, ◌≡◌, ap, ◌∙◌, List, [], ◌++◌, arith, append_assoc, length, length-append, take-append,
  drop-append, append-nil, subst,
}
use file_sync_tool.Base.Text.{Bytes}
use file_sync_tool.Action.{ok, ◌>>=◌, continue, pure}
use file_sync_tool.Socket.{Event, Recv, receive_bytes}
use file_sync_tool.Socket.Laws.{content, receive_bytes-all}

-- From a stream that begins with `bs`, `m` returns `a` and leaves what follows.
pub record Reads {A : Type 0} (m : Recv A) (bs : Bytes) (a : A) : Type 0 where
  pub at :
      (es : List Event) (rest : Bytes)
      → content es ≡ bs ++ rest
      → (left : List Event) × (m es ≡ (ok a, left)) × (content left ≡ rest)

module _ {A : Type 0} where
  pub Reads-pure : (a : A) → Reads (pure a) [] a
  unfolding pure
  Reads-pure a = record { at = λ es rest e. (es, cc, e) }

pub Reads-bytes : (n : ℕ) (bs : Bytes) → n ≡ length bs → Reads (receive_bytes n) bs bs
Reads-bytes n bs h = record {
  at = λ es rest e.
      let fits : n ≤ length (content es) = omega (arith, ap length e, length-append bs rest) in
      let (left, run, after) = receive_bytes-all es n fits in
      (
        left,
        run ∙ ap (λ got. (ok got, left)) (rw e (take-append n bs rest h)),
        after ∙ rw e (drop-append n bs rest h),
      );
}

module _ {A B : Type 0} where
  pub Reads-bind :
      {m : Recv A} (f : A → Recv B) {bs cs : Bytes} {a : A} {b : B}
      → Reads m bs a
      → Reads (f a) cs b
      → Reads (m >>= f) (bs ++ cs) b
  unfolding ◌>>=◌
  Reads-bind {m} f {bs} {cs} {a} {b} hm hf = record {
    at = λ es rest e.
        let (mid, run, at_mid) = hm.at es (cs ++ rest) (e ∙ append_assoc bs cs rest) in
        let (left, run', at_left) = hf.at mid rest at_mid in
        (left, ap (λ r. continue r.0 f r.1) run ∙ run', at_left);
  }

  -- The last step of a block only computes a value.
  pub Reads-map :
      {m : Recv A} {bs : Bytes} {a : A} (f : A → B)
      → Reads m bs a
      → Reads (m >>= λ x. pure (f x)) bs (f a)
  Reads-map {m} {bs} {a} f h =
      subst (λ cs. Reads (m >>= λ x. pure (f x)) cs (f a)) (append-nil bs)
        (Reads-bind (λ x. pure (f x)) h (Reads-pure (f a)))
