-- ===== src/AsyncIo/SendFile/Waits.antt =====
-- What the wait of sendFileViaAsyncIO comes to.
use file_sync_tool.Base.{
  ℕ, zero, suc, ◌+◌, ◌<◌, ◌≤◌, ◌≡◌, ◌↔◌, refl, sym, ap, ◌∙◌, inl, inr, Bool, true, false, none,
  some, List, [], ◌∷◌, ◌++◌, arith, append-nil, length, length-append, length-take, take, drop,
  take_all, ltb, ltb→lt, Bool-cases, true≢false,
}
use file_sync_tool.Base.Text.{Bytes}
use file_sync_tool.Sending.{WriteEvent, accepts, interrupted, fails}
use file_sync_tool.Disk.{Stat}
use file_sync_tool.AsyncIo.{Handler, is_none, can_add, register_write}
use file_sync_tool.AsyncIo.SendFile.{
  async_buffer_size, Callback, first, Transfer, World, Started, waits, send_file_via_async_io,
  run_events,
}
use file_sync_tool.AsyncIo.SendFile.Phases.{
  AllTake, IsOver, Phase, event_step, first_buffer, fits_large, fits_small, found_eq, not_less,
  over_eq, run_events-Phase, set_at-same, write_grows,
}

module _ (allowed : Bool) (sock : ℕ) (content : Bytes) where
  -- What a state of the wait shows.
  pub record Outcome (w : World) : Type 0 where
    -- the socket has taken some of the first buffer, and nothing else
    pub taken : Bytes
    pub left : Bytes
    pub prefix : taken ++ left ≡ take async_buffer_size content
    pub sent : w.1.sent ≡ taken
    -- the flag is set exactly where the socket has the whole file
    pub done_iff : (w.1.done ≡ true) ↔ (w.1.sent ≡ content)
    -- and never for a file that is longer than a buffer
    pub hangs : async_buffer_size < length content → w.1.done ≡ false

  short_buffer : length (first_buffer allowed sock content) ≤ length content
  short_buffer = omega (arith, length-take async_buffer_size content)

  Phase-Outcome : (w : World) → (Phase allowed sock content) w → Outcome w
  Phase-Outcome w (inl (left, s)) =
      let n = s.not_empty in
      let m = ap length s.split in
      record {
        taken = w.1.sent;
        left = left;
        prefix = s.split;
        sent = refl;
        done_iff = (
          (λ d. absurd (true≢false (sym d ∙ s.waiting))),
          (λ all.
              absurd
                (omega (arith, n, m, ap length all, length-append w.1.sent left, short_buffer))),
        );
        hangs = λ h. s.waiting;
      }
  Phase-Outcome w (inr o) = record {
    taken = (first_buffer allowed sock content);
    left = [];
    prefix = append-nil (first_buffer allowed sock content);
    sent = o.sent;
    done_iff = elim (Bool-cases (ltb async_buffer_size (length content))) [
      | inl large ↦
          let more = ltb→lt async_buffer_size (length content) large in
          (
            (λ d. absurd (true≢false (sym d ∙ o.done ∙ (fits_large allowed sock content) more))),
            (λ all. absurd (
                omega (
                  arith,
                  more,
                  ap length (sym o.sent ∙ all),
                  length-take async_buffer_size content,
                ))),
          )
      | inr small ↦
          let fewer : length content ≤ async_buffer_size =
            not_less async_buffer_size (length content) small in
          (
            (λ d. o.sent ∙ take_all async_buffer_size content fewer),
            (λ all. o.done ∙ (fits_small allowed sock content) fewer),
          )
    ];
    hangs = λ h. o.done ∙ (fits_large allowed sock content) h;
  }

  run_events-IsOver :
      (es : List WriteEvent) (w : World)
      → AllTake es
      → (Phase allowed sock content) w
      → length (first_buffer allowed sock content) ≤ length w.1.sent + length es
      → (IsOver allowed sock content) (run_events allowed sock es w)
  unfolding run_events
  run_events-IsOver [] w t (inl (left, s)) h =
      let n = s.not_empty in
      absurd (omega (arith, n, ap length s.split, length-append w.1.sent left))
  run_events-IsOver [] w t (inr o) h = o
  run_events-IsOver (accepts zero ∷ es) w t p h = absurd t
  run_events-IsOver (interrupted ∷ es) w t p h = absurd t
  run_events-IsOver (fails ∷ es) w t p h = absurd t
  run_events-IsOver (accepts (suc n) ∷ es) w t (inl (left, s)) h =
      let more = (write_grows allowed sock content) w left n s in
      let same =
        ap (λ (v : World). length v.1.sent)
          ((found_eq allowed sock content) w left (accepts (suc n)) s) in
      run_events-IsOver es _ t
        ((event_step allowed sock content) w (accepts (suc n)) (inl (left, s)))
        (omega (arith, more, same, h))
  run_events-IsOver (accepts (suc n) ∷ es) w t (inr o) h =
      run_events-IsOver es _ t ((event_step allowed sock content) w (accepts (suc n)) (inr o)) (
        let same =
          ap (λ (v : World). length v.1.sent)
            ((over_eq allowed sock content) w (accepts (suc n)) o) in
        omega (arith, same, ap length o.sent))

  start_Phase :
      (h : Handler Callback Callback) (bs : Bytes) (x : Transfer)
      → can_add true sock h ≡ true
      → 0 < length bs
      → bs ≡ (first_buffer allowed sock content)
      → x.sent ≡ []
      → x.rest ≡ drop async_buffer_size content
      → x.eof ≡ ltb (length content) async_buffer_size
      → x.done ≡ false
      → (Phase allowed sock content) (register_write true sock bs first h, x)
  unfolding register_write
  start_Phase h bs x can some_ first_ sent rest eof done = inl (
    bs,
    record {
      callback = rw can ((set_at-same allowed sock content) (some first) h.write_callbacks);
      buffer = rw can ((set_at-same allowed sock content) (some bs) h.write_buffers);
      not_empty = some_;
      split = ap (λ t. t ++ bs) sent ∙ first_;
      rest = rest;
      eof = eof;
      waiting = done;
    },
  )

abbrev pub Waits : ℕ → Bytes → Started → Type 0
Waits sock content started =
    (w : World) × (started ≡ waits w)
    × ((es : List WriteEvent) → Outcome true sock content (run_events true sock es w))
    × ((es : List WriteEvent)
        → AllTake es
        → length content ≤ async_buffer_size
        → length content ≤ length es
        → (run_events true sock es w).1.done ≡ true)

-- For a file that opens and is not empty, on a running handler that does not know the socket yet,
-- sendFileViaAsyncIO waits, and whatever its calls of write then do: the socket takes the first
-- buffer of 8192 bytes or a part of it and nothing else, and the flag it waits for is set exactly
-- where that is the whole file. A file that fits the buffer gets there after as many writes as it
-- has bytes, if each takes one; for a longer file the flag is never set, since the socket is still
-- registered when the callback registers the second buffer.
pub send_file_via_async_io-Waits :
    (sock : ℕ) (st : Stat) (content : Bytes) (h : Handler Callback Callback)
    → h.running ≡ true
    → h.registered sock ≡ none
    → 0 < length content
    → Waits sock content (send_file_via_async_io true sock (some st) (some content) h)
unfolding send_file_via_async_io
send_file_via_async_io-Waits sock st [] h on new some_ = absurd (omega (arith, some_))
send_file_via_async_io-Waits sock st (b ∷ bs) h on new some_ =
    let content : Bytes = b ∷ bs in
    let x : Transfer = record {
      rest = drop async_buffer_size content;
      eof = ltb (length content) async_buffer_size;
      done = false;
      sent = [];
    } in
    let start : Phase true sock content
        (register_write true sock (take async_buffer_size content) first h, x) =
      start_Phase true sock content h (take async_buffer_size content) x (ap is_none new)
        (omega (arith, length-take async_buffer_size content)) refl refl refl refl refl in
    (
      (register_write true sock (take async_buffer_size content) first h, x),
      rw on refl,
      (λ es. Phase-Outcome true sock content _ (run_events-Phase true sock content es _ start)),
      (λ es takes fit enough.
          (run_events-IsOver true sock content es _ takes start
            (omega (arith, length-take async_buffer_size content, enough))).done
          ∙ fits_small true sock content fit),
    )
