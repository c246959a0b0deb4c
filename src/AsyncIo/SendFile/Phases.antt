-- ===== src/AsyncIo/SendFile/Phases.antt =====
-- The two phases of sendFileViaAsyncIO after its first registerWrite (src/core/FileSync.cpp).
use file_sync_tool.Base.{
  ℕ, zero, suc, ◌<◌, ◌≤◌, ◌≡◌, refl, sym, ap, ◌∙◌, subst, ◌⊎◌, inl, inr, Bool, true, false, not,
  none, some, List, [], ◌∷◌, ◌++◌, arith, append_assoc, length, length-append, length-take,
  length-drop, take, drop, take-append-drop, min, ltb, ◌==◌, if◌then◌else◌, ltb→lt, Bool-cases,
}
use file_sync_tool.Base.Text.{Bytes}
use file_sync_tool.Sending.{WriteEvent, accepts, interrupted, fails}
use file_sync_tool.AsyncIo.{
  Handler, set_at, remove, write_found, write_ready, handle_event, writable,
}
use file_sync_tool.AsyncIo.SendFile.{
  async_buffer_size, Callback, first, Transfer, World, on_read, on_sent, on_write, run_events,
}

-- Each call of write takes a byte.
abbrev pub AllTake : List WriteEvent → Type 0
AllTake [] = Unit {0}
AllTake (accepts zero ∷ es) = ⊥
AllTake (accepts (suc k) ∷ es) = AllTake es
AllTake (interrupted ∷ es) = ⊥
AllTake (fails ∷ es) = ⊥

pub not_less : (m n : ℕ) → ltb m n ≡ false → n ≤ m
not_less m n h = ground arith

module _ (allowed : Bool) (sock : ℕ) (content : Bytes) where
  abbrev pub first_buffer : Bytes
  first_buffer = take async_buffer_size content

  abbrev pub fits : Bool
  fits = not (ltb async_buffer_size (length content))

  -- The socket has taken a part of the first buffer.
  pub record IsSending (left : Bytes) (w : World) : Type 0 where
    pub callback : w.0.write_callbacks sock ≡ some first
    pub buffer : w.0.write_buffers sock ≡ some left
    pub not_empty : 0 < length left
    pub split : w.1.sent ++ left ≡ first_buffer
    pub rest : w.1.rest ≡ drop async_buffer_size content
    pub eof : w.1.eof ≡ ltb (length content) async_buffer_size
    pub waiting : w.1.done ≡ false

  -- It has taken all of it, and nothing is registered.
  pub record IsOver (w : World) : Type 0 where
    pub callback : w.0.write_callbacks sock ≡ none
    pub sent : w.1.sent ≡ first_buffer
    pub done : w.1.done ≡ fits

  abbrev pub Phase : World → Type 0
  Phase w = ((left : Bytes) × IsSending left w) ⊎ IsOver w

  pub fits_small : length content ≤ async_buffer_size → fits ≡ true
  fits_small h = ground arith

  pub fits_large : async_buffer_size < length content → fits ≡ false
  fits_large h = ground arith

  -- After the first buffer: the callback reads on, and may register a second time.
  abbrev pub Continues : World → Bytes → Type 0
  Continues w sent = (w.1.done ≡ fits) × (w.1.sent ≡ sent)

  pub first-Continues :
      (h : Handler Callback Callback) (rest : Bytes) (eof done : Bool) (sent : Bytes)
      → rest ≡ drop async_buffer_size content
      → eof ≡ ltb (length content) async_buffer_size
      → done ≡ false
      → Continues
          (on_write allowed first sock
            (h, record { rest = rest; eof = eof; done = done; sent = sent }))
          sent
  first-Continues h rest true done sent e k l =
      let small = ltb→lt (length content) async_buffer_size (sym k) in
      (sym (fits_small (omega (arith, small))), refl)
  first-Continues h [] false done sent e k l =
      let n = length-drop async_buffer_size content in
      let m = ap length e in (sym (fits_small (omega (arith, n, m))), refl)
  first-Continues h (b ∷ bs) false done sent e k l =
      let n = length-drop async_buffer_size content in
      let m = ap length e in (l ∙ sym (fits_large (omega (arith, n, m))), refl)

  pub set_at-same : {A : Type 0} (a : A) (f : ℕ → A) → set_at sock a f sock ≡ a
  set_at-same a f = ground arith

  pub write_step :
      (w : World) (left : Bytes) (e : WriteEvent)
      → IsSending left w
      → Phase (write_found on_read (on_write allowed) on_sent (some first) (some left) sock e w)
  unfolding remove
  write_step w left interrupted s = inl (left, s)
  write_step w left fails s = inl (left, s)
  write_step w left (accepts zero) s = inl (left, s)
  write_step w [] (accepts (suc n)) s = let p = s.not_empty in absurd (omega arith)
  write_step w (b ∷ bs) (accepts (suc n)) s =
      let k : ℕ = min (suc n) (length (b ∷ bs)) in
      let x : Transfer = on_sent sock (b ∷ bs) w.1 in
      let all : World = on_write allowed first sock (w.0, x) in
      let gone : World = (remove sock all.0, all.1) in
      let part : World = (
        record w.0 { write_buffers = set_at sock (some (drop k (b ∷ bs))) w.0.write_buffers },
        on_sent sock (take k (b ∷ bs)) w.1,
      ) in
      elim (Bool-cases (k == length (b ∷ bs))) [
        | inl whole ↦ subst Phase (sym (ap (λ t. if t then gone else part) whole)) (inr (over s))
        | inr some_ ↦ subst Phase (sym (ap (λ t. if t then gone else part) some_)) (
            inl (
              drop k (b ∷ bs),
              record {
                callback = s.callback;
                buffer = set_at-same (some (drop k (b ∷ bs))) w.0.write_buffers;
                not_empty = ground (arith, length-drop k (b ∷ bs));
                split =
                    append_assoc w.1.sent (take k (b ∷ bs)) (drop k (b ∷ bs))
                    ∙ ap (λ t. w.1.sent ++ t) (take-append-drop k (b ∷ bs))
                    ∙ s.split;
                rest = s.rest;
                eof = s.eof;
                waiting = s.waiting;
              },
            ))
      ]
    where
      over :
          IsSending (b ∷ bs) w
          → IsOver (
            remove sock (on_write allowed first sock (w.0, on_sent sock (b ∷ bs) w.1)).0,
            (on_write allowed first sock (w.0, on_sent sock (b ∷ bs) w.1)).1,
          )
      over s =
          let (done, sent) =
            first-Continues w.0 w.1.rest w.1.eof w.1.done (w.1.sent ++ (b ∷ bs)) s.rest s.eof
              s.waiting in
          record {
            callback =
                set_at-same none
                  (on_write allowed first sock (w.0, on_sent sock (b ∷ bs) w.1)).0.write_callbacks;
            sent = sent ∙ s.split;
            done = done;
          }

  pub found_eq :
      (w : World) (left : Bytes) (e : WriteEvent)
      → IsSending left w
      → handle_event on_read (on_write allowed) on_sent sock (writable e) w
        ≡ write_found on_read (on_write allowed) on_sent (some first) (some left) sock e w
  unfolding handle_event write_ready
  found_eq w left e s =
      ap (λ o. write_found on_read (on_write allowed) on_sent o (w.0.write_buffers sock) sock e w)
        s.callback
      ∙ ap (λ o. write_found on_read (on_write allowed) on_sent (some first) o sock e w) s.buffer

  pub over_eq :
      (w : World) (e : WriteEvent)
      → IsOver w
      → handle_event on_read (on_write allowed) on_sent sock (writable e) w ≡ w
  unfolding handle_event write_ready
  over_eq w e o =
      ap (λ c. write_found on_read (on_write allowed) on_sent c (w.0.write_buffers sock) sock e w)
        o.callback

  pub event_step :
      (w : World) (e : WriteEvent)
      → Phase w
      → Phase (handle_event on_read (on_write allowed) on_sent sock (writable e) w)
  event_step w e (inl (left, s)) = subst Phase (sym (found_eq w left e s)) (write_step w left e s)
  event_step w e (inr o) = subst Phase (sym (over_eq w e o)) (inr o)

  pub run_events-Phase :
      (es : List WriteEvent) (w : World) → Phase w → Phase (run_events allowed sock es w)
  unfolding run_events
  run_events-Phase [] w p = p
  run_events-Phase (e ∷ es) w p = run_events-Phase es _ (event_step w e p)

  -- A write that takes a byte is seen in what was sent.
  pub write_grows :
      (w : World) (left : Bytes) (n : ℕ)
      → IsSending left w
      → length w.1.sent
        < length
            (write_found on_read
              (on_write allowed)
              on_sent
              (some first)
              (some left)
              sock
              (accepts (suc n))
              w).1.sent
  write_grows w [] n s = let p = s.not_empty in absurd (omega arith)
  write_grows w (b ∷ bs) n s =
      let k : ℕ = min (suc n) (length (b ∷ bs)) in
      let x : Transfer = on_sent sock (b ∷ bs) w.1 in
      let all : World = on_write allowed first sock (w.0, x) in
      let gone : World = (remove sock all.0, all.1) in
      let part : World = (
        record w.0 { write_buffers = set_at sock (some (drop k (b ∷ bs))) w.0.write_buffers },
        on_sent sock (take k (b ∷ bs)) w.1,
      ) in
      let (done, sent) =
        first-Continues w.0 w.1.rest w.1.eof w.1.done (w.1.sent ++ (b ∷ bs)) s.rest s.eof
          s.waiting in
      elim (Bool-cases (k == length (b ∷ bs))) [
        | inl whole ↦
            subst (λ (v : World). length w.1.sent < length v.1.sent)
              (sym (ap (λ t. if t then gone else part) whole))
              (omega (arith, ap length sent, length-append w.1.sent (b ∷ bs)))
        | inr some_ ↦
            subst (λ (v : World). length w.1.sent < length v.1.sent)
              (sym (ap (λ t. if t then gone else part) some_))
              (omega (arith, length-append w.1.sent (take k (b ∷ bs)), length-take k (b ∷ bs)))
      ]
