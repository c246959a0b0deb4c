-- ===== src/AsyncIo/Laws.antt =====
-- The tables of the handler agree with the epoll set, as long as its calls do not overlap.
use file_sync_tool.Base.{
  ℕ, zero, suc, ◌≡◌, refl, sym, ap, Bool, true, not, ◌&&◌, Option, none, some, List, [], ◌∷◌, arith,
  length, take, drop, min, ◌==◌, if◌then◌else◌, Bool-cases, inl, inr, subst,
}
use file_sync_tool.Base.Text.{Bytes}
use file_sync_tool.Sending.{WriteEvent, accepts, interrupted, fails}
use file_sync_tool.AsyncIo.{
  Interest, in_, out, Handler, set_at, is_none, ReadEnd, closed, would_block, Ready, readable,
  writable, start_io, stop_io, register_read, register_write, remove, call_read, read_ready,
  write_found, write_ready, handle_event,
}

module _ {R W : Type 0} where
  -- What the tables have for a descriptor: nothing, a reader, or a writer with its bytes.
  abbrev pub agrees : Option Interest → Option R → Option W → Option Bytes → Bool
  agrees none r w b = is_none r && (is_none w && is_none b)
  agrees (some in_) r w b = not (is_none r) && (is_none w && is_none b)
  agrees (some out) r w b = is_none r && (not (is_none w) && not (is_none b))

  abbrev pub IsConsistent : Handler R W → Type 0
  IsConsistent h =
      (fd : ℕ)
      → agrees (h.registered fd) (h.read_callbacks fd) (h.write_callbacks fd) (h.write_buffers fd)
        ≡ true

  remove-IsConsistent : (fd : ℕ) (h : Handler R W) → IsConsistent h → IsConsistent (remove fd h)
  unfolding remove
  remove-IsConsistent fd h c q = elim (Bool-cases (q == fd)) [
    | inl this ↦ rw this refl
    | inr other ↦ rw other (c q)
  ]

  register_read-IsConsistent :
      (allowed : Bool) (fd : ℕ) (r : R) (h : Handler R W)
      → IsConsistent h
      → IsConsistent (register_read allowed fd r h)
  unfolding register_read
  register_read-IsConsistent allowed fd r h c q = ground (arith, c q, c fd)

  register_write-IsConsistent :
      (allowed : Bool) (fd : ℕ) (bs : Bytes) (w : W) (h : Handler R W)
      → IsConsistent h
      → IsConsistent (register_write allowed fd bs w h)
  unfolding register_write
  register_write-IsConsistent allowed fd bs w h c q = ground (arith, c q, c fd)

  module _ {X : Type 0} (on_read : R → ℕ → Bytes → Handler R W × X → Handler R W × X)
      (on_write : W → ℕ → Handler R W × X → Handler R W × X) (written : ℕ → Bytes → X → X) where
    -- Callbacks that leave the tables consistent, as those do that only register and remove.
    pub record Keeps : Type 0 where
      pub reads :
          (r : R) (fd : ℕ) (bs : Bytes) (w : Handler R W × X)
          → IsConsistent w.0
          → IsConsistent (on_read r fd bs w).0
      pub writes :
          (c : W) (fd : ℕ) (w : Handler R W × X)
          → IsConsistent w.0
          → IsConsistent (on_write c fd w).0

    module _ (K : Keeps) where
      call_read-IsConsistent :
          (o : Option R) (fd : ℕ) (bs : Bytes) (w : Handler R W × X)
          → IsConsistent w.0
          → IsConsistent (call_read on_read on_write written o fd bs w).0
      call_read-IsConsistent none fd bs w c = c
      call_read-IsConsistent (some r) fd bs w c = K.reads r fd bs w c

      read_ready-IsConsistent :
          (fd : ℕ) (chunks : List Bytes) (end : ReadEnd) (w : Handler R W × X)
          → IsConsistent w.0
          → IsConsistent (read_ready on_read on_write written fd chunks end w).0
      unfolding read_ready
      read_ready-IsConsistent fd [] would_block w c = c
      read_ready-IsConsistent fd [] closed w c = remove-IsConsistent fd w.0 c
      read_ready-IsConsistent fd (bs ∷ chunks) end w c =
          read_ready-IsConsistent fd chunks end _
            (call_read-IsConsistent (w.0.read_callbacks fd) fd bs w c)

      -- Bytes that are left take the place of those that were there.
      put_left :
          (fd : ℕ) (left : Bytes) (h : Handler R W) (callback : W) (bs : Bytes)
          → h.write_callbacks fd ≡ some callback
          → h.write_buffers fd ≡ some bs
          → IsConsistent h
          → IsConsistent (record h { write_buffers = set_at fd (some left) h.write_buffers })
      put_left fd left h callback bs e f c q = ground (arith, c q, c fd, e, f)

      write_ready-IsConsistent :
          (fd : ℕ) (e : WriteEvent) (w : Handler R W × X)
          → IsConsistent w.0
          → IsConsistent (write_ready on_read on_write written fd e w).0
      unfolding write_ready
      write_ready-IsConsistent fd e w c =
          found (w.0.write_callbacks fd) (w.0.write_buffers fd) e refl refl
        where
          found :
              (o : Option W) (b : Option Bytes) (e : WriteEvent)
              → w.0.write_callbacks fd ≡ o
              → w.0.write_buffers fd ≡ b
              → IsConsistent (write_found on_read on_write written o b fd e w).0
          found none b e k l = c
          found (some callback) none e k l = c
          found (some callback) (some bs) interrupted k l = c
          found (some callback) (some bs) fails k l = c
          found (some callback) (some bs) (accepts zero) k l = c
          found (some callback) (some []) (accepts (suc n)) k l = c
          found (some callback) (some (b ∷ bs)) (accepts (suc n)) k l =
              let taken : ℕ = min (suc n) (length (b ∷ bs)) in
              let all : Handler R W × X = on_write callback fd (w.0, written fd (b ∷ bs) w.1) in
              let gone : Handler R W × X = (remove fd all.0, all.1) in
              let left : Handler R W × X = (
                record w.0 {
                  write_buffers = set_at fd (some (drop taken (b ∷ bs))) w.0.write_buffers;
                },
                written fd (take taken (b ∷ bs)) w.1,
              ) in
              elim (Bool-cases (taken == length (b ∷ bs))) [
                | inl whole ↦
                    subst (λ (v : Handler R W × X). IsConsistent v.0)
                      (sym (ap (λ t. if t then gone else left) whole))
                      (remove-IsConsistent fd all.0
                        (K.writes callback fd (w.0, written fd (b ∷ bs) w.1) c))
                | inr part ↦
                    subst (λ (v : Handler R W × X). IsConsistent v.0)
                      (sym (ap (λ t. if t then gone else left) part))
                      (put_left fd (drop taken (b ∷ bs)) w.0 callback (b ∷ bs) k l c)
              ]

      handle_event-IsConsistent :
          (fd : ℕ) (e : Ready) (w : Handler R W × X)
          → IsConsistent w.0
          → IsConsistent (handle_event on_read on_write written fd e w).0
      unfolding handle_event
      handle_event-IsConsistent fd (readable chunks end) w c =
          read_ready-IsConsistent fd chunks end w c
      handle_event-IsConsistent fd (writable e) w c = write_ready-IsConsistent fd e w c

    -- The runs of a handler: its methods, called by other threads, and the events of the I/O
    -- thread, one after another.
    pub data Run : Handler R W × X → Handler R W × X → Type 0 where
      here : (w : Handler R W × X) → Run w w
      starts :
          (v : Handler R W × X) (h : Handler R W) (x : X) → Run v (h, x) → Run v (start_io h, x)
      stops : (v : Handler R W × X) (h : Handler R W) (x : X) → Run v (h, x) → Run v (stop_io h, x)
      reads :
          (v : Handler R W × X) (h : Handler R W) (x : X) (allowed : Bool) (fd : ℕ) (r : R)
          → Run v (h, x)
          → Run v (register_read allowed fd r h, x)
      writes :
          (v : Handler R W × X) (h : Handler R W) (x : X) (allowed : Bool) (fd : ℕ) (bs : Bytes)
          (c : W)
          → Run v (h, x)
          → Run v (register_write allowed fd bs c h, x)
      removes :
          (v : Handler R W × X) (h : Handler R W) (x : X) (fd : ℕ)
          → Run v (h, x)
          → Run v (remove fd h, x)
      handles :
          (v w : Handler R W × X) (fd : ℕ) (e : Ready)
          → Run v w
          → Run v (handle_event on_read on_write written fd e w)

    module _ (K : Keeps) where
      start_io-IsConsistent : (h : Handler R W) → IsConsistent h → IsConsistent (start_io h)
      unfolding start_io
      start_io-IsConsistent h c q = ground (arith, c q)

      stop_io-IsConsistent : (h : Handler R W) → IsConsistent h → IsConsistent (stop_io h)
      unfolding stop_io
      stop_io-IsConsistent h c q = ground (arith, c q)

      -- In every state that a handler gets to from one with consistent tables, a new one for
      -- example, by calls of its methods and events in any sequence, no two of which overlap (no
      -- lock sees to that), with callbacks that keep the tables consistent: a descriptor is in the
      -- epoll set for reading exactly where it has a read callback, for writing exactly where it
      -- has a write callback, exactly then it has bytes to write, and it is in the set for one of
      -- them only.
      pub Run-IsConsistent : (v w : Handler R W × X) → IsConsistent v.0 → Run v w → IsConsistent w.0
      Run-IsConsistent v _ c (here _) = c
      Run-IsConsistent v _ c (starts _ h x r) =
          start_io-IsConsistent h (Run-IsConsistent v (h, x) c r)
      Run-IsConsistent v _ c (stops _ h x r) =
          stop_io-IsConsistent h (Run-IsConsistent v (h, x) c r)
      Run-IsConsistent v _ c (reads _ h x allowed fd callback r) =
          register_read-IsConsistent allowed fd callback h (Run-IsConsistent v (h, x) c r)
      Run-IsConsistent v _ c (writes _ h x allowed fd bs callback r) =
          register_write-IsConsistent allowed fd bs callback h (Run-IsConsistent v (h, x) c r)
      Run-IsConsistent v _ c (removes _ h x fd r) =
          remove-IsConsistent fd h (Run-IsConsistent v (h, x) c r)
      Run-IsConsistent v _ c (handles _ w fd e r) =
          handle_event-IsConsistent K fd e w (Run-IsConsistent v w c r)
