-- ===== src/AsyncIo.antt =====
-- AsyncIOHandler (src/thread/AsyncIOHandler.cpp) with its tables and the epoll set behind it, and
-- FileSync::sendFileViaAsyncIO (src/core/FileSync.cpp). What a callback does is an argument,
-- applied to the handler and to what the callback has captured; which events the kernel reports,
-- and what read and write then answer, is part of the event. The methods take no lock; but for the
-- two steps of a registration, which stand apart, the model has each of them and each event as one
-- step.
pub mod Laws
pub mod Race
pub mod SendFile
use file_sync_tool.Base.{
  ℕ, zero, suc, ◌+◌, ◌-◌, Bool, true, false, not, ◌&&◌, ◌||◌, Option, none, some, List, [], ◌∷◌,
  ◌++◌, length, take, drop, min, ltb, ◌==◌, if◌then◌else◌,
}
use file_sync_tool.Base.Text.{Bytes}
use file_sync_tool.Sending.{WriteEvent, accepts, interrupted, fails}

pub data Interest : Type 0 where
  in_ : Interest
  out : Interest

-- The tables by descriptor, and the descriptors of the epoll set.
pub record Handler (R W : Type 0) : Type 0 where
  pub has_epoll : Bool
  pub running : Bool
  pub registered : ℕ → Option Interest
  pub nonblocking : ℕ → Bool
  pub read_callbacks : ℕ → Option R
  pub write_callbacks : ℕ → Option W
  pub write_buffers : ℕ → Option Bytes

abbrev pub set_at : {A : Type 0} → ℕ → A → (ℕ → A) → ℕ → A
set_at fd a f q = if q == fd then a else f q

abbrev pub is_none : {A : Type 0} → Option A → Bool
is_none none = true
is_none (some a) = false

-- What ends the loop of reads: read returns 0, or -1, which the loop takes for EAGAIN.
pub data ReadEnd : Type 0 where
  closed : ReadEnd
  would_block : ReadEnd

-- One event of epoll_wait.
pub data Ready : Type 0 where
  readable : List Bytes → ReadEnd → Ready
  writable : WriteEvent → Ready

module _ {R W : Type 0} where
  -- AsyncIOHandler::AsyncIOHandler, with what epoll_create1 answers.
  abbrev pub new_handler : Bool → Handler R W
  new_handler created = record {
    has_epoll = created;
    running = false;
    registered = λ q. none;
    nonblocking = λ q. false;
    read_callbacks = λ q. none;
    write_callbacks = λ q. none;
    write_buffers = λ q. none;
  }

  -- AsyncIOHandler::start and stop
  unfoldable pub start_io : Handler R W → Handler R W
  start_io h = if not h.running && h.has_epoll then record h { running = true } else h

  unfoldable pub stop_io : Handler R W → Handler R W
  stop_io h = if h.running then record h { running = false } else h

  -- EPOLL_CTL_ADD is refused for a descriptor that is registered already (EEXIST), and where the
  -- kernel refuses it for a reason of its own.
  abbrev pub can_add : Bool → ℕ → Handler R W → Bool
  can_add allowed fd h = allowed && is_none (h.registered fd)

  -- The two steps of a registration, with no lock around them: epoll_ctl, and then the tables.
  abbrev pub add_to_epoll : Interest → ℕ → Handler R W → Handler R W
  add_to_epoll interest fd h = record h { registered = set_at fd (some interest) h.registered }

  abbrev pub set_read_callback : ℕ → R → Handler R W → Handler R W
  set_read_callback fd callback h = record h {
    read_callbacks = set_at fd (some callback) h.read_callbacks;
  }

  abbrev pub set_write_callback : ℕ → Bytes → W → Handler R W → Handler R W
  set_write_callback fd bs callback h = record h {
    write_callbacks = set_at fd (some callback) h.write_callbacks;
    write_buffers = set_at fd (some bs) h.write_buffers;
  }

  -- AsyncIOHandler::registerRead, where no event of the descriptor is handled between its steps.
  unfoldable pub register_read : Bool → ℕ → R → Handler R W → Handler R W
  register_read allowed fd callback h =
      let h' = record h { nonblocking = set_at fd true h.nonblocking } in
      if can_add allowed fd h then set_read_callback fd callback (add_to_epoll in_ fd h') else h'

  -- AsyncIOHandler::registerWrite, where no event of the descriptor is handled between its steps.
  unfoldable pub register_write : Bool → ℕ → Bytes → W → Handler R W → Handler R W
  register_write allowed fd bs callback h =
      let h' = record h { nonblocking = set_at fd true h.nonblocking } in
      if can_add allowed fd h
      then set_write_callback fd bs callback (add_to_epoll out fd h')
      else h'

  -- AsyncIOHandler::remove
  unfoldable pub remove : ℕ → Handler R W → Handler R W
  remove fd h = record h {
    registered = set_at fd none h.registered;
    read_callbacks = set_at fd none h.read_callbacks;
    write_callbacks = set_at fd none h.write_callbacks;
    write_buffers = set_at fd none h.write_buffers;
  }

  module _ {X : Type 0} (on_read : R → ℕ → Bytes → Handler R W × X → Handler R W × X)
      (on_write : W → ℕ → Handler R W × X → Handler R W × X) (written : ℕ → Bytes → X → X) where
    abbrev pub call_read : Option R → ℕ → Bytes → Handler R W × X → Handler R W × X
    call_read none fd bs w = w
    call_read (some callback) fd bs w = on_read callback fd bs w

    abbrev pub after_reads : ReadEnd → ℕ → Handler R W × X → Handler R W × X
    after_reads would_block fd w = w
    after_reads closed fd (h, x) = (remove fd h, x)

    -- The loop over what is there to read.
    unfoldable pub read_ready : ℕ → List Bytes → ReadEnd → Handler R W × X → Handler R W × X
    unfolding remove
    read_ready fd [] end w = after_reads end fd w
    read_ready fd (bs ∷ rest) end w =
        read_ready fd rest end (call_read (w.0.read_callbacks fd) fd bs w)

    -- What follows a call of write that took the first `n` of the bytes, for `n` above 0.
    abbrev pub after_write : W → ℕ → ℕ → Bytes → Handler R W × X → Handler R W × X
    after_write callback fd n bs (h, x) =
        let (h', x') = on_write callback fd (h, written fd bs x) in
        if n == length bs then (remove fd h', x') else (
          record h { write_buffers = set_at fd (some (drop n bs)) h.write_buffers },
          written fd (take n bs) x,
        )

    abbrev pub write_result : W → ℕ → WriteEvent → Bytes → Handler R W × X → Handler R W × X
    write_result callback fd (accepts zero) bs w = w
    write_result callback fd (accepts (suc k)) [] w = w
    write_result callback fd (accepts (suc k)) (b ∷ bs) w =
        after_write callback fd (min (suc k) (length (b ∷ bs))) (b ∷ bs) w
    write_result callback fd interrupted bs w = w
    write_result callback fd fails bs w = w

    abbrev pub write_found :
        Option W → Option Bytes → ℕ → WriteEvent → Handler R W × X → Handler R W × X
    write_found none buffer fd e w = w
    write_found (some callback) none fd e w = w
    write_found (some callback) (some bs) fd e w = write_result callback fd e bs w

    unfoldable pub write_ready : ℕ → WriteEvent → Handler R W × X → Handler R W × X
    unfolding remove
    write_ready fd e w = write_found (w.0.write_callbacks fd) (w.0.write_buffers fd) fd e w

    -- The body of ioThread's loop for one event.
    unfoldable pub handle_event : ℕ → Ready → Handler R W × X → Handler R W × X
    unfolding read_ready write_ready
    handle_event fd (readable chunks end) w = read_ready fd chunks end w
    handle_event fd (writable e) w = write_ready fd e w
