-- ===== src/AsyncIo/SendFile.antt =====
-- FileSync::sendFileViaAsyncIO (src/core/FileSync.cpp): it registers the first buffer of the file
-- and waits for its callbacks to set a flag.
pub mod Phases
pub mod Waits
use file_sync_tool.Base.{
  ℕ, Bool, true, false, Option, none, some, List, [], ◌∷◌, ◌++◌, length, take, drop, ltb,
  if◌then◌else◌,
}
use file_sync_tool.Base.Text.{Bytes}
use file_sync_tool.Sending.{WriteEvent}
use file_sync_tool.Disk.{Stat}
use file_sync_tool.AsyncIo.{Handler, Ready, writable, register_write, handle_event}

abbrev pub async_buffer_size : ℕ
async_buffer_size = 8192

-- The callback of the first buffer, and that of the second.
pub data Callback : Type 0 where
  first : Callback
  last : Callback

-- What the callbacks capture: the rest of the stream with its end-of-file flag, transferDone, and
-- what the socket has taken.
pub record Transfer : Type 0 where
  pub rest : Bytes
  pub eof : Bool
  pub done : Bool
  pub sent : Bytes

abbrev pub World : Type 0
World = Handler Callback Callback × Transfer

-- No descriptor is read from here.
abbrev pub on_read : Callback → ℕ → Bytes → World → World
on_read callback fd bs w = w

abbrev pub on_sent : ℕ → Bytes → Transfer → Transfer
on_sent fd bs x = record x { sent = x.sent ++ bs }

abbrev pub finish : Transfer → Transfer
finish x = record x { done = true }

-- What the method has come to before it waits.
pub data Started : Type 0 where
  returns : Bool → Started
  waits : World → Started

module _ (allowed : Bool) where
  -- `if (nextBytes > 0)`
  abbrev pub send_next : ℕ → Bytes → World → World
  send_next fd [] (h, x) = (h, finish x)
  send_next fd (b ∷ bs) (h, x) = (register_write allowed fd (b ∷ bs) last h, x)

  abbrev pub read_next : Transfer → Transfer
  read_next x = record x {
    rest = drop async_buffer_size x.rest;
    eof = ltb (length x.rest) async_buffer_size;
  }

  -- The two callbacks.
  abbrev pub on_write : Callback → ℕ → World → World
  on_write last fd (h, x) = (h, finish x)
  on_write first fd (h, x) =
      let next = send_next fd (take async_buffer_size x.rest) (h, read_next x) in
      if x.eof then (h, finish x) else next

  abbrev pub start_buffer : ℕ → Bytes → Handler Callback Callback → Transfer → Started
  start_buffer sock [] h x = returns true
  start_buffer sock (b ∷ bs) h x = waits (register_write allowed sock (b ∷ bs) first h, x)

  abbrev pub start_opened : ℕ → Option Bytes → Handler Callback Callback → Started
  start_opened sock none h = returns false
  start_opened sock (some bs) h = start_buffer sock (take async_buffer_size bs) h (record {
    rest = drop async_buffer_size bs;
    eof = ltb (length bs) async_buffer_size;
    done = false;
    sent = [];
  })

  abbrev pub start_stated : ℕ → Option Stat → Option Bytes → Handler Callback Callback → Started
  start_stated sock none content h = returns false
  start_stated sock (some st) content h = start_opened sock content h

  -- FileSync::sendFileViaAsyncIO up to the wait, with the answers of stat and of the stream.
  unfoldable pub send_file_via_async_io :
      ℕ → Option Stat → Option Bytes → Handler Callback Callback → Started
  send_file_via_async_io sock st content h =
      if h.running then start_stated sock st content h else returns false

  -- The events that the I/O thread then handles for the socket.
  unfoldable pub run_events : ℕ → List WriteEvent → World → World
  unfolding handle_event
  run_events sock [] w = w
  run_events sock (e ∷ es) w =
      run_events sock es (handle_event on_read on_write on_sent sock (writable e) w)
