-- ===== src/Server/Session/Data.antt =====
-- The data of one file on the server: what receiveFileData leaves on the disk.
use Prim.Native.Nat.{min}
use file_sync_tool.Base.{
  ℕ, zero, suc, ◌-◌, ◌≤◌, ◌<◌, ◌≡◌, refl, sym, ap, ◌∙◌, subst, false, some, List, [], ◌∷◌, ◌++◌,
  arith, append-nil, append_assoc, length, length-append, length-take, length-drop, take, drop,
  take-append_left, drop-append_left, take-append-drop,
}
use file_sync_tool.Base.Text.{Bytes, bytes_eq, bytes_eq_refl}
use file_sync_tool.Action.{ok, ◌>>=◌, continue}
use file_sync_tool.Sending.{write_loop}
use file_sync_tool.Sending.Laws.{write_loop-all, NeverFails, write_loop-NeverFails}
use file_sync_tool.Socket.{Event, robust_read}
use file_sync_tool.Socket.Laws.{content, robust_read-all}
use file_sync_tool.Disk.{Disk, IsLawful}
use file_sync_tool.Server.Session.{
  Session, Step, buffer_size, write_chunk, store_read, receive_data_loop,
}

-- From `w` to `w'` a file was left as `new`, `rest` of the stream is still to come, and nothing
-- else changed but the calls of write that are to come.
pub record Stored (D : Disk) (Good : D.State → Type 0) (path new rest : Bytes) (w w' : Session D)
    : Type 0 where
  pub file : D.content w'.disk path ≡ some new
  pub others : (q : Bytes) → bytes_eq path q ≡ false → D.content w'.disk q ≡ D.content w.disk q
  pub left : content w'.input ≡ rest
  pub writable : NeverFails w'.writes
  pub sends : w'.sends ≡ w.sends
  pub output : w'.output ≡ w.output
  pub processed : w'.processed ≡ w.processed
  pub closed : w'.closed ≡ w.closed
  pub good : Good w'.disk

-- `Good` is what the disk is to stay.
module _ (D : Disk) (L : IsLawful D) (Good : D.State → Type 0) (path : Bytes)
    (appends : (s : D.State) (bs : Bytes) → Good s → Good (D.append s path bs)) where
  pub Stored-trans :
      {a b rest rest' : Bytes} {u v w : Session D}
      → Stored D Good path a rest u v
      → Stored D Good path b rest' v w
      → Stored D Good path b rest' u w
  Stored-trans h k = record {
    file = k.file;
    others = λ q off. k.others q off ∙ h.others q off;
    left = k.left;
    writable = k.writable;
    sends = k.sends ∙ h.sends;
    output = k.output ∙ h.output;
    processed = k.processed ∙ h.processed;
    closed = k.closed ∙ h.closed;
    good = k.good;
  }

  abbrev after_write : Session D → Bytes → Session D
  after_write w bs = record w {
    disk = D.append w.disk path bs;
    writes = (write_loop w.writes bs).2;
  }

  write_chunk-ok :
      (bs : Bytes) (w : Session D)
      → NeverFails w.writes
      → write_chunk D path bs w ≡ (ok tt, after_write w bs)
  unfolding write_chunk
  write_chunk-ok bs w h =
      let (all, _) = write_loop-NeverFails w.writes bs h in
      ground (arith, all, write_loop-all w.writes bs all)

  store_read-some :
      (got : Bytes) (es : List Event) (next : ℕ → Step D (Unit {0})) (w : Session D)
      → 0 < length got
      → NeverFails w.writes
      → store_read D path (some got, es) next w
        ≡ next (length got) (after_write (record w { input = es }) got)
  unfolding ◌>>=◌
  store_read-some [] es next w h k = absurd (omega arith)
  store_read-some (b ∷ bs) es next w h k =
      ap (λ r. continue r.0 (λ _. next (length (b ∷ bs))) r.1)
        (write_chunk-ok (b ∷ bs) (record w { input = es }) k)

  after_write-Stored :
      (old bs : Bytes) (es : List Event) (w : Session D)
      → D.content w.disk path ≡ some old
      → NeverFails w.writes
      → Good w.disk
      → Stored D Good path (old ++ bs) (content es) w (after_write (record w { input = es }) bs)
  after_write-Stored old bs es w h k g = record {
    file = L.content-append w.disk path path bs h ∙ rw bytes_eq_refl;
    others = λ q off. L.content-append w.disk path q bs h ∙ rw off;
    left = refl;
    writable = (write_loop-NeverFails w.writes bs k).1;
    sends = refl;
    output = refl;
    processed = refl;
    closed = refl;
    good = appends w.disk bs g;
  }

  receive_data_loop-suc :
      (fuel remaining : ℕ) (w : Session D)
      → 0 < remaining
      → receive_data_loop D (suc fuel) path remaining w
        ≡ store_read D path
            (robust_read w.input (min buffer_size remaining))
            (λ n. receive_data_loop D fuel path (remaining - n))
            w
  unfolding receive_data_loop
  receive_data_loop-suc fuel remaining w h = ground arith

  receive_data_loop-done :
      (fuel : ℕ) (w : Session D) → receive_data_loop D fuel path 0 w ≡ (ok tt, w)
  unfolding receive_data_loop
  receive_data_loop-done zero w = refl
  receive_data_loop-done (suc fuel) w = refl

  abbrev pub Stores : Bytes → Bytes → Session D → ℕ → ℕ → Type 0
  Stores new rest w fuel remaining =
      (w' : Session D) × (receive_data_loop D fuel path remaining w ≡ (ok tt, w'))
      × Stored D Good path new rest w w'

  receive_data_loop-nil :
      (fuel : ℕ) (old rest : Bytes) (w : Session D)
      → content w.input ≡ rest
      → D.content w.disk path ≡ some old
      → NeverFails w.writes
      → Good w.disk
      → Stores (old ++ []) rest w fuel 0
  receive_data_loop-nil fuel old rest w e h k g = (
    w,
    receive_data_loop-done fuel w,
    record {
      file = h ∙ ap some (sym (append-nil old));
      others = λ q off. refl;
      left = e;
      writable = k;
      sends = refl;
      output = refl;
      processed = refl;
      closed = refl;
      good = g;
    },
  )

  -- With the bytes there to be read and no write that fails, the loop ends, and has put them all at
  -- the end of the file.
  pub receive_data_loop-Stores :
      (fuel : ℕ) (bytes old rest : Bytes) (w : Session D)
      → length bytes ≤ fuel
      → content w.input ≡ bytes ++ rest
      → D.content w.disk path ≡ some old
      → NeverFails w.writes
      → Good w.disk
      → Stores (old ++ bytes) rest w fuel (length bytes)
  receive_data_loop-Stores fuel [] old rest w f e h k g =
      receive_data_loop-nil fuel old rest w e h k g
  receive_data_loop-Stores zero (b ∷ bs) old rest w f e h k g = absurd (omega arith)
  receive_data_loop-Stores (suc fuel) (b ∷ bs) old rest w f e h k g =
      let bytes : Bytes = b ∷ bs in
      let n : ℕ = min buffer_size (length bytes) in
      let n-le : n ≤ length bytes = omega arith in
      let avail : n ≤ length (content w.input) =
        omega (arith, ap length e, length-append bytes rest) in
      let (es, run, left) = robust_read-all w.input n avail in
      let got : Bytes = take n bytes in
      let got-eq : take n (content w.input) ≡ got = rw e (take-append_left n bytes rest n-le) in
      let size : length got ≡ n = omega (arith, length-take n bytes) in
      let w1 : Session D = after_write (record w { input = es }) got in
      let first : Stored D Good path (old ++ got) (content es) w w1 =
        after_write-Stored old got es w h k g in
      let after : content w1.input ≡ drop n bytes ++ rest =
        left ∙ rw e (drop-append_left n bytes rest n-le) in
      let again : Stores ((old ++ got) ++ drop n bytes) rest w1 fuel (length (drop n bytes)) =
        receive_data_loop-Stores fuel (drop n bytes) (old ++ got) rest w1
          (omega (arith, length-drop n bytes)) after first.file first.writable first.good in
      let whole : (old ++ got) ++ drop n bytes ≡ old ++ bytes =
        append_assoc old got (drop n bytes) ∙ ap (◌++◌ old) (take-append-drop n bytes) in
      let remains : length bytes - length got ≡ length (drop n bytes) =
        omega (arith, length-drop n bytes) in
      let next : ℕ → Step D (Unit {0}) = λ m. receive_data_loop D fuel path (length bytes - m) in
      (
        again.0,
        receive_data_loop-suc fuel (length bytes) w (omega arith)
            ∙ ap (λ r. store_read D path r next w) (run ∙ ap (λ xs. (some xs, es)) got-eq)
            ∙ store_read-some got es next w (omega arith) k
            ∙ ap (λ m. receive_data_loop D fuel path m w1) remains
            ∙ again.1,
        subst (λ xs. Stored D Good path xs rest w again.0) whole (Stored-trans first again.2),
      )
