-- ===== src/Server/Session/Files.antt =====
-- One file on the server, from the opening of the destination on: a fresh transfer, a resumed one,
-- and one whose offset does not fit the file that is there.
use file_sync_tool.Base.{
  ℕ, ◌+◌, ◌-◌, ◌<◌, ◌≡◌, ◌≢◌, sym, ap, ◌∙◌, false, some, [], ◌++◌, arith, append_assoc, length,
  length-append,
}
use file_sync_tool.Base.Int.{ℤ, pos}
use file_sync_tool.Base.Text.{Bytes, bytes_eq, bytes_eq_refl}
use file_sync_tool.Action.{ok, bind-eq}
use file_sync_tool.Sending.Laws.{NeverFails}
use file_sync_tool.Socket.Laws.{content}
use file_sync_tool.Disk.{Disk, IsLawful, or_empty}
use file_sync_tool.Server.Session.{
  Session, open_dest, bytes_left, receive_data_loop, receive_file_data,
}
use file_sync_tool.Server.Session.Data.{Stored, Stores, receive_data_loop-Stores}

bytes_left-pos : (m n : ℕ) → bytes_left (pos m) (pos n) ≡ m - n
bytes_left-pos m n = ground arith

module _ (D : Disk) (path : Bytes) (w : Session D) where
  open_dest-fresh :
      {t : D.State}
      → D.open_trunc w.disk path ≡ some t
      → open_dest D path (pos 0) w ≡ (ok (pos 0), record w { disk = t })
  unfolding open_dest
  open_dest-fresh h = ground (arith, h)

  open_dest-resumed :
      (old : Bytes) {t : D.State}
      → 0 < length old
      → D.open_append w.disk path ≡ some t
      → D.content t path ≡ some old
      → open_dest D path (pos (length old)) w ≡ (ok (pos (length old)), record w { disk = t })
  unfolding open_dest
  open_dest-resumed old h e k = ground (arith, e, k)

  open_dest-mismatch :
      (offset : ℕ) {t u : D.State}
      → 0 < offset
      → D.open_append w.disk path ≡ some t
      → length (or_empty (D.content t path)) ≢ offset
      → D.open_trunc t path ≡ some u
      → open_dest D path (pos offset) w ≡ (ok (pos 0), record w { disk = u })
  unfolding open_dest
  open_dest-mismatch offset h e k l = ground (arith, e, l)

module _ (D : Disk) (L : IsLawful D) (Good : D.State → Type 0) (path : Bytes)
    (appends : (s : D.State) (bs : Bytes) → Good s → Good (D.append s path bs)) where
  abbrev pub Receives : ℤ → ℤ → Bytes → Bytes → Session D → Type 0
  Receives size offset new rest w =
      (w' : Session D) × (receive_file_data D path size offset w ≡ (ok tt, w'))
      × Stored D Good path new rest w w'

  -- From an opened destination that holds `old`, with `bytes` to come.
  receive_from :
      (size offset start : ℤ) (old bytes rest : Bytes) (w : Session D) (t : D.State)
      → open_dest D path offset w ≡ (ok start, record w { disk = t })
      → bytes_left size start ≡ length bytes
      → D.content t path ≡ some old
      → ((q : Bytes) → bytes_eq path q ≡ false → D.content t q ≡ D.content w.disk q)
      → content w.input ≡ bytes ++ rest
      → NeverFails w.writes
      → Good t
      → Receives size offset (old ++ bytes) rest w
  unfolding receive_file_data
  receive_from size offset start old bytes rest w t open_ left holds others e k g =
      let w1 : Session D = record w { disk = t } in
      let (w', run, s) : Stores D L Good path appends (old ++ bytes) rest w1 (length bytes)
          (length bytes) =
        receive_data_loop-Stores D L Good path appends (length bytes) bytes old rest w1
          (omega arith) e holds k g in
      (
        w',
        bind-eq (open_dest D path offset)
              (λ z. receive_data_loop D (bytes_left size z) path (bytes_left size z)) open_
            ∙ ap (λ n. receive_data_loop D n path n w1) left
            ∙ run,
        record {
          file = s.file;
          others = λ q off. s.others q off ∙ others q off;
          left = s.left;
          writable = s.writable;
          sends = s.sends;
          output = s.output;
          processed = s.processed;
          closed = s.closed;
          good = s.good;
        },
      )

  -- With offset 0, a destination that opens, all the bytes of the file at the head of the stream
  -- and writes that do not fail, receiveFileData succeeds, leaves exactly those bytes in the file
  -- and no other file changed, and takes no more off the stream.
  pub receive_file_data-fresh :
      (bytes rest : Bytes) (w : Session D) {t : D.State}
      → D.open_trunc w.disk path ≡ some t
      → content w.input ≡ bytes ++ rest
      → NeverFails w.writes
      → Good t
      → Receives (pos (length bytes)) (pos 0) bytes rest w
  receive_file_data-fresh bytes rest w {t} h e k g =
      receive_from (pos (length bytes)) (pos 0) (pos 0) [] bytes rest w t
        (open_dest-fresh D path w h) (bytes_left-pos (length bytes) 0 ∙ omega arith)
        (L.content-open_trunc w.disk path path h ∙ rw bytes_eq_refl)
        (λ q off. L.content-open_trunc w.disk path q h ∙ rw off) e k g

  -- With the length of the part that is there as the offset, a destination that opens, the rest of
  -- the file at the head of the stream and writes that do not fail, receiveFileData succeeds,
  -- appends the rest to the part, changes no other file, and takes no more off the stream.
  pub receive_file_data-resumed :
      (old bytes rest : Bytes) (w : Session D) {t : D.State}
      → 0 < length old
      → D.content w.disk path ≡ some old
      → D.open_append w.disk path ≡ some t
      → content w.input ≡ bytes ++ rest
      → NeverFails w.writes
      → Good t
      → Receives (pos (length old + length bytes)) (pos (length old)) (old ++ bytes) rest w
  receive_file_data-resumed old bytes rest w {t} p there h e k g =
      let holds : D.content t path ≡ some old =
        L.content-open_append w.disk path path h ∙ rw (bytes_eq_refl, there) in
      receive_from (pos (length old + length bytes)) (pos (length old)) (pos (length old)) old bytes
        rest w t (open_dest-resumed D path w old p h holds)
        (bytes_left-pos (length old + length bytes) (length old) ∙ omega arith) holds
        (λ q off. L.content-open_append w.disk path q h ∙ rw off) e k g

  -- Where the file that is there has another length than the positive offset, the client sends
  -- only what follows the offset, but the server empties the file and takes as many bytes more as
  -- the offset says from what comes next on the stream, which end up in the file.
  pub receive_file_data-mismatch :
      (offset : ℕ) (bytes next more : Bytes) (w : Session D) {t u : D.State}
      → 0 < offset
      → D.open_append w.disk path ≡ some t
      → length (or_empty (D.content w.disk path)) ≢ offset
      → D.open_trunc t path ≡ some u
      → content w.input ≡ bytes ++ (next ++ more)
      → length next ≡ offset
      → NeverFails w.writes
      → Good u
      → Receives (pos (offset + length bytes)) (pos offset) (bytes ++ next) more w
  receive_file_data-mismatch offset bytes next more w {t} {u} p h other l e len k g =
      let same : D.content t path ≡ some (or_empty (D.content w.disk path)) =
        L.content-open_append w.disk path path h ∙ rw bytes_eq_refl in
      receive_from (pos (offset + length bytes)) (pos offset) (pos 0) [] (bytes ++ next) more w u
        (open_dest-mismatch D path w offset p h
          (λ q. other (sym (ap (λ o. length (or_empty o)) same) ∙ q)) l)
        (bytes_left-pos (offset + length bytes) 0 ∙ omega (arith, length-append bytes next))
        (L.content-open_trunc t path path l ∙ rw bytes_eq_refl)
        (λ q off.
          L.content-open_trunc t path q l ∙ rw off (L.content-open_append w.disk path q h ∙ rw off))
        (e ∙ sym (append_assoc bytes next more)) k g
