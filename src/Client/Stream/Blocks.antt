-- ===== src/Client/Stream/Blocks.antt =====
-- The data of one file, and what saving progress leaves alone.
use file_sync_tool.Base.{
  ℕ, zero, suc, ◌+◌, ◌≤◌, ◌≡◌, refl, sym, ap, ◌∙◌, subst, true, false, some, [], ◌∷◌, append-nil,
  arith, length, length-drop, take, drop, take-append-drop,
}
use file_sync_tool.Base.Text.{Bytes, bytes_eq}
use file_sync_tool.Action.{ok}
use file_sync_tool.Disk.{Disk, IsLawful}
use file_sync_tool.Progress.{progress_path, save_progress, clear_progress}
use file_sync_tool.Progress.Laws.{save_progress_frame}
use file_sync_tool.TcpClient.{TcpClient, send}
use file_sync_tool.TcpClient.Laws.{send-true, send-Up}
use file_sync_tool.Client.{
  Sender, send_block, send_blocks, finish_file, send_opened, send_file_sync,
}
use file_sync_tool.Client.Emits.{Emits, Emits-pure, Emits-then, Emits-when}

-- The sources read as they did in `d`.
abbrev pub Frame : (D : Disk) → (Bytes → Type 0) → D.State → D.State → Type 0
Frame D Source d e =
    (p : Bytes) → Source p → (D.open_read e p ≡ D.open_read d p) × (D.stat e p ≡ D.stat d p)

-- No source is a progress file.
abbrev pub Apart : (Bytes → Type 0) → Type 0
Apart Source = (dest p : Bytes) → Source p → bytes_eq (progress_path dest) p ≡ false

module _ (D : Disk) (L : IsLawful D) (Source : Bytes → Type 0) (apart : Apart Source)
    (d : D.State) where
  Frame-save_progress :
      (e : D.State) (dest : Bytes) (offset total : ℕ)
      → Frame D Source d e
      → Frame D Source d (save_progress D e dest offset total)
  Frame-save_progress e dest offset total h p hp =
      let (read, size) = save_progress_frame D L e dest offset total p (apart dest p hp) in
      (read ∙ (h p hp).0, size ∙ (h p hp).1)

  Frame-clear_progress :
      (e : D.State) (dest : Bytes) → Frame D Source d e → Frame D Source d (clear_progress D e dest)
  unfolding clear_progress
  Frame-clear_progress e dest h p hp =
      let off = apart dest p hp in
      (
        L.open_read-remove_ne e (progress_path dest) p off ∙ (h p hp).0,
        L.stat-remove_ne e (progress_path dest) p off ∙ (h p hp).1,
      )

  send_block-ok :
      (dest : Bytes) (transferred total : ℕ) (block : Bytes) (s t : Sender D)
      → send_block D dest transferred total block s ≡ (ok tt, t)
      → ((send block s.link).0 ≡ true)
        × (record {
          disk = save_progress D s.disk dest (transferred + length block) total;
          link = (send block s.link).1;
        }
            ≡ t)
  send_block-ok dest transferred total block s t h = ground arith

  Emits-send_block :
      (dest : Bytes) (transferred total : ℕ) (block : Bytes)
      → Emits D (Frame D Source d) (send_block D dest transferred total block) block
  Emits-send_block dest transferred total block = record {
    keeps = λ s t e h.
        let (_, same) = send_block-ok dest transferred total block s t e in
        subst (λ (u : Sender D). Frame D Source d u.disk) same
          (Frame-save_progress s.disk dest (transferred + length block) total h);
    emits = λ s t e h up.
        let (good, same) = send_block-ok dest transferred total block s t e in
        let (up_s, sent) = send-true block s.link good in
        (up_s, ap (λ (u : Sender D). u.link.sent) (sym same) ∙ sent);
    runs = λ s h up.
        let (good, up') = send-Up block s.link up in
        (
          record {
            disk = save_progress D s.disk dest (transferred + length block) total;
            link = (send block s.link).1;
          },
          rw good,
          up',
        );
  }

  Emits-send_blocks :
      (fuel : ℕ) (dest : Bytes) (transferred total : ℕ) (bs : Bytes)
      → length bs ≤ fuel
      → Emits D (Frame D Source d) (send_blocks D fuel dest transferred total bs) bs
  unfolding send_blocks
  Emits-send_blocks fuel dest transferred total [] h = Emits-pure D (Frame D Source d)
  Emits-send_blocks zero dest transferred total (b ∷ bs) h = absurd (omega arith)
  Emits-send_blocks (suc fuel) dest transferred total (b ∷ bs) h =
      subst (Emits D (Frame D Source d) _) (take-append-drop 4096 (b ∷ bs)) (
        Emits-then D (Frame D Source d) _ _ _ _
          (Emits-send_block dest transferred total (take 4096 (b ∷ bs)))
          (Emits-send_blocks fuel dest (transferred + length (take 4096 (b ∷ bs))) total
            (drop 4096 (b ∷ bs)) (omega (arith, length-drop 4096 (b ∷ bs)))))

  Emits-finish_file : (dest : Bytes) → Emits D (Frame D Source d) (finish_file D dest) []
  unfolding finish_file
  Emits-finish_file dest = record {
    keeps = λ s t e h.
        subst (λ (u : Sender D). Frame D Source d u.disk) (ap (λ r. r.1) e)
          (Frame-clear_progress s.disk dest h);
    emits = λ s t e h up.
        let same : s.link ≡ t.link = ap (λ r. r.1.link) e in
        (
          ap (λ (c : TcpClient). c.connected) same ∙ up,
          ap (λ (c : TcpClient). c.sent) (sym same) ∙ sym (append-nil s.link.sent),
        );
    runs = λ s h up. (record s { disk = clear_progress D s.disk dest }, refl, up);
  }

  -- sendFileSync sends the bytes from the offset on of a source that opens.
  pub Emits-send_file_sync :
      (src dest bytes : Bytes) (offset : ℕ)
      → Source src
      → D.open_read d src ≡ some bytes
      → Emits D (Frame D Source d) (send_file_sync D src dest offset) (drop offset bytes)
  unfolding send_file_sync
  Emits-send_file_sync src dest bytes offset hs opened =
      Emits-when D (Frame D Source d) _ (send_opened D (some bytes) dest offset) _
        (λ s h. ap (λ o. send_opened D o dest offset s) ((h src hs).0 ∙ opened))
        (subst (Emits D (Frame D Source d) _) (append-nil (drop offset bytes)) (
          Emits-then D (Frame D Source d) _ _ _ _
            (Emits-send_blocks (length bytes) dest offset (length bytes) (drop offset bytes)
              (omega (arith, length-drop offset bytes)))
            (Emits-finish_file dest)))
