-- ===== src/Client/Emits.antt =====
-- What it is for a step of the client to send bytes: where the connection is still up at its end,
-- it was up before, and exactly these bytes went out between; the step keeps what it may read of
-- the disk; and where the connection is up and no call of send fails, it ends with the connection
-- up.
use file_sync_tool.Base.{◌≡◌, refl, sym, ap, ◌∙◌, true, [], ◌++◌, append-nil, append_assoc, subst}
use file_sync_tool.Base.Text.{Bytes}
use file_sync_tool.Action.{ok, ◌>>◌, pure, bind-ok, bind-eq}
use file_sync_tool.Disk.{Disk}
use file_sync_tool.TcpClient.{TcpClient, send}
use file_sync_tool.TcpClient.Laws.{Up, send-connected, send-Up}
use file_sync_tool.Client.{Sender, Step, put}

module _ (D : Disk) (Frame : D.State → Type 0) where
  pub record Emits (m : Step D (Unit {0})) (bs : Bytes) : Type 0 where
    pub keeps : (s t : Sender D) → m s ≡ (ok tt, t) → Frame s.disk → Frame t.disk
    pub emits :
        (s t : Sender D)
        → m s ≡ (ok tt, t)
        → Frame s.disk
        → t.link.connected ≡ true
        → (s.link.connected ≡ true) × (t.link.sent ≡ s.link.sent ++ bs)
    pub runs :
        (s : Sender D) → Frame s.disk → Up s.link → (t : Sender D) × (m s ≡ (ok tt, t)) × Up t.link

  pub Emits-pure : Emits (pure tt) []
  unfolding pure
  Emits-pure = record {
    keeps = λ s t e h. subst (λ (u : Sender D). Frame u.disk) (ap (λ r. r.1) e) h;
    emits = λ s t e h up.
        let same : s ≡ t = ap (λ r. r.1) e in
        (
          ap (λ (u : Sender D). u.link.connected) same ∙ up,
          ap (λ (u : Sender D). u.link.sent) (sym same) ∙ sym (append-nil s.link.sent),
        );
    runs = λ s h up. (s, refl, up);
  }

  pub Emits-put : (bs : Bytes) → Emits (put D bs) bs
  unfolding put
  Emits-put bs = record {
    keeps = λ s t e h. subst (λ (u : Sender D). Frame u.disk) (ap (λ r. r.1) e) h;
    emits = λ s t e h.
        subst
          (λ (c : TcpClient).
            c.connected ≡ true → (s.link.connected ≡ true) × (c.sent ≡ s.link.sent ++ bs))
          (ap (λ r. r.1.link) e) (send-connected bs s.link);
    runs = λ s h up. (record s { link = (send bs s.link).1 }, refl, (send-Up bs s.link up).1);
  }

  pub Emits-then :
      (m k : Step D (Unit {0})) (bs cs : Bytes)
      → Emits m bs
      → Emits k cs
      → Emits (m >> k) (bs ++ cs)
  Emits-then m k bs cs hm hk = record {
    keeps = λ s t e h.
        let (_, mid, e1, e2) = bind-ok m (λ _. k) s e in hk.keeps mid t e2 (hm.keeps s mid e1 h);
    emits = λ s t e h up.
        let (_, mid, e1, e2) = bind-ok m (λ _. k) s e in
        let (up_mid, sent_k) = hk.emits mid t e2 (hm.keeps s mid e1 h) up in
        let (up_s, sent_m) = hm.emits s mid e1 h up_mid in
        (up_s, sent_k ∙ ap (λ xs. xs ++ cs) sent_m ∙ append_assoc s.link.sent bs cs);
    runs = λ s h up.
        let (mid, e1, up_mid) = hm.runs s h up in
        let (t, e2, up_t) = hk.runs mid (hm.keeps s mid e1 h) up_mid in
        (t, bind-eq m (λ _. k) e1 ∙ e2, up_t);
  }

  -- A step that does what `k` does wherever the disk reads as it should.
  pub Emits-when :
      (m k : Step D (Unit {0})) (bs : Bytes)
      → ((s : Sender D) → Frame s.disk → m s ≡ k s)
      → Emits k bs
      → Emits m bs
  Emits-when m k bs same hk = record {
    keeps = λ s t e h. hk.keeps s t (sym (same s h) ∙ e) h;
    emits = λ s t e h. hk.emits s t (sym (same s h) ∙ e) h;
    runs = λ s h up. let (t, e, up_t) = hk.runs s h up in (t, same s h ∙ e, up_t);
  }
