-- ===== src/TcpClient/Laws.antt =====
-- A connection that is still up after a send has sent all of it.
use file_sync_tool.Base.{◌≡◌, sym, ap, ◌∙◌, subst, true, ◌++◌, arith}
use file_sync_tool.Base.Text.{Bytes}
use file_sync_tool.Sending.{send_loop}
use file_sync_tool.Sending.Laws.{OnlyAccepts, send_loop-all, send_loop-OnlyAccepts}
use file_sync_tool.TcpClient.{TcpClient, send}

-- The connection is up, and no call of send is going to fail.
abbrev pub Up : TcpClient → Type 0
Up c = (c.connected ≡ true) × OnlyAccepts c.sends

module _ (bs : Bytes) (c : TcpClient) where
  pub send-connected :
      (send bs c).1.connected ≡ true → (c.connected ≡ true) × ((send bs c).1.sent ≡ c.sent ++ bs)
  unfolding send
  send-connected h = ground (arith, send_loop-all c.sends bs)

  pub send-true : (send bs c).0 ≡ true → (c.connected ≡ true) × ((send bs c).1.sent ≡ c.sent ++ bs)
  unfolding send
  send-true h = ground (arith, send_loop-all c.sends bs)

  send-eq :
      c.connected ≡ true
      → send bs c ≡ (
        (send_loop c.sends bs).1,
        record c {
          connected = (send_loop c.sends bs).1;
          sent = c.sent ++ (send_loop c.sends bs).0;
          sends = (send_loop c.sends bs).2;
        },
      )
  unfolding send
  send-eq h = ground (arith, h)

  pub send-Up : Up c → ((send bs c).0 ≡ true) × Up (send bs c).1
  send-Up h =
      let (all, more) = send_loop-OnlyAccepts c.sends bs h.1 in
      let e = send-eq h.0 in
      (
        ap (λ r. r.0) e ∙ all,
        (ap (λ r. r.1.connected) e ∙ all, subst (λ r. OnlyAccepts r.1.sends) (sym e) more),
      )
