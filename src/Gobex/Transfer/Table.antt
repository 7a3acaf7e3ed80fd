-- ===== src/Gobex/Transfer/Table.antt =====
-- The list of transfers as a table by id.
use map_client.Base.{ℕ, ◌≡◌, ◌≢◌, refl, Option, some, List, [], ◌∷◌, arith}
use map_client.Base.Int.{ℤ}
use map_client.Gobex.Packet.{GObexPacket}
use map_client.Gobex.Obex.{World, PendingPkt, enable_tx}
use map_client.Gobex.Obex.Send.{send_req, send_internal}
use map_client.Gobex.Transfer.{Transfer, find_transfer, put_transfer}

module _ {A : Type 0} where
  pub find_transfer-id :
      (id : ℕ) (ts : List (Transfer A)) (t : Transfer A) → find_transfer id ts ≡ some t → t.id ≡ id
  unfolding find_transfer
  find_transfer-id id [] t e = absurd (ground arith)
  find_transfer-id id (x ∷ ts) t e = ground (arith, find_transfer-id id ts t)

  -- What was assigned is found again, and the other transfers are as before.
  pub find_transfer-put_transfer :
      (new : Transfer A) (ts : List (Transfer A)) (t : Transfer A)
      → find_transfer new.id ts ≡ some t
      → find_transfer new.id (put_transfer new ts) ≡ some new
  unfolding find_transfer put_transfer
  find_transfer-put_transfer new [] t e = absurd (ground arith)
  find_transfer-put_transfer new (x ∷ ts) t e = ground (arith, find_transfer-put_transfer new ts t)

  pub find_transfer-put_other :
      (new : Transfer A) (id : ℕ) (ts : List (Transfer A))
      → new.id ≢ id
      → find_transfer id (put_transfer new ts) ≡ find_transfer id ts
  unfolding find_transfer put_transfer
  find_transfer-put_other new id [] ne = refl
  find_transfer-put_other new id (x ∷ ts) ne = ground (arith, find_transfer-put_other new id ts ne)

module _ {A U : Type 0} where
  -- Sending touches neither the channel nor what stands outside the session.
  pub send_internal-user :
      (w : World A U) (p : PendingPkt A)
      → ((send_internal w p).0.user ≡ w.user) × ((send_internal w p).0.obex.io ≡ w.obex.io)
  unfolding send_internal enable_tx
  send_internal-user w p = ground arith

  pub send_req-user :
      (w : World A U) (req : GObexPacket A) (timeout : ℤ) (func : Option A)
      → ((send_req w req timeout func).0.user ≡ w.user)
        × ((send_req w req timeout func).0.obex.io ≡ w.obex.io)
  unfolding send_req send_internal enable_tx
  send_req-user w req timeout func = ground arith
