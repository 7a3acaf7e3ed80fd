-- ===== src/Gobex/Obex/Calls.antt =====
-- The receive side of the session across the calls that send, cancel, and register handlers.
use map_client.Base.{
  ℕ, ◌+◌, ◌%◌, ◌^◌, ◌≡◌, sym, ap, ◌∙◌, inl, inr, Bool, true, Option, some, [], ◌==◌, arith,
  Bool-cases, Option-cases, length,
}
use map_client.Base.Int.{ℤ}
use map_client.Gobex.Packet.{GObexPacket, empty_packet, op_abort, op_connect}
use map_client.Gobex.Obex.{PendingPkt, GObex, World, enable_tx, resume, remove_request_function}
use map_client.Gobex.Obex.Send.{
  with_obex, send_internal, send, send_req, prepare_connect_rsp, response, request, cancel_req,
  cancel_queued, cancel_pending, pending_req_abort, complete_now,
}
use map_client.Gobex.Obex.Buffer.{IsWithin}

module _ {A : Type 0} where
  -- Two sessions agree on the receive side.
  abbrev pub SameRx : GObex A → GObex A → Type 0
  SameRx o o' =
      (o'.rx_buf ≡ o.rx_buf)
      × (o'.rx_data ≡ o.rx_data)
      × (o'.rx_pkt_len ≡ o.rx_pkt_len)
      × (o'.rx_mtu ≡ o.rx_mtu)

  pub IsWithin-SameRx : (o o' : GObex A) → SameRx o o' → IsWithin o → IsWithin o'
  IsWithin-SameRx o o' (buf, fill, len, mtu) inv = record {
    sized = ap length buf ∙ inv.sized ∙ sym mtu;
    room = omega (arith, inv.room);
    filled = omega (arith, inv.filled);
    expected = λ h. let k = inv.expected (omega arith) in omega arith;
  }

  pub enable_tx-SameRx : (o : GObex A) → SameRx o (enable_tx o)
  unfolding enable_tx
  enable_tx-SameRx o = ground arith

  pub resume-SameRx : (o : GObex A) → SameRx o (resume o)
  unfolding resume enable_tx
  resume-SameRx o = ground arith

  pub remove_request_function-SameRx :
      (o : GObex A) (id : ℕ) → SameRx o (remove_request_function o id).0
  unfolding remove_request_function
  remove_request_function-SameRx o id = ground arith

module _ {A U : Type 0} where
  pub send_internal-SameRx :
      (w : World A U) (p : PendingPkt A) → SameRx w.obex (send_internal w p).0.obex
  unfolding send_internal enable_tx
  send_internal-SameRx w p = ground arith

  pub prepare_connect_rsp-SameRx :
      (w : World A U) (rsp : GObexPacket A) → SameRx w.obex (prepare_connect_rsp w rsp).0.obex
  unfolding prepare_connect_rsp
  prepare_connect_rsp-SameRx w rsp = ground arith

  pub send-SameRx : (w : World A U) (pkt : GObexPacket A) → SameRx w.obex (send w pkt).0.obex
  unfolding send
  send-SameRx w pkt = elim (Bool-cases (w.obex.rx_last_op == op_connect)) [
    | inl connecting ↦
        let r = prepare_connect_rsp w pkt in
        let first = prepare_connect_rsp-SameRx w pkt in
        let second = send_internal-SameRx r.0 (response r.1) in ground arith
    | inr plain ↦ ground (arith, send_internal-SameRx w (response pkt))
  ]

  pub pending_req_abort-SameRx :
      (w : World A U) (p : PendingPkt A) → SameRx w.obex (pending_req_abort w p).0.obex
  unfolding pending_req_abort
  pending_req_abort-SameRx w p =
      let p' = record p { cancelled = true; timeout = 5; timeout_id = true } in
      let o = w.obex in
      ground (
        arith,
        send-SameRx (with_obex w (record o { pending_req = some p' }))
            (empty_packet op_abort true [] 0),
      )

  pub complete_now-SameRx :
      (w : World A U) (p : PendingPkt A) (remove : Bool)
      → SameRx w.obex (complete_now w p remove).obex
  unfolding complete_now
  complete_now-SameRx w p remove = ground arith

  pub cancel_queued-SameRx :
      (w : World A U) (id : ℕ) (remove : Bool) → SameRx w.obex (cancel_queued w id remove).0.obex
  unfolding cancel_queued complete_now
  cancel_queued-SameRx w id remove = ground arith

  pub cancel_pending-SameRx :
      (w : World A U) (p : PendingPkt A) (remove : Bool)
      → SameRx w.obex (cancel_pending w p remove).0.obex
  unfolding cancel_pending complete_now
  cancel_pending-SameRx w p remove = ground (arith, pending_req_abort-SameRx w p)

  pub cancel_req-SameRx :
      (w : World A U) (id : ℕ) (remove : Bool) → SameRx w.obex (cancel_req w id remove).0.obex
  unfolding cancel_req
  cancel_req-SameRx w id remove = elim (Option-cases w.obex.pending_req) [
    | inl idle ↦ ground (arith, cancel_queued-SameRx w id remove)
    | inr (p, waits) ↦
        ground (arith, cancel_queued-SameRx w id remove, cancel_pending-SameRx w p remove)
  ]

  pub send_req-SameRx :
      (w : World A U) (req : GObexPacket A) (timeout : ℤ) (func : Option A)
      → SameRx w.obex (send_req w req timeout func).0.obex
  unfolding send_req
  send_req-SameRx w req timeout func =
      send_internal-SameRx (record w { next_req_id = (w.next_req_id + 1) % 2 ^ 32 })
        (request w req timeout func)
