-- ===== src/Gobex/Obex/Outside.antt =====
-- What stands outside the session across the calls that send and cancel.
use map_client.Base.{ℕ, ◌≡◌, inl, inr, Bool, true, some, [], ◌==◌, arith, Bool-cases, Option-cases}
use map_client.Gobex.Packet.{GObexPacket, op_connect, op_abort, empty_packet}
use map_client.Gobex.Obex.{World, PendingPkt}
use map_client.Gobex.Obex.Send.{
  with_obex, send_internal, prepare_connect_rsp, send, response, pending_req_abort, complete_now,
  cancel_queued, cancel_pending, cancel_req,
}

module _ {A U : Type 0} where
  send_internal-outside : (w : World A U) (p : PendingPkt A) → (send_internal w p).0.user ≡ w.user
  unfolding send_internal
  send_internal-outside w p = ground arith

  prepare_connect_rsp-outside :
      (w : World A U) (rsp : GObexPacket A) → (prepare_connect_rsp w rsp).0.user ≡ w.user
  unfolding prepare_connect_rsp
  prepare_connect_rsp-outside w rsp = ground arith

  pub send-outside : (w : World A U) (pkt : GObexPacket A) → (send w pkt).0.user ≡ w.user
  unfolding send
  send-outside w pkt = elim (Bool-cases (w.obex.rx_last_op == op_connect)) [
    | inl connecting ↦
        let r = prepare_connect_rsp w pkt in
        let first = prepare_connect_rsp-outside w pkt in
        let second = send_internal-outside r.0 (response r.1) in ground arith
    | inr plain ↦ ground (arith, send_internal-outside w (response pkt))
  ]

  pending_req_abort-outside :
      (w : World A U) (p : PendingPkt A) → (pending_req_abort w p).0.user ≡ w.user
  unfolding pending_req_abort
  pending_req_abort-outside w p =
      let p' = record p { cancelled = true; timeout = 5; timeout_id = true } in
      let o = w.obex in
      ground (
        arith,
        send-outside (with_obex w (record o { pending_req = some p' }))
            (empty_packet op_abort true [] 0),
      )

  cancel_queued-outside :
      (w : World A U) (id : ℕ) (remove : Bool) → (cancel_queued w id remove).0.user ≡ w.user
  unfolding cancel_queued complete_now
  cancel_queued-outside w id remove = ground arith

  cancel_pending-outside :
      (w : World A U) (p : PendingPkt A) (remove : Bool)
      → (cancel_pending w p remove).0.user ≡ w.user
  unfolding cancel_pending complete_now
  cancel_pending-outside w p remove = ground (arith, pending_req_abort-outside w p)

  pub cancel_req-outside :
      (w : World A U) (id : ℕ) (remove : Bool) → (cancel_req w id remove).0.user ≡ w.user
  unfolding cancel_req
  cancel_req-outside w id remove = elim (Option-cases w.obex.pending_req) [
    | inl idle ↦ ground (arith, cancel_queued-outside w id remove)
    | inr (p, waits) ↦
        ground (arith, cancel_queued-outside w id remove, cancel_pending-outside w p remove)
  ]
