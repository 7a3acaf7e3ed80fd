-- ===== src/Gobex/Obex/Abort.antt =====
-- g_obex_cancel_req with the pending request.
use map_client.Base.{◌≡◌, ◌≢◌, refl, ap, ◌∙◌, Bool, true, false, some, none, [], ◌∷◌, ◌++◌, arith}
use map_client.Gobex.Packet.{GObexPacket, op_abort, op_connect, empty_packet}
use map_client.Gobex.Obex.{PendingPkt, World, enable_tx, abort_timeout}
use map_client.Gobex.Obex.Send.{
  with_obex, send_internal, send, response, pending_req_abort, complete_now, cancel_pending,
  cancel_req,
}
use map_client.Gobex.Obex.Cancel.{completions, complete_now-obex, complete_now-idle}

module _ {A : Type 0} where
  -- The pending request after its abort was queued.
  abbrev pub aborting : PendingPkt A → PendingPkt A
  aborting p = record p { cancelled = true; timeout = abort_timeout; timeout_id = true }

module _ {A U : Type 0} where
  cancel_req_here :
      (w : World A U) (p : PendingPkt A) (remove : Bool)
      → w.obex.pending_req ≡ some p
      → cancel_req w p.id remove ≡ cancel_pending w p remove
  unfolding cancel_req
  cancel_req_here w p remove e = ground arith

  send_up :
      (w : World A U) (pkt : GObexPacket A)
      → w.obex.io ≡ true
      → w.obex.rx_last_op ≢ op_connect
      → pkt.opcode ≡ op_abort
      → send w pkt ≡ (
        with_obex w
            (enable_tx (let o = w.obex in record o { tx_queue = response pkt ∷ o.tx_queue })),
        true,
      )
  unfolding send send_internal
  send_up w pkt up op abort = ground arith

  send_down :
      (w : World A U) (pkt : GObexPacket A)
      → w.obex.io ≡ false
      → w.obex.rx_last_op ≢ op_connect
      → send w pkt ≡ (w, false)
  unfolding send send_internal
  send_down w pkt down op = ground arith

  abbrev marked : World A U → PendingPkt A → World A U
  marked w p = let o = w.obex in with_obex w (record o { pending_req = some (aborting p) })

  pending_req_abort_fresh :
      (w : World A U) (p : PendingPkt A)
      → p.cancelled ≡ false
      → pending_req_abort w p ≡ send (marked w p) (empty_packet op_abort true [] 0)
  unfolding pending_req_abort
  pending_req_abort_fresh w p fresh = ground arith

  cancel_pending_sent :
      (w w' : World A U) (p : PendingPkt A) (remove : Bool)
      → pending_req_abort w p ≡ (w', true)
      → cancel_pending w p remove ≡ (w', true)
  unfolding cancel_pending
  cancel_pending_sent w w' p remove e = rw (e, cancel_pending)

  cancel_pending_unsent :
      (w w' : World A U) (p : PendingPkt A) (remove : Bool)
      → pending_req_abort w p ≡ (w', false)
      → cancel_pending w p remove ≡ (
        complete_now
            (let o = w'.obex in with_obex w' (record o { pending_req = none }))
            (aborting p)
            remove,
        true,
      )
  unfolding cancel_pending
  cancel_pending_unsent w w' p remove e = rw (e, cancel_pending)

  pending_req_abort_again :
      (w : World A U) (p : PendingPkt A) → p.cancelled ≡ true → pending_req_abort w p ≡ (w, true)
  unfolding pending_req_abort
  pending_req_abort_again w p e = ground arith

  -- Cancelling the pending request, not cancelled yet, while the channel is up and no CONNECT is being answered: it stays
  -- pending, marked and with the abort's timeout, and an abort packet goes to the front of the queue.
  -- To cancel it once more changes nothing.
  pub cancel_req_pending :
      (w : World A U) (p : PendingPkt A) (remove again : Bool)
      → w.obex.pending_req ≡ some p
      → p.cancelled ≡ false
      → w.obex.io ≡ true
      → w.obex.rx_last_op ≢ op_connect
      → (w' : World A U) × (cancel_req w p.id remove ≡ (w', true))
        × (w'.obex.pending_req ≡ some (aborting p))
        × (w'.obex.tx_queue ≡ response (empty_packet op_abort true [] 0) ∷ w.obex.tx_queue)
        × (w'.idle ≡ w.idle)
        × (cancel_req w' p.id again ≡ (w', true))
  cancel_req_pending w p remove again here fresh up op =
      let v = marked w p in
      let abort : GObexPacket A = empty_packet op_abort true [] 0 in
      let w' =
        with_obex v
          (enable_tx (let o = v.obex in record o { tx_queue = response abort ∷ o.tx_queue })) in
      let stays : w'.obex.pending_req ≡ some (aborting p) = unfold enable_tx in ground arith in
      (
        w',
        cancel_req_here w p remove here
            ∙ cancel_pending_sent w w' p remove
                (pending_req_abort_fresh w p fresh ∙ send_up v abort up op refl),
        stays,
        unfold enable_tx in ground arith,
        refl,
        cancel_req_here w' (aborting p) again stays
            ∙ cancel_pending_sent w' w' (aborting p) again
                (pending_req_abort_again w' (aborting p) refl),
      )

  -- Without a channel the abort cannot be sent: a pending request that was not cancelled yet is gone at
  -- once, and its callback waits for the idle loop unless it is to be removed. No CONNECT is being
  -- answered.
  pub cancel_req_closed :
      (w : World A U) (p : PendingPkt A) (remove : Bool)
      → w.obex.pending_req ≡ some p
      → p.cancelled ≡ false
      → w.obex.io ≡ false
      → w.obex.rx_last_op ≢ op_connect
      → ((cancel_req w p.id remove).1 ≡ true)
        × ((cancel_req w p.id remove).0.obex.pending_req ≡ none)
        × ((cancel_req w p.id remove).0.idle ≡ w.idle ++ completions (aborting p) remove)
  cancel_req_closed w p remove here fresh down op =
      let v = marked w p in
      let gone = let o = v.obex in with_obex v (record o { pending_req = none }) in
      let whole : cancel_req w p.id remove ≡ (complete_now gone (aborting p) remove, true) =
        cancel_req_here w p remove here
        ∙ cancel_pending_unsent w v p remove (
            pending_req_abort_fresh w p fresh
            ∙ send_down v (empty_packet op_abort true [] 0) down op) in
      (
        ap (λ r. r.1) whole,
        ap (λ r. r.0.obex.pending_req) whole
            ∙ ap (λ o. o.pending_req) (complete_now-obex gone (aborting p) remove),
        ap (λ r. r.0.idle) whole ∙ complete_now-idle gone (aborting p) remove,
      )
