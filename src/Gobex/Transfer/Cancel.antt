-- ===== src/Gobex/Transfer/Cancel.antt =====
-- g_obex_cancel_transfer while a request of the transfer waits for its response.
use map_client.Base.{ℕ, ◌<◌, ◌≡◌, ◌≢◌, ap, ◌∙◌, true, false, Option, some, none, arith}
use map_client.Gobex.Defs.{GObexError}
use map_client.Gobex.Packet.{GObexPacket, op_connect}
use map_client.Gobex.Obex.{PendingPkt, remove_request_function}
use map_client.Gobex.Obex.Send.{cancel_req}
use map_client.Gobex.Obex.Abort.{aborting, cancel_req_pending}
use map_client.Gobex.Transfer.{
  Func, response_of, Transfer, State, Users, found, fault, find_transfer, remove_transfer,
  with_transfers, cancel_if, unregister_if, transfer_free, cancel_transfer,
}
use map_client.Gobex.Obex.Outside.{cancel_req-outside}
use map_client.Gobex.Transfer.Client.{transfer_response}

module _ {A V : Type 0} where
  unregister_if-pending :
      (id : ℕ) (w : State A V)
      → ((unregister_if id w).obex.pending_req ≡ w.obex.pending_req)
        × ((unregister_if id w).user ≡ w.user)
  unregister_if-pending id w = unfold remove_request_function in ground arith

  transfer_free-pending :
      (w : State A V) (t : Transfer A)
      → let v = cancel_if t.req_id (with_transfers w (remove_transfer t.id w.user.transfers)) in
        ((transfer_free w t).obex.pending_req ≡ v.obex.pending_req)
        × ((transfer_free w t).user ≡ v.user)
  unfolding transfer_free
  transfer_free-pending w t =
      let v0 = cancel_if t.req_id (with_transfers w (remove_transfer t.id w.user.transfers)) in
      let v1 = unregister_if t.put_id v0 in
      let v2 = unregister_if t.get_id v1 in
      let (a, b) = unregister_if-pending t.put_id v0 in
      let (c, d) = unregister_if-pending t.get_id v1 in
      let (e, f) = unregister_if-pending t.abort_id v2 in (e ∙ c ∙ a, f ∙ d ∙ b)

  cancel_if_lem :
      (id k : ℕ) (w w' : State A V)
      → id ≡ k
      → 0 < k
      → cancel_req w k true ≡ (w', true)
      → cancel_if id w ≡ w'
  cancel_if_lem id k w w' same pos e = ground arith

  cancel_if-outside : (id : ℕ) (w : State A V) → (cancel_if id w).user ≡ w.user
  cancel_if-outside id w = ground (arith, cancel_req-outside w id true)

module _ {A V : Type 0} (env : Users A V) where
  -- A transfer that is cancelled while its request waits for the response is freed, but the request keeps
  -- its callback: whatever comes in for it, the callback uses the freed transfer. The transfer's id is
  -- unique, its request was not cancelled before, the channel is up, and no CONNECT is being answered.
  pub cancel_transfer-dangles :
      (w : State A V) (t : Transfer A) (p : PendingPkt (Func A))
      → found w t.id ≡ some t
      → find_transfer t.id (remove_transfer t.id w.user.transfers) ≡ none
      → w.obex.pending_req ≡ some p
      → t.req_id ≡ p.id
      → 0 < p.id
      → p.rsp_func ≡ some (response_of t.id)
      → p.cancelled ≡ false
      → w.obex.io ≡ true
      → w.obex.rx_last_op ≢ op_connect
      → (w' : State A V) × (q : PendingPkt (Func A)) × (cancel_transfer w t.id ≡ (w', true))
        × (w'.obex.pending_req ≡ some q)
        × (q.rsp_func ≡ some (response_of t.id))
        × ((e : Option GObexError) (rsp : Option (GObexPacket (Func A)))
            → transfer_response env w' t.id e rsp ≡ fault w')
  unfolding cancel_transfer transfer_response
  cancel_transfer-dangles w t p listed single waits same pos func fresh up op =
      let w0 = with_transfers w (remove_transfer t.id w.user.transfers) in
      let (w1, sent, still, _, _, _) = cancel_req_pending w0 p true true waits fresh up op in
      let cancelled_first : cancel_if t.req_id w0 ≡ w1 =
        cancel_if_lem t.req_id p.id w0 w1 same pos sent in
      let (pend, out) = transfer_free-pending w t in
      let gone : found (transfer_free w t) t.id ≡ none =
        ap (λ l. find_transfer t.id l.transfers) (out ∙ cancel_if-outside t.req_id w0) ∙ single in
      (
        transfer_free w t,
        aborting p,
        ground arith,
        pend ∙ ap (λ x. x.obex.pending_req) cancelled_first ∙ still,
        func,
        λ e rsp. ground arith,
      )
