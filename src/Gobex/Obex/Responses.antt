-- ===== src/Gobex/Obex/Responses.antt =====
-- What an incoming packet does to the pending request and to the queue.
use map_client.Base.{
  ◌≡◌, ◌≢◌, ◌⊎◌, refl, ap, ◌∙◌, inl, inr, Bool, true, false, Option, some, none, [], if◌then◌else◌,
  arith, Option-cases,
}
use map_client.Gobex.Defs.{GObexError, cancelled}
use map_client.Gobex.Packet.{GObexPacket}
use map_client.Gobex.Obex.{PendingPkt, GObex, World, Env, enable_tx, is_some}
use map_client.Gobex.Obex.Send.{with_obex}
use map_client.Gobex.Obex.Incoming.{
  finish_response, answer, final_of, handle_response, fail_incoming, parse_connect_data,
}

module _ {A U : Type 0} where
  -- The world less the pending request and the write watch.
  abbrev pub besides : World A U → World A U
  besides v = let o = v.obex in with_obex v (record o { pending_req = none; write_source = false })

module _ {A U : Type 0} (env : Env A U) where
  -- Response callbacks leave the session object alone.
  abbrev pub CallbacksLeave : Type 0
  CallbacksLeave =
      (f : A) (e : Option GObexError) (rsp : Option (GObexPacket A)) (w : World A U)
      → (env.on_response f e rsp w).obex ≡ w.obex

  finish_response-pending :
      (disconn final : Bool) (w : World A U)
      → (finish_response disconn final w).obex.pending_req
        ≡ (if final then none else w.obex.pending_req)
  unfolding finish_response enable_tx
  finish_response-pending disconn final w = ground arith

  parse_connect_data-pending :
      (o : GObex A) (pkt : GObexPacket A) → (parse_connect_data o pkt).pending_req ≡ o.pending_req
  unfolding parse_connect_data
  parse_connect_data-pending o pkt = ground arith

  answer-pending :
      (w : World A U) (p : PendingPkt A) (rsp : Option (GObexPacket A))
      → (answer env w p rsp).obex.pending_req ≡ w.obex.pending_req
  answer-pending w p none = refl
  answer-pending w p (some rsp) = ground (arith, parse_connect_data-pending w.obex rsp)

  -- The session when the callback has been told: of the cancellation if the request was cancelled,
  -- whatever came in.
  abbrev pub told :
      World A U → PendingPkt A → Option GObexError → Option (GObexPacket A) → World A U
  told w p e rsp = elim p.rsp_func [
    | none ↦ answer env w p rsp
    | some f ↦
        env.on_response f (if p.cancelled then some cancelled else e) rsp (answer env w p rsp)
  ]

  told-pending :
      (w : World A U) (p : PendingPkt A) (e : Option GObexError) (rsp : Option (GObexPacket A))
      → CallbacksLeave
      → (told w p e rsp).obex.pending_req ≡ w.obex.pending_req
  told-pending w p e rsp leave = elim (Option-cases p.rsp_func) [
    | inl quiet ↦ ground (arith, answer-pending w p rsp)
    | inr (f, some_f) ↦
        let same = leave f (if p.cancelled then some cancelled else e) rsp (answer env w p rsp) in
        ground (arith, answer-pending w p rsp)
  ]

  handle_response-told :
      (w : World A U) (p : PendingPkt A) (e : Option GObexError) (rsp : Option (GObexPacket A))
      → (told w p e rsp).obex.pending_req ≡ some p
      → handle_response env w p e rsp ≡ finish_response (is_some e) (final_of rsp) (told w p e rsp)
  unfolding handle_response
  handle_response-told w p e rsp here = ground arith

  finish_response_lem :
      (disconn final : Bool) (v : World A U) (p : PendingPkt A)
      → v.obex.pending_req ≡ some p
      → let v' = finish_response disconn final v in
        (v'.obex.pending_req ≡ (if final then none else some p))
        × (besides v' ≡ besides v)
        × (disconn ≡ false
            → v.obex.tx_queue ≢ []
            → v.obex.suspended ≡ false
            → v'.obex.write_source ≡ true)
        × ((disconn ≡ true) ⊎ ((v.obex.tx_queue ≡ []) ⊎ (v.obex.suspended ≡ true))
            → v'.obex.write_source ≡ v.obex.write_source)
  unfolding finish_response enable_tx
  finish_response_lem disconn final v p still =
      (ground arith, ground arith, λ up more runs. ground arith, λ rests. ground arith)

  told_failed :
      (w : World A U) (p : PendingPkt A) (e : Option GObexError)
      → CallbacksLeave
      → (told w p e none).obex ≡ w.obex
  told_failed w p e leave = elim (Option-cases p.rsp_func) [
    | inl quiet ↦ ground arith
    | inr (f, some_f) ↦
        let same = leave f (if p.cancelled then some cancelled else e) none w in ground arith
  ]

  handle_response_failed :
      (w : World A U) (p : PendingPkt A) (e : GObexError)
      → CallbacksLeave
      → w.obex.pending_req ≡ some p
      → (handle_response env w p (some e) none).obex
        ≡ (let o = w.obex in record o { pending_req = none })
  unfolding finish_response
  handle_response_failed w p e leave here =
      ap (λ v. v.obex)
        (handle_response-told w p (some e) none
          (ap (λ o. o.pending_req) (told_failed w p (some e) leave) ∙ here))
      ∙ ap {A = GObex A} (λ o. record o { pending_req = none }) (told_failed w p (some e) leave)

  -- What a response, or an error in its place (`rsp` is none), does to the pending request if the
  -- callback leaves the session alone: the request is gone exactly if the response is final or an
  -- error, and all of the world but it and the write watch is as the callback left it. After a
  -- response the watch is on if there is something to send, unless the session is suspended; in all
  -- other cases it is as the callback left it.
  pub handle_response-pending :
      (w : World A U) (p : PendingPkt A) (e : Option GObexError) (rsp : Option (GObexPacket A))
      → CallbacksLeave
      → w.obex.pending_req ≡ some p
      → let v = told w p e rsp in
        let v' = handle_response env w p e rsp in
        (v'.obex.pending_req ≡ (if final_of rsp then none else some p))
        × (besides v' ≡ besides v)
        × (e ≡ none → v.obex.tx_queue ≢ [] → v.obex.suspended ≡ false → v'.obex.write_source ≡ true)
        × ((is_some e ≡ true) ⊎ ((v.obex.tx_queue ≡ []) ⊎ (v.obex.suspended ≡ true))
            → v'.obex.write_source ≡ v.obex.write_source)
  handle_response-pending w p e rsp leave here =
      let v = told w p e rsp in
      let still : v.obex.pending_req ≡ some p = told-pending w p e rsp leave ∙ here in
      let whole = handle_response-told w p e rsp still in
      let (gone, same, watch, rest) = finish_response_lem (is_some e) (final_of rsp) v p still in
      (
        ap (λ x. x.obex.pending_req) whole ∙ gone,
        ap besides whole ∙ same,
        λ up more runs. ap (λ x. x.obex.write_source) whole ∙ watch (ap is_some up) more runs,
        λ rests. ap (λ x. x.obex.write_source) whole ∙ rest rests,
      )

  abbrev closed : World A U → World A U
  closed w = let o = w.obex in with_obex w (record o { io = false; io_source = false; rx_data = 0 })

  -- Who waits for a response is told, and then the disconnect function.
  abbrev answered : World A U → GObexError → World A U
  answered w e = elim w.obex.pending_req [
    | none ↦ closed w
    | some p ↦ handle_response env (closed w) p (some e) none
  ]

  abbrev notified : World A U → GObexError → World A U
  notified v e = elim v.obex.disconn_func [ none ↦ v | some f ↦ env.on_disconnect f (some e) v ]

  abbrev pub failed : GObex A → GObex A
  failed o = record o { io = false; io_source = false; rx_data = 0; pending_req = none }

  answered-obex :
      (w : World A U) (e : GObexError) → CallbacksLeave → (answered w e).obex ≡ failed w.obex
  answered-obex w e leave = elim (Option-cases w.obex.pending_req) [
    | inl idle ↦ ground arith
    | inr (p, waits) ↦ let gone = handle_response_failed (closed w) p e leave waits in ground arith
  ]

  -- Disconnect functions leave the session object alone.
  abbrev pub DisconnectLeaves : Type 0
  DisconnectLeaves =
      (f : A) (x : Option GObexError) (v : World A U) → (env.on_disconnect f x v).obex ≡ v.obex

  notified-obex : (v : World A U) (e : GObexError) → DisconnectLeaves → (notified v e).obex ≡ v.obex
  notified-obex v e leave = elim (Option-cases v.obex.disconn_func) [
    | inl quiet ↦ ground arith
    | inr (f, some_f) ↦ let same = leave f (some e) v in ground arith
  ]

  -- When the channel fails, nothing stays behind that waits for it: there is no channel, no pending
  -- request and nothing in the receive buffer, and the rest of the session is as it was, if the
  -- callbacks leave the session alone.
  pub fail_incoming-obex :
      (w : World A U) (e : GObexError)
      → CallbacksLeave
      → DisconnectLeaves
      → (fail_incoming env w e).obex ≡ failed w.obex
  unfolding fail_incoming
  fail_incoming-obex w e leave quiet =
      notified-obex (answered w e) e quiet ∙ answered-obex w e leave
