-- ===== src/Gobex/Obex/Arriving.antt =====
-- The receive side of the session across the read watch (incoming_data).
use map_client.Base.{
  ℕ, ◌≤◌, ◌≡◌, refl, subst, inl, inr, Bool, true, false, Option, some, none, [], if◌then◌else◌,
  arith, Option-cases, length, take,
}
use map_client.Gobex.Defs.{GObexError, parse_error, disconnected, cancelled, ref, Result-cases}
use map_client.Gobex.Header.{create_list}
use map_client.Gobex.Packet.{GObexPacket, empty_packet, new_packet}
use map_client.Gobex.Packet.Codec.{decode}
use map_client.Gobex.Obex.{PendingPkt, GObex, World, Env, enable_tx, is_some, find_handler}
use map_client.Gobex.Obex.Send.{with_obex, send_rsp, send}
use map_client.Gobex.Obex.Write.{Condition}
use map_client.Gobex.Obex.Receive.{read}
use map_client.Gobex.Obex.Incoming.{
  parse_connect_data, finish_response, answer, handle_response, dispatch, handle_request,
  fail_incoming, handle_packet, handle_offset, whole_packet, incoming_data, rx_done, final_of,
  req_header_offset, rsp_header_offset, last_op, response_not_implemented, response_unavailable,
}
use map_client.Gobex.Obex.Buffer.{ReadsAtMost, KeepsBounds, read-KeepsBounds}
use map_client.Gobex.Obex.Calls.{SameRx, IsWithin-SameRx, send-SameRx}
use map_client.Gobex.Obex.Keeping.{IsKeeping, Within, WithinAfter, WithinSome}

module _ {A : Type 0} where
  parse_connect_data-SameRx :
      (o : GObex A) (pkt : GObexPacket A) → SameRx o (parse_connect_data o pkt)
  unfolding parse_connect_data
  parse_connect_data-SameRx o pkt = ground arith

module _ {A U : Type 0} (env : Env A U) (keeps : IsKeeping env) where
  finish_response-Within :
      (disconn final : Bool) (w : World A U) → Within w → Within (finish_response disconn final w)
  unfolding finish_response enable_tx
  finish_response-Within disconn final w h =
      IsWithin-SameRx w.obex (finish_response disconn final w).obex
        (ground arith, ground arith, ground arith, ground arith) h

  connected-Within :
      (w : World A U) (pkt : GObexPacket A)
      → Within w
      → Within (with_obex w (parse_connect_data w.obex pkt))
  connected-Within w pkt h =
      IsWithin-SameRx w.obex (parse_connect_data w.obex pkt) (parse_connect_data-SameRx w.obex pkt)
        h

  answer-Within :
      (w : World A U) (p : PendingPkt A) (rsp : Option (GObexPacket A))
      → Within w
      → Within (answer env w p rsp)
  answer-Within w p none h = h
  answer-Within w p (some rsp) h = ground (arith, h, connected-Within w rsp h)

  handle_response-Within :
      (w : World A U) (p : PendingPkt A) (e : Option GObexError) (rsp : Option (GObexPacket A))
      → Within w
      → Within (handle_response env w p e rsp)
  unfolding handle_response
  handle_response-Within w p e rsp h =
      let w' = answer env w p rsp in
      let h' = answer-Within w p rsp h in
      let e' = if p.cancelled then some cancelled else e in
      elim (Option-cases p.rsp_func) [
        | inl quiet ↦ ground (arith, finish_response-Within (is_some e) (final_of rsp) w' h')
        | inr (f, told) ↦
            let h'' = keeps.responding f e' rsp w' h' in
            let finished =
              finish_response-Within (is_some e) (final_of rsp) (env.on_response f e' rsp w') h'' in
            ground arith
      ]

  send_rsp-WithinSome :
      (w : World A U) (code : ℕ)
      → Within w
      → (w' : World A U) × (sent : Bool) × (send_rsp env w code [] ≡ some (w', sent)) × Within w'
  unfolding send_rsp new_packet create_list
  send_rsp-WithinSome w code h =
      let pkt : GObexPacket A = empty_packet code true [] 0 in
      (
        (send w pkt).0,
        (send w pkt).1,
        refl,
        IsWithin-SameRx w.obex (send w pkt).0.obex (send-SameRx w pkt) h,
      )

  dispatch-Within :
      (w : World A U) (req : GObexPacket A) → Within w → WithinSome (dispatch env w req)
  unfolding dispatch
  dispatch-Within w req h = elim (Option-cases (find_handler req.opcode w.obex.req_handlers)) [
    | inl free ↦
        let (w', sent, e, h') = send_rsp-WithinSome w response_not_implemented h in ground arith
    | inr (handler, found) ↦ let h' = keeps.requesting handler.func req w h in ground arith
  ]

  handle_request-Within :
      (w : World A U) (req : GObexPacket A) → Within w → WithinSome (handle_request env w req)
  unfolding handle_request
  handle_request-Within w req h =
      let (w', sent, e, h') = send_rsp-WithinSome w response_unavailable h in
      let plain = dispatch-Within w req h in
      let connected =
        dispatch-Within (with_obex w (parse_connect_data w.obex req)) req
          (connected-Within w req h) in
      ground arith

  abbrev disconnected_from : World A U → World A U
  disconnected_from w =
      let o = w.obex in with_obex w (record o { io = false; io_source = false; rx_data = 0 })

  -- What a failed read leaves of the bounds.
  abbrev Sized : World A U → Type 0
  Sized w = (length w.obex.rx_buf ≡ w.obex.rx_mtu) × (3 ≤ w.obex.rx_mtu)

  fail_incoming-Within : (w : World A U) (e : GObexError) → Sized w → Within (fail_incoming env w e)
  unfolding fail_incoming
  fail_incoming-Within w e (sized, room) =
      let w' = disconnected_from w in
      let h' : Within w' = record {
        sized = sized;
        room = room;
        filled = omega arith;
        expected = λ h. absurd (omega arith);
      } in
      let told : World A U = elim w.obex.pending_req [
        | none ↦ w'
        | some p ↦ handle_response env w' p (some e) none
      ] in
      let told-ok : Within told = elim (Option-cases w.obex.pending_req) [
        | inl idle ↦ ground (arith, h')
        | inr (p, waits) ↦ ground (arith, handle_response-Within w' p (some e) none h')
      ] in
      elim (Option-cases told.obex.disconn_func) [
        | inl quiet ↦ ground (arith, told-ok)
        | inr (f, hears) ↦ let r = keeps.disconnecting f (some e) told told-ok in ground arith
      ]

  handle_packet-WithinSome :
      (w : World A U) (pkt : GObexPacket A) → Within w → WithinSome (handle_packet env w pkt)
  handle_packet-WithinSome w pkt h = elim (Option-cases w.obex.pending_req) [
    | inl idle ↦ ground (arith, handle_request-Within w pkt h)
    | inr (p, waits) ↦ ground (arith, handle_response-Within w p none (some pkt) h)
  ]

  rx_done-Within : (w : World A U) → Within w → Within (rx_done w)
  rx_done-Within w h = record {
    sized = h.sized;
    room = h.room;
    filled = omega arith;
    expected = λ k. absurd (omega arith);
  }

  handle_offset-Within :
      (w : World A U) (offset : Option ℕ) → Within w → WithinAfter (handle_offset env w offset)
  unfolding handle_offset
  handle_offset-Within w none h = fail_incoming-Within w parse_error (h.sized, h.room)
  handle_offset-Within w (some offset) h =
      elim (Result-cases (decode {A = A} env.glib ref offset (take w.obex.rx_data w.obex.rx_buf))) [
        | inl (pkt, e) ↦
            let handled = handle_packet-WithinSome w pkt h in
            elim (Option-cases (handle_packet env w pkt)) [
              | inl stops ↦ ground arith
              | inr (w', goes) ↦
                  let h' : Within w' = subst (λ r. WithinSome r) goes handled in
                  ground (arith, rx_done-Within w' h')
            ]
        | inr (inl (x, e)) ↦ ground (arith, fail_incoming-Within w x (h.sized, h.room))
        | inr (inr (inl e)) ↦ ground arith
        | inr (inr (inr e)) ↦ ground arith
      ]

  whole_packet-Within : (w : World A U) → Within w → WithinAfter (whole_packet env w)
  unfolding whole_packet
  whole_packet-Within w h =
      let o = w.obex in
      let op = last_op o in
      let w' = with_obex w (record o { rx_last_op = op }) in
      let h' : Within w' = IsWithin-SameRx o w'.obex (refl, refl, refl, refl) h in
      let ignored : Within (rx_done w') = rx_done-Within w' h' in
      elim (Option-cases o.pending_req) [
        | inl idle ↦ ground (arith, handle_offset-Within w' (req_header_offset op) h')
        | inr (p, waits) ↦
            ground (arith, handle_offset-Within w' (rsp_header_offset p.pkt.opcode) h')
      ]

  read-Sized :
      (r : World A U × Option GObexError) (e : GObexError)
      → r.1 ≡ some e
      → KeepsBounds env r
      → Sized r.0
  read-Sized (w, none) e same h = absurd (ground arith)
  read-Sized (w, some x) e same (sized, room, filled) = (sized, room)

  read-Within : (r : World A U × Option GObexError) → r.1 ≡ none → KeepsBounds env r → Within r.0
  read-Within (w, none) same h = h
  read-Within (w, some x) same h = absurd (ground arith)

  pub incoming_data-Within :
      (cond : Condition) (w : World A U)
      → ReadsAtMost env
      → Within w
      → WithinAfter (incoming_data env cond w)
  unfolding incoming_data
  incoming_data-Within cond w most h =
      let r = read env w in
      let bounds : KeepsBounds env r = read-KeepsBounds env w most h in
      let gone = fail_incoming-Within w disconnected (h.sized, h.room) in
      elim (Option-cases r.1) [
        | inl fine ↦
            let h' : Within r.0 = read-Within r fine bounds in
            ground (arith, h, whole_packet-Within r.0 h')
        | inr (e, bad) ↦ ground (arith, h, fail_incoming-Within r.0 e (read-Sized r e bad bounds))
      ]
