-- ===== src/Gobex/Obex/Requesters.antt =====
-- Which requests reach a handler.
use map_client.Base.{ℕ, ◌≡◌, ◌≢◌, ap, true, false, some, none, [], ◌∷◌, ◌++◌, arith}
use map_client.Gobex.Header.{GObexHeader, get_uint32, create_list}
use map_client.Gobex.Packet.{
  GObexPacket, op_abort, op_connect, empty_packet, get_header, new_packet,
}
use map_client.Gobex.Obex.{GObex, World, Env, enable_tx, find_handler, connid_invalid}
use map_client.Gobex.Obex.Send.{with_obex, send_rsp, response, hdr_connection, send, send_internal}
use map_client.Gobex.Obex.Incoming.{
  handle_request, dispatch, check_connid, response_unavailable, response_not_implemented,
}

module _ {A : Type 0} where
  check_connid_foreign :
      (o : GObex A) (req : GObexPacket A) (h : GObexHeader) (id : ℕ)
      → o.conn_id ≢ connid_invalid
      → get_header req hdr_connection ≡ some h
      → get_uint32 h ≡ some id
      → id ≢ o.conn_id
      → check_connid o req ≡ false
  unfolding check_connid
  check_connid_foreign o req h id valid has says other = ground arith

module _ {A U : Type 0} where
  -- The session with a response without headers at the end of its queue.
  abbrev pub replied : World A U → ℕ → World A U
  replied w code =
      let o = w.obex in
      with_obex w (
        enable_tx
          (record o { tx_queue = o.tx_queue ++ (response (empty_packet code true [] 0) ∷ []) }))

  send_plain :
      (w : World A U) (pkt : GObexPacket A)
      → w.obex.io ≡ true
      → w.obex.rx_last_op ≢ op_connect
      → pkt.opcode ≢ op_abort
      → send w pkt ≡ (
        with_obex w (
            enable_tx
              (let o = w.obex in record o { tx_queue = o.tx_queue ++ (response pkt ∷ []) })),
        true,
      )
  unfolding send send_internal
  send_plain w pkt up op plain = ground arith

  send_rsp_plain :
      (env : Env A U) (w : World A U) (code : ℕ)
      → w.obex.io ≡ true
      → w.obex.rx_last_op ≢ op_connect
      → code ≢ op_abort
      → send_rsp env w code [] ≡ some (replied w code, true)
  unfolding send_rsp new_packet create_list
  send_rsp_plain env w code up op plain =
      ap some (send_plain w (empty_packet code true [] 0) up op plain)

  -- A request with another connection's id than the session's, unless it is CONNECT or ABORT, reaches no
  -- handler. While the channel is up and no CONNECT is being answered, it is
  -- answered with Service Unavailable, and nothing but the transmit side of the session changes.
  pub handle_request_foreign :
      (env : Env A U) (w : World A U) (req : GObexPacket A) (h : GObexHeader) (id : ℕ)
      → w.obex.io ≡ true
      → w.obex.rx_last_op ≢ op_connect
      → req.opcode ≢ op_connect
      → req.opcode ≢ op_abort
      → w.obex.conn_id ≢ connid_invalid
      → get_header req hdr_connection ≡ some h
      → get_uint32 h ≡ some id
      → id ≢ w.obex.conn_id
      → handle_request env w req ≡ some (replied w response_unavailable)
  unfolding handle_request
  handle_request_foreign env w req h id up op plain going valid has says other =
      let foreign = check_connid_foreign w.obex req h id valid has says other in
      let answer =
        send_rsp_plain env w response_unavailable up op
          (unfold response_unavailable in omega arith) in
      ground arith

  -- A request that is allowed and that no handler is registered for is answered with Not Implemented.
  pub handle_request_unhandled :
      (env : Env A U) (w : World A U) (req : GObexPacket A)
      → w.obex.io ≡ true
      → w.obex.rx_last_op ≢ op_connect
      → req.opcode ≢ op_connect
      → check_connid w.obex req ≡ true
      → find_handler req.opcode w.obex.req_handlers ≡ none
      → handle_request env w req ≡ some (replied w response_not_implemented)
  unfolding handle_request dispatch
  handle_request_unhandled env w req up op plain allowed free =
      let answer =
        send_rsp_plain env w response_not_implemented up op
          (unfold response_not_implemented in omega arith) in
      ground arith
