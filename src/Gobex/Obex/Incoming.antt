-- ===== src/Gobex/Obex/Incoming.antt =====
-- gobex/gobex.c: what the session does with incoming packets.
use map_client.Base.{
  ℕ, Bool, true, false, Option, some, none, [], ◌∷◌, take, drop, ltb, ◌==◌, ◌||◌, ◌&&◌, not,
  bit_and, if◌then◌else◌,
}
use map_client.Base.Int.{ℤ, pos, negsuc}
use map_client.Base.Endian.{get_be16}
use map_client.Gobex.Defs.{
  GObexError, parse_error, disconnected, cancelled, ref, ok, err, aborted, stuck,
}
use map_client.Gobex.Header.{get_uint32}
use map_client.Gobex.Packet.{
  GObexPacket, get_header, get_data, op_connect, op_disconnect, op_put, op_get, op_setpath,
  op_action, op_session, op_abort,
}
use map_client.Gobex.Packet.Codec.{decode}
use map_client.Gobex.Obex.{
  PendingPkt, GObex, World, Env, is_some, is_empty, enable_tx, find_handler, connid_invalid,
}
use map_client.Gobex.Obex.Send.{with_obex, send_rsp, hdr_connection}
use map_client.Gobex.Obex.Write.{Condition}
use map_client.Gobex.Obex.Receive.{read}

abbrev pub is_plain_op : ℕ → Bool
is_plain_op op =
    op == op_disconnect
    || (op == op_put || (op == op_get || (op == op_session || (op == op_abort || op == op_action))))

-- The bytes of data between the packet's length and its headers; `none` is -1.
unfoldable pub req_header_offset : ℕ → Option ℕ
req_header_offset op =
    if op == op_connect
    then some 4
    else if op == op_setpath
    then some 2
    else if is_plain_op op
    then some 0
    else none

unfoldable pub rsp_header_offset : ℕ → Option ℕ
rsp_header_offset op =
    if op == op_connect then some 4 else if op == op_setpath || is_plain_op op then some 0 else none

-- `obex->tx_mtu > obex->io_tx_mtu`, where the latter is positive.
abbrev pub limit_mtu : ℤ → ℕ → ℕ
limit_mtu (negsuc k) n = n
limit_mtu (pos k) n = if ltb 0 k && ltb k n then k else n

unfoldable pub response_unavailable : ℕ
response_unavailable = 0x53

unfoldable pub response_not_implemented : ℕ
response_not_implemented = 0x51

module _ {A : Type 0} where
  abbrev pub with_header_connid : GObex A → GObexPacket A → GObex A
  with_header_connid o pkt = elim (get_header pkt hdr_connection) [
    | none ↦ o
    | some h ↦ elim (get_uint32 h) [ none ↦ o | some id ↦ record o { conn_id = id } ]
  ]

  -- The peer's MTU, as far as the channel allows it, and its connection id.
  unfoldable pub parse_connect_data : GObex A → GObexPacket A → GObex A
  parse_connect_data o pkt =
      let (buf, len) = get_data pkt in
      elim buf [
        | none ↦ o
        | some d ↦
            let mtu = limit_mtu o.io_tx_mtu (get_be16 (drop 2 d)) in
            if len == 4
            then with_header_connid (record o { tx_mtu = mtu; tx_buf = take mtu o.tx_buf }) pkt
            else o
      ]

  abbrev pub final_of : Option (GObexPacket A) → Bool
  final_of none = true
  final_of (some rsp) = rsp.final

  abbrev pub last_op : GObex A → ℕ
  last_op o = bit_and (elim o.rx_buf [ [] ↦ 0 | b ∷ _ ↦ b ]) 0x7f

  unfoldable pub check_connid : GObex A → GObexPacket A → Bool
  check_connid o pkt =
      if o.conn_id == connid_invalid then true else elim (get_header pkt hdr_connection) [
        | none ↦ true
        | some h ↦ elim (get_uint32 h) [ none ↦ true | some id ↦ o.conn_id == id ]
      ]

module _ {A U : Type 0} where
  -- After the callback, if the request is still the pending one. `disconn` is that an error came in.
  unfoldable pub finish_response : Bool → Bool → World A U → World A U
  finish_response disconn final_rsp w =
      let o = w.obex in
      let o' = if final_rsp then record o { pending_req = none } else o in
      if not disconn && not (is_empty o'.tx_queue)
      then with_obex w (enable_tx o')
      else with_obex w o'

  abbrev pub is_pending : ℕ → World A U → Bool
  is_pending id w = elim w.obex.pending_req [ none ↦ false | some p ↦ p.id == id ]

  abbrev pub rx_done : World A U → World A U
  rx_done w = let o = w.obex in with_obex w (record o { rx_data = 0 })

module _ {A U : Type 0} (env : Env A U) where
  abbrev pub answer : World A U → PendingPkt A → Option (GObexPacket A) → World A U
  answer w p none = w
  answer w p (some rsp) =
      if p.pkt.opcode == op_connect then with_obex w (parse_connect_data w.obex rsp) else w

  -- `p` is the pending request. Request ids tell pending requests apart, as their addresses do.
  unfoldable pub handle_response :
      World A U → PendingPkt A → Option GObexError → Option (GObexPacket A) → World A U
  handle_response w p e rsp =
      let w' = answer w p rsp in
      let e' = if p.cancelled then some cancelled else e in
      elim p.rsp_func [
        | none ↦ finish_response (is_some e) (final_of rsp) w'
        | some f ↦
            let w'' = env.on_response f e' rsp w' in
            if is_pending p.id w'' then finish_response (is_some e) (final_of rsp) w'' else w''
      ]

  -- Dispatch to the handler of the opcode.
  unfoldable pub dispatch : World A U → GObexPacket A → Option (World A U)
  dispatch w req = elim (find_handler req.opcode w.obex.req_handlers) [
    | some h ↦ some (env.on_request h.func req w)
    | none ↦ elim (send_rsp env w response_not_implemented []) [
      | none ↦ none
      | some (w', sent) ↦ some w'
    ]
  ]

  unfoldable pub handle_request : World A U → GObexPacket A → Option (World A U)
  handle_request w req =
      if req.opcode == op_connect
      then dispatch (with_obex w (parse_connect_data w.obex req)) req
      else if req.opcode == op_abort || check_connid w.obex req
      then dispatch w req
      else elim (send_rsp env w response_unavailable []) [ none ↦ none | some (w', sent) ↦ some w' ]

  -- The label failed: the channel is given up, and who waits is told.
  unfoldable pub fail_incoming : World A U → GObexError → World A U
  fail_incoming w e =
      let o = w.obex in
      let closed = with_obex w (record o { io = false; io_source = false; rx_data = 0 }) in
      let told : World A U = elim o.pending_req [
        | none ↦ closed
        | some p ↦ handle_response closed p (some e) none
      ] in
      elim told.obex.disconn_func [ none ↦ told | some f ↦ env.on_disconnect f (some e) told ]

  abbrev pub handle_packet : World A U → GObexPacket A → Option (World A U)
  handle_packet w pkt = elim w.obex.pending_req [
    | some p ↦ some (handle_response w p none (some pkt))
    | none ↦ handle_request w pkt
  ]

  -- Decoding and handling, once the data's length is known. `none` is a failed assertion.
  unfoldable pub handle_offset : World A U → Option ℕ → Option (World A U × Bool)
  handle_offset w none = some (fail_incoming w parse_error, false)
  handle_offset w (some offset) =
      elim (decode {A = A} env.glib ref offset (take w.obex.rx_data w.obex.rx_buf)) [
        | err e ↦ some (fail_incoming w e, false)
        | aborted ↦ none
        | stuck ↦ none
        | ok pkt ↦ elim (handle_packet w pkt) [ none ↦ none | some w' ↦ some (rx_done w', true) ]
      ]

  -- A whole packet is in the buffer.
  unfoldable pub whole_packet : World A U → Option (World A U × Bool)
  whole_packet w =
      let o = w.obex in
      let op = last_op o in
      let w' = with_obex w (record o { rx_last_op = op }) in
      elim o.pending_req [
        | some p ↦ handle_offset w' (rsp_header_offset p.pkt.opcode)
        | none ↦
            if ltb 0x1f op && ltb op 0xff
            then some (rx_done w', true)
            else handle_offset w' (req_header_offset op)
      ]

  unfoldable pub incoming_data : Condition → World A U → Option (World A U × Bool)
  incoming_data cond w =
      let (w', e) = read env w in
      if cond.nval
      then some (w, false)
      else if cond.hup_or_err
      then some (fail_incoming w disconnected, false)
      else elim e [
        | some x ↦ some (fail_incoming w' x, false)
        | none ↦
            if ltb w'.obex.rx_data 3 || ltb w'.obex.rx_data w'.obex.rx_pkt_len
            then some (w', true)
            else whole_packet w'
      ]
