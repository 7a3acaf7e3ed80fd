-- ===== src/Gobex/Obex/Send.antt =====
-- gobex/gobex.c: queueing packets, cancelling requests, and connect data.
use map_client.Base.{
  ℕ, ◌+◌, ◌%◌, ◌^◌, Bool, true, false, Option, some, none, List, [], ◌∷◌, ◌++◌, ◌==◌, ◌||◌, not,
  if◌then◌else◌,
}
use map_client.Base.Int.{ℤ, pos, negsuc}
use map_client.Base.Endian.{Bytes, put_be16}
use map_client.Gobex.Defs.{copy, cancelled}
use map_client.Gobex.Header.{GObexHeader, VaArg, get_uint32, new_uint32}
use map_client.Gobex.Packet.{
  GObexPacket, get_header, set_data, prepend_header, empty_packet, new_packet, op_abort, op_connect,
  rsp_continue,
}
use map_client.Gobex.Obex.{
  PendingPkt, GObex, World, Env, enable_tx, is_some, connid_invalid, default_timeout, abort_timeout,
}

abbrev pub hdr_connection : ℕ
hdr_connection = 0xcb

abbrev pub connid_of : GObexHeader → ℕ → ℕ
connid_of h old = elim (get_uint32 h) [ some id ↦ id | none ↦ old ]

abbrev pub timeout_of : ℤ → ℕ
timeout_of (pos n) = n
timeout_of (negsuc n) = default_timeout

module _ {A : Type 0} where
  -- struct connect_data: version 1.0, no flags, and the receive MTU.
  unfoldable pub connect_data : GObex A → Bytes
  connect_data o = 0x10 ∷ 0 ∷ put_be16 o.rx_mtu

  abbrev pub response : GObexPacket A → PendingPkt A
  response pkt = record {
    id = 0;
    owned = false;
    pkt = pkt;
    timeout = 0;
    timeout_id = false;
    rsp_func = none;
    cancelled = false;
  }

  -- The connection id goes in front, unless there is none yet, the request goes on with an
  -- operation, or the request has one.
  unfoldable pub with_connid : GObex A → GObexPacket A → GObexPacket A
  with_connid o req =
      if o.conn_id == connid_invalid
      then req
      else if o.rx_last_op == rsp_continue
      then req
      else elim (get_header req hdr_connection) [
        | some _ ↦ req
        | none ↦ elim (new_uint32 hdr_connection o.conn_id) [
          | some h ↦ prepend_header req h
          | none ↦ req
        ]
      ]

  -- g_queue_find_custom with pending_pkt_cmp, and g_queue_delete_link.
  unfoldable pub take_queued : ℕ → List (PendingPkt A) → Option (PendingPkt A × List (PendingPkt A))
  take_queued id [] = none
  take_queued id (p ∷ ps) =
      let rest = take_queued id ps in
      if p.id == id
      then some (p, ps)
      else elim rest [ none ↦ none | some (q, qs) ↦ some (q, p ∷ qs) ]

module _ {A U : Type 0} where
  abbrev pub with_obex : World A U → GObex A → World A U
  with_obex w o = record w { obex = o }

  -- g_obex_send_internal. An abort overtakes what is queued.
  unfoldable pub send_internal : World A U → PendingPkt A → World A U × Bool
  send_internal w p =
      let o = w.obex in
      let queue = if p.pkt.opcode == op_abort then p ∷ o.tx_queue else o.tx_queue ++ (p ∷ []) in
      let queued = record o { tx_queue = queue } in
      if not o.io then (w, false) else (
        with_obex w (if not (is_some o.pending_req) || p.id == 0 then enable_tx queued else queued),
        true,
      )

  unfoldable pub prepare_connect_rsp : World A U → GObexPacket A → World A U × GObexPacket A
  prepare_connect_rsp w rsp =
      let o = w.obex in
      let with_data = (set_data rsp (connect_data o) copy).0 in
      elim (get_header with_data hdr_connection) [
        | some h ↦ (with_obex w (record o { conn_id = connid_of h o.conn_id }), with_data)
        | none ↦
            let w' = record w {
              obex = record o { conn_id = w.next_connid };
              next_connid = (w.next_connid + 1) % 2 ^ 32;
            } in
            elim (new_uint32 hdr_connection w.next_connid) [
              | some h ↦ (w', prepend_header with_data h)
              | none ↦ (w', with_data)
            ]
      ]

  unfoldable pub send : World A U → GObexPacket A → World A U × Bool
  send w pkt =
      let (w', pkt') =
        if w.obex.rx_last_op == op_connect then prepare_connect_rsp w pkt else (w, pkt) in
      send_internal w' (response pkt')

  abbrev pub request : World A U → GObexPacket A → ℤ → Option A → PendingPkt A
  request w req timeout func = record {
    id = w.next_req_id;
    owned = false;
    pkt = with_connid w.obex req;
    timeout = timeout_of timeout;
    timeout_id = false;
    rsp_func = func;
    cancelled = false;
  }

  -- The id of the request, or 0.
  unfoldable pub send_req : World A U → GObexPacket A → ℤ → Option A → World A U × ℕ
  send_req w req timeout func =
      let p = request w req timeout func in
      let (w', sent) = send_internal (record w { next_req_id = (w.next_req_id + 1) % 2 ^ 32 }) p in
      (w', if sent then p.id else 0)

  -- g_obex_send_rsp with headers; `none` as in create_list.
  unfoldable pub send_rsp : Env A U → World A U → ℕ → List (ℕ × VaArg) → Option (World A U × Bool)
  send_rsp env w rspcode args = elim (new_packet env.glib rspcode true args) [
    | none ↦ none
    | some rsp ↦ some (send w rsp)
  ]

  -- `p` is the pending request. It stays pending, with a timer of its own.
  unfoldable pub pending_req_abort : World A U → PendingPkt A → World A U × Bool
  pending_req_abort w p =
      let p' = record p { cancelled = true; timeout = abort_timeout; timeout_id = true } in
      let o = w.obex in
      if p.cancelled
      then (w, true)
      else send (with_obex w (record o { pending_req = some p' })) (empty_packet op_abort true [] 0)

  -- The label immediate_completion: the request is gone, and its callback, if it is to be called,
  -- waits for the idle loop.
  unfoldable pub complete_now : World A U → PendingPkt A → Bool → World A U
  complete_now w p remove_callback =
      if remove_callback || not (is_some p.rsp_func)
      then w
      else record w { idle = w.idle ++ (record p { cancelled = true; owned = true } ∷ []) }

  unfoldable pub cancel_queued : World A U → ℕ → Bool → World A U × Bool
  cancel_queued w req_id remove_callback = elim (take_queued req_id w.obex.tx_queue) [
    | none ↦ (w, false)
    | some (p, ps) ↦
        let o = w.obex in
        (complete_now (with_obex w (record o { tx_queue = ps })) p remove_callback, true)
  ]

  unfoldable pub cancel_pending : World A U → PendingPkt A → Bool → World A U × Bool
  cancel_pending w p remove_callback =
      let (w', sent) = pending_req_abort w p in
      let o = w'.obex in
      let p' = record p { cancelled = true; timeout = abort_timeout; timeout_id = true } in
      if sent
      then (w', true)
      else (complete_now (with_obex w' (record o { pending_req = none })) p' remove_callback, true)

  unfoldable pub cancel_req : World A U → ℕ → Bool → World A U × Bool
  cancel_req w req_id remove_callback = elim w.obex.pending_req [
    | none ↦ cancel_queued w req_id remove_callback
    | some p ↦
        if p.id == req_id
        then cancel_pending w p remove_callback
        else cancel_queued w req_id remove_callback
  ]

  -- The idle callback cancel_complete, for the first request that waits.
  unfoldable pub cancel_complete : Env A U → World A U → World A U
  cancel_complete env w = elim w.idle [
    | [] ↦ w
    | p ∷ rest ↦
        let w' = record w { idle = rest } in
        elim p.rsp_func [ none ↦ w' | some f ↦ env.on_response f (some cancelled) none w' ]
  ]
