-- ===== src/Gobex/Transfer/Client.antt =====
-- gobex/gobex-transfer.c: the requests for a transfer, and the responses to them.
use map_client.Base.{
  ℕ, Bool, true, false, Option, some, none, List, [], take, ◌==◌, ◌||◌, if◌then◌else◌,
}
use map_client.Base.Int.{ℤ, negsuc}
use map_client.Base.Endian.{Bytes}
use map_client.Gobex.Defs.{GObexError, cancelled, proto, eagain}
use map_client.Gobex.Header.{VaArg, get_bytes}
use map_client.Gobex.Packet.{
  GObexPacket, empty_packet, new_packet, add_body, get_body_header, op_put, op_get, op_abort,
  rsp_success, rsp_continue,
}
use map_client.Gobex.Packet.Codec.{Produced, bytes, errno}
use map_client.Gobex.Obex.Send.{send_req}
use map_client.Gobex.Transfer.{
  Func, response_of, abort_response_of, put_data_of, Transfer, State, Users, first_packet_timeout,
  found, assign, fault, send_error, transfer_free, transfer_new, transfer_complete, complete_on,
}

module _ {A : Type 0} where
  abbrev pub abort_pkt : GObexPacket (Func A)
  abort_pkt = empty_packet op_abort true [] 0

  -- The next request of a transfer that goes on.
  abbrev pub next_pkt : Transfer A → GObexPacket (Func A)
  next_pkt t =
      if t.opcode == op_put
      then (add_body (empty_packet t.opcode false [] 0) (put_data_of t.id)).0
      else empty_packet t.opcode true [] 0

module _ {A V : Type 0} where
  -- A request of the transfer is sent, and its id noted.
  unfoldable pub send_for : State A V → Transfer A → GObexPacket (Func A) → ℤ → Func A → State A V
  send_for w t req timeout func =
      let (w', req_id) = send_req w req timeout (some func) in
      assign w' (record t { req_id = req_id })

  -- The first request; without a channel the transfer is gone again, and the id is 0.
  unfoldable pub start : State A V → Transfer A → GObexPacket (Func A) → State A V × ℕ
  start w t req =
      let (w', req_id) = send_req w req first_packet_timeout (some (response_of t.id)) in
      let sent = record t { req_id = req_id } in
      if req_id == 0 then (transfer_free (assign w' sent) sent, 0) else (assign w' sent, t.id)

module _ {A V : Type 0} (env : Users A V) where
  -- The producer of a PUT's body. A failure of the user's producer sends an ABORT.
  abbrev pub after_produce : ℕ → Produced × State A V → Produced × State A V
  after_produce id (bytes d, w) = (bytes d, w)
  after_produce id (errno e, w) =
      let aborted : State A V = elim (found w id) [
        | none ↦ fault w
        | some t ↦
            complete_on env (send_error w) id
              (send_for w t abort_pkt (negsuc 0) (abort_response_of id))
      ] in
      if e == eagain then (errno e, w) else (errno e, aborted)

  abbrev pub call_producer : Option A → ℕ → State A V → Produced × State A V
  call_producer none len w = (bytes [], fault w)
  call_producer (some f) len w = env.data_producer f len w

  unfoldable pub put_get_data : ℕ → ℕ → State A V → Produced × State A V
  put_get_data id len w = elim (found w id) [
    | none ↦ (bytes [], fault w)
    | some t ↦ after_produce id (call_producer t.data_producer len w)
  ]

  abbrev pub call_consumer : Option A → Bytes → State A V → Bool × State A V
  call_consumer none d w = (true, fault w)
  call_consumer (some f) d w = env.data_consumer f d w

  -- The body of a packet, as many bytes as its length says, goes to the consumer, unless there is none
  -- or it is empty.
  unfoldable pub consume_body : Transfer A → GObexPacket (Func A) → State A V → Bool × State A V
  consume_body t pkt w = elim (get_body_header pkt) [
    | none ↦ (true, w)
    | some h ↦ elim (get_bytes h) [
      | none ↦ (true, w)
      | some (buf, len) ↦
          if len == 0 then (true, w) else call_consumer t.data_consumer (take len buf) w
    ]
  ]

  -- From the test of the response code on, with the consumer's answer. The transfer is looked up again,
  -- since the consumer may have changed it.
  abbrev pub after_body : ℕ → ℕ → Bool × State A V → State A V
  after_body id rspcode (false, w) = transfer_complete env w id (some cancelled)
  after_body id rspcode (true, w) = elim (found w id) [
    | none ↦ fault w
    | some t ↦
        if rspcode == rsp_success
        then transfer_complete env w id none
        else complete_on env (send_error w) id
            (send_for w t (next_pkt t) (negsuc 0) (response_of id))
  ]

  -- A response without an error and without a packet does not occur: the session gives one of them.
  unfoldable pub transfer_response :
      State A V → ℕ → Option GObexError → Option (GObexPacket (Func A)) → State A V
  transfer_response w id err rsp = elim (found w id) [
    | none ↦ fault w
    | some t ↦
        let t' = record t { req_id = 0 } in
        let w' = assign w t' in
        elim err [
          | some e ↦ transfer_complete env w' id (some e)
          | none ↦ elim rsp [
            | none ↦ fault w'
            | some pkt ↦
                let body : Bool × State A V =
                  if t.opcode == op_get then consume_body t' pkt w' else (true, w') in
                if pkt.opcode == rsp_success || pkt.opcode == rsp_continue
                then after_body id pkt.opcode body
                else transfer_complete env w' id (some (proto pkt.opcode))
          ]
        ]
  ]

  unfoldable pub put_req_pkt : State A V → GObexPacket (Func A) → A → A → State A V × ℕ
  put_req_pkt w req data_func complete_func =
      let (w', t) = transfer_new w op_put (some data_func) none complete_func in
      if req.opcode == op_put then start w' t (add_body req (put_data_of t.id)).0 else (w, 0)

  -- With headers; `none` is a null dereference, as in create_list.
  unfoldable pub put_req : State A V → A → A → List (ℕ × VaArg) → Option (State A V × ℕ)
  put_req w data_func complete_func args =
      let (w', t) = transfer_new w op_put (some data_func) none complete_func in
      elim (new_packet env.glib op_put false args) [
        | none ↦ none
        | some req ↦ some (start w' t (add_body req (put_data_of t.id)).0)
      ]

  unfoldable pub get_req_pkt : State A V → GObexPacket (Func A) → A → A → State A V × ℕ
  get_req_pkt w req data_func complete_func =
      let (w', t) = transfer_new w op_get none (some data_func) complete_func in
      if req.opcode == op_get then start w' t req else (w, 0)

  unfoldable pub get_req : State A V → A → A → List (ℕ × VaArg) → Option (State A V × ℕ)
  get_req w data_func complete_func args =
      let (w', t) = transfer_new w op_get none (some data_func) complete_func in
      elim (new_packet env.glib op_get true args) [ none ↦ none | some req ↦ some (start w' t req) ]
