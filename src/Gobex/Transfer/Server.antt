-- ===== src/Gobex/Transfer/Server.antt =====
-- gobex/gobex-transfer.c: the responses of a transfer that the peer requests.
use map_client.Base.{ℕ, Bool, true, false, Option, some, none, List, [], ◌∷◌, ◌==◌, if◌then◌else◌}
use map_client.Gobex.Defs.{cancelled, eagain}
use map_client.Gobex.Header.{VaArg}
use map_client.Gobex.Packet.{
  GObexPacket, empty_packet, new_packet, add_body, op_put, op_get, op_abort, rsp_success,
  rsp_continue,
}
use map_client.Gobex.Packet.Codec.{Produced, bytes, errno}
use map_client.Gobex.Obex.{add_request_function}
use map_client.Gobex.Obex.Send.{send}
use map_client.Gobex.Transfer.{
  Func, put_req_of, get_req_of, abort_req_of, get_data_of, Transfer, State, Users, found, assign,
  fault, send_error, transfer_new, transfer_complete, complete_on,
}
use map_client.Gobex.Transfer.Client.{consume_body, call_producer}

abbrev pub rsp_forbidden : ℕ
rsp_forbidden = 0x43

abbrev pub rsp_internal_server_error : ℕ
rsp_internal_server_error = 0x50

module _ {A : Type 0} where
  abbrev pub plain_rsp : ℕ → GObexPacket (Func A)
  plain_rsp code = empty_packet code true [] 0

module _ {A V : Type 0} where
  -- The ids of the handlers that are registered last.
  abbrev pub register : State A V → ℕ → Func A → (ℕ → Transfer A → Transfer A) → ℕ → State A V
  register w opcode func note id =
      let (w', handler) = add_request_function w opcode func in
      elim (found w' id) [ none ↦ fault w' | some t ↦ assign w' (note handler t) ]

module _ {A V : Type 0} (env : Users A V) where
  unfoldable pub transfer_abort_req : State A V → ℕ → State A V
  transfer_abort_req w id =
      transfer_complete env (send w (plain_rsp rsp_success)).0 id (some cancelled)

  -- What follows from the consumer's answer.
  abbrev pub put_code : GObexPacket (Func A) → Bool → ℕ
  put_code req false = rsp_forbidden
  put_code req true = if req.final then rsp_success else rsp_continue

  unfoldable pub put_get_bytes : Transfer A → GObexPacket (Func A) → State A V → State A V × ℕ
  put_get_bytes t req w = let (taken, w') = consume_body env t req w in (w', put_code req taken)

  -- The response to a part of the object, and the end of the transfer.
  abbrev pub put_respond : State A V → ℕ → ℕ → GObexPacket (Func A) → State A V
  put_respond w id rspcode rsp =
      let sent = complete_on env (send_error w) id (send w rsp).0 in
      if rspcode == rsp_continue then sent else transfer_complete env sent id none

  -- The code of the response, of which the handler's caller makes the packet.
  unfoldable pub transfer_put_req_first :
      State A V → ℕ → GObexPacket (Func A) → List (ℕ × VaArg) → Option (State A V)
  transfer_put_req_first w id req args = elim (found w id) [
    | none ↦ some (fault w)
    | some t ↦
        let (w', rspcode) = put_get_bytes t req w in
        elim (new_packet env.glib rspcode true args) [
          | none ↦ none
          | some rsp ↦ some (put_respond w' id rspcode rsp)
        ]
  ]

  unfoldable pub transfer_put_req : State A V → ℕ → GObexPacket (Func A) → State A V
  transfer_put_req w id req = elim (found w id) [
    | none ↦ fault w
    | some t ↦
        let (w', rspcode) = put_get_bytes t req w in put_respond w' id rspcode (plain_rsp rspcode)
  ]

  -- The handlers of a transfer that is still there; the id is 0 otherwise.
  abbrev pub serve : ℕ → Func A → (ℕ → Transfer A → Transfer A) → ℕ → State A V → State A V × ℕ
  serve opcode func note id w = elim (found w id) [
    | none ↦ (w, 0)
    | some _ ↦
        let w' = register w opcode func note id in
        (
          register w' op_abort (abort_req_of id) (λ handler t. record t { abort_id = handler }) id,
          id,
        )
  ]

  unfoldable pub put_rsp :
      State A V → GObexPacket (Func A) → A → A → List (ℕ × VaArg) → Option (State A V × ℕ)
  put_rsp w req data_func complete_func args =
      let (w', t) = transfer_new w op_put none (some data_func) complete_func in
      elim (transfer_put_req_first w' t.id req args) [
        | none ↦ none
        | some w'' ↦
            some
              (serve op_put (put_req_of t.id) (λ handler t. record t { put_id = handler }) t.id w'')
      ]

  -- The producer of a GET's body. The end of the data, and a failure, end the transfer.
  abbrev pub after_get_data : ℕ → Produced × State A V → Produced × State A V
  after_get_data id (bytes [], w) = (bytes [], transfer_complete env w id none)
  after_get_data id (bytes (b ∷ bs), w) = (bytes (b ∷ bs), w)
  after_get_data id (errno e, w) = if e == eagain then (errno e, w) else (
    errno e,
    transfer_complete env (send w (plain_rsp rsp_internal_server_error)).0 id (some cancelled),
  )

  unfoldable pub get_get_data : ℕ → ℕ → State A V → Produced × State A V
  get_get_data id len w = elim (found w id) [
    | none ↦ (bytes [], fault w)
    | some t ↦ after_get_data id (call_producer env t.data_producer len w)
  ]

  abbrev pub get_respond : State A V → ℕ → GObexPacket (Func A) → State A V
  get_respond w id rsp =
      complete_on env (send_error w) id (send w (add_body rsp (get_data_of id)).0).0

  unfoldable pub transfer_get_req_first : State A V → ℕ → List (ℕ × VaArg) → Option (State A V)
  transfer_get_req_first w id args = elim (new_packet env.glib rsp_continue true args) [
    | none ↦ none
    | some rsp ↦ some (get_respond w id rsp)
  ]

  unfoldable pub transfer_get_req : State A V → ℕ → State A V
  transfer_get_req w id = get_respond w id (plain_rsp rsp_continue)

  unfoldable pub get_rsp : State A V → A → A → List (ℕ × VaArg) → Option (State A V × ℕ)
  get_rsp w data_func complete_func args =
      let (w', t) = transfer_new w op_get (some data_func) none complete_func in
      elim (transfer_get_req_first w' t.id args) [
        | none ↦ none
        | some w'' ↦
            some
              (serve op_get (get_req_of t.id) (λ handler t. record t { get_id = handler }) t.id w'')
      ]
