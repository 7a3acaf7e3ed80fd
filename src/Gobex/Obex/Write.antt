-- ===== src/Gobex/Obex/Write.antt =====
-- gobex/gobex.c: the write side, write_data and the two transports' write functions.
use map_client.Base.{
  ℕ, ◌+◌, ◌-◌, Bool, true, false, Option, some, none, List, [], ◌∷◌, ◌++◌, take, drop, ltb, ◌==◌,
  ◌||◌, ◌&&◌, not, if◌then◌else◌,
}
use map_client.Base.Endian.{Bytes}
use map_client.Gobex.Defs.{eagain, timeout}
use map_client.Gobex.Packet.Codec.{Encoding, encoded, fails, assertion_failed, encode}
use map_client.Gobex.Obex.{
  PendingPkt, GObex, World, Env, GObexTransportType, stream, packet, is_some, is_empty, suspend,
  op_none,
}
use map_client.Gobex.Obex.Send.{with_obex}

-- The conditions of a watch, as far as they are tested.
pub record Condition : Type 0 where
  pub nval : Bool
  pub hup_or_err : Bool

module _ {A : Type 0} where
  -- The bytes that remain of the packet.
  abbrev pub remaining : GObex A → Bytes
  remaining o = take o.tx_data (drop o.tx_sent o.tx_buf)

  abbrev pub dequeued : GObex A → List (PendingPkt A) → GObex A
  dequeued o q = record o { tx_queue = q }

  -- A request becomes the pending one, and its timer starts; anything else is freed.
  abbrev pub loaded : GObex A → PendingPkt A → Bytes → ℕ → GObex A
  loaded o p bs n = record o {
    pending_req = (if ltb 0 p.id then some (record p { timeout_id = true }) else o.pending_req);
    tx_buf = bs;
    tx_data = n;
    tx_sent = 0;
  }

module _ {A U : Type 0} where
  -- `d` is what the channel was handed; it took the first `n` bytes of it.
  abbrev pub advance : World A U → Bytes → U → ℕ → World A U
  advance w d u n =
      let o = w.obex in
      record w {
        obex = record o { tx_sent = o.tx_sent + n; tx_data = o.tx_data - n };
        wire = w.wire ++ take n d;
        user = u;
      }

  -- A channel that took some bytes of a packet that must go out whole has still taken them.
  abbrev pub written_by : GObexTransportType → World A U → Bytes → Option ℕ × U → World A U × Bool
  written_by t w d (none, u) = (record w { user = u }, false)
  written_by stream w d (some n, u) = (advance w d u n, true)
  written_by packet w d (some n, u) =
      if n == w.obex.tx_data
      then (advance w d u n, true)
      else (record w { user = u; wire = w.wire ++ take n d }, false)

  -- The label stop_tx; the result is whether the watch stays.
  unfoldable pub stop_tx : World A U → World A U × Bool
  stop_tx w =
      let o = w.obex in
      (with_obex w (record o { rx_last_op = op_none; tx_data = 0; write_source = false }), false)

  -- The label done.
  unfoldable pub done : World A U → World A U × Bool
  done w = if ltb 0 w.obex.tx_data || not (is_empty w.obex.tx_queue) then (w, true) else stop_tx w

  unfoldable pub push_head : World A U → PendingPkt A → World A U
  push_head w p = let o = w.obex in with_obex w (record o { tx_queue = p ∷ o.tx_queue })

module _ {A U : Type 0} (env : Env A U) where
  -- obex->write: write_stream or write_packet.
  unfoldable pub write : World A U → World A U × Bool
  write w = let d = remaining w.obex in written_by w.obex.transport w d (env.write_chars d w.user)

  -- What follows the choice of a packet.
  unfoldable pub transmit : World A U → World A U × Bool
  transmit w =
      let o = w.obex in
      let (w', sent) = write w in
      if o.suspended
      then (with_obex w (record o { write_source = false }), false)
      else if sent
      then done w'
      else stop_tx w'

  -- What is done with an encoding: on EAGAIN the packet goes back and the session is suspended; on
  -- another error it is dropped. `none` is a failed assertion.
  abbrev pub after_encode : PendingPkt A → Encoding × World A U → Option (World A U × Bool)
  after_encode p (assertion_failed, v) = none
  after_encode p (fails e, v) =
      if e == eagain
      then some (stop_tx (let u = push_head v p in with_obex u (suspend u.obex)))
      else some (done v)
  after_encode p (encoded bs n, v) = some (transmit (with_obex v (loaded v.obex p bs n)))

  -- `p` is the head of the queue and `q` what is behind it. The encoder's producer may change the
  -- session.
  unfoldable pub load_packet :
      World A U → PendingPkt A → List (PendingPkt A) → Option (World A U × Bool)
  load_packet w p q =
      after_encode p
        (encode env.glib env.produce p.pkt w.obex.tx_mtu (with_obex w (dequeued w.obex q)))

  unfoldable pub next_packet : World A U → Option (World A U × Bool)
  next_packet w = elim w.obex.tx_queue [
    | [] ↦ some (stop_tx w)
    | p ∷ q ↦
        if is_some w.obex.pending_req && ltb 0 p.id then some (stop_tx w) else load_packet w p q
  ]

  unfoldable pub write_data : Condition → World A U → Option (World A U × Bool)
  write_data cond w =
      if cond.nval
      then some (w, false)
      else if cond.hup_or_err
      then some (stop_tx w)
      else if w.obex.tx_data == 0
      then next_packet w
      else some (transmit w)

  -- The timer of the pending request; `none` is the failed assertion that there is one.
  unfoldable pub req_timeout : World A U → Option (World A U)
  req_timeout w = elim w.obex.pending_req [
    | none ↦ none
    | some p ↦
        let o = w.obex in
        let w' = with_obex w (record o { pending_req = none }) in
        elim p.rsp_func [
          | none ↦ some w'
          | some f ↦ some (env.on_response f (some timeout) none w')
        ]
  ]
