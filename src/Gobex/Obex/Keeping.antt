-- ===== src/Gobex/Obex/Keeping.antt =====
-- The receive side of the session across the write watch (write_data), the timer and the idle loop.
use map_client.Base.{
  ℕ, ◌≡◌, refl, sym, subst, inl, inr, Bool, true, false, Option, some, none, List, [], ◌∷◌, arith,
  Option-cases,
}
use map_client.Base.Endian.{Bytes}
use map_client.Gobex.Defs.{GObexError, timeout, cancelled}
use map_client.Gobex.Packet.{GObexPacket}
use map_client.Gobex.Packet.Codec.{Encoding, encoded, fails, assertion_failed, encode}
use map_client.Gobex.Packet.Encode.{encode-state}
use map_client.Gobex.Obex.{PendingPkt, World, Env, GObexTransportType, stream, packet, suspend}
use map_client.Gobex.Obex.Send.{with_obex, cancel_complete}
use map_client.Gobex.Obex.Write.{
  Condition, remaining, dequeued, loaded, advance, written_by, stop_tx, done, push_head, write,
  transmit, after_encode, load_packet, next_packet, write_data, req_timeout,
}
use map_client.Gobex.Obex.Buffer.{IsWithin}
use map_client.Gobex.Obex.Calls.{IsWithin-SameRx}

-- The callbacks, the handlers and the producers keep the receive side within bounds.
pub record IsKeeping {A U : Type 0} (env : Env A U) : Type 0 where
  pub responding :
      (f : A) (e : Option GObexError) (rsp : Option (GObexPacket A)) (w : World A U)
      → IsWithin w.obex
      → IsWithin (env.on_response f e rsp w).obex
  pub requesting :
      (f : A) (req : GObexPacket A) (w : World A U)
      → IsWithin w.obex
      → IsWithin (env.on_request f req w).obex
  pub disconnecting :
      (f : A) (e : Option GObexError) (w : World A U)
      → IsWithin w.obex
      → IsWithin (env.on_disconnect f e w).obex
  pub producing :
      (f : A) (n : ℕ) (w : World A U) → IsWithin w.obex → IsWithin (env.produce f n w).1.obex

abbrev pub Within : {A U : Type 0} → World A U → Type 0
Within w = IsWithin w.obex

-- The outcomes of a watch.
abbrev pub WithinAfter : {A U : Type 0} → Option (World A U × Bool) → Type 0
WithinAfter none = Unit {0}
WithinAfter (some (w, keep)) = IsWithin w.obex

abbrev pub WithinSome : {A U : Type 0} → Option (World A U) → Type 0
WithinSome none = Unit {0}
WithinSome (some w) = IsWithin w.obex

module _ {A U : Type 0} (env : Env A U) where
  written_by-Within :
      (t : GObexTransportType) (w : World A U) (d : Bytes) (r : Option ℕ) (u : U)
      → Within w
      → Within (written_by t w d (r, u)).0
  written_by-Within stream w d none u h = h
  written_by-Within stream w d (some n) u h =
      IsWithin-SameRx w.obex (advance w d u n).obex (refl, refl, refl, refl) h
  written_by-Within packet w d none u h = h
  written_by-Within packet w d (some n) u h =
      IsWithin-SameRx w.obex (written_by packet w d (some n, u)).0.obex
        (ground arith, ground arith, ground arith, ground arith) h

  write-Within : (w : World A U) → Within w → Within (write env w).0
  unfolding write
  write-Within w h =
      let r : Option ℕ × U = env.write_chars (remaining w.obex) w.user in
      written_by-Within w.obex.transport w (remaining w.obex) r.0 r.1 h

  stop_tx-Within : (w : World A U) → Within w → Within (stop_tx w).0
  unfolding stop_tx
  stop_tx-Within w h = IsWithin-SameRx w.obex (stop_tx w).0.obex (refl, refl, refl, refl) h

  done-Within : (w : World A U) → Within w → Within (done w).0
  unfolding done
  done-Within w h = ground (arith, h, stop_tx-Within w h)

  transmit-Within : (w : World A U) → Within w → Within (transmit env w).0
  unfolding transmit
  transmit-Within w h =
      let o = w.obex in
      let quiet =
        IsWithin-SameRx o (record o { write_source = false }) (refl, refl, refl, refl) h in
      let sent = write-Within w h in
      let finished = done-Within (write env w).0 sent in
      let stopped = stop_tx-Within (write env w).0 sent in ground arith

  after_encode-Within :
      (q : PendingPkt A) (r : Encoding) (v : World A U)
      → Within v
      → WithinAfter (after_encode env q (r, v))
  unfolding push_head suspend stop_tx
  after_encode-Within q assertion_failed v h = tt
  after_encode-Within q (fails e) v h =
      let o = v.obex in
      let back =
        IsWithin-SameRx o
          (record o {
            tx_queue = q ∷ o.tx_queue;
            write_source = false;
            suspended = true;
            rx_last_op = 0xff;
            tx_data = 0;
          })
          (refl, refl, refl, refl) h in
      ground (arith, done-Within v h)
  after_encode-Within q (encoded bs n) v h =
      transmit-Within (with_obex v (loaded v.obex q bs n))
        (IsWithin-SameRx v.obex (loaded v.obex q bs n) (refl, refl, refl, refl) h)

  load_packet-Within :
      (w : World A U) (q : PendingPkt A) (rest : List (PendingPkt A))
      → IsKeeping env
      → Within w
      → WithinAfter (load_packet env w q rest)
  unfolding load_packet
  load_packet-Within w q rest keeps h =
      let v = with_obex w (dequeued w.obex rest) in
      let hv : Within v = IsWithin-SameRx w.obex v.obex (refl, refl, refl, refl) h in
      let r = encode env.glib env.produce q.pkt w.obex.tx_mtu v in
      after_encode-Within q r.0 r.1
        (elim (encode-state env.glib env.produce q.pkt w.obex.tx_mtu v) [
          | inl same ↦ subst (λ s. Within s) (sym same) hv
          | inr (f, n, made) ↦ subst (λ s. Within s) (sym made) (keeps.producing f n v hv)
        ])

  next_packet-Within :
      (w : World A U) (queue : List (PendingPkt A))
      → w.obex.tx_queue ≡ queue
      → IsKeeping env
      → Within w
      → WithinAfter (next_packet env w)
  unfolding next_packet
  next_packet-Within w [] e keeps h = ground (arith, stop_tx-Within w h)
  next_packet-Within w (q ∷ rest) e keeps h =
      ground (arith, stop_tx-Within w h, load_packet-Within w q rest keeps h)

  pub write_data-Within :
      (cond : Condition) (w : World A U)
      → IsKeeping env
      → Within w
      → WithinAfter (write_data env cond w)
  unfolding write_data
  write_data-Within cond w keeps h = ground (
    arith,
    h,
    stop_tx-Within w h,
    next_packet-Within w w.obex.tx_queue refl keeps h,
    transmit-Within w h,
  )

  pub req_timeout-Within :
      (w : World A U) → IsKeeping env → Within w → WithinSome (req_timeout env w)
  unfolding req_timeout
  req_timeout-Within w keeps h = elim (Option-cases w.obex.pending_req) [
    | inl idle ↦ ground arith
    | inr (p, waits) ↦
        let o = w.obex in
        let w' = with_obex w (record o { pending_req = none }) in
        let h' : Within w' = IsWithin-SameRx o w'.obex (refl, refl, refl, refl) h in
        elim (Option-cases p.rsp_func) [
          | inl quiet ↦ ground (arith, h')
          | inr (f, told) ↦
              let r = keeps.responding f (some timeout) none w' h' in ground (arith, r)
        ]
  ]

  completes-Within :
      (w : World A U) (l : List (PendingPkt A))
      → w.idle ≡ l
      → IsKeeping env
      → Within w
      → Within (cancel_complete env w)
  unfolding cancel_complete
  completes-Within w [] e keeps h = ground (arith, h)
  completes-Within w (p ∷ rest) e keeps h =
      let w' = record w { idle = rest } in
      elim (Option-cases p.rsp_func) [
        | inl quiet ↦ ground (arith, h)
        | inr (f, told) ↦ let r = keeps.responding f (some cancelled) none w' h in ground (arith, r)
      ]

  pub cancel_complete-Within :
      (w : World A U) → IsKeeping env → Within w → Within (cancel_complete env w)
  cancel_complete-Within w = completes-Within w w.idle refl
