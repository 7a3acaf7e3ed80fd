-- ===== src/Gobex/Obex/Queue.antt =====
-- The transmit queue: the pending request, and what g_obex_send_req puts into the queue.
use map_client.Base.{
  ℕ, ◌≡◌, ◌≢◌, refl, ap, ◌∙◌, inl, inr, Bool, false, Option, some, none, List, [], ◌∷◌, arith,
}
use map_client.Base.Endian.{Bytes}
use map_client.Gobex.Header.{GObexHeader, u32, get_uint32, new_uint32, hdr_enc}
use map_client.Gobex.Packet.{GObexPacket, get_header, find_header, prepend_header, rsp_continue}
use map_client.Gobex.Packet.Codec.{Encoding, encoded, fails, assertion_failed, encode}
use map_client.Gobex.Packet.Encode.{encode-state}
use map_client.Gobex.Obex.{
  PendingPkt, GObex, World, Env, GObexTransportType, stream, packet, suspend, connid_invalid,
}
use map_client.Gobex.Obex.Send.{with_obex, with_connid, hdr_connection}
use map_client.Gobex.Obex.Write.{
  Condition, remaining, written_by, write, stop_tx, done, transmit, write_data, next_packet,
  load_packet, after_encode, loaded, dequeued, push_head,
}

-- Once the session has a connection id, a request that does not continue an operation carries a
-- connection header: its own, or else one with that id in front of its headers.
pub with_connid_has :
    {A : Type 0} (o : GObex A) (req : GObexPacket A)
    → o.conn_id ≢ connid_invalid
    → o.rx_last_op ≢ rsp_continue
    → (get_header req hdr_connection ≡ none
        → (h : GObexHeader) × (get_header (with_connid o req) hdr_connection ≡ some h)
          × (get_uint32 h ≡ some o.conn_id))
      × ((h : GObexHeader) → get_header req hdr_connection ≡ some h → with_connid o req ≡ req)
unfolding with_connid
with_connid_has o req valid first = (
  λ e. (
    record { id = hdr_connection; extdata = false; vlen = 4; hlen = 5; v = u32 o.conn_id },
    unfold get_header find_header prepend_header new_uint32 hdr_enc in ground arith,
    unfold get_uint32 hdr_enc in refl,
  ),
  λ h e. ground arith,
)

abbrev pub pending_of : {A U : Type 0} → World A U → Option (PendingPkt A)
pending_of w = w.obex.pending_req

module _ {A U : Type 0} (env : Env A U) where
  written_by-pending :
      (t : GObexTransportType) (w : World A U) (d : Bytes) (r : Option ℕ) (u : U)
      → pending_of (written_by t w d (r, u)).0 ≡ pending_of w
  written_by-pending stream w d none u = refl
  written_by-pending stream w d (some n) u = refl
  written_by-pending packet w d none u = refl
  written_by-pending packet w d (some n) u = ground arith

  write-pending : (w : World A U) → pending_of (write env w).0 ≡ pending_of w
  unfolding write
  write-pending w =
      let r : Option ℕ × U = env.write_chars (remaining w.obex) w.user in
      written_by-pending w.obex.transport w (remaining w.obex) r.0 r.1

  done-pending : (w : World A U) → pending_of (done w).0 ≡ pending_of w
  unfolding done stop_tx
  done-pending w = ground arith

  transmit-pending : (w : World A U) → pending_of (transmit env w).0 ≡ pending_of w
  unfolding transmit stop_tx
  transmit-pending w = ground (arith, write-pending w, done-pending (write env w).0)

  -- The pending request is `p`, in whatever state the round left the session.
  abbrev pub KeepsPending : PendingPkt A → Option (World A U × Bool) → Type 0
  KeepsPending p none = Unit {0}
  KeepsPending p (some (w, keep)) = pending_of w ≡ some p

  -- A body producer leaves the pending request alone.
  abbrev pub LeavesPending : Type 0
  LeavesPending = (f : A) (n : ℕ) (w : World A U) → pending_of (env.produce f n w).1 ≡ pending_of w

  after_encode-KeepsPending :
      (p q : PendingPkt A) (r : Encoding) (v : World A U)
      → pending_of v ≡ some p
      → q.id ≡ 0
      → KeepsPending p (after_encode env q (r, v))
  unfolding push_head suspend stop_tx
  after_encode-KeepsPending p q assertion_failed v h z = tt
  after_encode-KeepsPending p q (fails e) v h z = ground (arith, done-pending v)
  after_encode-KeepsPending p q (encoded bs n) v h z =
      transmit-pending (with_obex v (loaded v.obex q bs n)) ∙ ground arith

  load_packet-KeepsPending :
      (p q : PendingPkt A) (w : World A U) (rest : List (PendingPkt A))
      → LeavesPending
      → pending_of w ≡ some p
      → q.id ≡ 0
      → KeepsPending p (load_packet env w q rest)
  unfolding load_packet
  load_packet-KeepsPending p q w rest leaves h z =
      let v = with_obex w (dequeued w.obex rest) in
      let r = encode env.glib env.produce q.pkt w.obex.tx_mtu v in
      after_encode-KeepsPending p q r.0 r.1
        (elim (encode-state env.glib env.produce q.pkt w.obex.tx_mtu v) [
          | inl same ↦ ap (λ s. pending_of s) same ∙ h
          | inr (f, n, made) ↦ ap (λ s. pending_of s) made ∙ leaves f n v ∙ h
        ])
        z

  next_packet-KeepsPending :
      (p : PendingPkt A) (w : World A U) (queue : List (PendingPkt A))
      → w.obex.tx_queue ≡ queue
      → LeavesPending
      → pending_of w ≡ some p
      → KeepsPending p (next_packet env w)
  unfolding next_packet stop_tx
  next_packet-KeepsPending p w [] e leaves h = rw (e, next_packet) h
  next_packet-KeepsPending p w (q ∷ rest) e leaves h =
      ground (arith, load_packet-KeepsPending p q w rest leaves h)

  -- While a request waits for its response, no other takes its place: a round of the write watch,
  -- whatever its conditions, leaves the pending request as it is, if a body producer does.
  pub write_data-KeepsPending :
      (cond : Condition) (p : PendingPkt A) (w : World A U)
      → LeavesPending
      → pending_of w ≡ some p
      → KeepsPending p (write_data env cond w)
  unfolding write_data stop_tx
  write_data-KeepsPending cond p w leaves h =
      ground (arith, next_packet-KeepsPending p w w.obex.tx_queue refl leaves h, transmit-pending w)
