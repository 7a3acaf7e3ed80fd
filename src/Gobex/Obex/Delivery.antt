-- ===== src/Gobex/Obex/Delivery.antt =====
-- The way of a whole packet from the channel to the callback that waits for it.
use map_client.Base.{
  ℕ, ◌+◌, ◌≡◌, ◌≢◌, refl, ap, ◌∙◌, true, false, if◌then◌else◌, some, none, [], ◌∷◌, ◌++◌, arith,
  length, drop, take-append,
}
use map_client.Base.Endian.{Bytes, get_be16}
use map_client.Gobex.Defs.{cancelled, ref, ok}
use map_client.Gobex.Packet.{GObexPacket, op_connect}
use map_client.Gobex.Packet.Codec.{decode}
use map_client.Gobex.Packet.Decode.{decode-Decoded}
use map_client.Gobex.Obex.{PendingPkt, World, Env, packet}
use map_client.Gobex.Obex.Send.{with_obex}
use map_client.Gobex.Obex.Write.{Condition}
use map_client.Gobex.Obex.Receive.{put_at, received, read_packet, read_as, read}
use map_client.Gobex.Obex.Incoming.{
  parse_connect_data, answer, finish_response, rsp_header_offset, handle_response, handle_offset,
  whole_packet, incoming_data, last_op, rx_done,
}
use map_client.Gobex.Obex.Responses.{CallbacksLeave, handle_response-pending}

put_at_front : (k : ℕ) (d buf : Bytes) → k ≡ 0 → put_at k d buf ≡ d ++ drop (length d) buf
unfolding put_at
put_at_front k d buf e =
    let none_before : 0 + length d ≡ length d = omega arith in rw (e, none_before)

module _ {A U : Type 0} where
  -- The session with the whole packet in its buffer.
  abbrev pub arrived : World A U → Bytes → U → GObexPacket A → World A U
  arrived w d u pkt =
      let o = w.obex in
      record w {
        obex = record o {
          rx_buf = d ++ drop (length d) o.rx_buf;
          rx_data = length d;
          rx_pkt_len = length d;
          rx_last_op = pkt.opcode;
        };
        user = u;
      }

  -- The world that the callback finds.
  abbrev pub IsTold : World A U → Bytes → U → PendingPkt A → GObexPacket A → World A U → Type 0
  IsTold w d u p pkt v =
      (p.pkt.opcode ≢ op_connect → v ≡ arrived w d u pkt)
      × (p.pkt.opcode ≡ op_connect
          → v ≡ with_obex (arrived w d u pkt) (parse_connect_data (arrived w d u pkt).obex pkt))

module _ {A U : Type 0} (env : Env A U) where
  -- The session with a whole packet of `n` bytes in its buffer.
  abbrev filled : World A U → Bytes → ℕ → U → World A U
  filled w d n u =
      let o = w.obex in
      record w {
        obex = record o {
          rx_buf = d ++ drop (length d) o.rx_buf;
          rx_data = length d;
          rx_pkt_len = n;
        };
        user = u;
      }

  -- What read_packet has in hand when it compares the lengths.
  abbrev measured : World A U → Bytes → U → World A U
  measured w d u =
      let w' = received w u d in
      let o' = w'.obex in with_obex w' (record o' { rx_pkt_len = get_be16 (drop 1 o'.rx_buf) })

  length_read :
      (w : World A U) (op a b : ℕ) (rest : Bytes)
      → let d = op ∷ a ∷ b ∷ rest in
        w.obex.rx_data ≡ 0
        → get_be16 (a ∷ b ∷ rest) ≡ length d
        → get_be16 (drop 1 (put_at w.obex.rx_data d w.obex.rx_buf)) ≡ length d
  unfolding get_be16
  length_read w op a b rest empty size =
      ap (λ l. get_be16 (drop 1 l))
        (put_at_front w.obex.rx_data (op ∷ a ∷ b ∷ rest) w.obex.rx_buf empty)
      ∙ size

  measured-filled :
      (w : World A U) (op a b : ℕ) (rest : Bytes) (u : U)
      → let d = op ∷ a ∷ b ∷ rest in
        w.obex.rx_data ≡ 0
        → get_be16 (a ∷ b ∷ rest) ≡ length d
        → measured w d u ≡ filled w d (length d) u
  measured-filled w op a b rest u empty size =
      let d = op ∷ a ∷ b ∷ rest in
      let buf = put_at_front w.obex.rx_data d w.obex.rx_buf empty in
      let n = length_read w op a b rest empty size in
      let count : w.obex.rx_data + length d ≡ length d = omega arith in cc

  read_packet_whole :
      (w : World A U) (op a b : ℕ) (rest : Bytes) (u : U)
      → let d = op ∷ a ∷ b ∷ rest in
        w.obex.rx_data ≡ 0
        → env.read_chars w.obex.rx_mtu w.user ≡ (some d, u)
        → get_be16 (a ∷ b ∷ rest) ≡ length d
        → read_packet env w ≡ (measured w d u, none)
  unfolding read_packet
  read_packet_whole w op a b rest u empty got size =
      let n = length_read w op a b rest empty size in ground arith

  -- The session as the callback's side of the read watch finds it.
  abbrev pub opened : World A U → Bytes → U → World A U
  opened w d u =
      let v = filled w d (length d) u in
      let o = v.obex in with_obex v (record o { rx_last_op = last_op o })

  handle_offset_ok :
      (w : World A U) (d : Bytes) (u : U) (p : PendingPkt A) (off : ℕ) (pkt : GObexPacket A)
      → w.obex.pending_req ≡ some p
      → decode {A = A} env.glib ref off d ≡ ok pkt
      → handle_offset env (opened w d u) (some off)
        ≡ some (rx_done (handle_response env (opened w d u) p none (some pkt)), true)
  unfolding handle_offset
  handle_offset_ok w d u p off pkt waits e =
      let front = take-append d (drop (length d) w.obex.rx_buf) in ground arith

  whole_packet_ok :
      (w : World A U) (d : Bytes) (u : U) (p : PendingPkt A) (off : ℕ) (pkt : GObexPacket A)
      → w.obex.pending_req ≡ some p
      → rsp_header_offset p.pkt.opcode ≡ some off
      → decode {A = A} env.glib ref off d ≡ ok pkt
      → whole_packet env (filled w d (length d) u)
        ≡ some (rx_done (handle_response env (opened w d u) p none (some pkt)), true)
  unfolding whole_packet
  whole_packet_ok w d u p off pkt waits known e =
      let handled = handle_offset_ok w d u p off pkt waits e in ground arith

  incoming_data_whole :
      (cond : Condition) (w : World A U) (op a b : ℕ) (rest : Bytes) (u : U)
      → let d = op ∷ a ∷ b ∷ rest in
        cond.nval ≡ false
        → cond.hup_or_err ≡ false
        → w.obex.transport ≡ packet
        → w.obex.rx_data ≡ 0
        → env.read_chars w.obex.rx_mtu w.user ≡ (some d, u)
        → get_be16 (a ∷ b ∷ rest) ≡ length d
        → incoming_data env cond w ≡ whole_packet env (filled w d (length d) u)
  unfolding incoming_data read
  incoming_data_whole cond w op a b rest u valid up kind empty got size =
      let arrived : read_as env w.obex.transport w
          ≡ (filled w (op ∷ a ∷ b ∷ rest) (length (op ∷ a ∷ b ∷ rest)) u, none) =
        ap (λ t. read_as env t w) kind
        ∙ read_packet_whole w op a b rest u empty got size
        ∙ ap (λ v. (v, none)) (measured-filled w op a b rest u empty size) in
      ground arith

  incoming_data_lem :
      (cond : Condition) (w : World A U) (d : Bytes) (u : U) (p : PendingPkt A) (off : ℕ)
      (pkt : GObexPacket A)
      → cond.nval ≡ false
      → cond.hup_or_err ≡ false
      → w.obex.transport ≡ packet
      → w.obex.rx_data ≡ 0
      → w.obex.pending_req ≡ some p
      → rsp_header_offset p.pkt.opcode ≡ some off
      → env.read_chars w.obex.rx_mtu w.user ≡ (some d, u)
      → decode {A = A} env.glib ref off d ≡ ok pkt
      → incoming_data env cond w
        ≡ some (rx_done (handle_response env (opened w d u) p none (some pkt)), true)
  incoming_data_lem cond w [] u p off pkt valid up kind empty waits known got e =
      absurd (unfold decode in ground arith)
  incoming_data_lem cond w (op ∷ []) u p off pkt valid up kind empty waits known got e =
      absurd
        (let (_, long, _, _) = decode-Decoded env.glib ref off op [] pkt e in omega (arith, long))
  incoming_data_lem cond w (op ∷ a ∷ []) u p off pkt valid up kind empty waits known got e =
      absurd (
        let (_, long, _, _) = decode-Decoded env.glib ref off op (a ∷ []) pkt e in
        omega (arith, long))
  incoming_data_lem cond w (op ∷ a ∷ b ∷ rest) u p off pkt valid up kind empty waits known got e =
      incoming_data_whole cond w op a b rest u valid up kind empty got
        (decode-Decoded env.glib ref off op (a ∷ b ∷ rest) pkt e).0
      ∙ whole_packet_ok w (op ∷ a ∷ b ∷ rest) u p off pkt waits known e

  -- What the callback leaves of the user's state stays.
  delivered_user :
      (v : World A U) (p : PendingPkt A) (f : A) (pkt : GObexPacket A)
      → p.rsp_func ≡ some f
      → (rx_done (handle_response env v p none (some pkt))).user
        ≡ (env.on_response f
            (if p.cancelled then some cancelled else none)
            (some pkt)
            (answer env v p (some pkt))).user
  unfolding handle_response finish_response
  delivered_user v p f pkt calls = ground arith

  opened-arrived :
      (w : World A U) (d : Bytes) (u : U) (off : ℕ) (pkt : GObexPacket A)
      → decode {A = A} env.glib ref off d ≡ ok pkt
      → opened w d u ≡ arrived w d u pkt
  opened-arrived w [] u off pkt e = absurd (unfold decode in ground arith)
  opened-arrived w (op ∷ rest) u off pkt e =
      let (_, _, said, _) = decode-Decoded env.glib ref off op rest pkt e in
      ground (arith, said.opcode_bits)

  opened-IsTold :
      (w : World A U) (d : Bytes) (u : U) (p : PendingPkt A) (off : ℕ) (pkt : GObexPacket A)
      → decode {A = A} env.glib ref off d ≡ ok pkt
      → IsTold w d u p pkt (answer env (opened w d u) p (some pkt))
  opened-IsTold w d u p off pkt e =
      let same = opened-arrived w d u off pkt e in
      (λ other. ground (arith, same), λ connect. ground (arith, same))

  -- On a packet transport a response reaches the callback. The channel delivers the bytes `d` of a
  -- packet that is decoded as a response to the pending request, nothing is left from before, the
  -- request has the callback `f`, and callbacks leave the session alone. Then the callback is given
  -- the packet, in the session that has `d` at the front of its buffer (and has taken over the peer's
  -- MTU and connection id if the request was a CONNECT), with an error only if the request was
  -- cancelled. What the callback leaves of the user's state stays, the buffer is emptied, the request
  -- is gone exactly if the response is final, and the read watch stays.
  pub incoming_data-handle_response :
      (cond : Condition) (w : World A U) (d : Bytes) (u : U) (p : PendingPkt A) (f : A) (off : ℕ)
      (pkt : GObexPacket A)
      → CallbacksLeave env
      → cond.nval ≡ false
      → cond.hup_or_err ≡ false
      → w.obex.transport ≡ packet
      → w.obex.rx_data ≡ 0
      → w.obex.pending_req ≡ some p
      → p.rsp_func ≡ some f
      → rsp_header_offset p.pkt.opcode ≡ some off
      → env.read_chars w.obex.rx_mtu w.user ≡ (some d, u)
      → decode {A = A} env.glib ref off d ≡ ok pkt
      → (v w' : World A U) × (incoming_data env cond w ≡ some (w', true))
        × IsTold w d u p pkt v
        × (w'.user
            ≡ (env.on_response f (if p.cancelled then some cancelled else none) (some pkt) v).user)
        × (w'.obex.rx_data ≡ 0)
        × (w'.obex.pending_req ≡ (if pkt.final then none else some p))
  incoming_data-handle_response cond w d u p f off pkt leave valid up kind empty waits calls known
        got e =
      let v = opened w d u in
      let (gone, _, _, _) = handle_response-pending env v p none (some pkt) leave waits in
      (
        answer env v p (some pkt),
        rx_done (handle_response env v p none (some pkt)),
        incoming_data_lem cond w d u p off pkt valid up kind empty waits known got e,
        opened-IsTold w d u p off pkt e,
        delivered_user v p f pkt calls,
        refl,
        gone,
      )
