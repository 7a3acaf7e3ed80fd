-- ===== src/Gobex/Obex/Stream.antt =====
-- The write side as a byte stream: what has gone out and what remains of the packet.
use map_client.Base.{
  ℕ, ◌-◌, ◌≤◌, ◌≡◌, ◌≢◌, refl, sym, ap, ◌∙◌, ◌⊎◌, inl, inr, Bool, true, false, Option, some, none,
  List, ◌++◌, length, take, drop, ltb, ◌==◌, ◌||◌, not, arith, append_assoc, length-take,
  take-length, take_split, drop-drop, Bool-cases,
}
use map_client.Base.Endian.{Bytes}
use map_client.Gobex.Packet.Codec.{encoded, encode}
use map_client.Gobex.Obex.{PendingPkt, World, Env, GObexTransportType, stream, packet, is_empty}
use map_client.Gobex.Obex.Send.{with_obex}
use map_client.Gobex.Obex.Write.{
  Condition, remaining, advance, written_by, write, stop_tx, done, transmit, write_data,
  load_packet, loaded, dequeued,
}

-- The channel takes no more than it is given.
abbrev pub Accepts : {A U : Type 0} → Env A U → Type 0
Accepts {A} {U} env = (d : Bytes) (u : U) (n : ℕ) → (env.write_chars d u).0 ≡ some n → n ≤ length d

-- The bytes that the peer has or will get: those on the wire and those that remain of the packet.
abbrev pub output : {A U : Type 0} → World A U → Bytes
output w = w.wire ++ remaining w.obex

module _ {A U : Type 0} (env : Env A U) where
  advance-output :
      (w : World A U) (u : U) (n : ℕ)
      → n ≤ length (remaining w.obex)
      → output (advance w (remaining w.obex) u n) ≡ output w
  advance-output w u n h =
      let o = w.obex in
      let small : n ≤ o.tx_data = omega (arith, length-take o.tx_data (drop o.tx_sent o.tx_buf)) in
      append_assoc w.wire (take n (remaining o)) _
      ∙ ap (◌++◌ w.wire) (
          ap (λ l. take n (remaining o) ++ take (o.tx_data - n) l)
            (sym (drop-drop n o.tx_sent o.tx_buf))
          ∙ take_split n o.tx_data (drop o.tx_sent o.tx_buf) small)

  written_by-output :
      (t : GObexTransportType) (w : World A U) (r : Option ℕ) (u : U)
      → ((n : ℕ) → r ≡ some n → n ≤ length (remaining w.obex))
      → (written_by t w (remaining w.obex) (r, u)).1 ≡ true
      → output (written_by t w (remaining w.obex) (r, u)).0 ≡ output w
  written_by-output t w none u h e = absurd (ground arith)
  written_by-output stream w (some n) u h e = advance-output w u n (h n refl)
  written_by-output packet w (some n) u h e = elim (Bool-cases (n == w.obex.tx_data)) [
    | inl all ↦ rw all (advance-output w u n (h n refl))
    | inr part ↦ absurd (ground arith)
  ]

  -- A write that succeeds moves bytes from the packet to the wire: none is lost, doubled or reordered.
  pub write-output :
      (w : World A U) → Accepts env → (write env w).1 ≡ true → output (write env w).0 ≡ output w
  unfolding write
  write-output w acc e =
      let r : Option ℕ × U = env.write_chars (remaining w.obex) w.user in
      written_by-output w.obex.transport w r.0 r.1 (λ n q. acc (remaining w.obex) w.user n q) e

  done-output : (w : World A U) → output (done w).0 ≡ output w
  unfolding done stop_tx
  done-output w = elim (Bool-cases (ltb 0 w.obex.tx_data || not (is_empty w.obex.tx_queue))) [
    | inl more ↦ rw more
    | inr last ↦ let empty : w.obex.tx_data ≡ 0 = ground arith in rw (last, empty)
  ]

  -- A round of the write watch goes through: the session is suspended, or the channel takes bytes.
  abbrev pub GoesThrough : World A U → Type 0
  GoesThrough w = (w.obex.suspended ≡ true) ⊎ ((write env w).1 ≡ true)

  transmit_suspended :
      (w : World A U)
      → w.obex.suspended ≡ true
      → transmit env w ≡ (let o = w.obex in with_obex w (record o { write_source = false }), false)
  unfolding transmit
  transmit_suspended w susp = ground arith

  transmit_sent :
      (w : World A U)
      → w.obex.suspended ≡ false
      → (write env w).1 ≡ true
      → transmit env w ≡ done (write env w).0
  unfolding transmit
  transmit_sent w runs sent = ground arith

  transmit-output :
      (w : World A U) → Accepts env → GoesThrough w → output (transmit env w).0 ≡ output w
  transmit-output w acc (inl susp) = ap (λ r. output r.0) (transmit_suspended w susp)
  transmit-output w acc (inr sent) = elim (Bool-cases w.obex.suspended) [
    | inl susp ↦ ap (λ r. output r.0) (transmit_suspended w susp)
    | inr runs ↦
        ap (λ r. output r.0) (transmit_sent w runs sent)
        ∙ done-output (write env w).0
        ∙ write-output w acc sent
  ]

  -- While a packet is on its way, a round of the watch neither loses nor doubles a byte of it: what
  -- has gone out and what remains stay the same text. The channel is up and takes no more than it is
  -- given, and the round goes through: the session is suspended, or the write succeeds.
  pub write_data-output :
      (cond : Condition) (w : World A U)
      → Accepts env
      → cond.nval ≡ false
      → cond.hup_or_err ≡ false
      → w.obex.tx_data ≢ 0
      → GoesThrough w
      → (w' : World A U) × (keep : Bool) × (write_data env cond w ≡ some (w', keep))
        × (output w' ≡ output w)
  unfolding write_data
  write_data-output cond w acc valid up busy goes =
      ((transmit env w).0, (transmit env w).1, ground arith, transmit-output w acc goes)

  -- Loading a packet that is encoded puts its whole text behind what the wire has, if the channel takes
  -- no more than it is given and the round goes through.
  pub load_packet-output :
      (w v : World A U) (p : PendingPkt A) (q : List (PendingPkt A)) (bs : Bytes) (n : ℕ)
      → Accepts env
      → encode env.glib env.produce p.pkt w.obex.tx_mtu (with_obex w (dequeued w.obex q))
        ≡ (encoded bs n, v)
      → length bs ≡ n
      → GoesThrough (with_obex v (loaded v.obex p bs n))
      → (w' : World A U) × (keep : Bool) × (load_packet env w p q ≡ some (w', keep))
        × (output w' ≡ v.wire ++ bs)
  unfolding load_packet
  load_packet-output w v p q bs n acc e size goes =
      let x = with_obex v (loaded v.obex p bs n) in
      (
        (transmit env x).0,
        (transmit env x).1,
        rw (e, load_packet),
        transmit-output x acc goes
            ∙ ap (◌++◌ v.wire) (ap (λ k. take k bs) (sym size) ∙ take-length bs),
      )
