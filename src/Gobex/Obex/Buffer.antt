-- ===== src/Gobex/Obex/Buffer.antt =====
-- The read side: the bounds of the receive buffer, and the read loop.
use map_client.Base.{
  ℕ, zero, suc, ◌+◌, ◌-◌, ◌≤◌, ◌<◌, ◌≡◌, sym, subst, ◌∙◌, Bool, true, false, Option, some, none,
  ◌++◌, length, take, drop, ltb, leb, ◌==◌, ◌&&◌, if◌then◌else◌, arith, Bool-cases, Option-cases,
  inl, inr, length-append, length-take, length-drop,
}
use map_client.Base.Endian.{Bytes, get_be16}
use map_client.Gobex.Defs.{GObexError}
use map_client.Gobex.Obex.{GObex, World, Env, GObexTransportType, stream, packet}
use map_client.Gobex.Obex.Send.{with_obex}
use map_client.Gobex.Obex.Receive.{
  put_at, received, read_rest, read_body, read_stream, read_packet, read_as, read, length_field,
}

length-put_at :
    (k : ℕ) (d buf : Bytes) → k + length d ≤ length buf → length (put_at k d buf) ≡ length buf
unfolding put_at
length-put_at k d buf h = omega (
  arith,
  length-append (take k buf) (d ++ drop (k + length d) buf),
  length-append d (drop (k + length d) buf),
  length-take k buf,
  length-drop (k + length d) buf,
)

-- The channel reads no more than it is asked for.
abbrev pub ReadsAtMost : {A U : Type 0} → Env A U → Type 0
ReadsAtMost {A} {U} env =
    (n : ℕ) (u : U) (d : Bytes) → (env.read_chars n u).0 ≡ some d → length d ≤ n

-- The buffer has the size of the MTU, and what was received fits into it.
pub record IsWithin {A : Type 0} (o : GObex A) : Type 0 where
  pub sized : length o.rx_buf ≡ o.rx_mtu
  pub room : 3 ≤ o.rx_mtu
  pub filled : o.rx_data ≤ o.rx_mtu
  pub expected : 3 ≤ o.rx_data → o.rx_pkt_len ≤ o.rx_mtu

module _ {A U : Type 0} (env : Env A U) where
  received-IsWithin :
      (w : World A U) (u : U) (d : Bytes)
      → length w.obex.rx_buf ≡ w.obex.rx_mtu
      → 3 ≤ w.obex.rx_mtu
      → w.obex.rx_data + length d ≤ w.obex.rx_mtu
      → (3 ≤ w.obex.rx_data + length d → w.obex.rx_pkt_len ≤ w.obex.rx_mtu)
      → IsWithin (received w u d).obex
  received-IsWithin w u d sized room fits known = record {
    sized = length-put_at w.obex.rx_data d w.obex.rx_buf (omega arith) ∙ sized;
    room = room;
    filled = fits;
    expected = known;
  }

  -- What a round of the loop asks for, and what it gets.
  abbrev got : World A U → Option Bytes × U
  got w = env.read_chars (w.obex.rx_pkt_len - w.obex.rx_data) w.user

  abbrev goes_on : World A U → Bytes → Bool
  goes_on w d = ltb 0 (length d) && ltb (w.obex.rx_data + length d) w.obex.rx_pkt_len

  round_none :
      (fuel : ℕ) (w : World A U)
      → (got w).0 ≡ none
      → read_rest env (suc fuel) w ≡ record w { user = (got w).1 }
  unfolding read_rest
  round_none fuel w e = ground arith

  round_some :
      (fuel : ℕ) (w : World A U) (d : Bytes)
      → (got w).0 ≡ some d
      → read_rest env (suc fuel) w ≡ (
          if goes_on w d
          then read_rest env fuel (received w (got w).1 d)
          else received w (got w).1 d)
  unfolding read_rest
  round_some fuel w d e = ground arith

  read_rest-IsWithin :
      (fuel : ℕ) (w : World A U)
      → ReadsAtMost env
      → w.obex.rx_data ≤ w.obex.rx_pkt_len
      → w.obex.rx_pkt_len ≤ w.obex.rx_mtu
      → IsWithin w.obex
      → IsWithin (read_rest env fuel w).obex
  unfolding read_rest
  read_rest-IsWithin zero w most le fits inv = inv
  read_rest-IsWithin (suc fuel) w most le fits inv = elim (Option-cases (got w).0) [
    | inl e ↦ subst (λ v. IsWithin v.obex) (sym (round_none fuel w e)) inv
    | inr (d, e) ↦
        let size : length d ≤ w.obex.rx_pkt_len - w.obex.rx_data =
          most (w.obex.rx_pkt_len - w.obex.rx_data) w.user d e in
        let now : IsWithin (received w (got w).1 d).obex =
          received-IsWithin w (got w).1 d inv.sized inv.room (omega arith) (λ l. fits) in
        let later : IsWithin (read_rest env fuel (received w (got w).1 d)).obex =
          read_rest-IsWithin fuel (received w (got w).1 d) most (omega arith) fits now in
        subst (λ v. IsWithin v.obex) (sym (round_some fuel w d e))
          (elim (Bool-cases (goes_on w d)) [ inl more ↦ rw more later | inr last ↦ rw last now ])
  ]

  -- The loop of read_stream ends: fuel beyond the number of bytes that are missing changes nothing.
  pub read_rest_ends :
      (fuel more : ℕ) (w : World A U)
      → w.obex.rx_pkt_len - w.obex.rx_data < fuel
      → fuel ≤ more
      → read_rest env more w ≡ read_rest env fuel w
  read_rest_ends zero more w h le = absurd (omega arith)
  read_rest_ends (suc fuel) zero w h le = absurd (omega arith)
  read_rest_ends (suc fuel) (suc more) w h le = elim (Option-cases (got w).0) [
    | inl e ↦ round_none more w e ∙ sym (round_none fuel w e)
    | inr (d, e) ↦
        round_some more w d e
        ∙ elim (Bool-cases (goes_on w d)) [
          | inl again ↦
              rw again
                (read_rest_ends fuel more (received w (got w).1 d) (ground arith) (omega arith))
          | inr last ↦ rw last
        ]
        ∙ sym (round_some fuel w d e)
  ]

  read_body-IsWithin :
      (w : World A U)
      → ReadsAtMost env
      → w.obex.rx_pkt_len ≤ w.obex.rx_mtu
      → IsWithin w.obex
      → IsWithin (read_body env w).obex
  unfolding read_body
  read_body-IsWithin w most fits inv = elim (Bool-cases (leb w.obex.rx_pkt_len w.obex.rx_data)) [
    | inl whole ↦ rw whole inv
    | inr part ↦ rw part (
        read_rest-IsWithin (suc (w.obex.rx_pkt_len - w.obex.rx_data)) w most (ground arith) fits
          inv)
  ]

  -- A read keeps the buffer's bounds, or it failed, and then the buffer has its size still.
  abbrev pub KeepsBounds : World A U × Option GObexError → Type 0
  KeepsBounds (w, none) = IsWithin w.obex
  KeepsBounds (w, some e) =
      (length w.obex.rx_buf ≡ w.obex.rx_mtu)
      × (3 ≤ w.obex.rx_mtu)
      × (w.obex.rx_data ≤ w.obex.rx_mtu)

  read_stream_head :
      (w : World A U) (d : Bytes)
      → ltb w.obex.rx_data 3 ≡ true
      → (env.read_chars (3 - w.obex.rx_data) w.user).0 ≡ some d
      → length d ≤ 3 - w.obex.rx_data
      → ReadsAtMost env
      → IsWithin w.obex
      → KeepsBounds (read_stream env w)
  unfolding read_stream
  read_stream_head w d short e size most inv =
      let u = (env.read_chars (3 - w.obex.rx_data) w.user).1 in
      let w' = received w u d in
      let o' = w'.obex in
      let n = length_field w.obex.rx_data o' in
      let w'' = with_obex w' (record o' { rx_pkt_len = n }) in
      let sized : length o'.rx_buf ≡ o'.rx_mtu =
        length-put_at w.obex.rx_data d w.obex.rx_buf (ground arith) ∙ inv.sized in
      let filled : o'.rx_data ≤ o'.rx_mtu = ground arith in
      let part : ltb o'.rx_data 3 ≡ true → IsWithin o' = λ h. record {
        sized = sized;
        room = inv.room;
        filled = filled;
        expected = λ le. ground arith;
      } in
      let whole : ltb w.obex.rx_mtu n ≡ false → IsWithin (read_body env w'').obex = λ h.
        read_body-IsWithin w'' most (ground arith) (record {
          sized = sized;
          room = inv.room;
          filled = filled;
          expected = λ le. ground arith;
        }) in
      ground arith

  read_stream-KeepsBounds :
      (w : World A U) → ReadsAtMost env → IsWithin w.obex → KeepsBounds (read_stream env w)
  unfolding read_stream
  read_stream-KeepsBounds w most inv = elim (Bool-cases (leb 3 w.obex.rx_data)) [
    | inl h ↦ rw (h, read_stream) (read_body-IsWithin w most (inv.expected (ground arith)) inv)
    | inr h ↦ elim (Option-cases (env.read_chars (3 - w.obex.rx_data) w.user).0) [
      | inl e ↦ ground arith
      | inr (d, e) ↦
          read_stream_head w d (ground arith) e (most (3 - w.obex.rx_data) w.user d e) most inv
    ]
  ]

  read_packet-KeepsBounds :
      (w : World A U) → ReadsAtMost env → IsWithin w.obex → KeepsBounds (read_packet env w)
  unfolding read_packet
  read_packet-KeepsBounds w most inv = elim (Bool-cases (ltb 0 w.obex.rx_data)) [
    | inl full ↦ rw (full, read_packet) (inv.sized, inv.room, inv.filled)
    | inr empty ↦ elim (Option-cases (env.read_chars w.obex.rx_mtu w.user).0) [
      | inl e ↦ ground (arith, inv.sized, inv.room, inv.filled)
      | inr (d, e) ↦
          let size : length d ≤ w.obex.rx_mtu = most w.obex.rx_mtu w.user d e in
          let u = (env.read_chars w.obex.rx_mtu w.user).1 in
          let o' = (received w u d).obex in
          let filled : o'.rx_data ≤ o'.rx_mtu = ground arith in
          let sized : length o'.rx_buf ≡ o'.rx_mtu =
            length-put_at w.obex.rx_data d w.obex.rx_buf (ground arith) ∙ inv.sized in
          let n = get_be16 (drop 1 o'.rx_buf) in
          let o'' = record o' { rx_pkt_len = n } in
          let within : n == length d ≡ true → IsWithin o'' = λ h. record {
            sized = sized;
            room = inv.room;
            filled = filled;
            expected = λ le. ground arith;
          } in
          ground arith
    ]
  ]

  read_as-KeepsBounds :
      (t : GObexTransportType) (w : World A U)
      → ReadsAtMost env
      → IsWithin w.obex
      → KeepsBounds (read_as env t w)
  read_as-KeepsBounds stream = read_stream-KeepsBounds
  read_as-KeepsBounds packet = read_packet-KeepsBounds

  -- The receive buffer is never overrun if the channel reads no more than it is asked for: from a session
  -- within bounds, a read of either transport that succeeds keeps it within bounds, and after one that
  -- fails the buffer has its size and its fill is within it.
  pub read-KeepsBounds :
      (w : World A U) → ReadsAtMost env → IsWithin w.obex → KeepsBounds (read env w)
  unfolding read
  read-KeepsBounds w = read_as-KeepsBounds w.obex.transport w
