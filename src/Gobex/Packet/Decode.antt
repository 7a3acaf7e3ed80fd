-- ===== src/Gobex/Packet/Decode.antt =====
-- What g_obex_packet_decode accepts, on any input.
use map_client.Base.{
  ℕ, zero, suc, ◌+◌, ◌≤◌, ◌≡◌, ◌≢◌, refl, sym, subst, inl, inr, some, none, List, [], ◌∷◌, ◌++◌,
  bit_and, length, take, drop, All, All-drop, ◌==◌, not, arith, length-drop, append-nil,
  append_assoc, length-take,
}
use map_client.Base.Endian.{Bytes, IsByte, get_be16}
use map_client.Gobex.Defs.{
  Glib, GObexDataPolicy, inherit, copy, ref, ok, aborted, stuck, Result-cases,
}
use map_client.Gobex.Header.{GObexHeader}
use map_client.Gobex.Header.Codec.{decode as decode_header}
use map_client.Gobex.Header.WellFormed.{
  IsWellFormed, decode-IsParsed, decode-ne-aborted, decode-ne-stuck,
}
use map_client.Gobex.Header.Wire.{IsHeaders, decode-IsAtFront}
use map_client.Gobex.Header.Build.{total_hlen}
use map_client.Gobex.Packet.{GObexPacket, set_data}
use map_client.Gobex.Packet.Codec.{decode, decode_body, parse_headers, final_bit}

abbrev pub extend : {A : Type 0} → GObexPacket A → List GObexHeader → ℕ → GObexPacket A
extend pkt hs n = record pkt { headers = pkt.headers ++ hs; hlen = pkt.hlen + n }

module _ {A : Type 0} (g : Glib) (policy : GObexDataPolicy) where
  abbrev Parses : GObexPacket A → Bytes → GObexPacket A → Type 0
  Parses pkt buf pkt' =
      (hs : List GObexHeader) × (pkt' ≡ extend pkt hs (length buf))
      × All IsWellFormed hs
      × (total_hlen hs ≡ length buf)
      × IsHeaders g policy buf hs

  -- The loop appends the well-formed headers that the buffer is made of.
  parse_headers-Parses :
      (fuel : ℕ) (buf : Bytes) (pkt pkt' : GObexPacket A)
      → parse_headers g policy fuel buf pkt ≡ ok pkt'
      → Parses pkt buf pkt'
  unfolding parse_headers
  parse_headers-Parses fuel [] pkt pkt' e =
      ([], ground (arith, append-nil pkt.headers), tt, refl, refl)
  parse_headers-Parses zero (b ∷ bs) pkt pkt' e = absurd (ground arith)
  parse_headers-Parses (suc fuel) (b ∷ bs) pkt pkt' e =
      elim (Result-cases (decode_header g policy (b ∷ bs))) [
        | inl ((h, parsed), d) ↦
            let (w, l, lo, hi) = decode-IsParsed g policy (b ∷ bs) h parsed d in
            let (hs, eq, all, total, behind) =
              parse_headers-Parses fuel (drop parsed (b ∷ bs)) (extend pkt (h ∷ []) parsed) pkt'
                (rw (d, parse_headers) at e) in
            (
              h ∷ hs,
              ground (arith, eq, append_assoc pkt.headers (h ∷ []) hs, length-drop parsed (b ∷ bs)),
              (w, all),
              omega (arith, length-drop parsed (b ∷ bs)),
              (
                decode-IsAtFront g policy (b ∷ bs) h parsed d,
                subst (λ n. IsHeaders g policy (drop n (b ∷ bs)) hs) (sym l) behind,
              ),
            )
        | inr (inl (x, d)) ↦ absurd (ground arith)
        | inr (inr (inl d)) ↦ absurd (ground arith)
        | inr (inr (inr d)) ↦ absurd (ground arith)
      ]

  parse_headers-ne-stuck :
      (fuel : ℕ) (buf : Bytes) (pkt : GObexPacket A)
      → length buf ≤ fuel
      → parse_headers g policy fuel buf pkt ≢ stuck
  unfolding parse_headers
  parse_headers-ne-stuck fuel [] pkt h e = cc
  parse_headers-ne-stuck zero (b ∷ bs) pkt h e = absurd (omega arith)
  parse_headers-ne-stuck (suc fuel) (b ∷ bs) pkt h e =
      elim (Result-cases (decode_header g policy (b ∷ bs))) [
        | inl ((h', parsed), d) ↦
            let (w, l, lo, hi) = decode-IsParsed g policy (b ∷ bs) h' parsed d in
            parse_headers-ne-stuck fuel (drop parsed (b ∷ bs)) (extend pkt (h' ∷ []) parsed)
              (omega (arith, length-drop parsed (b ∷ bs))) (rw (d, parse_headers) at e)
        | inr (inl (x, d)) ↦ ground arith
        | inr (inr (inl d)) ↦ ground arith
        | inr (inr (inr d)) ↦ decode-ne-stuck g policy (b ∷ bs) d
      ]

  parse_headers-ne-aborted :
      (fuel : ℕ) (buf : Bytes) (pkt : GObexPacket A)
      → All IsByte buf
      → parse_headers g policy fuel buf pkt ≢ aborted
  unfolding parse_headers
  parse_headers-ne-aborted fuel [] pkt h e = cc
  parse_headers-ne-aborted zero (b ∷ bs) pkt h e = cc
  parse_headers-ne-aborted (suc fuel) (b ∷ bs) pkt h e =
      elim (Result-cases (decode_header g policy (b ∷ bs))) [
        | inl ((h', parsed), d) ↦
            parse_headers-ne-aborted fuel (drop parsed (b ∷ bs)) (extend pkt (h' ∷ []) parsed)
              (All-drop IsByte parsed (b ∷ bs) h) (rw (d, parse_headers) at e)
        | inr (inl (x, d)) ↦ ground arith
        | inr (inr (inl d)) ↦ decode-ne-aborted g policy (b ∷ bs) h d
        | inr (inr (inr d)) ↦ ground arith
      ]

-- What a decoded packet says of the buffer that it came from: the opcode and the final bit are those
-- of the first byte, the declared length is the buffer's, and behind the data well-formed headers
-- cover the buffer exactly.
pub record Decoded {A : Type 0} (header_offset op : ℕ) (rest : Bytes) (pkt : GObexPacket A)
    : Type 0 where
  pub opcode_bits : pkt.opcode ≡ bit_and op 0x7f
  pub final_set : pkt.final ≡ not (bit_and op final_bit == 0)
  pub covered : header_offset + total_hlen pkt.headers ≡ length rest
  pub hlen_sum : pkt.hlen ≡ total_hlen pkt.headers
  pub headers_ok : All IsWellFormed pkt.headers
  pub offset_len : pkt.data_len ≡ header_offset
  pub data_slice : header_offset ≢ 0 → pkt.buf ≡ some (take header_offset rest)
  pub no_producer : pkt.get_body ≡ none

module _ {A : Type 0} (g : Glib) where
  decode_body-Decoded :
      (policy : GObexDataPolicy) (off op : ℕ) (rest : Bytes) (pkt : GObexPacket A)
      → policy ≢ inherit
      → off ≤ length rest
      → decode_body g policy off op rest ≡ ok pkt
      → Decoded off op rest pkt × IsHeaders g policy (drop off rest) pkt.headers
  unfolding decode_body set_data
  decode_body-Decoded policy off op rest pkt np h e =
      let (hs, eq, all, total, parts) =
        parse_headers-Parses g policy (length (drop off rest)) (drop off rest) _ pkt e in
      let behind = length-drop off rest in
      let same : pkt.headers ≡ hs = ground (arith, eq) in
      let front = length-take off rest in
      (
        record {
          opcode_bits = ground (arith, eq);
          final_set = ground (arith, eq);
          covered = ground (arith, eq, total, behind);
          hlen_sum = ground (arith, eq, total);
          headers_ok = subst (All IsWellFormed) (sym same) all;
          offset_len = ground (arith, eq, front);
          data_slice = λ nz. ground (arith, eq, front);
          no_producer = ground (arith, eq);
        },
        subst (IsHeaders g policy (drop off rest)) (sym same) parts,
      )

  -- A packet that the decoder accepts is what the buffer holds: the length field is the buffer's length,
  -- the first byte gives the opcode and the final bit, then come the data, and what is left is the
  -- packet's headers, each behind the one before it, without a rest. Each header has the id, the length
  -- and the value that the wire format of OBEX gives its bytes; texts are those that GLib's conversion
  -- from UTF-16 returns.
  pub decode-Decoded :
      (policy : GObexDataPolicy) (off op : ℕ) (tail : Bytes) (pkt : GObexPacket A)
      → decode g policy off (op ∷ tail) ≡ ok pkt
      → (get_be16 tail ≡ suc (length tail))
        × (2 ≤ length tail)
        × Decoded off op (drop 2 tail) pkt
        × IsHeaders g policy (drop off (drop 2 tail)) pkt.headers
  unfolding decode
  decode-Decoded inherit off op tail pkt e = absurd (ground arith)
  decode-Decoded copy off op tail pkt e =
      let long : 2 + off ≤ length tail = ground arith in
      let declared : get_be16 tail ≡ suc (length tail) = ground arith in
      let (said, parts) =
        decode_body-Decoded copy off op (drop 2 tail) pkt (λ p. cc)
          (omega (arith, length-drop 2 tail)) (ground arith) in
      (declared, omega arith, said, parts)
  decode-Decoded ref off op tail pkt e =
      let long : 2 + off ≤ length tail = ground arith in
      let declared : get_be16 tail ≡ suc (length tail) = ground arith in
      let (said, parts) =
        decode_body-Decoded ref off op (drop 2 tail) pkt (λ p. cc)
          (omega (arith, length-drop 2 tail)) (ground arith) in
      (declared, omega arith, said, parts)

  decode_body_ends :
      (policy : GObexDataPolicy) (off op : ℕ) (rest : Bytes)
      → (decode_body {A = A} g policy off op rest ≢ stuck)
        × (All IsByte rest → decode_body {A = A} g policy off op rest ≢ aborted)
  unfolding decode_body
  decode_body_ends policy off op rest = (
    parse_headers-ne-stuck g policy (length (drop off rest)) (drop off rest) _ (omega arith),
    λ h.
        parse_headers-ne-aborted g policy (length (drop off rest)) (drop off rest) _
          (All-drop IsByte off rest h),
  )

  -- The decoder ends on every input, and on bytes it never runs into a failed assertion.
  pub decode_ends :
      (policy : GObexDataPolicy) (off : ℕ) (buf : Bytes)
      → (decode {A = A} g policy off buf ≢ stuck)
        × (All IsByte buf → decode {A = A} g policy off buf ≢ aborted)
  unfolding decode
  decode_ends inherit off buf = (λ e. cc, λ h e. cc)
  decode_ends copy off [] = (λ e. ground arith, λ h e. ground arith)
  decode_ends copy off (op ∷ tail) =
      let (s, a) = decode_body_ends copy off op (drop 2 tail) in
      (λ e. ground (arith, s), λ h e. ground (arith, a (All-drop IsByte 2 tail h.1)))
  decode_ends ref off [] = (λ e. ground arith, λ h e. ground arith)
  decode_ends ref off (op ∷ tail) =
      let (s, a) = decode_body_ends ref off op (drop 2 tail) in
      (λ e. ground (arith, s), λ h e. ground (arith, a (All-drop IsByte 2 tail h.1)))
