-- ===== src/Gobex/Packet/Codec.antt =====
-- gobex/gobex-packet.c: g_obex_packet_decode and g_obex_packet_encode with their helpers.
use map_client.Base.{
  ℕ, zero, suc, ◌+◌, ◌-◌, some, none, List, [], ◌∷◌, ◌++◌, bit_and, bit_or, length, take, drop, ltb,
  leb, ◌==◌, not, if◌then◌else◌,
}
use map_client.Base.Endian.{Bytes, put_be16, get_be16}
use map_client.Gobex.Defs.{
  Glib, GObexDataPolicy, inherit, parse_error, invalid_args, Result, ok, err, aborted, stuck, eperm,
  enobufs,
}
use map_client.Gobex.Header.{GObexHeader}
use map_client.Gobex.Header.Codec.{
  decode as decode_header, encode as encode_header, written, failed, asserted,
}
use map_client.Gobex.Packet.{
  GObexPacket, empty_packet, set_data, hdr_body, hdr_body_end, rsp_continue, rsp_success,
}

abbrev pub final_bit : ℕ
final_bit = 0x80

module _ {A : Type 0} (g : Glib) (policy : GObexDataPolicy) where
  -- The loop over the headers. Each takes two bytes or more, so the buffer's length is fuel enough.
  unfoldable pub parse_headers : ℕ → Bytes → GObexPacket A → Result (GObexPacket A)
  parse_headers fuel [] pkt = ok pkt
  parse_headers zero (b ∷ bs) pkt = stuck
  parse_headers (suc fuel) (b ∷ bs) pkt = elim (decode_header g policy (b ∷ bs)) [
    | ok (h, parsed) ↦
        parse_headers fuel (drop parsed (b ∷ bs))
          (record pkt { headers = pkt.headers ++ (h ∷ []); hlen = pkt.hlen + parsed })
    | err e ↦ err e
    | aborted ↦ aborted
    | stuck ↦ stuck
  ]

  -- What follows the test of the length: the opcode, the data and the headers.
  unfoldable pub decode_body : ℕ → ℕ → Bytes → Result (GObexPacket A)
  decode_body header_offset op rest =
      let pkt = empty_packet (bit_and op 0x7f) (not (bit_and op final_bit == 0)) [] 0 in
      let with_data =
        if header_offset == 0 then pkt else (set_data pkt (take header_offset rest) policy).0 in
      let tail = drop header_offset rest in parse_headers (length tail) tail with_data

  unfoldable pub decode : ℕ → Bytes → Result (GObexPacket A)
  decode header_offset buf = elim policy [
    | inherit ↦ err invalid_args
    | _ ↦
        let rest = drop 3 buf in
        let op : ℕ = elim buf [ [] ↦ 0 | b ∷ _ ↦ b ] in
        if ltb (length buf) (3 + header_offset)
        then err parse_error
        else if get_be16 (drop 1 buf) == length buf
        then decode_body header_offset op rest
        else err parse_error
  ]

-- What a body producer returns: the bytes that it wrote, none at the end, or a negative errno.
pub data Produced : Type 0 where
  bytes : Bytes → Produced
  errno : ℕ → Produced

-- The outcome of g_obex_packet_encode: the buffer and the count, a negative errno, or a failed
-- assertion.
pub data Encoding : Type 0 where
  encoded : Bytes → ℕ → Encoding
  fails : ℕ → Encoding
  assertion_failed : Encoding

-- The loop over the headers from `count` on. Each header is written behind the one before it, since
-- a header's encoding has as many bytes as its return value says.
unfoldable pub encode_headers : Glib → ℕ → List GObexHeader → ℕ → Encoding
encode_headers g len [] count = encoded [] count
encode_headers g len (h ∷ hs) count =
    if leb len count then fails enobufs else elim (encode_header g h (len - count)) [
      | failed ↦ fails eperm
      | asserted ↦ assertion_failed
      | written bs ret ↦ elim (encode_headers g len hs (count + ret)) [
        | encoded more total ↦ encoded (bs ++ more) total
        | fails e ↦ fails e
        | assertion_failed ↦ assertion_failed
      ]
    ]

abbrev pub data_bytes : {A : Type 0} → GObexPacket A → Bytes
data_bytes pkt = elim pkt.buf [ none ↦ [] | some d ↦ take pkt.data_len d ]

abbrev pub first_byte : {A : Type 0} → GObexPacket A → ℕ
first_byte pkt = if pkt.final then bit_or pkt.opcode final_bit else pkt.opcode

-- The end of the body ends the packet's transfer: Continue becomes Success, and the final bit is set.
abbrev pub last_byte : {A : Type 0} → GObexPacket A → ℕ
last_byte pkt =
    if pkt.opcode == rsp_continue
    then bit_or rsp_success final_bit
    else bit_or (first_byte pkt) final_bit

abbrev pub assemble : ℕ → Bytes → ℕ → Encoding
assemble op body count = encoded (op ∷ put_be16 count ++ body) count

-- The body header and what remains, once the headers stand in the buffer.
abbrev pub with_body : {A : Type 0} → GObexPacket A → Bytes → ℕ → Produced → Encoding
with_body pkt front count (errno e) = fails e
with_body pkt front count (bytes []) =
    assemble (last_byte pkt) (front ++ (hdr_body_end ∷ put_be16 3)) (count + 3)
with_body pkt front count (bytes (b ∷ bs)) =
    assemble (first_byte pkt) (front ++ (hdr_body ∷ put_be16 (length (b ∷ bs) + 3) ++ (b ∷ bs)))
      (count + (length (b ∷ bs) + 3))

-- `S` is the state that a producer may change. It is asked for `len - 3` bytes at most.
module _ {A S : Type 0} (g : Glib) (produce : A → ℕ → S → Produced × S) where
  unfoldable pub encode_body : GObexPacket A → ℕ → Bytes → ℕ → S → Encoding × S
  encode_body pkt len front count s = elim pkt.get_body [
    | none ↦ (assemble (first_byte pkt) front count, s)
    | some f ↦
        let (p, s') = produce f (len - count - 3) s in
        if ltb (len - count) 3 then (fails enobufs, s) else (with_body pkt front count p, s')
  ]

  unfoldable pub encode : GObexPacket A → ℕ → S → Encoding × S
  encode pkt len s =
      if ltb len (3 + pkt.data_len + pkt.hlen)
      then (fails enobufs, s)
      else elim (encode_headers g len pkt.headers (3 + pkt.data_len)) [
        | fails e ↦ (fails e, s)
        | assertion_failed ↦ (assertion_failed, s)
        | encoded hs count ↦ encode_body pkt len (data_bytes pkt ++ hs) count s
      ]
