-- ===== src/Gobex/Packet/BodyTrip.antt =====
-- A packet with a body producer: what is sent, and what g_obex_packet_decode reads back of it.
use map_client.Base.{
  ℕ, zero, suc, ◌+◌, ◌-◌, ◌^◌, ◌≤◌, ◌<◌, ◌≡◌, ◌≢◌, refl, sym, subst, ap, ◌∙◌, inl, inr, Bool, true,
  false, some, List, [], ◌∷◌, ◌++◌, bit_and, length, drop_front, All, ltb, ◌==◌, not, ◌&&◌,
  if◌then◌else◌, arith, append-nil, append_assoc, length-append, take-length, Bool-cases,
}
use map_client.Base.Bits.{bit_and_0x7f, bit_and_0x80, bit_or_0x80}
use map_client.Base.Endian.{Bytes, put_be16, length-put_be16}
use map_client.Gobex.Defs.{Glib, IsConverting, GObexDataPolicy, inherit, ok}
use map_client.Gobex.Header.{GObexHeader, data_copy, hdr_enc}
use map_client.Gobex.Header.Codec.{written, encode as encode_header}
use map_client.Gobex.Header.WellFormed.{IsWellFormed}
use map_client.Gobex.Header.RoundTrip.{Fits, encode-ReadsBack as header_back}
use map_client.Gobex.Packet.{
  GObexPacket, get_data, hdr_body, hdr_body_end, rsp_continue, rsp_success,
}
use map_client.Gobex.Packet.Codec.{
  Produced, bytes, errno, encoded, encode_headers, encode_body, encode, data_bytes, first_byte,
  last_byte, with_body, parse_headers, decode, final_bit,
}
use map_client.Gobex.Packet.Decode.{extend}
use map_client.Gobex.Packet.Encode.{Encoding-cases, encode_headers_bounds, IsPacket}
use map_client.Gobex.Packet.RoundTrip.{
  SameHeader, SameHeaders, start, start_fields, data_bytes_fields, parse_headers_nil, decode_framed,
  decode_body_front, parse_headers_step, encode_headers-ParsesOn,
}

-- The body header for the bytes of one packet: the last one is empty and has another id.
abbrev pub body_header : Bytes → GObexHeader
body_header d = record {
  id = (if length d == 0 then hdr_body_end else hdr_body);
  extdata = false;
  vlen = length d;
  hlen = length d + 3;
  v = data_copy d;
}

abbrev body_bytes : Bytes → Bytes
body_bytes d = (body_header d).id ∷ put_be16 (length d + 3) ++ d

-- The packet's first byte as it is sent with these body bytes.
abbrev sent_byte : {A : Type 0} → GObexPacket A → Bytes → ℕ
sent_byte pkt d = if length d == 0 then last_byte pkt else first_byte pkt

-- The opcode and the final bit that the first byte stands for.
abbrev pub sent_opcode : {A : Type 0} → GObexPacket A → Bytes → ℕ
sent_opcode pkt d = if length d == 0 && pkt.opcode == rsp_continue then rsp_success else pkt.opcode

abbrev pub sent_final : {A : Type 0} → GObexPacket A → Bytes → Bool
sent_final pkt d = if length d == 0 then true else pkt.final

with_body_lem :
    {A : Type 0} (pkt : GObexPacket A) (front : Bytes) (n : ℕ) (p : Produced) (bs : Bytes)
    (count : ℕ)
    → with_body pkt front n p ≡ encoded bs count
    → (d : Bytes) × (p ≡ bytes d)
      × (count ≡ n + (length d + 3))
      × (bs ≡ sent_byte pkt d ∷ put_be16 count ++ (front ++ body_bytes d))
with_body_lem pkt front n (errno x) bs count e = absurd (ground arith)
with_body_lem pkt front n (bytes []) bs count e =
    ([], refl, ground arith, ground (arith, append-nil (put_be16 3)))
with_body_lem pkt front n (bytes (b ∷ d)) bs count e = (b ∷ d, refl, ground arith, ground arith)

sent_byte_bits :
    {A : Type 0} (pkt : GObexPacket A) (d : Bytes)
    → pkt.opcode < 128
    → (bit_and (sent_byte pkt d) 0x7f ≡ sent_opcode pkt d)
      × (not (bit_and (sent_byte pkt d) final_bit == 0) ≡ sent_final pkt d)
sent_byte_bits pkt d h = ground (
  arith,
  bit_or_0x80 pkt.opcode,
  bit_or_0x80 (pkt.opcode + 128),
  bit_and_0x7f pkt.opcode,
  bit_and_0x7f (pkt.opcode + 128),
  bit_and_0x80 pkt.opcode,
  bit_and_0x80 (pkt.opcode + 128),
)

encode_body_header :
    (g : Glib) (d : Bytes)
    → encode_header g (body_header d) (length d + 3) ≡ written (body_bytes d) (length d + 3)
unfolding encode_header hdr_enc
encode_body_header g [] = refl
encode_body_header g (b ∷ d) = ground (arith, take-length (b ∷ d))

body_header-IsWellFormed : (d : Bytes) → IsWellFormed (body_header d)
unfolding hdr_enc
body_header-IsWellFormed [] = (refl, refl, refl, refl)
body_header-IsWellFormed (b ∷ d) = ground arith

module _ {A S : Type 0} (g : Glib) (produce : A → ℕ → S → Produced × S) where
  -- What a successful encoding with a body producer has written.
  encode_produced :
      (pkt : GObexPacket A) (f : A) (len : ℕ) (s s' : S) (bs : Bytes) (count : ℕ)
      → pkt.get_body ≡ some f
      → encode g produce pkt len s ≡ (encoded bs count, s')
      → (hs d : Bytes) × (n : ℕ) × (3 + pkt.data_len ≤ len)
        × (encode_headers g len pkt.headers (3 + pkt.data_len) ≡ encoded hs n)
        × (produce f (len - n - 3) s ≡ (bytes d, s'))
        × (count ≡ n + (length d + 3))
        × (bs ≡ sent_byte pkt d ∷ put_be16 count ++ ((data_bytes pkt ++ hs) ++ body_bytes d))
  unfolding encode
  encode_produced pkt f len s s' bs count has e =
      elim (Bool-cases (ltb len (3 + pkt.data_len + pkt.hlen))) [
        | inl short ↦ absurd (ground arith)
        | inr room ↦ elim (Encoding-cases (encode_headers g len pkt.headers (3 + pkt.data_len))) [
          | inl (hs, n, r) ↦ elim (Bool-cases (ltb (len - n) 3)) [
            | inl full ↦ absurd (unfold encode_body in ground arith)
            | inr fits ↦
                let out : (with_body pkt (data_bytes pkt ++ hs) n (produce f (len - n - 3) s).0
                      ≡ encoded bs count)
                    × ((produce f (len - n - 3) s).1 ≡ s') =
                  unfold encode_body in (ground arith, ground arith) in
                let (d, made, sum, shape) =
                  with_body_lem pkt (data_bytes pkt ++ hs) n (produce f (len - n - 3) s).0 bs count
                    out.0 in
                (hs, d, n, ground arith, r, ground (arith, made, out.1), sum, shape)
          ]
          | inr (inl (x, r)) ↦ absurd (ground arith)
          | inr (inr r) ↦ absurd (ground arith)
        ]
      ]

-- The packet that comes back: its headers are the packet's and, behind them, the body header of the
-- bytes that the producer wrote. At the end of the body the opcode Continue has become Success and
-- the final bit is set.
abbrev pub ReadsBackWith : {A : Type 0} → GObexPacket A → GObexPacket A → Bytes → Type 0
ReadsBackWith pkt' pkt d =
    (pkt'.opcode ≡ sent_opcode pkt d)
    × (pkt'.final ≡ sent_final pkt d)
    × (get_data pkt' ≡ get_data pkt)
    × SameHeaders pkt'.headers (pkt.headers ++ (body_header d ∷ []))

SameHeaders-append :
    (xs ys : List GObexHeader) (x y : GObexHeader)
    → SameHeaders xs ys
    → SameHeader x y
    → SameHeaders (xs ++ (x ∷ [])) (ys ++ (y ∷ []))
SameHeaders-append [] [] x y h k = (k, tt)
SameHeaders-append [] (b ∷ ys) x y h k = absurd h
SameHeaders-append (a ∷ xs) [] x y h k = absurd h
SameHeaders-append (a ∷ xs) (b ∷ ys) x y (h, hs) k = (h, SameHeaders-append xs ys x y hs k)

start-ReadsBackWith :
    {A : Type 0} (policy : GObexDataPolicy) (pkt : GObexPacket A) (d : Bytes)
    (hs : List GObexHeader) (n : ℕ)
    → policy ≢ inherit
    → pkt.opcode < 128
    → IsPacket pkt
    → SameHeaders hs (pkt.headers ++ (body_header d ∷ []))
    → ReadsBackWith (extend (start policy (sent_byte pkt d) (data_bytes pkt)) hs n) pkt d
unfolding get_data
start-ReadsBackWith {A} policy pkt d hs n np small w same =
    let (op, fin) = sent_byte_bits pkt d small in
    let (o, f, data_eq, empty) = start_fields A policy (sent_byte pkt d) (data_bytes pkt) np in
    let (shows, _) = data_bytes_fields pkt.buf pkt.data_len w.1 in
    (
      o ∙ op,
      f ∙ fin,
      data_eq ∙ sym shows,
      subst (λ l. SameHeaders (l ++ hs) (pkt.headers ++ (body_header d ∷ []))) (sym empty) same,
    )

-- Reading the last header ends the loop.
parse_body :
    {A : Type 0} (g : Glib) (policy : GObexDataPolicy) (fuel : ℕ) (d : Bytes) (pkt : GObexPacket A)
    → IsConverting g
    → policy ≢ inherit
    → length d + 3 < 2 ^ 16
    → length (body_bytes d) ≤ fuel
    → (h : GObexHeader) × (parse_headers g policy fuel (body_bytes d) pkt
        ≡ ok (extend pkt (h ∷ []) (length d + 3)))
      × SameHeader h (body_header d)
parse_body g policy zero d pkt laws np short le = absurd (omega arith)
parse_body g policy (suc fuel) d pkt laws np short le =
    let (h, read, i, l, p) =
      header_back g policy (body_header d) (length d + 3) (body_bytes d) [] (length d + 3) laws np
        (body_header-IsWellFormed d) (short, tt) (encode_body_header g d) in
    let size : length (body_bytes d) ≡ length d + 3 =
      omega (arith, length-append (put_be16 (length d + 3)) d, length-put_be16 (length d + 3)) in
    (
      h,
      ap (λ b. parse_headers g policy (suc fuel) b pkt) (sym (append-nil (body_bytes d)))
          ∙ parse_headers_step g policy fuel (body_bytes d ++ []) pkt h (length d + 3) read
          ∙ ap (λ b. parse_headers g policy fuel b (extend pkt (h ∷ []) (length d + 3)))
              (drop_front (length d + 3) (body_bytes d) [] (sym size))
          ∙ parse_headers_nil g policy fuel _,
      (i, l, p),
    )

extend-append :
    {A : Type 0} (pkt : GObexPacket A) (hs : List GObexHeader) (h : GObexHeader) (m n : ℕ)
    → extend (extend pkt hs m) (h ∷ []) n ≡ extend pkt (hs ++ (h ∷ [])) (m + n)
extend-append pkt hs h m n = ground (arith, append_assoc pkt.headers hs (h ∷ []))

-- A packet with a body producer is decoded to the packet with the produced bytes as its last header,
-- the end of the body marked as the protocol wants it. The conditions are those for a packet
-- without a producer; there is no bound on what the producer does but that the packet's length, and
-- so the body's, fits two bytes.
pub decode-encode_body :
    {A S : Type 0} (g : Glib) (produce : A → ℕ → S → Produced × S) (policy : GObexDataPolicy)
    (pkt : GObexPacket A) (f : A) (len : ℕ) (s s' : S) (bs : Bytes) (count : ℕ)
    → IsConverting g
    → policy ≢ inherit
    → IsPacket pkt
    → All Fits pkt.headers
    → pkt.opcode < 128
    → count < 2 ^ 16
    → pkt.get_body ≡ some f
    → encode g produce pkt len s ≡ (encoded bs count, s')
    → (d : Bytes) × (n : ℕ) × (pkt' : GObexPacket A) × (produce f n s ≡ (bytes d, s'))
      × (decode g policy pkt.data_len bs ≡ ok pkt')
      × ReadsBackWith pkt' pkt d
decode-encode_body {A} g produce policy pkt f len s s' bs count laws np w fits small short has e =
    let (hs, d, n, room, eh, made, sum, shape) =
      encode_produced g produce pkt f len s s' bs count has e in
    let (size, total, le) =
      encode_headers_bounds g len pkt.headers (3 + pkt.data_len) hs n w.0 room eh in
    let (_, data_len) = data_bytes_fields pkt.buf pkt.data_len w.1 in
    let op : ℕ = sent_byte pkt d in
    let front : GObexPacket A = start policy op (data_bytes pkt) in
    let body_len : length (body_bytes d) ≡ length d + 3 =
      omega (arith, length-append (put_be16 (length d + 3)) d, length-put_be16 (length d + 3)) in
    let tail : Bytes = hs ++ body_bytes d in
    let tail_len : length tail ≡ length hs + length (body_bytes d) =
      length-append hs (body_bytes d) in
    let all_len : length (data_bytes pkt ++ tail) ≡ length (data_bytes pkt) + length tail =
      length-append (data_bytes pkt) tail in
    let (hs', fuel', enough, path, same) =
      encode_headers-ParsesOn g policy laws np len pkt.headers (3 + pkt.data_len) hs (body_bytes d)
        n (length tail) front w.0 fits eh (omega arith) in
    let (h, last, same_body) =
      parse_body g policy fuel' d (extend front hs' (length hs)) laws np (omega arith) enough in
    (
      d,
      len - n - 3,
      extend front (hs' ++ (h ∷ [])) (length hs + (length d + 3)),
      made,
      ap (decode g policy pkt.data_len) (
            shape
            ∙ ap (λ b. op ∷ put_be16 count ++ b) (append_assoc (data_bytes pkt) hs (body_bytes d)))
          ∙ decode_framed g policy pkt.data_len op count (data_bytes pkt ++ tail) np (omega arith)
              short (omega arith)
          ∙ decode_body_front g policy pkt.data_len op (data_bytes pkt) tail (sym data_len)
          ∙ path
          ∙ last
          ∙ ap ok (extend-append front hs' h (length hs) (length d + 3)),
      start-ReadsBackWith policy pkt d (hs' ++ (h ∷ [])) (length hs + (length d + 3)) np small w
          (SameHeaders-append hs' pkt.headers h (body_header d) same same_body),
    )
