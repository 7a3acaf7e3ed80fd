-- ===== src/Gobex/Packet/RoundTrip.antt =====
-- The round trip of a packet through g_obex_packet_encode and g_obex_packet_decode.
use map_client.Base.{
  ℕ, zero, suc, ◌+◌, ◌-◌, ◌^◌, ◌≤◌, ◌<◌, ◌≡◌, ◌≢◌, refl, sym, subst, ap, ◌∙◌, inl, inr, Option,
  some, none, List, [], ◌∷◌, ◌++◌, bit_and, length, take, drop, take_front, drop_front, All, ltb,
  ◌==◌, not, if◌then◌else◌, arith, append-nil, append_assoc, length-append, take-length, Bool-cases,
}
use map_client.Base.Bits.{bit_and_0x7f, bit_and_0x80, bit_or_0x80}
use map_client.Base.Endian.{Bytes, put_be16, get_be16-put_be16}
use map_client.Gobex.Defs.{Glib, IsConverting, GObexDataPolicy, inherit, copy, ref, ok}
use map_client.Gobex.Header.{GObexHeader}
use map_client.Gobex.Header.Codec.{decode as decode_header}
use map_client.Gobex.Header.WellFormed.{IsWellFormed, decode-IsParsed}
use map_client.Gobex.Header.RoundTrip.{Fits, payload, encode-ReadsBack as header_back}
use map_client.Gobex.Header.Written.{encode_bounds as header_bounds}
use map_client.Gobex.Packet.{GObexPacket, empty_packet, set_data, get_data}
use map_client.Gobex.Packet.Codec.{
  Produced, encoded, encode_headers, encode_body, encode, data_bytes, first_byte, parse_headers,
  decode_body, decode, final_bit,
}
use map_client.Gobex.Packet.Decode.{extend}
use map_client.Gobex.Packet.Encode.{
  Encoding-cases, encode_headers_cons, encode_headers_bounds, IsPacket, HasData,
}

-- The same headers, up to whose buffer holds the bytes.
abbrev pub SameHeader : GObexHeader → GObexHeader → Type 0
SameHeader h' h = (h'.id ≡ h.id) × (h'.hlen ≡ h.hlen) × (payload h'.v ≡ payload h.v)

abbrev pub SameHeaders : List GObexHeader → List GObexHeader → Type 0
SameHeaders [] [] = Unit {0}
SameHeaders (h' ∷ hs') (h ∷ hs) = SameHeader h' h × SameHeaders hs' hs
SameHeaders _ _ = ⊥

extend-extend :
    {A : Type 0} (pkt : GObexPacket A) (h : GObexHeader) (hs : List GObexHeader) (m n k : ℕ)
    → m + n ≡ k
    → extend (extend pkt (h ∷ []) m) hs n ≡ extend pkt (h ∷ hs) k
extend-extend pkt h hs m n k e = ground (arith, append_assoc pkt.headers (h ∷ []) hs)

module _ {A : Type 0} (g : Glib) (policy : GObexDataPolicy) where
  -- One round of the loop, where the header is read.
  pub parse_headers_step :
      (fuel : ℕ) (buf : Bytes) (pkt : GObexPacket A) (h : GObexHeader) (n : ℕ)
      → decode_header g policy buf ≡ ok (h, n)
      → parse_headers g policy (suc fuel) buf pkt
        ≡ parse_headers g policy fuel (drop n buf) (extend pkt (h ∷ []) n)
  unfolding parse_headers
  parse_headers_step fuel [] pkt h n e = unfold decode_header in cc
  parse_headers_step fuel (b ∷ bs) pkt h n e = rw (e, parse_headers)

  abbrev pub ParsesOn : ℕ → Bytes → Bytes → GObexPacket A → List GObexHeader → Type 0
  ParsesOn fuel bs rest pkt hs =
      (hs' : List GObexHeader) × (fuel' : ℕ) × (length rest ≤ fuel')
      × (parse_headers g policy fuel (bs ++ rest) pkt
          ≡ parse_headers g policy fuel' rest (extend pkt hs' (length bs)))
      × SameHeaders hs' hs

  module _ (laws : IsConverting g) (np : policy ≢ inherit) where
    pub encode_headers-ParsesOn :
        (len : ℕ) (hs : List GObexHeader) (count : ℕ) (bs rest : Bytes) (total fuel : ℕ)
        (pkt : GObexPacket A)
        → All IsWellFormed hs
        → All Fits hs
        → encode_headers g len hs count ≡ encoded bs total
        → length bs + length rest ≤ fuel
        → ParsesOn fuel bs rest pkt hs
    unfolding encode_headers
    encode_headers-ParsesOn len [] count bs rest total fuel pkt w f e le =
        let bs_nil : bs ≡ [] = ground arith in
        (
          [],
          fuel,
          omega arith,
          rw bs_nil
              (ap (parse_headers g policy fuel rest) (ground (arith, append-nil pkt.headers))),
          tt,
        )
    encode_headers-ParsesOn len (h ∷ hs) count bs rest total zero pkt (w, ws) (f, fs) e le =
        let (front, back, ret, lt, one, more, split) =
          encode_headers_cons g len h hs count bs total e in
        let (size, result, room) = header_bounds g h (len - count) front ret w one in
        let (h', d, i, l, p) =
          header_back g policy h (len - count) front (back ++ rest) ret laws np w f one in
        let (_, _, two, _) = decode-IsParsed g policy (front ++ (back ++ rest)) h' h.hlen d in
        absurd (omega (arith, ap length split, length-append front back))
    encode_headers-ParsesOn len (h ∷ hs) count bs rest total (suc fuel) pkt (w, ws) (f, fs) e le =
        let (front, back, ret, lt, one, more, split) =
          encode_headers_cons g len h hs count bs total e in
        let (size, result, room) = header_bounds g h (len - count) front ret w one in
        let (h', d, i, l, p) =
          header_back g policy h (len - count) front (back ++ rest) ret laws np w f one in
        let (_, _, two, _) = decode-IsParsed g policy (front ++ (back ++ rest)) h' h.hlen d in
        let lengths : length bs ≡ length front + length back =
          omega (arith, ap length split, length-append front back) in
        let (hs', fuel', le', path, same) =
          encode_headers-ParsesOn len hs (count + ret) back rest total fuel
            (extend pkt (h' ∷ []) h.hlen) ws fs more (omega arith) in
        (
          h' ∷ hs',
          fuel',
          le',
          ap (λ b. parse_headers g policy (suc fuel) b pkt)
                (ap (λ b. b ++ rest) split ∙ append_assoc front back rest)
              ∙ parse_headers_step fuel (front ++ (back ++ rest)) pkt h' h.hlen d
              ∙ ap (λ b. parse_headers g policy fuel b (extend pkt (h' ∷ []) h.hlen))
                  (drop_front h.hlen front (back ++ rest) (sym size))
              ∙ path
              ∙ ap (parse_headers g policy fuel' rest)
                  (extend-extend pkt h' hs' h.hlen (length back) (length bs) (omega arith)),
          ((i, l, p), same),
        )

-- What g_obex_packet_get_data gives for data.
abbrev pub shown : Bytes → Option Bytes × ℕ
shown d = if length d == 0 then (none, 0) else (some d, length d)

-- The packet before its headers are parsed.
abbrev pub start : {A : Type 0} → GObexDataPolicy → ℕ → Bytes → GObexPacket A
start policy op d =
    let pkt = empty_packet (bit_and op 0x7f) (not (bit_and op final_bit == 0)) [] 0 in
    if length d == 0 then pkt else (set_data pkt d policy).0

pub start_fields :
    (A : Type 0) (policy : GObexDataPolicy) (op : ℕ) (d : Bytes)
    → policy ≢ inherit
    → ((start {A = A} policy op d).opcode ≡ bit_and op 0x7f)
      × ((start {A = A} policy op d).final ≡ not (bit_and op final_bit == 0))
      × (get_data (start {A = A} policy op d) ≡ shown d)
      × ((start {A = A} policy op d).headers ≡ [])
unfolding set_data get_data
start_fields A policy op d np = ground arith

pub data_bytes_fields :
    (buf : Option Bytes) (n : ℕ)
    → HasData buf n
    → let d : Bytes = elim buf [ none ↦ [] | some b ↦ take n b ] in
      ((if n == 0 then (none, 0) else (buf, n)) ≡ shown d) × (length d ≡ n)
data_bytes_fields none n h = ground arith
data_bytes_fields (some d) n h = ground (arith, take-length d)

pub first_byte_bits :
    {A : Type 0} (pkt : GObexPacket A)
    → pkt.opcode < 128
    → (bit_and (first_byte pkt) 0x7f ≡ pkt.opcode)
      × (not (bit_and (first_byte pkt) final_bit == 0) ≡ pkt.final)
first_byte_bits pkt h = ground (
  arith,
  bit_or_0x80 pkt.opcode,
  bit_and_0x7f pkt.opcode,
  bit_and_0x7f (pkt.opcode + 128),
  bit_and_0x80 pkt.opcode,
  bit_and_0x80 (pkt.opcode + 128),
)

module _ {A : Type 0} (g : Glib) where
  pub decode_framed :
      (policy : GObexDataPolicy) (off op count : ℕ) (rest : Bytes)
      → policy ≢ inherit
      → count ≡ length rest + 3
      → count < 2 ^ 16
      → off ≤ length rest
      → decode {A = A} g policy off (op ∷ put_be16 count ++ rest) ≡ decode_body g policy off op rest
  unfolding decode put_be16
  decode_framed inherit off op count rest np e small le = absurd (np refl)
  decode_framed copy off op count rest np e small le = ground (arith, get_be16-put_be16 count rest)
  decode_framed ref off op count rest np e small le = ground (arith, get_be16-put_be16 count rest)

  pub decode_body_front :
      (policy : GObexDataPolicy) (off op : ℕ) (d tail : Bytes)
      → off ≡ length d
      → decode_body {A = A} g policy off op (d ++ tail)
        ≡ parse_headers g policy (length tail) tail (start policy op d)
  unfolding decode_body
  decode_body_front policy off op d tail e =
      rw (e, take_front (length d) d tail refl, drop_front (length d) d tail refl)

-- The packet that comes back: opcode, final bit and data as they were, and the headers up to whose
-- buffer holds their bytes.
abbrev pub ReadsBack : {A : Type 0} → GObexPacket A → GObexPacket A → Type 0
ReadsBack pkt' pkt =
    (pkt'.opcode ≡ pkt.opcode)
    × (pkt'.final ≡ pkt.final)
    × (get_data pkt' ≡ get_data pkt)
    × SameHeaders pkt'.headers pkt.headers

module _ {A S : Type 0} (g : Glib) (produce : A → ℕ → S → Produced × S) where
  -- What a successful encoding without a body producer has written.
  encode_plain :
      (pkt : GObexPacket A) (len : ℕ) (s s' : S) (bs : Bytes) (count : ℕ)
      → pkt.get_body ≡ none
      → encode g produce pkt len s ≡ (encoded bs count, s')
      → (hs : Bytes) × (3 + pkt.data_len ≤ len)
        × (encode_headers g len pkt.headers (3 + pkt.data_len) ≡ encoded hs count)
        × (bs ≡ first_byte pkt ∷ put_be16 count ++ (data_bytes pkt ++ hs))
  unfolding encode encode_body
  encode_plain pkt len s s' bs count nobody e =
      elim (Bool-cases (ltb len (3 + pkt.data_len + pkt.hlen))) [
        | inl short ↦ absurd (ground arith)
        | inr room ↦ elim (Encoding-cases (encode_headers g len pkt.headers (3 + pkt.data_len))) [
          | inl (hs, n, r) ↦ (hs, ground arith, ground arith, ground arith)
          | inr (inl (x, r)) ↦ absurd (ground arith)
          | inr (inr r) ↦ absurd (ground arith)
        ]
      ]

pub parse_headers_nil :
    {A : Type 0} (g : Glib) (policy : GObexDataPolicy) (fuel : ℕ) (pkt : GObexPacket A)
    → parse_headers g policy fuel [] pkt ≡ ok pkt
unfolding parse_headers
parse_headers_nil g policy zero pkt = refl
parse_headers_nil g policy (suc fuel) pkt = refl

-- The started packet with its headers is what the original was.
start-ReadsBack :
    {A : Type 0} (policy : GObexDataPolicy) (pkt : GObexPacket A) (hs : List GObexHeader) (n : ℕ)
    → policy ≢ inherit
    → pkt.opcode < 128
    → HasData pkt.buf pkt.data_len
    → SameHeaders hs pkt.headers
    → ReadsBack (extend (start policy (first_byte pkt) (data_bytes pkt)) hs n) pkt
unfolding get_data
start-ReadsBack {A} policy pkt hs n np small d same =
    let (op, fin) = first_byte_bits pkt small in
    let (o, f, data_eq, empty) = start_fields A policy (first_byte pkt) (data_bytes pkt) np in
    let (shows, _) = data_bytes_fields pkt.buf pkt.data_len d in
    (
      o ∙ op,
      f ∙ fin,
      data_eq ∙ sym shows,
      subst (λ l. SameHeaders (l ++ hs) pkt.headers) (sym empty) same,
    )

-- A packet without a body producer that was encoded is decoded to the same packet: the same opcode,
-- final bit, data and headers. The packet is well formed, its opcode leaves the final bit free, its
-- headers' lengths and its own fit two bytes; the decoder is told the length of the data and asked for a copy or a
-- reference; and the conversion of UTF-16 back undoes the one forth.
pub decode-encode_plain :
    {A S : Type 0} (g : Glib) (produce : A → ℕ → S → Produced × S) (policy : GObexDataPolicy)
    (pkt : GObexPacket A) (len : ℕ) (s s' : S) (bs : Bytes) (count : ℕ)
    → IsConverting g
    → policy ≢ inherit
    → IsPacket pkt
    → All Fits pkt.headers
    → pkt.opcode < 128
    → count < 2 ^ 16
    → pkt.get_body ≡ none
    → encode g produce pkt len s ≡ (encoded bs count, s')
    → (pkt' : GObexPacket A) × (decode g policy pkt.data_len bs ≡ ok pkt') × ReadsBack pkt' pkt
decode-encode_plain {A} g produce policy pkt len s s' bs count laws np (w, d) fits small short
      nobody e =
    let (hs, room, eh, shape) = encode_plain g produce pkt len s s' bs count nobody e in
    let (size, total, le) =
      encode_headers_bounds g len pkt.headers (3 + pkt.data_len) hs count w room eh in
    let (_, data_len) = data_bytes_fields pkt.buf pkt.data_len d in
    let op : ℕ = first_byte pkt in
    let front : GObexPacket A = start policy op (data_bytes pkt) in
    let (hs', fuel', _, path, same) =
      encode_headers-ParsesOn g policy laws np len pkt.headers (3 + pkt.data_len) hs [] count
        (length hs) front w fits eh (omega arith) in
    (
      extend front hs' (length hs),
      ap (decode g policy pkt.data_len) shape
          ∙ decode_framed g policy pkt.data_len op count (data_bytes pkt ++ hs) np
              (omega (arith, length-append (data_bytes pkt) hs)) short
              (omega (arith, length-append (data_bytes pkt) hs))
          ∙ decode_body_front g policy pkt.data_len op (data_bytes pkt) hs (sym data_len)
          ∙ ap (λ b. parse_headers g policy (length hs) b front) (sym (append-nil hs))
          ∙ path
          ∙ parse_headers_nil g policy fuel' _,
      start-ReadsBack policy pkt hs' (length hs) np small d same,
    )
