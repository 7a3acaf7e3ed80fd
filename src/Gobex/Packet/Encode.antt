-- ===== src/Gobex/Packet/Encode.antt =====
-- The frame that g_obex_packet_encode writes: its length and its place in the buffer.
use map_client.Base.{
  ℕ, ◌+◌, ◌-◌, ◌%◌, ◌^◌, ◌≤◌, ◌<◌, ◌≡◌, refl, ◌⊎◌, inl, inr, Option, some, none, List, [], ◌∷◌,
  ◌++◌, length, take, drop, All, ltb, arith, length-take, length-append, Bool-cases, Option-cases,
  ltb→le,
}
use map_client.Base.Endian.{Bytes, put_be16, get_be16, get_be16-put_be16, length-put_be16}
use map_client.Gobex.Defs.{Glib}
use map_client.Gobex.Header.{GObexHeader}
use map_client.Gobex.Header.Codec.{Encoded, written, failed, asserted, encode as encode_header}
use map_client.Gobex.Header.WellFormed.{IsWellFormed}
use map_client.Gobex.Header.Written.{encode_bounds as header_bounds}
use map_client.Gobex.Header.Build.{total_hlen}
use map_client.Gobex.Packet.{GObexPacket, hdr_body, hdr_body_end}
use map_client.Gobex.Packet.Codec.{
  Produced, bytes, errno, Encoding, encoded, fails, assertion_failed, encode_headers, encode_body,
  encode, data_bytes, first_byte, last_byte, assemble, with_body,
}

Encoded-cases :
    (r : Encoded) → ((bs : Bytes) × (n : ℕ) × (r ≡ written bs n)) ⊎ ((r ≡ failed) ⊎ (r ≡ asserted))
Encoded-cases (written bs n) = inl (bs, n, refl)
Encoded-cases failed = inr (inl refl)
Encoded-cases asserted = inr (inr refl)

pub Encoding-cases :
    (r : Encoding)
    → ((bs : Bytes) × (n : ℕ) × (r ≡ encoded bs n))
      ⊎ (((e : ℕ) × (r ≡ fails e)) ⊎ (r ≡ assertion_failed))
Encoding-cases (encoded bs n) = inl (bs, n, refl)
Encoding-cases (fails e) = inr (inl (e, refl))
Encoding-cases assertion_failed = inr (inr refl)

-- One round of the loop, where it succeeds.
pub encode_headers_cons :
    (g : Glib) (len : ℕ) (h : GObexHeader) (hs : List GObexHeader) (count : ℕ) (bs : Bytes)
    (total : ℕ)
    → encode_headers g len (h ∷ hs) count ≡ encoded bs total
    → (front back : Bytes) × (ret : ℕ) × (count < len)
      × (encode_header g h (len - count) ≡ written front ret)
      × (encode_headers g len hs (count + ret) ≡ encoded back total)
      × (bs ≡ front ++ back)
unfolding encode_headers
encode_headers_cons g len h hs count bs total e =
    elim (Encoded-cases (encode_header g h (len - count))) [
      | inl (front, ret, w) ↦ elim (Encoding-cases (encode_headers g len hs (count + ret))) [
        | inl (back, t, r) ↦ (front, back, ret, ground arith, w, ground arith, ground arith)
        | inr (inl (x, r)) ↦ absurd (ground arith)
        | inr (inr r) ↦ absurd (ground arith)
      ]
      | inr (inl w) ↦ absurd (ground arith)
      | inr (inr w) ↦ absurd (ground arith)
    ]

-- The loop writes the headers' lengths in bytes behind `count`, and stays within the buffer.
pub encode_headers_bounds :
    (g : Glib) (len : ℕ) (hs : List GObexHeader) (count : ℕ) (bs : Bytes) (total : ℕ)
    → All IsWellFormed hs
    → count ≤ len
    → encode_headers g len hs count ≡ encoded bs total
    → (length bs ≡ total_hlen hs) × (total ≡ count + length bs) × (total ≤ len)
unfolding encode_headers
encode_headers_bounds g len [] count bs total w le e = ground arith
encode_headers_bounds g len (h ∷ hs) count bs total (w, ws) le e =
    let (front, back, ret, lt, one, more, split) =
      encode_headers_cons g len h hs count bs total e in
    let (size, result, room) = header_bounds g h (len - count) front ret w one in
    let (size', result', room') =
      encode_headers_bounds g len hs (count + ret) back total ws (omega arith) more in
    ground (arith, length-append front back)

-- The data that the packet's pointer shows is as long as the packet says.
abbrev pub HasData : Option Bytes → ℕ → Type 0
HasData none n = n ≡ 0
HasData (some d) n = n ≡ length d

abbrev pub IsPacket : {A : Type 0} → GObexPacket A → Type 0
IsPacket pkt = All IsWellFormed pkt.headers × HasData pkt.buf pkt.data_len

length-data :
    (d : Option Bytes) (n : ℕ) → HasData d n → length (elim d [ none ↦ [] | some b ↦ take n b ]) ≡ n
length-data none n h = ground arith
length-data (some d) n h = ground (arith, length-take n d)

-- A body producer writes no more than it was asked for.
abbrev pub Respects : {A S : Type 0} → (A → ℕ → S → Produced × S) → Type 0
Respects {A} {S} produce =
    (f : A) (n : ℕ) (s : S) (d : Bytes) → (produce f n s).0 ≡ bytes d → length d ≤ n

abbrev pub IsFramed : ℕ → Encoding → Type 0
IsFramed len (encoded bs count) =
    (length bs ≡ count) × (count ≤ len) × (get_be16 (drop 1 bs) ≡ count % 2 ^ 16)
IsFramed len _ = Unit {0}

assemble-IsFramed :
    (len op : ℕ) (body : Bytes) (count : ℕ)
    → length body + 3 ≡ count
    → count ≤ len
    → IsFramed len (assemble op body count)
assemble-IsFramed len op body count e le = ground (
  arith,
  length-append (put_be16 count) body,
  length-put_be16 count,
  get_be16-put_be16 count body,
)

module _ {A S : Type 0} (g : Glib) (produce : A → ℕ → S → Produced × S)
    (respects : Respects produce) where
  with_body-IsFramed :
      (pkt : GObexPacket A) (len : ℕ) (front : Bytes) (count : ℕ) (p : Produced)
      → length front + 3 ≡ count
      → count + 3 ≤ len
      → ((d : Bytes) → p ≡ bytes d → length d ≤ len - count - 3)
      → IsFramed len (with_body pkt front count p)
  with_body-IsFramed pkt len front count (errno x) e le fit = tt
  with_body-IsFramed pkt len front count (bytes []) e le fit =
      assemble-IsFramed len (last_byte pkt) (front ++ (hdr_body_end ∷ put_be16 3)) (count + 3)
        (omega (arith, length-append front (hdr_body_end ∷ put_be16 3), length-put_be16 3)) le
  with_body-IsFramed pkt len front count (bytes (b ∷ bs)) e le fit =
      assemble-IsFramed len (first_byte pkt)
        (front ++ (hdr_body ∷ put_be16 (length (b ∷ bs) + 3) ++ (b ∷ bs)))
        (count + (length (b ∷ bs) + 3))
        (omega (
          arith,
          length-append front (hdr_body ∷ put_be16 (length (b ∷ bs) + 3) ++ (b ∷ bs)),
          length-append (put_be16 (length (b ∷ bs) + 3)) (b ∷ bs),
          length-put_be16 (length (b ∷ bs) + 3),
        ))
        (omega (arith, fit (b ∷ bs) refl))

  encode_body-IsFramed :
      (pkt : GObexPacket A) (len : ℕ) (front : Bytes) (count : ℕ) (s : S)
      → length front + 3 ≡ count
      → count ≤ len
      → IsFramed len (encode_body g produce pkt len front count s).0
  unfolding encode_body
  encode_body-IsFramed pkt len front count s e le = elim (Option-cases pkt.get_body) [
    | inl none_f ↦
        rw (none_f, encode_body) (assemble-IsFramed len (first_byte pkt) front count e le)
    | inr (f, some_f) ↦ elim (Bool-cases (ltb (len - count) 3)) [
      | inl short ↦ rw (some_f, encode_body, short) tt
      | inr room ↦
          rw (some_f, encode_body, room)
            (with_body-IsFramed pkt len front count (produce f (len - count - 3) s).0 e
              (ground arith) (λ d q. respects f (len - count - 3) s d q))
    ]
  ]

  -- For a well-formed packet and a producer that gives no more than it is asked for: what the encoder
  -- writes lies within the buffer, is as long as the count that it returns, and carries that count as
  -- its length field.
  pub encode-IsFramed :
      (pkt : GObexPacket A) (len : ℕ) (s : S)
      → IsPacket pkt
      → IsFramed len (encode g produce pkt len s).0
  unfolding encode
  encode-IsFramed pkt len s (w, d) = elim (Bool-cases (ltb len (3 + pkt.data_len + pkt.hlen))) [
    | inl short ↦ rw (short, encode) tt
    | inr room ↦ elim (Encoding-cases (encode_headers g len pkt.headers (3 + pkt.data_len))) [
      | inl (hs, n, r) ↦
          let (size, total, le) =
            encode_headers_bounds g len pkt.headers (3 + pkt.data_len) hs n w
              (omega (arith, ltb→le _ _ room)) r in
          rw (room, encode, r)
            (encode_body-IsFramed pkt len (data_bytes pkt ++ hs) n s
              (omega (arith, length-append (data_bytes pkt) hs, length-data pkt.buf pkt.data_len d))
              le)
      | inr (inl (x, r)) ↦ rw (room, encode, r) tt
      | inr (inr r) ↦ rw (room, encode, r) tt
    ]
  ]

module _ {A S : Type 0} (g : Glib) (produce : A → ℕ → S → Produced × S) where
  encode_body-state :
      (pkt : GObexPacket A) (len : ℕ) (front : Bytes) (count : ℕ) (s : S)
      → ((encode_body g produce pkt len front count s).1 ≡ s)
        ⊎ ((f : A) × (n : ℕ) × ((encode_body g produce pkt len front count s).1
              ≡ (produce f n s).1))
  unfolding encode_body
  encode_body-state pkt len front count s = elim (Option-cases pkt.get_body) [
    | inl none_f ↦ inl (rw (none_f, encode_body))
    | inr (f, some_f) ↦ elim (Bool-cases (ltb (len - count) 3)) [
      | inl short ↦ inl (rw (some_f, encode_body, short))
      | inr room ↦ inr (f, len - count - 3, rw (some_f, encode_body, room))
    ]
  ]

  -- The encoder changes the state by its producer alone.
  pub encode-state :
      (pkt : GObexPacket A) (len : ℕ) (s : S)
      → ((encode g produce pkt len s).1 ≡ s)
        ⊎ ((f : A) × (n : ℕ) × ((encode g produce pkt len s).1 ≡ (produce f n s).1))
  unfolding encode
  encode-state pkt len s = elim (Bool-cases (ltb len (3 + pkt.data_len + pkt.hlen))) [
    | inl short ↦ inl (rw (short, encode))
    | inr room ↦ elim (Encoding-cases (encode_headers g len pkt.headers (3 + pkt.data_len))) [
      | inl (hs, n, r) ↦ rw (room, encode, r) (encode_body-state pkt len (data_bytes pkt ++ hs) n s)
      | inr (inl (x, r)) ↦ inl (rw (room, encode, r))
      | inr (inr r) ↦ inl (rw (room, encode, r))
    ]
  ]
