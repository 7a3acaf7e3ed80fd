-- ===== src/Gobex/Header/Written.antt =====
-- What g_obex_header_encode writes.
use map_client.Base.{
  ℕ, ◌+◌, ◌*◌, ◌≤◌, ◌≡◌, inl, inr, Bool, some, List, [], ◌∷◌, ◌++◌, arith, length, length-append,
  Option-cases, take-length,
}
use map_client.Base.Endian.{length-put_be16, length-put_be32, Bytes, put_be16, put_be32}
use map_client.Gobex.Defs.{Glib, be_units}
use map_client.Gobex.Header.{
  GObexHeader, Value, string, data_copy, extdata_ref, u8, u32, c_string, string_of,
}
use map_client.Gobex.Header.Codec.{written, encode, encode_unicode, utf8_to_utf16}
use map_client.Gobex.Header.WellFormed.{IsWellFormed}

pub length-be_units : (us : List ℕ) → length (be_units us) ≡ 2 * length us
unfolding put_be16
length-be_units [] = omega arith
length-be_units (u ∷ us) = omega (arith, length-be_units us)

length-utf8_to_utf16 :
    (g : Glib) (s : Bytes) (u : Bytes) (n : ℕ) → utf8_to_utf16 g s ≡ some (u, n) → length u ≡ n
unfolding utf8_to_utf16
length-utf8_to_utf16 g [] u n e = ground arith
length-utf8_to_utf16 g (c ∷ cs) u n e = elim (Option-cases (g.utf8_to_utf16 (c ∷ cs))) [
  | inl none_e ↦ ground arith
  | inr (us, some_e) ↦
      ground
        (arith, length-append (be_units us) (put_be16 0), length-be_units us, length-put_be16 0)
]

encode_unicode_written :
    (g : Glib) (h : GObexHeader) (n : ℕ) (bs : Bytes) (r : ℕ)
    → encode_unicode g h n ≡ written bs r
    → (u : Bytes) × (utf8_to_utf16 g (c_string (string_of h.v)) ≡ some (u, length u))
      × (length u + 3 ≡ h.hlen)
      × (bs ≡ h.id ∷ put_be16 h.hlen ++ u)
      × (r ≡ h.hlen)
unfolding encode_unicode
encode_unicode_written g h n bs r e =
    elim (Option-cases (utf8_to_utf16 g (c_string (string_of h.v)))) [
      | inl none_e ↦ ground arith
      | inr ((u, k), some_e) ↦
          let l = length-utf8_to_utf16 g (c_string (string_of h.v)) u k some_e in
          (u, ground arith, ground arith, ground arith, ground arith)
    ]

-- What stands in the buffer after a successful encoding, by the kind of value.
abbrev pub Shape : Glib → GObexHeader → Value → Bytes → Type 0
Shape g h (string s) bs =
    (u : Bytes) × (utf8_to_utf16 g (c_string s) ≡ some (u, length u))
    × (length u + 3 ≡ h.hlen)
    × (bs ≡ h.id ∷ put_be16 h.hlen ++ u)
Shape g h (data_copy b) bs = bs ≡ h.id ∷ put_be16 h.hlen ++ b
Shape g h (extdata_ref b) bs = bs ≡ h.id ∷ put_be16 h.hlen ++ b
Shape g h (u8 n) bs = bs ≡ h.id ∷ n ∷ []
Shape g h (u32 n) bs = bs ≡ h.id ∷ put_be32 n

module _ (g : Glib) (id vlen hlen : ℕ) (extdata : Bool) where
  abbrev pub with_value : Value → GObexHeader
  with_value v = record { id = id; extdata = extdata; vlen = vlen; hlen = hlen; v = v }

  encode-Shape_at :
      (v : Value) (n : ℕ) (bs : Bytes) (r : ℕ)
      → IsWellFormed (with_value v)
      → encode g (with_value v) n ≡ written bs r
      → (hlen ≤ n) × (r ≡ hlen) × Shape g (with_value v) v bs
  unfolding encode
  encode-Shape_at (string s) n bs r w e =
      let (u, p, q, b, t) =
        encode_unicode_written g (with_value (string s)) n bs r (ground arith) in
      (ground arith, t, (u, p, q, b))
  encode-Shape_at (data_copy b) n bs r w e = ground (arith, take-length b)
  encode-Shape_at (extdata_ref b) n bs r w e = ground (arith, take-length b)
  encode-Shape_at (u8 b) n bs r w e = ground arith
  encode-Shape_at (u32 b) n bs r w e = ground arith

  length-Shape :
      (v : Value) (bs : Bytes)
      → IsWellFormed (with_value v)
      → Shape g (with_value v) v bs
      → length bs ≡ hlen
  length-Shape (string s) bs w (u, _, l, e) =
      ground (arith, length-append (put_be16 hlen) u, length-put_be16 hlen)
  length-Shape (data_copy b) bs w e =
      ground (arith, length-append (put_be16 hlen) b, length-put_be16 hlen)
  length-Shape (extdata_ref b) bs w e =
      ground (arith, length-append (put_be16 hlen) b, length-put_be16 hlen)
  length-Shape (u8 b) bs w e = ground arith
  length-Shape (u32 b) bs w e = ground (arith, length-put_be32 b)

pub encode-Shape :
    (g : Glib) (h : GObexHeader) (n : ℕ) (bs : Bytes) (r : ℕ)
    → IsWellFormed h
    → encode g h n ≡ written bs r
    → (h.hlen ≤ n) × (r ≡ h.hlen) × Shape g h h.v bs
encode-Shape g h = encode-Shape_at g h.id h.vlen h.hlen h.extdata h.v

-- For a well-formed header the encoder, if it succeeds, writes exactly the header's length, returns
-- it, and stays within the buffer.
pub encode_bounds :
    (g : Glib) (h : GObexHeader) (n : ℕ) (bs : Bytes) (r : ℕ)
    → IsWellFormed h
    → encode g h n ≡ written bs r
    → (length bs ≡ h.hlen) × (r ≡ h.hlen) × (h.hlen ≤ n)
encode_bounds g h n bs r w e =
    let (le, ret, shape) = encode-Shape g h n bs r w e in
    (length-Shape g h.id h.vlen h.hlen h.extdata h.v bs w shape, ret, le)
