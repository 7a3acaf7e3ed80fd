-- ===== src/Gobex/Header/RoundTrip.antt =====
-- The round trip of a header through g_obex_header_encode and g_obex_header_decode.
use map_client.Base.{
  ℕ, suc, ◌+◌, ◌-◌, ◌^◌, ◌≤◌, ◌<◌, ◌≡◌, ◌≢◌, ◌∙◌, refl, ◌⊎◌, inl, inr, Bool, false, Bool-cases,
  some, List, [], ◌∷◌, ◌++◌, arith, length, ◌==◌, length-append, take_front, append_assoc,
  Option-cases,
}
use map_client.Base.Endian.{
  length-put_be32, Bytes, put_be16, get_be16, put_be32, get_be16-put_be16, get_be32-put_be32,
}
use map_client.Gobex.Defs.{Glib, be_units, IsConverting, GObexDataPolicy, inherit, copy, ref, ok}
use map_client.Gobex.Header.{
  GObexHeader, Value, string, data_copy, extdata_ref, u8, u32, hdr_enc, enc_unicode, enc_bytes,
  enc_uint8, enc_uint32, c_string,
}
use map_client.Gobex.Header.Codec.{
  written, encode, utf8_to_utf16, decode, decode_unicode, decode_bytes, decode_data, decode_uint8,
  decode_uint32,
}
use map_client.Gobex.Header.WellFormed.{IsWellFormed}
use map_client.Gobex.Header.Written.{
  length-be_units, Shape, with_value, encode-Shape, encode_bounds,
}

pub c_string_idem : (s : Bytes) → c_string (c_string s) ≡ c_string s
unfolding c_string
c_string_idem [] = refl
c_string_idem (b ∷ bs) = elim (Bool-cases (b == 0)) [
  | inl e ↦ rw e
  | inr e ↦ rw e (rw e (rw (c_string_idem bs)))
]

-- What a reader sees of a value: of a string the part before the first zero, and of bytes no matter
-- whose buffer holds them.
abbrev pub payload : Value → Value
payload (string s) = string (c_string s)
payload (data_copy b) = data_copy b
payload (extdata_ref b) = data_copy b
payload (u8 n) = u8 n
payload (u32 n) = u32 n

-- The numbers fit the types that the C code gives them, and the length its two bytes.
abbrev pub FitsValue : Value → Type 0
FitsValue (u32 n) = n < 2 ^ 32
FitsValue _ = Unit {0}

abbrev pub Fits : GObexHeader → Type 0
Fits h = (h.hlen < 2 ^ 16) × FitsValue h.v

abbrev pub ReadsBack : Glib → GObexDataPolicy → GObexHeader → Bytes → Type 0
ReadsBack g policy h buf =
    (h' : GObexHeader) × (decode g policy buf ≡ ok (h', h.hlen))
    × (h'.id ≡ h.id)
    × (h'.hlen ≡ h.hlen)
    × (payload h'.v ≡ payload h.v)

decode_bytes_back :
    (policy : GObexDataPolicy) (id hlen len : ℕ) (d rest : Bytes)
    → hlen ≡ length d + 3
    → hlen < 2 ^ 16
    → hlen ≤ len
    → decode_bytes policy id ((put_be16 hlen ++ d) ++ rest) len ≡ decode_data policy id hlen d
unfolding decode_bytes put_be16
decode_bytes_back policy id hlen len d rest e f h =
    ground (arith, get_be16-put_be16 hlen (d ++ rest), take_front (hlen - 3) d rest)

decode_unicode_back :
    (g : Glib) (id hlen len : ℕ) (us : List ℕ) (u s rest : Bytes)
    → g.convert_utf16be (be_units us) ≡ some s
    → u ≡ be_units us ++ put_be16 0
    → length u + 3 ≡ hlen
    → hlen < 2 ^ 16
    → hlen ≤ len
    → decode_unicode g id ((put_be16 hlen ++ u) ++ rest) len
      ≡ ok (record { id = id; extdata = false; vlen = length s; hlen = hlen; v = string s }, hlen)
unfolding decode_unicode put_be16
decode_unicode_back g id hlen len us u s rest c shape e f h = ground (
  arith,
  get_be16-put_be16 hlen ((be_units us ++ put_be16 0) ++ rest),
  append_assoc (be_units us) (put_be16 0) rest,
  length-append (be_units us) (put_be16 0),
  length-be_units us,
  take_front (hlen - 5) (be_units us) (put_be16 0 ++ rest),
)

decode_empty_back :
    (g : Glib) (id hlen len : ℕ) (u rest : Bytes)
    → u ≡ []
    → hlen ≡ 3
    → 3 ≤ len
    → decode_unicode g id ((put_be16 hlen ++ u) ++ rest) len
      ≡ ok (record { id = id; extdata = false; vlen = 0; hlen = hlen; v = string [] }, hlen)
unfolding decode_unicode put_be16 get_be16
decode_empty_back g id hlen len u rest e k h = ground arith

-- The switch, one lemma for each encoding.
module _ (g : Glib) (policy : GObexDataPolicy) (id : ℕ) (ptr : Bytes) (long : 1 ≤ length ptr) where
  decode_as_unicode :
      hdr_enc id ≡ enc_unicode
      → decode g policy (id ∷ ptr) ≡ decode_unicode g id ptr (suc (length ptr))
  unfolding decode
  decode_as_unicode e = ground arith

  decode_as_bytes :
      hdr_enc id ≡ enc_bytes
      → decode g policy (id ∷ ptr) ≡ decode_bytes policy id ptr (suc (length ptr))
  unfolding decode
  decode_as_bytes e = ground arith

  decode_as_uint8 : hdr_enc id ≡ enc_uint8 → decode g policy (id ∷ ptr) ≡ decode_uint8 id ptr
  unfolding decode
  decode_as_uint8 e = ground arith

  decode_as_uint32 :
      hdr_enc id ≡ enc_uint32 → decode g policy (id ∷ ptr) ≡ decode_uint32 id ptr (suc (length ptr))
  unfolding decode
  decode_as_uint32 e = ground arith

length_behind :
    (hlen : ℕ) (d rest : Bytes) → length ((put_be16 hlen ++ d) ++ rest) ≡ 2 + length d + length rest
unfolding put_be16
length_behind hlen d rest = omega (arith, length-append d rest)

-- What decode_data makes of the value, for the two policies that it accepts.
decode_data-payload :
    (policy : GObexDataPolicy) (id hlen : ℕ) (d : Bytes)
    → policy ≢ inherit
    → (h' : GObexHeader) × (decode_data policy id hlen d ≡ ok (h', hlen))
      × (h'.id ≡ id)
      × (h'.hlen ≡ hlen)
      × (payload h'.v ≡ data_copy d)
unfolding decode_data
decode_data-payload inherit id hlen d np = absurd (np refl)
decode_data-payload copy id hlen d np = (_, refl, refl, refl, refl)
decode_data-payload ref id hlen d np = (_, refl, refl, refl, refl)

utf16_cases :
    (g : Glib) (s u : Bytes) (n : ℕ)
    → utf8_to_utf16 g s ≡ some (u, n)
    → ((s ≡ []) × (u ≡ []))
      ⊎ ((us : List ℕ) × (g.utf8_to_utf16 s ≡ some us) × (u ≡ be_units us ++ put_be16 0))
unfolding utf8_to_utf16
utf16_cases g [] u n e = inl (refl, ground arith)
utf16_cases g (c ∷ cs) u n e = elim (Option-cases (g.utf8_to_utf16 (c ∷ cs))) [
  | inl none_e ↦ absurd (ground arith)
  | inr (us, some_e) ↦ inr (us, some_e, ground arith)
]

module _ (g : Glib) (laws : IsConverting g) (policy : GObexDataPolicy) (id vlen hlen : ℕ)
    (extdata : Bool) where
  abbrev here : Value → GObexHeader
  here = with_value g id vlen hlen extdata

  bytes_ReadsBack :
      (d rest : Bytes)
      → policy ≢ inherit
      → hdr_enc id ≡ enc_bytes
      → hlen ≡ length d + 3
      → hlen < 2 ^ 16
      → ReadsBack g policy (here (data_copy d)) ((id ∷ put_be16 hlen ++ d) ++ rest)
  bytes_ReadsBack d rest np he hl hf =
      let ptr : Bytes = (put_be16 hlen ++ d) ++ rest in
      let len = length_behind hlen d rest in
      let (h', e, i, l, p) = decode_data-payload policy id hlen d np in
      (
        h',
        decode_as_bytes g policy id ptr (omega (arith, len)) he
            ∙ decode_bytes_back policy id hlen (suc (length ptr)) d rest hl hf (omega (arith, len))
            ∙ e,
        i,
        l,
        p,
      )

  string_ReadsBack :
      (s u rest : Bytes)
      → hdr_enc id ≡ enc_unicode
      → utf8_to_utf16 g (c_string s) ≡ some (u, length u)
      → length u + 3 ≡ hlen
      → hlen < 2 ^ 16
      → ReadsBack g policy (here (string s)) ((id ∷ put_be16 hlen ++ u) ++ rest)
  string_ReadsBack s u rest he e hl hf =
      let ptr : Bytes = (put_be16 hlen ++ u) ++ rest in
      let len = length_behind hlen u rest in
      let start = decode_as_unicode g policy id ptr (omega (arith, len)) he in
      elim (utf16_cases g (c_string s) u (length u) e) [
        | inl (s_nil, u_nil) ↦ (
          record { id = id; extdata = false; vlen = 0; hlen = hlen; v = string [] },
          start
              ∙ decode_empty_back g id hlen (suc (length ptr)) u rest u_nil (ground arith)
                  (omega (arith, len)),
          refl,
          refl,
          rw s_nil (unfold c_string in refl),
        )
        | inr (us, units, shape) ↦ (
          record {
            id = id;
            extdata = false;
            vlen = length (c_string s);
            hlen = hlen;
            v = string (c_string s);
          },
          start
              ∙ decode_unicode_back g id hlen (suc (length ptr)) us u (c_string s) rest
                  (laws.back (c_string s) us units) shape hl hf (omega (arith, len)),
          refl,
          refl,
          rw (c_string_idem s),
        )
      ]

  Shape-ReadsBack :
      (v : Value) (bs rest : Bytes)
      → policy ≢ inherit
      → IsWellFormed (here v)
      → Fits (here v)
      → Shape g (here v) v bs
      → ReadsBack g policy (here v) (bs ++ rest)
  Shape-ReadsBack (string s) bs rest np w f (u, e, l, b) =
      rw b (string_ReadsBack s u rest w.0 e l f.0)
  Shape-ReadsBack (data_copy d) bs rest np w f e = rw e (bytes_ReadsBack d rest np w.0 (w.3) f.0)
  Shape-ReadsBack (extdata_ref d) bs rest np w f e = rw e (bytes_ReadsBack d rest np w.0 (w.3) f.0)
  Shape-ReadsBack (u8 n) bs rest np w f e = rw e (
    record { id = id; extdata = false; vlen = 1; hlen = 2; v = u8 n },
    decode_as_uint8 g policy id (n ∷ rest) (omega arith) w.0
        ∙ (unfold decode_uint8 in ground arith),
    refl,
    ground arith,
    refl,
  )
  Shape-ReadsBack (u32 n) bs rest np w f e = rw e (
    record { id = id; extdata = false; vlen = 4; hlen = 5; v = u32 n },
    decode_as_uint32 g policy id (put_be32 n ++ rest)
          (omega (arith, length-append (put_be32 n) rest, length-put_be32 n)) w.0
        ∙ (unfold decode_uint32 in
            ground (
              arith,
              length-append (put_be32 n) rest,
              length-put_be32 n,
              get_be32-put_be32 n rest,
            )),
    refl,
    ground arith,
    refl,
  )

pub encode-ReadsBack :
    (g : Glib) (policy : GObexDataPolicy) (h : GObexHeader) (n : ℕ) (bs rest : Bytes) (r : ℕ)
    → IsConverting g
    → policy ≢ inherit
    → IsWellFormed h
    → Fits h
    → encode g h n ≡ written bs r
    → ReadsBack g policy h (bs ++ rest)
encode-ReadsBack g policy h n bs rest r laws np w f e =
    let (_, _, shape) = encode-Shape g h n bs r w e in
    Shape-ReadsBack g laws policy h.id h.vlen h.hlen h.extdata h.v bs rest np w f shape

-- Whatever bytes follow, the decoder reads back each header that the encoder wrote: the same id,
-- length and value. The count that the encoder returns is the number of bytes that it wrote, and the
-- decoder takes just as many. The header is well formed, its length is below 2^16 and a 32-bit value
-- fits; the caller asks for a copy or a reference; and the conversion of UTF-16 back undoes the one
-- forth.
pub decode-encode :
    (g : Glib) (policy : GObexDataPolicy) (h : GObexHeader) (n : ℕ) (bs rest : Bytes) (r : ℕ)
    → IsConverting g
    → policy ≢ inherit
    → IsWellFormed h
    → Fits h
    → encode g h n ≡ written bs r
    → (r ≡ length bs) × (r ≡ h.hlen) × ReadsBack g policy h (bs ++ rest)
decode-encode g policy h n bs rest r laws np w f e =
    let (size, count, _) = encode_bounds g h n bs r w e in
    (omega (arith, size, count), count, encode-ReadsBack g policy h n bs rest r laws np w f e)
