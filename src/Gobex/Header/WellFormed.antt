-- ===== src/Gobex/Header/WellFormed.antt =====
-- The well-formedness of a header object: its id, its value and its two lengths agree.
use map_client.Base.{
  ℕ, suc, ◌+◌, ◌-◌, ◌%◌, ◌≤◌, ◌<◌, ◌≡◌, ◌⊎◌, true, false, ◌≢◌, some, [], ◌∷◌, arith, length, drop,
  All, length-take, length-drop,
}
use map_client.Base.Bits.{bit_and_0xc0}
use map_client.Base.Endian.{Bytes, IsByte, get_be16}
use map_client.Gobex.Defs.{Glib, GObexDataPolicy, inherit, copy, ref, ok, aborted, stuck}
use map_client.Gobex.Header.{
  GObexHeader, Value, string, data_copy, extdata_ref, u8, u32, hdr_enc, enc_unicode, enc_bytes,
  enc_uint8, enc_uint32, new_unicode, new_bytes, new_uint8, new_uint32, VaArg, va_str, va_buffer,
  create_one,
}
use map_client.Gobex.Header.Codec.{
  decode, decode_unicode, decode_bytes, decode_data, decode_uint8, decode_uint32,
}

abbrev pub Agrees : GObexHeader → Value → Type 0
Agrees h (string s) = (hdr_enc h.id ≡ enc_unicode) × (h.extdata ≡ false) × (3 ≤ h.hlen)
Agrees h (data_copy b) =
    (hdr_enc h.id ≡ enc_bytes) × (h.extdata ≡ false) × (h.vlen ≡ length b) × (h.hlen ≡ length b + 3)
Agrees h (extdata_ref b) =
    (hdr_enc h.id ≡ enc_bytes) × (h.extdata ≡ true) × (h.vlen ≡ length b) × (h.hlen ≡ length b + 3)
Agrees h (u8 n) = (hdr_enc h.id ≡ enc_uint8) × (h.extdata ≡ false) × (h.vlen ≡ 1) × (h.hlen ≡ 2)
Agrees h (u32 n) = (hdr_enc h.id ≡ enc_uint32) × (h.extdata ≡ false) × (h.vlen ≡ 4) × (h.hlen ≡ 5)

abbrev pub IsWellFormed : GObexHeader → Type 0
IsWellFormed h = Agrees h h.v

-- On a byte the mask leaves one of the four encodings.
pub hdr_enc_cases :
    (id : ℕ)
    → id < 256
    → (hdr_enc id ≡ 0) ⊎ (hdr_enc id ≡ 0x40) ⊎ (hdr_enc id ≡ 0x80) ⊎ (hdr_enc id ≡ 0xc0)
unfolding hdr_enc
hdr_enc_cases id h = ground (arith, bit_and_0xc0 id h)

pub new_unicode-IsWellFormed :
    (g : Glib) (id : ℕ) (s : Bytes) (h : GObexHeader) → new_unicode g id s ≡ some h → IsWellFormed h
unfolding new_unicode
new_unicode-IsWellFormed g id s h e = ground arith

pub new_bytes-IsWellFormed :
    (id : ℕ) (b : Bytes) (h : GObexHeader) → new_bytes id b ≡ some h → IsWellFormed h
unfolding new_bytes
new_bytes-IsWellFormed id b h e = ground arith

decode_bytes_lem :
    (policy : GObexDataPolicy) (id : ℕ) (ptr : Bytes) (len : ℕ) (h : GObexHeader) (parsed : ℕ)
    → hdr_enc id ≡ enc_bytes
    → len ≡ suc (length ptr)
    → decode_bytes policy id ptr len ≡ ok (h, parsed)
    → IsWellFormed h × (h.id ≡ id) × (h.hlen ≡ parsed) × (2 ≤ parsed) × (parsed ≤ len)
unfolding decode_bytes decode_data
decode_bytes_lem copy id ptr len h parsed he hl e =
    ground (arith, length-take (get_be16 ptr - 3) (drop 2 ptr), length-drop 2 ptr)
decode_bytes_lem ref id ptr len h parsed he hl e =
    ground (arith, length-take (get_be16 ptr - 3) (drop 2 ptr), length-drop 2 ptr)
decode_bytes_lem inherit id ptr len h parsed he hl e = ground arith

decode_unicode_lem :
    (g : Glib) (id : ℕ) (ptr : Bytes) (len : ℕ) (h : GObexHeader) (parsed : ℕ)
    → hdr_enc id ≡ enc_unicode
    → decode_unicode g id ptr len ≡ ok (h, parsed)
    → IsWellFormed h × (h.id ≡ id) × (h.hlen ≡ parsed) × (2 ≤ parsed) × (parsed ≤ len)
unfolding decode_unicode
decode_unicode_lem g id ptr len h parsed he e = ground arith

decode_uint8_lem :
    (id : ℕ) (ptr : Bytes) (len : ℕ) (h : GObexHeader) (parsed : ℕ)
    → hdr_enc id ≡ enc_uint8
    → len ≡ suc (length ptr)
    → decode_uint8 id ptr ≡ ok (h, parsed)
    → IsWellFormed h × (h.id ≡ id) × (h.hlen ≡ parsed) × (2 ≤ parsed) × (parsed ≤ len)
unfolding decode_uint8
decode_uint8_lem id [] len h parsed he hl e = cc
decode_uint8_lem id (b ∷ ptr) len h parsed he hl e = ground arith

decode_uint32_lem :
    (id : ℕ) (ptr : Bytes) (len : ℕ) (h : GObexHeader) (parsed : ℕ)
    → hdr_enc id ≡ enc_uint32
    → decode_uint32 id ptr len ≡ ok (h, parsed)
    → IsWellFormed h × (h.id ≡ id) × (h.hlen ≡ parsed) × (2 ≤ parsed) × (parsed ≤ len)
unfolding decode_uint32
decode_uint32_lem id ptr len h parsed he e = ground arith

abbrev pub IsParsed : Bytes → GObexHeader → ℕ → Type 0
IsParsed buf h parsed = IsWellFormed h × (h.hlen ≡ parsed) × (2 ≤ parsed) × (parsed ≤ length buf)

-- A header that the decoder accepts is well formed, its length is the number of bytes consumed, and
-- that number is at least two and within the buffer.
pub decode-IsParsed :
    (g : Glib) (policy : GObexDataPolicy) (buf : Bytes) (h : GObexHeader) (parsed : ℕ)
    → decode g policy buf ≡ ok (h, parsed)
    → IsParsed buf h parsed
unfolding decode
decode-IsParsed g policy [] h parsed e = cc
decode-IsParsed g policy (id ∷ ptr) h parsed e = ground (
  arith,
  decode_unicode_lem g id ptr (suc (length ptr)) h parsed,
  decode_bytes_lem policy id ptr (suc (length ptr)) h parsed,
  decode_uint8_lem id ptr (suc (length ptr)) h parsed,
  decode_uint32_lem id ptr (suc (length ptr)) h parsed,
)

cases-ne-aborted :
    (g : Glib) (policy : GObexDataPolicy) (id : ℕ) (ptr : Bytes) (len : ℕ)
    → (decode_unicode g id ptr len ≢ aborted)
      × (decode_bytes policy id ptr len ≢ aborted)
      × (decode_uint8 id ptr ≢ aborted)
      × (decode_uint32 id ptr len ≢ aborted)
unfolding decode_unicode decode_bytes decode_data decode_uint8 decode_uint32
cases-ne-aborted g copy id [] len =
    (λ e. ground arith, λ e. ground arith, λ e. ground arith, λ e. ground arith)
cases-ne-aborted g _ id _ len =
    (λ e. ground arith, λ e. ground arith, λ e. ground arith, λ e. ground arith)

cases-ne-stuck :
    (g : Glib) (policy : GObexDataPolicy) (id : ℕ) (ptr : Bytes) (len : ℕ)
    → (decode_unicode g id ptr len ≢ stuck)
      × (decode_bytes policy id ptr len ≢ stuck)
      × (decode_uint8 id ptr ≢ stuck)
      × (decode_uint32 id ptr len ≢ stuck)
unfolding decode_unicode decode_bytes decode_data decode_uint8 decode_uint32
cases-ne-stuck g copy id [] len =
    (λ e. ground arith, λ e. ground arith, λ e. ground arith, λ e. ground arith)
cases-ne-stuck g _ id _ len =
    (λ e. ground arith, λ e. ground arith, λ e. ground arith, λ e. ground arith)

-- The decoder of one header has no loop.
pub decode-ne-stuck :
    (g : Glib) (policy : GObexDataPolicy) (buf : Bytes) → decode g policy buf ≢ stuck
unfolding decode
decode-ne-stuck g policy [] e = cc
decode-ne-stuck g policy (id ∷ ptr) e =
    ground (arith, cases-ne-stuck g policy id ptr (suc (length ptr)))

-- On bytes the decoder never runs into its failed assertion.
pub decode-ne-aborted :
    (g : Glib) (policy : GObexDataPolicy) (buf : Bytes)
    → All IsByte buf
    → decode g policy buf ≢ aborted
unfolding decode
decode-ne-aborted g policy [] h e = cc
decode-ne-aborted g policy (id ∷ ptr) (h, _) e =
    ground (arith, hdr_enc_cases id h, cases-ne-aborted g policy id ptr (suc (length ptr)))

pub new_uint8-IsWellFormed : (id n : ℕ) (h : GObexHeader) → new_uint8 id n ≡ some h → IsWellFormed h
unfolding new_uint8
new_uint8-IsWellFormed id n h e = ground arith

pub new_uint32-IsWellFormed :
    (id n : ℕ) (h : GObexHeader) → new_uint32 id n ≡ some h → IsWellFormed h
unfolding new_uint32
new_uint32-IsWellFormed id n h e = ground arith

pub create_one-IsWellFormed :
    (g : Glib) (id : ℕ) (a : VaArg) (h : GObexHeader) → create_one g id a ≡ some h → IsWellFormed h
unfolding create_one new_uint8 new_uint32
create_one-IsWellFormed g id a h e = ground (
  arith,
  new_unicode-IsWellFormed g (id % 256) (va_str a) h,
  new_bytes-IsWellFormed (id % 256) (va_buffer a) h,
)
