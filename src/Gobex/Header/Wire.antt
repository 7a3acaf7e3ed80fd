-- ===== src/Gobex/Header/Wire.antt =====
-- gobex/gobex-header.c: what a decoded header says of the bytes that it was read from.
use map_client.Base.{ℕ, suc, ◌-◌, ◌≤◌, ◌≡◌, ◌⊎◌, some, List, [], ◌∷◌, arith, length, take, drop}
use map_client.Base.Endian.{Bytes, get_be16, get_be32}
use map_client.Gobex.Defs.{Glib, GObexDataPolicy, inherit, copy, ref, ok}
use map_client.Gobex.Header.{GObexHeader, Value, string, data_copy, extdata_ref, u8, u32}
use map_client.Gobex.Header.Codec.{
  decode, decode_unicode, decode_bytes, decode_data, decode_uint8, decode_uint32,
}

-- The wire format of OBEX, on the bytes behind the id: a text and a byte sequence come behind a
-- length of two bytes that counts the id and itself, a text as UTF-16 with two more bytes for its
-- zero, or nothing at all if it is empty; a number is one byte or four.
abbrev pub Holds : Glib → GObexDataPolicy → Bytes → GObexHeader → Value → Type 0
Holds g policy ptr h (string s) =
    (h.hlen ≡ get_be16 ptr)
    × (h.vlen ≡ length s)
    × (((h.hlen ≡ 3) × (s ≡ []))
        ⊎ ((5 ≤ h.hlen) × (g.convert_utf16be (take (h.hlen - 5) (drop 2 ptr)) ≡ some s)))
Holds g policy ptr h (data_copy b) =
    (policy ≡ copy) × (h.hlen ≡ get_be16 ptr) × (b ≡ take (h.hlen - 3) (drop 2 ptr))
Holds g policy ptr h (extdata_ref b) =
    (policy ≡ ref) × (h.hlen ≡ get_be16 ptr) × (b ≡ take (h.hlen - 3) (drop 2 ptr))
Holds g policy ptr h (u8 n) = take 1 ptr ≡ n ∷ []
Holds g policy ptr h (u32 n) = n ≡ get_be32 ptr

-- The header stands at the front of the buffer, its id first.
abbrev pub IsAtFront : Glib → GObexDataPolicy → Bytes → GObexHeader → Type 0
IsAtFront g policy buf h =
    (take 1 buf ≡ h.id ∷ []) × Holds g policy (drop 1 buf) h h.v × (h.hlen ≤ length buf)

-- The buffer is these headers, one behind the other, and nothing else.
abbrev pub IsHeaders : Glib → GObexDataPolicy → Bytes → List GObexHeader → Type 0
IsHeaders g policy buf [] = buf ≡ []
IsHeaders g policy buf (h ∷ hs) = IsAtFront g policy buf h × IsHeaders g policy (drop h.hlen buf) hs

-- What the lemmas on the cases of the switch say.
abbrev Read : Glib → GObexDataPolicy → ℕ → Bytes → GObexHeader → ℕ → Type 0
Read g policy id ptr h parsed =
    (h.id ≡ id) × (h.hlen ≡ parsed) × Holds g policy ptr h h.v × (h.hlen ≤ suc (length ptr))

decode_unicode_lem :
    (g : Glib) (policy : GObexDataPolicy) (id : ℕ) (ptr : Bytes) (h : GObexHeader) (parsed : ℕ)
    → decode_unicode g id ptr (suc (length ptr)) ≡ ok (h, parsed)
    → Read g policy id ptr h parsed
unfolding decode_unicode
decode_unicode_lem g policy id ptr h parsed e = ground arith

decode_bytes_lem :
    (g : Glib) (policy : GObexDataPolicy) (id : ℕ) (ptr : Bytes) (h : GObexHeader) (parsed : ℕ)
    → decode_bytes policy id ptr (suc (length ptr)) ≡ ok (h, parsed)
    → Read g policy id ptr h parsed
unfolding decode_bytes decode_data
decode_bytes_lem g copy id ptr h parsed e = ground arith
decode_bytes_lem g ref id ptr h parsed e = ground arith
decode_bytes_lem g inherit id ptr h parsed e = ground arith

decode_uint8_lem :
    (g : Glib) (policy : GObexDataPolicy) (id : ℕ) (ptr : Bytes) (h : GObexHeader) (parsed : ℕ)
    → decode_uint8 id ptr ≡ ok (h, parsed)
    → Read g policy id ptr h parsed
unfolding decode_uint8
decode_uint8_lem g policy id [] h parsed e = absurd (ground arith)
decode_uint8_lem g policy id (b ∷ ptr) h parsed e = ground arith

decode_uint32_lem :
    (g : Glib) (policy : GObexDataPolicy) (id : ℕ) (ptr : Bytes) (h : GObexHeader) (parsed : ℕ)
    → decode_uint32 id ptr (suc (length ptr)) ≡ ok (h, parsed)
    → Read g policy id ptr h parsed
unfolding decode_uint32
decode_uint32_lem g policy id ptr h parsed e = ground arith

-- A header that the decoder accepts stands at the front of the buffer.
pub decode-IsAtFront :
    (g : Glib) (policy : GObexDataPolicy) (buf : Bytes) (h : GObexHeader) (parsed : ℕ)
    → decode g policy buf ≡ ok (h, parsed)
    → IsAtFront g policy buf h
unfolding decode
decode-IsAtFront g policy [] h parsed e = absurd (ground arith)
decode-IsAtFront g policy (id ∷ ptr) h parsed e =
    let (same, size, holds, within) : Read g policy id ptr h parsed = ground (
      arith,
      decode_unicode_lem g policy id ptr h parsed,
      decode_bytes_lem g policy id ptr h parsed,
      decode_uint8_lem g policy id ptr h parsed,
      decode_uint32_lem g policy id ptr h parsed,
    ) in
    (ground (arith, same), holds, within)
