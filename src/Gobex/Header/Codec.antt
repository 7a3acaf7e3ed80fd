-- ===== src/Gobex/Header/Codec.antt =====
-- gobex/gobex-header.c: g_obex_header_encode and g_obex_header_decode.
use map_client.Base.{
  ℕ, ◌+◌, ◌-◌, ◌*◌, ◌%◌, ◌^◌, Bool, true, false, ◌||◌, Option, some, none, [], ◌∷◌, ◌++◌, length,
  take, drop, ltb, ◌==◌, if◌then◌else◌,
}
use map_client.Base.Endian.{Bytes, put_be16, get_be16, put_be32, get_be32}
use map_client.Gobex.Defs.{
  Glib, be_units, GObexDataPolicy, inherit, copy, ref, parse_error, invalid_args, Result, ok, err,
  aborted,
}
use map_client.Gobex.Header.{
  GObexHeader, Value, string, data_copy, extdata_ref, u8, u32, string_of, bytes_of, u8_of, u32_of,
  hdr_enc, enc_unicode, enc_bytes, enc_uint8, enc_uint32, c_string,
}

-- What an encoder leaves: the bytes at the front of the buffer with the value returned; -1; or a
-- failed assertion. What a failing call wrote before it failed is not kept.
pub data Encoded : Type 0 where
  written : Bytes → ℕ → Encoded
  failed asserted : Encoded

-- The UTF-16 text in network byte order with its terminating zero, and its length in bytes.
unfoldable pub utf8_to_utf16 : Glib → Bytes → Option (Bytes × ℕ)
utf8_to_utf16 g [] = some ([], 0)
utf8_to_utf16 g (c ∷ cs) = elim (g.utf8_to_utf16 (c ∷ cs)) [
  | none ↦ none
  | some us ↦ some (be_units us ++ put_be16 0, (length us + 1) * 2)
]

unfoldable pub encode_unicode : Glib → GObexHeader → ℕ → Encoded
encode_unicode g h buf_len = elim (utf8_to_utf16 g (c_string (string_of h.v))) [
  | none ↦ failed
  | some (utf16, utf16_len) ↦
      if ltb buf_len (utf16_len % 2 ^ 16)
      then failed
      else if utf16_len + 3 == h.hlen
      then written (h.id ∷ put_be16 (utf16_len + 3) ++ utf16) h.hlen
      else asserted
]

unfoldable pub encode : Glib → GObexHeader → ℕ → Encoded
encode g h buf_len =
    if ltb buf_len h.hlen
    then failed
    else if hdr_enc h.id == enc_unicode
    then encode_unicode g h buf_len
    else if hdr_enc h.id == enc_bytes
    then written (h.id ∷ put_be16 h.hlen ++ take h.vlen (bytes_of h.v)) h.hlen
    else if hdr_enc h.id == enc_uint8
    then written (h.id ∷ u8_of h.v ∷ []) h.hlen
    else if hdr_enc h.id == enc_uint32
    then written (h.id ∷ put_be32 (u32_of h.v)) h.hlen
    else asserted

abbrev header_of : ℕ → Bool → ℕ → ℕ → Value → GObexHeader
header_of id extdata vlen hlen v = record {
  id = id;
  extdata = extdata;
  vlen = vlen;
  hlen = hlen;
  v = v;
}

-- The cases of the switch. `ptr` is what follows the id; `len` counts the id too.
unfoldable pub decode_unicode : Glib → ℕ → Bytes → ℕ → Result (GObexHeader × ℕ)
decode_unicode g id ptr len =
    let hdr_len = get_be16 ptr in
    if ltb len 3
    then err parse_error
    else if hdr_len == 3
    then ok (header_of id false 0 hdr_len (string []), hdr_len)
    else if ltb len hdr_len || ltb hdr_len 5
    then err parse_error
    else elim (g.convert_utf16be (take (hdr_len - 5) (drop 2 ptr))) [
      | none ↦ err parse_error
      | some s ↦ ok (header_of id false (length s) hdr_len (string s), hdr_len)
    ]

unfoldable pub decode_data : GObexDataPolicy → ℕ → ℕ → Bytes → Result (GObexHeader × ℕ)
decode_data copy id hdr_len bs =
    ok (header_of id false (hdr_len - 3) hdr_len (data_copy bs), hdr_len)
decode_data ref id hdr_len bs =
    ok (header_of id true (hdr_len - 3) hdr_len (extdata_ref bs), hdr_len)
decode_data inherit id hdr_len bs = err invalid_args

unfoldable pub decode_bytes : GObexDataPolicy → ℕ → Bytes → ℕ → Result (GObexHeader × ℕ)
decode_bytes policy id ptr len =
    let hdr_len = get_be16 ptr in
    if ltb len 3
    then err parse_error
    else if ltb len hdr_len
    then err parse_error
    else if ltb hdr_len 3
    then err parse_error
    else decode_data policy id hdr_len (take (hdr_len - 3) (drop 2 ptr))

unfoldable pub decode_uint8 : ℕ → Bytes → Result (GObexHeader × ℕ)
decode_uint8 id [] = err parse_error
decode_uint8 id (b ∷ rest) = ok (header_of id false 1 2 (u8 b), 2)

unfoldable pub decode_uint32 : ℕ → Bytes → ℕ → Result (GObexHeader × ℕ)
decode_uint32 id ptr len =
    if ltb len 5 then err parse_error else ok (header_of id false 4 5 (u32 (get_be32 ptr)), 5)

-- The header and `*parsed`. The buffer is the list, `len` its length.
unfoldable pub decode : Glib → GObexDataPolicy → Bytes → Result (GObexHeader × ℕ)
decode g policy [] = err parse_error
decode g policy (id ∷ ptr) =
    let len = length (id ∷ ptr) in
    if ltb len 2
    then err parse_error
    else if hdr_enc id == enc_unicode
    then decode_unicode g id ptr len
    else if hdr_enc id == enc_bytes
    then decode_bytes policy id ptr len
    else if hdr_enc id == enc_uint8
    then decode_uint8 id ptr
    else if hdr_enc id == enc_uint32
    then decode_uint32 id ptr len
    else aborted
