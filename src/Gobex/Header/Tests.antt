-- ===== src/Gobex/Header/Tests.antt =====
-- Concrete headers, and the theorems about headers at concrete inputs.
use map_client.Base.{ℕ, length, ◌≤◌, ◌<◌, ◌≡◌, ◌≢◌, refl, false, some, [], ◌∷◌, ◌++◌, arith, All}
use map_client.Base.Endian.{Bytes, put_be16, get_be16}
use map_client.Gobex.Defs.{copy, ref, ok}
use map_client.Gobex.Ascii.{
  ascii, ascii_to_utf16, ascii_of_utf16be, ascii-IsConverting, wide, wide_to_utf16,
}
use map_client.Gobex.Header.{
  GObexHeader, string, u32, hdr_enc, c_string, new_unicode, new_uint32, create_list, create_one,
  str, val,
}
use map_client.Gobex.Header.Codec.{
  written, failed, asserted, encode, encode_unicode, utf8_to_utf16, decode, decode_unicode,
}
use map_client.Gobex.Header.WellFormed.{IsWellFormed, IsParsed, decode-IsParsed}
use map_client.Gobex.Header.RoundTrip.{ReadsBack, decode-encode}
use map_client.Gobex.Header.Build.{
  IsWritten, total_hlen, create_list-IsWellFormed, encode_fails_iff_short, encode-new_unicode,
  encode-new_unicode_asserted,
}

-- The name header "ab", as in a packet.
abbrev name_bytes : Bytes
name_bytes = 0x01 ∷ 0 ∷ 9 ∷ 0 ∷ b'a' ∷ 0 ∷ b'b' ∷ 0 ∷ 0 ∷ []

abbrev name_header : GObexHeader
name_header = record {
  id = 0x01;
  extdata = false;
  vlen = 2;
  hlen = 9;
  v = string (b'a' ∷ b'b' ∷ []);
}

abbrev connid_header : GObexHeader
connid_header = record { id = 0xcb; extdata = false; vlen = 4; hlen = 5; v = u32 0x01020304 }

encode_name : encode ascii name_header 20 ≡ written name_bytes 9
unfolding encode encode_unicode utf8_to_utf16 ascii_to_utf16 c_string hdr_enc put_be16
encode_name = refl

decode_name : decode ascii copy (name_bytes ++ (7 ∷ [])) ≡ ok (name_header, 9)
unfolding decode decode_unicode ascii_of_utf16be hdr_enc get_be16
decode_name = refl

new_name : new_unicode ascii 0x01 (b'a' ∷ b'b' ∷ 0 ∷ b'c' ∷ []) ≡ some name_header
unfolding new_unicode hdr_enc c_string
new_name = refl

decode-IsParsed_example : IsParsed (name_bytes ++ (7 ∷ [])) name_header 9
decode-IsParsed_example =
    decode-IsParsed ascii copy (name_bytes ++ (7 ∷ [])) name_header 9 decode_name

name_header-IsWellFormed : IsWellFormed name_header
unfolding hdr_enc
name_header-IsWellFormed = (refl, refl, omega arith)

decode-encode_example :
    (◌≡◌ {A = ℕ} 9 (length name_bytes))
    × (◌≡◌ {A = ℕ} 9 9)
    × ReadsBack ascii ref name_header (name_bytes ++ (1 ∷ 2 ∷ []))
decode-encode_example =
    decode-encode ascii ref name_header 20 name_bytes (1 ∷ 2 ∷ []) 9 ascii-IsConverting (λ e. cc)
      name_header-IsWellFormed (omega arith) encode_name

create_two :
    create_list ascii ((0x01, str (b'a' ∷ b'b' ∷ [])) ∷ (0xcb, val 0x01020304) ∷ [])
    ≡ some (name_header ∷ connid_header ∷ [], 14)
unfolding create_list create_one new_unicode new_uint32 hdr_enc c_string
create_two = refl

create_list-IsWellFormed_example :
    All IsWellFormed (name_header ∷ connid_header ∷ [])
    × (14 ≡ total_hlen (name_header ∷ connid_header ∷ []))
create_list-IsWellFormed_example =
    create_list-IsWellFormed ascii ((0x01, str (b'a' ∷ b'b' ∷ [])) ∷ (0xcb, val 0x01020304) ∷ [])
      (name_header ∷ connid_header ∷ []) 14 create_two

connid_not_text : hdr_enc 0xcb ≢ 0
unfolding hdr_enc
connid_not_text = omega arith

encode_fails_iff_short_example :
    (4 < 5 → encode ascii connid_header 4 ≡ failed)
    × (5 ≤ 4 → IsWritten (encode ascii connid_header 4) 5)
encode_fails_iff_short_example =
    encode_fails_iff_short ascii connid_header 4 (omega arith) connid_not_text

c_string_ab : c_string (b'a' ∷ b'b' ∷ 0 ∷ b'c' ∷ []) ≡ b'a' ∷ b'b' ∷ []
unfolding c_string
c_string_ab = refl

units_ab : ascii_to_utf16 (b'a' ∷ b'b' ∷ []) ≡ some (b'a' ∷ b'b' ∷ [])
unfolding ascii_to_utf16
units_ab = refl

encode-new_unicode_example : IsWritten (encode ascii name_header 9) 9
unfolding c_string
encode-new_unicode_example =
    encode-new_unicode ascii 0x01 (b'a' ∷ b'b' ∷ 0 ∷ b'c' ∷ []) (b'b' ∷ []) b'a' 9
      (b'a' ∷ b'b' ∷ []) name_header new_name c_string_ab units_ab (omega arith) refl (omega arith)

-- U+1F600: one character, two units.
abbrev smile : Bytes
smile = 0xf0 ∷ 0x9f ∷ 0x98 ∷ 0x80 ∷ []

abbrev smile_header : GObexHeader
smile_header = record { id = 0x01; extdata = false; vlen = 1; hlen = 7; v = string smile }

smile_new : new_unicode wide 0x01 smile ≡ some smile_header
unfolding new_unicode hdr_enc c_string
smile_new = refl

smile_units : wide_to_utf16 smile ≡ some (0xd83d ∷ 0xde00 ∷ [])
unfolding wide_to_utf16
smile_units = refl

smile_string : c_string smile ≡ smile
unfolding c_string
smile_string = refl

smile_counts : 2 ≢ wide.utf8_strlen (c_string smile)
unfolding c_string
smile_counts = omega arith

encode-new_unicode_asserted_example : encode wide smile_header 255 ≡ asserted
encode-new_unicode_asserted_example =
    encode-new_unicode_asserted wide 0x01 smile (0x9f ∷ 0x98 ∷ 0x80 ∷ []) 0xf0 255
      (0xd83d ∷ 0xde00 ∷ []) smile_header smile_new smile_string smile_units (omega arith)
      (omega arith) smile_counts
