-- ===== src/Vcard/Qp.antt =====
-- plugins/vcard.c: the quoted-printable encoding.
pub mod Width
pub mod Decode
use map_client.Base.{
  ℕ, zero, suc, ◌+◌, ◌-◌, ◌/◌, ◌%◌, ◌^◌, Bool, true, false, ◌||◌, Option, some, none, List, [], ◌∷◌,
  ◌++◌, length, take, ltb, leb, ◌==◌, if◌then◌else◌,
}
use map_client.Base.Endian.{Bytes}
use map_client.Vcard.Words.{
  crlf, fold_break, soft_break, qp_select, encoding_qp, charset_utf8, colon,
}
use map_client.Vcard.Print.{vcard_printf, format_vcard21}

abbrev pub qp_line_len : ℕ
qp_line_len = 75

abbrev pub qp_char_len : ℕ
qp_char_len = 3

abbrev pub qp_cr : ℕ
qp_cr = 0x0d

abbrev pub qp_lf : ℕ
qp_lf = 0x0a

abbrev pub qp_esc : ℕ
qp_esc = 0x5c

abbrev pub ascii_limit : ℕ
ascii_limit = 0x7f

-- size_t is taken to have 64 bits.
abbrev pub size_minus : ℕ → ℕ → ℕ
size_minus a b = if leb b a then a - b else 2 ^ 64 - (b - a) % 2 ^ 64

-- strchr, of a byte that is not the NUL.
abbrev pub strchr : Bytes → ℕ → Bool
strchr [] q = false
strchr (b ∷ bs) q = b == q || strchr bs q

unfoldable pub set_qp_encoding : ℕ → Bool
set_qp_encoding q = strchr qp_select q || (ltb q 33 || ltb 126 q)

-- The text so far, and what is left of the line.
pub record Qp : Type 0 where
  pub vcards : Bytes
  pub limit : ℕ

unfoldable pub append_qp_break_line : Qp → Qp
append_qp_break_line q = record {
  vcards = q.vcards ++ (soft_break ++ fold_break);
  limit = qp_line_len - 1;
}

unfoldable pub append_qp_ascii : Qp → ℕ → Qp
append_qp_ascii q c =
    let room = if q.limit == 0 then append_qp_break_line q else q in
    record { vcards = room.vcards ++ (c ∷ []); limit = room.limit - 1 }

-- The digits of %2.2X.
abbrev pub hex_digit : ℕ → ℕ
hex_digit d = if ltb d 10 then 48 + d else 55 + d

unfoldable pub append_qp_hex : Qp → ℕ → Qp
append_qp_hex q c =
    let room = if ltb q.limit qp_char_len then append_qp_break_line q else q in
    record {
      vcards = room.vcards ++ (61 ∷ hex_digit (c / 16) ∷ hex_digit (c % 16) ∷ []);
      limit = room.limit - qp_char_len;
    }

abbrev pub append_qp_new_line : Qp → Qp
append_qp_new_line q = append_qp_break_line (append_qp_hex (append_qp_hex q qp_cr) qp_lf)

-- One turn of the inner loop, the loop, and the loop over the fields.
unfoldable pub append_qp_char : Qp → ℕ → Qp
append_qp_char q c =
    if set_qp_encoding c
    then (if c == 10 then append_qp_new_line q else append_qp_hex q c)
    else append_qp_ascii (if c == 59 then append_qp_hex q qp_esc else q) c

unfoldable pub append_qp_field : Qp → Bytes → Qp
append_qp_field q [] = q
append_qp_field q (c ∷ cs) = append_qp_field (append_qp_char q c) cs

unfoldable pub append_qp_fields : Qp → List Bytes → Qp
append_qp_fields q [] = q
append_qp_fields q (field ∷ []) = append_qp_field q field
append_qp_fields q (field ∷ next ∷ fields) =
    append_qp_fields (append_qp_ascii (append_qp_field q field) 59) (next ∷ fields)

-- Whether a character is above the limit.
abbrev pub any_above : ℕ → List ℕ → Bool
any_above limit [] = false
any_above limit (c ∷ cs) = ltb limit c || any_above limit cs

-- The characters of a text in UTF-8, or none when g_utf8_validate refuses it, are a parameter.
module _ (utf8 : Bytes → Option (List ℕ)) where
  unfoldable pub utf8_select : Bytes → Bool
  utf8_select field = elim (utf8 field) [ none ↦ false | some chars ↦ any_above ascii_limit chars ]

  unfoldable pub charset : List Bytes → Bytes
  charset [] = []
  charset (field ∷ fields) =
      let more = charset fields in if utf8_select field then charset_utf8 else more

  -- The header without its line break, and the limit that it leaves.
  unfoldable pub qp_header : (desc : Bytes) → List Bytes → Qp
  qp_header desc fields =
      let line = vcard_printf (desc ++ (encoding_qp ++ (charset fields ++ colon))) in
      let param_len = length desc + length encoding_qp + length (charset fields) + 1 in
      record { vcards = take (length line - 2) line; limit = size_minus qp_line_len param_len }

  -- What is appended. The fields stand before the NULL of the argument list.
  unfoldable pub vcard_qp_print_encoded : (desc : Bytes) → List Bytes → Bytes
  vcard_qp_print_encoded desc fields =
      (append_qp_fields (qp_header desc fields) fields).vcards ++ crlf

-- strpbrk finds one of the characters.
abbrev pub strpbrk : Bytes → Bytes → Bool
strpbrk [] accept = false
strpbrk (c ∷ cs) accept = strchr accept c || strpbrk cs accept

unfoldable pub any_selects : List Bytes → Bool
any_selects [] = false
any_selects (field ∷ fields) =
    let more = any_selects fields in
    if strpbrk field qp_select then true else if any_above ascii_limit field then true else more

unfoldable pub select_qp_encoding : (format : ℕ) → List Bytes → Bool
select_qp_encoding format fields = if format == format_vcard21 then any_selects fields else false
