-- ===== src/Vcard/Qp/Width.antt =====
-- plugins/vcard.c: how wide the quoted-printable lines are.
use map_client.Base.{
  ℕ, zero, suc, ◌+◌, ◌-◌, ◌/◌, ◌%◌, ◌≤◌, ◌<◌, ◌≡◌, ◌≢◌, refl, sym, ap, subst, ◌∙◌, Option, List, [],
  ◌∷◌, ◌++◌, append-nil, All-append, take, take_front, All, take_all, length, length-append, ltb,
  ◌==◌, arith, Bool-cases, inl, inr,
}
use map_client.Base.Endian.{Bytes}
use map_client.Vcard.Words.{crlf, fold_break, soft_break, encoding_qp, charset_utf8, colon}
use map_client.Vcard.Print.{vcard_printf, printed, fold_lines}
use map_client.Vcard.Print.Width.{
  column, IsNarrow, IsLines, column-append, IsNarrow-append, IsNarrow-short, column_inline, inline,
}
use map_client.Vcard.Qp.{
  utf8_select, Qp, qp_cr, qp_lf, qp_esc, qp_line_len, append_qp_break_line, append_qp_ascii,
  append_qp_hex, append_qp_char, append_qp_field, append_qp_fields, hex_digit, set_qp_encoding,
  charset, qp_header, vcard_qp_print_encoded, size_minus,
}

-- The limit is what the last line has left of 75 bytes.
pub record IsFilling (q : Qp) : Type 0 where
  pub narrow : IsNarrow 0 q.vcards
  pub left : column 0 q.vcards + q.limit ≡ 75

break-IsFilling : (q : Qp) → IsFilling q → IsFilling (append_qp_break_line q)
unfolding append_qp_break_line IsNarrow column
break-IsFilling q f = record {
  narrow =
      IsNarrow-append 0 q.vcards (soft_break ++ fold_break) f.narrow (
        omega (arith, f.left),
        (omega (arith, f.left), (omega (arith, f.left), (omega arith, tt))),
      );
  left = ground (arith, column-append 0 q.vcards (soft_break ++ fold_break));
}

chunk-IsFilling :
    (q : Qp) (xs : Bytes)
    → All (λ b. b ≢ 10) xs
    → length xs ≤ q.limit
    → IsFilling q
    → IsFilling (record { vcards = q.vcards ++ xs; limit = q.limit - length xs })
chunk-IsFilling q xs h fits f = record {
  narrow =
      IsNarrow-append 0 q.vcards xs f.narrow
        (IsNarrow-short (column 0 q.vcards) xs (omega (arith, f.left)));
  left = omega (arith, f.left, column-append 0 q.vcards xs, column_inline (column 0 q.vcards) xs h);
}

ascii-IsFilling : (q : Qp) (c : ℕ) → c ≢ 10 → IsFilling q → IsFilling (append_qp_ascii q c)
unfolding append_qp_ascii
ascii-IsFilling q c h f = elim (Bool-cases (q.limit == 0)) [
  | inl full ↦ rw full (
      chunk-IsFilling (append_qp_break_line q) (c ∷ []) (h, tt)
        (unfold append_qp_break_line in omega arith) (break-IsFilling q f))
  | inr room ↦ rw room (chunk-IsFilling q (c ∷ []) (h, tt) (ground arith) f)
]

hex_digit-inline : (d : ℕ) → hex_digit d ≢ 10
hex_digit-inline d = ground arith

hex-IsFilling : (q : Qp) (c : ℕ) → IsFilling q → IsFilling (append_qp_hex q c)
unfolding append_qp_hex
hex-IsFilling q c f =
    let digits = 61 ∷ hex_digit (c / 16) ∷ hex_digit (c % 16) ∷ [] in
    let inline : All (λ b. b ≢ 10) digits =
      (omega arith, (hex_digit-inline (c / 16), (hex_digit-inline (c % 16), tt))) in
    elim (Bool-cases (ltb q.limit 3)) [
      | inl full ↦ rw full (
          chunk-IsFilling (append_qp_break_line q) digits inline
            (unfold append_qp_break_line in omega arith) (break-IsFilling q f))
      | inr room ↦ rw room (chunk-IsFilling q digits inline (ground arith) f)
    ]

char-IsFilling : (q : Qp) (c : ℕ) → IsFilling q → IsFilling (append_qp_char q c)
unfolding append_qp_char
char-IsFilling q c f = elim (Bool-cases (set_qp_encoding c)) [
  | inl special ↦ elim (Bool-cases (c == 10)) [
    | inl line ↦
        rw (special, line)
          (break-IsFilling (append_qp_hex (append_qp_hex q qp_cr) qp_lf)
            (hex-IsFilling (append_qp_hex q qp_cr) qp_lf (hex-IsFilling q qp_cr f)))
    | inr other ↦ rw (special, other) (hex-IsFilling q c f)
  ]
  | inr plain ↦
      let inline : c ≢ 10 = unfold set_qp_encoding in ground arith in
      elim (Bool-cases (c == 59)) [
        | inl semicolon ↦
            rw (plain, semicolon)
              (ascii-IsFilling (append_qp_hex q qp_esc) c inline (hex-IsFilling q qp_esc f))
        | inr other ↦ rw (plain, other) (ascii-IsFilling q c inline f)
      ]
]

field-IsFilling : (q : Qp) (field : Bytes) → IsFilling q → IsFilling (append_qp_field q field)
unfolding append_qp_field
field-IsFilling q [] f = f
field-IsFilling q (c ∷ cs) f = field-IsFilling (append_qp_char q c) cs (char-IsFilling q c f)

fields-IsFilling :
    (q : Qp) (fields : List Bytes) → IsFilling q → IsFilling (append_qp_fields q fields)
unfolding append_qp_fields
fields-IsFilling q [] f = f
fields-IsFilling q (field ∷ []) f = field-IsFilling q field f
fields-IsFilling q (field ∷ next ∷ fields) f =
    fields-IsFilling (append_qp_ascii (append_qp_field q field) 59) (next ∷ fields)
      (ascii-IsFilling (append_qp_field q field) 59 (omega arith) (field-IsFilling q field f))

-- A text that needs no folding.
pub printf_short : (s : Bytes) → length s < 75 → vcard_printf s ≡ s ++ crlf
unfolding vcard_printf fold_lines
printf_short s h =
    let whole : printed 1024 s ≡ s = take_all 1023 s (omega arith) in
    let one : length s / 75 + 1 ≡ suc zero = omega arith in
    rw (whole, one) (ap (λ t. t ++ crlf) (append-nil (take 75 s) ∙ take_all 75 s (omega arith)))

end-IsLines : (q : Qp) → IsFilling q → IsLines (q.vcards ++ crlf)
unfolding IsNarrow column
end-IsLines q f = (
  IsNarrow-append 0 q.vcards crlf f.narrow (omega (arith, f.left), (omega (arith, f.left), tt)),
  column-append 0 q.vcards crlf,
)

module _ (utf8 : Bytes → Option (List ℕ)) where
  abbrev pub param : Bytes → List Bytes → Bytes
  param desc fields = desc ++ (encoding_qp ++ (charset utf8 fields ++ colon))

  pub qp_header-short :
      (desc : Bytes) (fields : List Bytes)
      → length (param desc fields) < 75
      → qp_header utf8 desc fields
        ≡ record { vcards = param desc fields; limit = 75 - length (param desc fields) }
  unfolding qp_header
  qp_header-short desc fields h =
      let p = param desc fields in
      let line = printf_short p h in
      let front : take (length (p ++ crlf) - 2) (p ++ crlf) ≡ p =
        take_front (length (p ++ crlf) - 2) p crlf (omega (arith, length-append p crlf)) in
      let size : length p ≡ length desc + length encoding_qp + length (charset utf8 fields) + 1 =
        omega (
          arith,
          length-append desc (encoding_qp ++ (charset utf8 fields ++ colon)),
          length-append encoding_qp (charset utf8 fields ++ colon),
          length-append (charset utf8 fields) colon,
        ) in
      let left : size_minus qp_line_len
            (length desc + length encoding_qp + length (charset utf8 fields) + 1)
          ≡ 75 - length p =
        ground arith in
      rw (line, front, left)

  charset-inline : (fields : List Bytes) → All (λ b. b ≢ 10) (charset utf8 fields)
  unfolding charset
  charset-inline [] = tt
  charset-inline (field ∷ fields) = elim (Bool-cases (utf8_select utf8 field)) [
    | inl wide ↦ rw wide (inline charset_utf8 refl)
    | inr narrow ↦ rw narrow (charset-inline fields)
  ]

  -- Every line of a quoted-printable property has at most 76 bytes before its break, when the property's
  -- header has fewer than 75 and no line feed.
  pub vcard_qp_print_encoded-IsLines :
      (desc : Bytes) (fields : List Bytes)
      → length (param desc fields) < 75
      → All (λ b. b ≢ 10) desc
      → IsLines (vcard_qp_print_encoded utf8 desc fields)
  unfolding vcard_qp_print_encoded
  vcard_qp_print_encoded-IsLines desc fields h clean =
      let p = param desc fields in
      let tail : All (λ b. b ≢ 10) (charset utf8 fields ++ colon) =
        All-append (λ b. b ≢ 10) (charset utf8 fields) colon (charset-inline fields)
          (inline colon refl) in
      let plain : All (λ b. b ≢ 10) p =
        All-append (λ b. b ≢ 10) desc (encoding_qp ++ (charset utf8 fields ++ colon)) clean
          (All-append (λ b. b ≢ 10) encoding_qp (charset utf8 fields ++ colon)
            (inline encoding_qp refl) tail) in
      let start : IsFilling (record { vcards = p; limit = 75 - length p }) = record {
        narrow = IsNarrow-short 0 p (omega arith);
        left = omega (arith, column_inline 0 p plain);
      } in
      let full =
        fields-IsFilling (qp_header utf8 desc fields) fields
          (subst IsFilling (sym (qp_header-short desc fields h)) start) in
      end-IsLines (append_qp_fields (qp_header utf8 desc fields) fields) full
