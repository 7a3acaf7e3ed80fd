-- ===== src/Vcard/Qp/Decode.antt =====
-- plugins/vcard.c: what a quoted-printable reader makes of the encoded fields.
use map_client.Base.{
  ℕ, ◌+◌, ◌-◌, ◌*◌, ◌/◌, ◌%◌, ◌<◌, ◌≤◌, Bool, ◌&&◌, ◌||◌, leb, ◌≡◌, ◌≢◌, refl, sym, ap, subst, ◌∙◌,
  true, false, Option, List, [], ◌∷◌, ◌++◌, append_assoc, append-nil, All, length, ltb, ◌==◌,
  if◌then◌else◌, arith, Bool-cases, inl, inr,
}
use map_client.Base.Endian.{Bytes}
use map_client.Vcard.Words.{crlf, fold_break, soft_break}
use map_client.Vcard.Qp.Width.{param, qp_header-short}
use map_client.Vcard.Qp.{
  Qp, qp_cr, qp_lf, qp_esc, append_qp_break_line, append_qp_ascii, append_qp_hex,
  append_qp_new_line, append_qp_char, append_qp_field, append_qp_fields, hex_digit, set_qp_encoding,
  qp_header, vcard_qp_print_encoded,
}

-- A strict reader. "=" and two digits of 0 to 9 and A to F are a byte. "=", CR, LF and a space are
-- nothing: the space belongs to the break, as in a folded line. Any other printable character but "="
-- stands for itself, and what is none of these breaks the text off for good.
pub data Mode : Type 0 where
  in_text after_equals after_cr after_lf broken : Mode
  after_digit : ℕ → Mode

pub record Reader : Type 0 where
  pub mode : Mode
  pub value : Bytes

abbrev pub digit_value : ℕ → ℕ
digit_value b = if ltb b 65 then b - 48 else b - 55

abbrev pub is_digit : ℕ → Bool
is_digit b = leb 48 b && leb b 57 || leb 65 b && leb b 70

abbrev pub is_printable : ℕ → Bool
is_printable b = leb 33 b && leb b 126

abbrev pub moved : Mode → Bytes → Reader
moved m v = record { mode = m; value = v }

abbrev pub got : Bytes → Reader
got v = record { mode = in_text; value = v }

unfoldable pub feed : Mode → Bytes → ℕ → Reader
feed in_text v b =
    if b == 61
    then moved after_equals v
    else if is_printable b
    then got (v ++ (b ∷ []))
    else moved broken v
feed after_equals v b =
    if b == 13
    then moved after_cr v
    else if is_digit b
    then moved (after_digit (digit_value b)) v
    else moved broken v
feed after_cr v b = if b == 10 then moved after_lf v else moved broken v
feed after_lf v b = if b == 32 then got v else moved broken v
feed (after_digit d) v b =
    if is_digit b then got (v ++ ((16 * d + digit_value b) ∷ [])) else moved broken v
feed broken v b = moved broken v

unfoldable pub feed_all : Reader → Bytes → Reader
feed_all r [] = r
feed_all r (b ∷ bs) = feed_all (feed r.mode r.value b) bs

feed_all-append : (r : Reader) (xs ys : Bytes) → feed_all r (xs ++ ys) ≡ feed_all (feed_all r xs) ys
unfolding feed_all
feed_all-append r [] ys = refl
feed_all-append r (x ∷ xs) ys = feed_all-append (feed r.mode r.value x) xs ys

nothing_read : feed_all (got []) [] ≡ got []
unfolding feed_all
nothing_read = refl

feed_all-break : (v : Bytes) → feed_all (got v) (soft_break ++ fold_break) ≡ got v
unfolding feed_all feed
feed_all-break v = refl

-- What stands for itself.
abbrev IsPlain : ℕ → Type 0
IsPlain c = (c ≢ 61) × (33 ≤ c) × (c ≤ 126)

feed_all-plain : (v : Bytes) (c : ℕ) → IsPlain c → feed_all (got v) (c ∷ []) ≡ got (v ++ (c ∷ []))
unfolding feed_all feed
feed_all-plain v c (equals, low, high) = ground arith

digit_value-hex_digit :
    (d : ℕ)
    → d < 16
    → (digit_value (hex_digit d) ≡ d) × (hex_digit d ≢ 13) × (is_digit (hex_digit d) ≡ true)
digit_value-hex_digit d h = (ground arith, ground arith, ground arith)

feed_all-hex :
    (v : Bytes) (c : ℕ)
    → c < 256
    → feed_all (got v) (61 ∷ hex_digit (c / 16) ∷ hex_digit (c % 16) ∷ []) ≡ got (v ++ (c ∷ []))
unfolding feed_all feed
feed_all-hex v c h =
    let (high, digit, first) = digit_value-hex_digit (c / 16) (omega arith) in
    let (low, _, second) = digit_value-hex_digit (c % 16) (omega arith) in
    let sum : 16 * (c / 16) + c % 16 ≡ c = omega arith in
    let other : (hex_digit (c / 16) == 13) ≡ false = ground arith in
    rw (other, first, second, high, low, sum)

-- After the header, what was printed so far reads as `v`.
pub record IsReading (header : Bytes) (q : Qp) (v : Bytes) : Type 0 where
  pub body : Bytes
  pub split : q.vcards ≡ header ++ body
  pub reads : feed_all (got []) body ≡ got v

module _ (header : Bytes) where
  chunk-IsReading :
      (q : Qp) (xs : Bytes) (limit : ℕ) (v v' : Bytes)
      → feed_all (got v) xs ≡ got v'
      → IsReading header q v
      → IsReading header (record { vcards = q.vcards ++ xs; limit = limit }) v'
  chunk-IsReading q xs limit v v' step r = record {
    body = r.body ++ xs;
    split = ap (λ t. t ++ xs) r.split ∙ append_assoc header r.body xs;
    reads = feed_all-append (got []) r.body xs ∙ ap (λ s. feed_all s xs) r.reads ∙ step;
  }

  break-IsReading :
      (q : Qp) (v : Bytes) → IsReading header q v → IsReading header (append_qp_break_line q) v
  unfolding append_qp_break_line
  break-IsReading q v r = chunk-IsReading q (soft_break ++ fold_break) 74 v v (feed_all-break v) r

  ascii-IsReading :
      (q : Qp) (c : ℕ) (v : Bytes)
      → IsPlain c
      → IsReading header q v
      → IsReading header (append_qp_ascii q c) (v ++ (c ∷ []))
  unfolding append_qp_ascii
  ascii-IsReading q c v h r = elim (Bool-cases (q.limit == 0)) [
    | inl full ↦
        let next = append_qp_break_line q in
        rw full (
          chunk-IsReading next (c ∷ []) (next.limit - 1) v (v ++ (c ∷ [])) (feed_all-plain v c h)
            (break-IsReading q v r))
    | inr room ↦
        rw room
          (chunk-IsReading q (c ∷ []) (q.limit - 1) v (v ++ (c ∷ [])) (feed_all-plain v c h) r)
  ]

  hex-IsReading :
      (q : Qp) (c : ℕ) (v : Bytes)
      → c < 256
      → IsReading header q v
      → IsReading header (append_qp_hex q c) (v ++ (c ∷ []))
  unfolding append_qp_hex
  hex-IsReading q c v h r =
      let digits = 61 ∷ hex_digit (c / 16) ∷ hex_digit (c % 16) ∷ [] in
      elim (Bool-cases (ltb q.limit 3)) [
        | inl full ↦
            let next = append_qp_break_line q in
            rw full (
              chunk-IsReading next digits (next.limit - 3) v (v ++ (c ∷ [])) (feed_all-hex v c h)
                (break-IsReading q v r))
        | inr room ↦
            rw room
              (chunk-IsReading q digits (q.limit - 3) v (v ++ (c ∷ [])) (feed_all-hex v c h) r)
      ]

  new_line-IsReading :
      (q : Qp) (v : Bytes)
      → IsReading header q v
      → IsReading header (append_qp_new_line q) (v ++ (qp_cr ∷ []) ++ (qp_lf ∷ []))
  new_line-IsReading q v r =
      break-IsReading (append_qp_hex (append_qp_hex q qp_cr) qp_lf)
        (v ++ (qp_cr ∷ []) ++ (qp_lf ∷ []))
        (hex-IsReading (append_qp_hex q qp_cr) qp_lf (v ++ (qp_cr ∷ [])) (omega arith)
          (hex-IsReading q qp_cr v (omega arith) r))

-- What stands for a character: a line feed gets a carriage return, and a semicolon a backslash.
abbrev pub put_quoted : Bytes → ℕ → Bytes
put_quoted v c =
    if c == 10
    then v ++ (qp_cr ∷ []) ++ (qp_lf ∷ [])
    else if c == 59
    then v ++ (qp_esc ∷ []) ++ (c ∷ [])
    else v ++ (c ∷ [])

abbrev pub put_quoted_field : Bytes → Bytes → Bytes
put_quoted_field v [] = v
put_quoted_field v (c ∷ cs) = put_quoted_field (put_quoted v c) cs

-- The fields with a bare semicolon between each two.
abbrev pub put_quoted_fields : Bytes → List Bytes → Bytes
put_quoted_fields v [] = v
put_quoted_fields v (field ∷ []) = put_quoted_field v field
put_quoted_fields v (field ∷ next ∷ fields) =
    put_quoted_fields (put_quoted_field v field ++ (59 ∷ [])) (next ∷ fields)

set_qp_encoding_line : set_qp_encoding 10 ≡ true
unfolding set_qp_encoding
set_qp_encoding_line = refl

set_qp_encoding_semicolon : set_qp_encoding 59 ≡ false
unfolding set_qp_encoding
set_qp_encoding_semicolon = refl

unquoted : (c : ℕ) → set_qp_encoding c ≡ false → IsPlain c
unfolding set_qp_encoding
unquoted c h = (ground arith, ground arith, ground arith)

module _ (header : Bytes) where
  char-IsReading :
      (q : Qp) (c : ℕ) (v : Bytes)
      → c < 256
      → IsReading header q v
      → IsReading header (append_qp_char q c) (put_quoted v c)
  unfolding append_qp_char
  char-IsReading q c v h r = elim (Bool-cases (set_qp_encoding c)) [
    | inl special ↦ elim (Bool-cases (c == 10)) [
      | inl line ↦ rw (special, line) (new_line-IsReading header q v r)
      | inr other ↦
          let bare : (c == 59) ≡ false = ground (arith, set_qp_encoding_semicolon) in
          rw (special, other, bare) (hex-IsReading header q c v h r)
    ]
    | inr plain ↦
        let stands : IsPlain c = unquoted c plain in
        let other : (c == 10) ≡ false = ground (arith, set_qp_encoding_line) in
        elim (Bool-cases (c == 59)) [
          | inl semicolon ↦
              rw (plain, other, semicolon)
                (ascii-IsReading header (append_qp_hex q qp_esc) c (v ++ (qp_esc ∷ [])) stands
                  (hex-IsReading header q qp_esc v (omega arith) r))
          | inr bare ↦ rw (plain, other, bare) (ascii-IsReading header q c v stands r)
        ]
  ]

  field-IsReading :
      (q : Qp) (field : Bytes) (v : Bytes)
      → All (λ c. c < 256) field
      → IsReading header q v
      → IsReading header (append_qp_field q field) (put_quoted_field v field)
  unfolding append_qp_field
  field-IsReading q [] v h r = r
  field-IsReading q (c ∷ cs) v (here, h) r =
      field-IsReading (append_qp_char q c) cs (put_quoted v c) h (char-IsReading q c v here r)

  fields-IsReading :
      (q : Qp) (fields : List Bytes) (v : Bytes)
      → All (All (λ c. c < 256)) fields
      → IsReading header q v
      → IsReading header (append_qp_fields q fields) (put_quoted_fields v fields)
  unfolding append_qp_fields
  fields-IsReading q [] v h r = r
  fields-IsReading q (field ∷ []) v (here, h) r = field-IsReading q field v here r
  fields-IsReading q (field ∷ next ∷ fields) v (here, h) r =
      let w = put_quoted_field v field in
      fields-IsReading (append_qp_ascii (append_qp_field q field) 59) (next ∷ fields)
        (w ++ (59 ∷ [])) h
        (ascii-IsReading header (append_qp_field q field) 59 w
          (unquoted 59 set_qp_encoding_semicolon) (field-IsReading q field v here r))

-- The text of a property is its header, a body and a line end, and the strict reader `feed_all` takes
-- the body back to the fields, each line feed with a carriage return before it, each semicolon of a
-- field with a backslash, and a bare semicolon between two fields. For the reader a soft break is "=",
-- CR, LF and the space behind them; quoted-printable as such ends it before that space, which would
-- then be read as part of the value. The header has fewer than 75 bytes, and the fields are bytes.
pub vcard_qp_print_encoded-feed_all :
    (utf8 : Bytes → Option (List ℕ)) (desc : Bytes) (fields : List Bytes)
    → length (param utf8 desc fields) < 75
    → All (All (λ c. c < 256)) fields
    → (body : Bytes) × (vcard_qp_print_encoded utf8 desc fields
        ≡ param utf8 desc fields ++ body ++ crlf)
      × (feed_all (got []) body ≡ got (put_quoted_fields [] fields))
unfolding vcard_qp_print_encoded
vcard_qp_print_encoded-feed_all utf8 desc fields h bytes =
    let p = param utf8 desc fields in
    let start : IsReading p (record { vcards = p; limit = 75 - length p }) [] = record {
      body = [];
      split = sym (append-nil p);
      reads = nothing_read;
    } in
    let whole =
      fields-IsReading p (qp_header utf8 desc fields) fields [] bytes
        (subst (λ q. IsReading p q []) (sym (qp_header-short utf8 desc fields h)) start) in
    (whole.body, ap (λ t. t ++ crlf) whole.split, whole.reads)
