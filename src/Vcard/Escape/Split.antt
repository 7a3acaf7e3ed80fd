-- ===== src/Vcard/Escape/Split.antt =====
-- plugins/vcard.c: what a reader that splits at semicolons makes of the escaped fields.
use map_client.Base.{
  ℕ, ◌+◌, ◌*◌, ◌<◌, ◌≡◌, ◌≢◌, ◌⊎◌, inl, inr, refl, sym, ap, ◌∙◌, append-nil, Bool, true, false,
  Option, some, none, List, [], ◌∷◌, ◌++◌, All, length, ltb, ◌==◌, if◌then◌else◌, arith, Bool-cases,
  Option-cases,
}
use map_client.Base.Endian.{Bytes}
use map_client.Vcard.Words.{semicolon}
use map_client.Vcard.Print.{format_vcard21, format_vcard30}
use map_client.Vcard.Escape.{
  len_max, slash_of, semicolon_of, escape_from, set_escape, get_escaped_fields,
}

-- The first field, and the others.
abbrev pub Fields : Type 0
Fields = Bytes × List Bytes

abbrev pub put_first : ℕ → Fields → Fields
put_first c (f, fs) = (c ∷ f, fs)

abbrev pub put_front : Bytes → Fields → Fields
put_front s (f, fs) = (s ++ f, fs)

abbrev pub new_field : Fields → Fields
new_field (f, fs) = ([], f ∷ fs)

abbrev pub unslash : ℕ → ℕ
unslash c = if c == 110 then 10 else if c == 114 then 13 else c

-- A semicolon ends a field, unless a backslash is before it.
unfoldable pub split_fields : (slash : Bool) → Bytes → Fields
split_fields slash [] = ([], [])
split_fields false (b ∷ bs) =
    let escaped = split_fields true bs in
    let next = split_fields false bs in
    if b == 92 then escaped else if b == 59 then new_field next else put_first b next
split_fields true (b ∷ bs) = put_first (unslash b) (split_fields false bs)

-- The destination has room for the string and its NUL.
escape_from_bound :
    (slash : ℕ → Option ℕ) (size j : ℕ) (src : Bytes)
    → j < size
    → j + length (escape_from slash size j src) < size
unfolding escape_from
escape_from_bound slash size j [] h = ground arith
escape_from_bound slash size j (c ∷ src) h = elim (Bool-cases (ltb (j + 1) size)) [
  | inr full ↦ ground arith
  | inl room ↦ elim (Option-cases (slash c)) [
    | inl plain ↦ ground (arith, escape_from_bound slash size (j + 1) src)
    | inr (e, escaped) ↦ ground (arith, escape_from_bound slash size (j + 2) src)
  ]
]

-- Which characters a format's loop takes care of.
abbrev pub IsRead : (ℕ → Option ℕ) → ℕ → Type 0
IsRead slash c =
    ((slash c ≡ none) × (c ≢ 92) × (c ≢ 59)) ⊎ ((e : ℕ) × (slash c ≡ some e) × (unslash e ≡ c))

slash_of-IsRead : (c : ℕ) → IsRead slash_of c
slash_of-IsRead c = elim (Option-cases (slash_of c)) [
  | inl plain ↦ inl (plain, ground arith, ground arith)
  | inr (e, escaped) ↦ inr (e, escaped, ground arith)
]

semicolon_of-IsRead : (c : ℕ) → c ≢ 92 → IsRead semicolon_of c
semicolon_of-IsRead c h = elim (Option-cases (semicolon_of c)) [
  | inl plain ↦ inl (plain, h, ground arith)
  | inr (e, escaped) ↦ inr (e, escaped, ground arith)
]

split_fields-escape_from :
    (slash : ℕ → Option ℕ) (size j : ℕ) (src rest : Bytes)
    → All (IsRead slash) src
    → j + 2 * length src < size
    → split_fields false (escape_from slash size j src ++ rest)
      ≡ put_front src (split_fields false rest)
unfolding split_fields escape_from
split_fields-escape_from slash size j [] rest h fits = refl
split_fields-escape_from slash size j (c ∷ src) rest (inl (plain, other, more), h) fits =
    ground (arith, split_fields-escape_from slash size (j + 1) src rest h)
split_fields-escape_from slash size j (c ∷ src) rest (inr (e, escaped, back), h) fits =
    ground (arith, split_fields-escape_from slash size (j + 2) src rest h)

-- The two formats, and the fields that each can carry: 2.1 leaves a backslash alone.
abbrev pub IsCarried : ℕ → Bytes → Type 0
IsCarried format field =
    (2 * length field < len_max)
    × ((format ≡ format_vcard30) ⊎ ((format ≡ format_vcard21) × All (λ c. c ≢ 92) field))

All-slash_of : (src : Bytes) → All (IsRead slash_of) src
All-slash_of [] = tt
All-slash_of (c ∷ src) = (slash_of-IsRead c, All-slash_of src)

All-semicolon_of : (src : Bytes) → All (λ c. c ≢ 92) src → All (IsRead semicolon_of) src
All-semicolon_of [] h = tt
All-semicolon_of (c ∷ src) (here, h) = (semicolon_of-IsRead c here, All-semicolon_of src h)

split_fields-set_escape :
    (format : ℕ) (dest src rest : Bytes)
    → IsCarried format src
    → split_fields false (set_escape format dest src len_max ++ rest)
      ≡ put_front src (split_fields false rest)
split_fields-set_escape format dest src rest (fits, inl new) =
    ground (arith, split_fields-escape_from slash_of len_max 0 src rest (All-slash_of src))
split_fields-set_escape format dest src rest (fits, inr (old, h)) =
    ground
      (arith, split_fields-escape_from semicolon_of len_max 0 src rest (All-semicolon_of src h))

split_semicolon :
    (rest : Bytes) → split_fields false (semicolon ++ rest) ≡ new_field (split_fields false rest)
unfolding split_fields
split_semicolon rest = refl

split_end : split_fields false [] ≡ ([], [])
unfolding split_fields
split_end = refl

-- A reader that splits at the semicolons without a backslash and takes the backslashes off gets the
-- fields back from get_escaped_fields, whatever the array held: in format 3.0, and in 2.1 when no field
-- has a backslash. The fields are shorter than 64 bytes.
pub split_fields-get_escaped_fields :
    (format : ℕ) (escaped field : Bytes) (fields : List Bytes)
    → All (IsCarried format) (field ∷ fields)
    → split_fields false (get_escaped_fields format escaped (field ∷ fields)) ≡ (field, fields)
unfolding get_escaped_fields
split_fields-get_escaped_fields format escaped field [] (h, _) =
    ap (split_fields false) (sym (append-nil (set_escape format escaped field len_max)))
    ∙ split_fields-set_escape format escaped field [] h
    ∙ ap (put_front field) split_end
    ∙ ap (λ f. (f, [])) (append-nil field)
split_fields-get_escaped_fields format escaped field (next ∷ fields) (h, hs) =
    let line = set_escape format escaped field len_max in
    let more = get_escaped_fields format line (next ∷ fields) in
    split_fields-set_escape format escaped field (semicolon ++ more) h
    ∙ ap (put_front field) (split_semicolon more)
    ∙ ap (λ r. put_front field (new_field r))
        (split_fields-get_escaped_fields format line next fields hs)
    ∙ ap (λ f. (f, next ∷ fields)) (append-nil field)
