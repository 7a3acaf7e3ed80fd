-- ===== src/Vcard/Escape.antt =====
-- plugins/vcard.c: add_slash, escape_semicolon, set_escape and get_escaped_fields.
pub mod Split
use map_client.Base.{
  ℕ, suc, ◌+◌, Option, some, none, List, [], ◌∷◌, ◌++◌, ltb, leb, ◌==◌, if◌then◌else◌,
}
use map_client.Base.Endian.{Bytes}
use map_client.Vcard.Words.{semicolon}
use map_client.Vcard.Print.{format_vcard21, format_vcard30}

abbrev pub len_max : ℕ
len_max = 128

-- What follows the backslash for the characters that get one.
abbrev pub slash_of : ℕ → Option ℕ
slash_of c =
    if c == 10
    then some 110
    else if c == 13
    then some 114
    else if c == 92
    then some 92
    else if c == 59
    then some 59
    else if c == 44
    then some 44
    else none

abbrev pub semicolon_of : ℕ → Option ℕ
semicolon_of c = if c == 59 then some 59 else none

-- The loop that both functions have, at index `j` of a destination of `size` bytes.
unfoldable pub escape_from : (slash : ℕ → Option ℕ) (size j : ℕ) → Bytes → Bytes
escape_from slash size j [] = []
escape_from slash size j (c ∷ src) =
    let plain = escape_from slash size (j + 1) src in
    let escaped = escape_from slash size (j + 2) src in
    if ltb (j + 1) size
    then elim (slash c) [
      | none ↦ c ∷ plain
      | some e ↦ if leb size (j + 2) then [] else 92 ∷ e ∷ escaped
    ]
    else []

-- What stands in the destination. The length that is passed is the source's in every call.
abbrev pub add_slash : (src : Bytes) (size : ℕ) → Bytes
add_slash src size = escape_from slash_of size 0 src

abbrev pub escape_semicolon : (src : Bytes) (size : ℕ) → Bytes
escape_semicolon src size = escape_from semicolon_of size 0 src

-- Any other format leaves the destination as it was.
abbrev pub set_escape : (format : ℕ) (dest src : Bytes) (size : ℕ) → Bytes
set_escape format dest src size =
    if format == format_vcard30
    then add_slash src size
    else if format == format_vcard21
    then escape_semicolon src size
    else dest

-- The fields stand before the NULL of the argument list; `escaped` is what the array holds.
unfoldable pub get_escaped_fields : (format : ℕ) (escaped : Bytes) → List Bytes → Bytes
get_escaped_fields format escaped [] = []
get_escaped_fields format escaped (field ∷ []) = set_escape format escaped field len_max
get_escaped_fields format escaped (field ∷ next ∷ fields) =
    let line = set_escape format escaped field len_max in
    line ++ (semicolon ++ get_escaped_fields format line (next ∷ fields))
