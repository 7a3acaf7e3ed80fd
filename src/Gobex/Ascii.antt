-- ===== src/Gobex/Ascii.antt =====
-- GLib's text conversions on small inputs: concrete functions that the examples put in for them.
use map_client.Base.{
  ℕ, ◌+◌, ◌-◌, ◌*◌, ◌/◌, ◌%◌, ◌^◌, ◌<◌, ◌≡◌, refl, Bool, true, Option, some, none, List, [], ◌∷◌,
  ◌&&◌, arith, length, All, ltb, ◌==◌, if◌then◌else◌,
}
use map_client.Base.Endian.{Bytes, put_be16}
use map_client.Gobex.Defs.{Glib, be_units, IsConverting}

-- ASCII only: one byte, one unit, one character.
abbrev all_ascii : Bytes → Bool
all_ascii [] = true
all_ascii (b ∷ bs) = ltb b 128 && all_ascii bs

unfoldable pub ascii_to_utf16 : Bytes → Option (List ℕ)
ascii_to_utf16 s = if all_ascii s then some s else none

unfoldable pub ascii_of_utf16be : Bytes → Option Bytes
ascii_of_utf16be [] = some []
ascii_of_utf16be (hi ∷ []) = none
ascii_of_utf16be (hi ∷ lo ∷ rest) =
    let more = ascii_of_utf16be rest in
    if hi == 0 && ltb lo 128 then elim more [ none ↦ none | some s ↦ some (lo ∷ s) ] else none

abbrev pub ascii : Glib
ascii = record {
  utf8_to_utf16 = ascii_to_utf16;
  convert_utf16be = ascii_of_utf16be;
  utf8_strlen = length {A = ℕ};
}

ascii_back : (s : Bytes) → all_ascii s ≡ true → ascii_of_utf16be (be_units s) ≡ some s
unfolding ascii_of_utf16be put_be16
ascii_back [] h = refl
ascii_back (b ∷ bs) h = ground (arith, ascii_back bs)

ascii_small : (s : Bytes) → all_ascii s ≡ true → All (λ u. u < 2 ^ 16) s
ascii_small [] h = tt
ascii_small (b ∷ bs) h = ground (arith, ascii_small bs)

ascii_to_utf16_inv : (s us : Bytes) → ascii_to_utf16 s ≡ some us → (all_ascii s ≡ true) × (us ≡ s)
unfolding ascii_to_utf16
ascii_to_utf16_inv s us e = ground arith

pub ascii-IsConverting : IsConverting ascii
ascii-IsConverting = record {
  units = λ s us e. let (h, same) = ascii_to_utf16_inv s us e in rw same (ascii_small s h);
  back = λ s us e. let (h, same) = ascii_to_utf16_inv s us e in rw same (ascii_back s h);
}

-- ASCII, and the characters of four bytes, which take two units.
unfoldable pub wide_to_utf16 : Bytes → Option (List ℕ)
wide_to_utf16 [] = some []
wide_to_utf16 (a ∷ b ∷ c ∷ d ∷ rest) =
    let here : ℕ =
      (a - 240) * 2 ^ 18 + (b - 128) * 2 ^ 12 + (c - 128) * 2 ^ 6 + (d - 128) - 2 ^ 16 in
    let narrow = wide_to_utf16 (b ∷ c ∷ d ∷ rest) in
    let after = wide_to_utf16 rest in
    if ltb a 240 then elim narrow [ none ↦ none | some us ↦ some (a ∷ us) ] else elim after [
      | none ↦ none
      | some us ↦ some ((0xd800 + here / 2 ^ 10) ∷ (0xdc00 + here % 2 ^ 10) ∷ us)
    ]
wide_to_utf16 (a ∷ rest) =
    if ltb a 128 then elim (wide_to_utf16 rest) [ none ↦ none | some us ↦ some (a ∷ us) ] else none

abbrev wide_strlen : Bytes → ℕ
wide_strlen [] = 0
wide_strlen (b ∷ bs) =
    if ltb b 128
    then 1 + wide_strlen bs
    else (if ltb b 192 then wide_strlen bs else 1 + wide_strlen bs)

abbrev pub wide : Glib
wide = record {
  utf8_to_utf16 = wide_to_utf16;
  convert_utf16be = ascii_of_utf16be;
  utf8_strlen = wide_strlen;
}
