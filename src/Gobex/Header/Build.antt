-- ===== src/Gobex/Header/Build.antt =====
-- Headers as the constructors make them: g_obex_header_create_list, and what encoding them gives.
use map_client.Base.{
  ℕ, ◌+◌, ◌*◌, ◌≤◌, ◌<◌, ◌≡◌, ◌≢◌, ◌⊎◌, inl, inr, Bool-cases, some, List, [], ◌∷◌, arith, length,
  All, ◌==◌, Option-cases,
}
use map_client.Base.Endian.{Bytes}
use map_client.Gobex.Defs.{Glib}
use map_client.Gobex.Header.{
  GObexHeader, VaArg, create_one, create_list, new_unicode, c_string, hdr_enc, enc_unicode,
}
use map_client.Gobex.Header.Codec.{
  Encoded, written, failed, asserted, encode, encode_unicode, utf8_to_utf16,
}
use map_client.Gobex.Header.WellFormed.{IsWellFormed, create_one-IsWellFormed, hdr_enc_cases}
use map_client.Gobex.Header.RoundTrip.{c_string_idem}

abbrev pub total_hlen : List GObexHeader → ℕ
total_hlen [] = 0
total_hlen (h ∷ hs) = h.hlen + total_hlen hs

create_list_cons :
    (g : Glib) (id : ℕ) (a : VaArg) (args : List (ℕ × VaArg)) (hs : List GObexHeader) (total : ℕ)
    → create_list g ((id, a) ∷ args) ≡ some (hs, total)
    → ((hs ≡ []) × (total ≡ 0))
      ⊎ ((h : GObexHeader) × (l : List GObexHeader) × (t : ℕ) × (create_one g id a ≡ some h)
          × (create_list g args ≡ some (l, t))
          × (hs ≡ h ∷ l)
          × (total ≡ h.hlen + t))
unfolding create_list
create_list_cons g id a args hs total e = elim (Bool-cases (id == 0)) [
  | inl end ↦ inl (ground arith, ground arith)
  | inr more ↦ elim (Option-cases (create_one g id a)) [
    | inl one ↦ absurd (ground arith)
    | inr (h, one) ↦ elim (Option-cases (create_list g args)) [
      | inl rest ↦ absurd (ground arith)
      | inr ((l, t), rest) ↦ inr (h, l, t, one, rest, ground arith, ground arith)
    ]
  ]
]

-- Every header of the list that the variable arguments describe is well formed, and `*total_len` is
-- the sum of their lengths.
pub create_list-IsWellFormed :
    (g : Glib) (args : List (ℕ × VaArg)) (hs : List GObexHeader) (total : ℕ)
    → create_list g args ≡ some (hs, total)
    → All IsWellFormed hs × (total ≡ total_hlen hs)
unfolding create_list
create_list-IsWellFormed g [] [] total e = (tt, ground arith)
create_list-IsWellFormed g [] (h ∷ hs) total e = absurd (ground arith)
create_list-IsWellFormed g ((id, a) ∷ args) hs total e =
    elim (create_list_cons g id a args hs total e) [
      | inl (hs_nil, total_zero) ↦ rw hs_nil (tt, total_zero)
      | inr (h, l, t, one, rest, hs_cons, sum) ↦
          let (all, ih) = create_list-IsWellFormed g args l t rest in
          rw hs_cons ((create_one-IsWellFormed g id a h one, all), omega arith)
    ]

-- A successful encoding that returns `n`.
abbrev pub IsWritten : Encoded → ℕ → Type 0
IsWritten (written bs r) n = r ≡ n
IsWritten _ n = ⊥

-- A header whose id is a byte and which is not a text is encoded in every buffer that has its length:
-- the only failure is a shorter buffer, and the assertions hold.
pub encode_fails_iff_short :
    (g : Glib) (h : GObexHeader) (n : ℕ)
    → h.id < 256
    → hdr_enc h.id ≢ enc_unicode
    → (n < h.hlen → encode g h n ≡ failed) × (h.hlen ≤ n → IsWritten (encode g h n) h.hlen)
unfolding encode
encode_fails_iff_short g h n b ne = (λ lt. ground arith, λ le. ground (arith, hdr_enc_cases h.id b))

-- A text header that g_obex_header_new_unicode made of a non-empty string is encoded in any buffer
-- that holds it, if it converts to UTF-16 with as many units as characters, one or more.
pub encode-new_unicode :
    (g : Glib) (id : ℕ) (s cs : Bytes) (c n : ℕ) (us : List ℕ) (h : GObexHeader)
    → new_unicode g id s ≡ some h
    → c_string s ≡ c ∷ cs
    → g.utf8_to_utf16 (c ∷ cs) ≡ some us
    → h.hlen ≤ n
    → length us ≡ g.utf8_strlen (c_string s)
    → 0 < length us
    → IsWritten (encode g h n) h.hlen
unfolding encode encode_unicode utf8_to_utf16 new_unicode
encode-new_unicode g id s cs c n us h e sc u le eq pos = ground (arith, c_string_idem s)

-- The length is counted in characters, and asserted in UTF-16 units. So a text header that
-- g_obex_header_new_unicode made of a non-empty string whose numbers of units and of characters differ
-- fails the assertion in every buffer that holds the counted length and the text.
pub encode-new_unicode_asserted :
    (g : Glib) (id : ℕ) (s cs : Bytes) (c n : ℕ) (us : List ℕ) (h : GObexHeader)
    → new_unicode g id s ≡ some h
    → c_string s ≡ c ∷ cs
    → g.utf8_to_utf16 (c ∷ cs) ≡ some us
    → h.hlen ≤ n
    → (length us + 1) * 2 ≤ n
    → length us ≢ g.utf8_strlen (c_string s)
    → encode g h n ≡ asserted
unfolding encode encode_unicode utf8_to_utf16 new_unicode
encode-new_unicode_asserted g id s cs c n us h e sc u le fits ne = ground (arith, c_string_idem s)
