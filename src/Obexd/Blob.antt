-- ===== src/Obexd/Blob.antt =====
-- src/obex.c: memncmp0, and the comparison of strings.
use map_client.Base.{
  ℕ, ◌≡◌, refl, inl, inr, Bool, true, false, ◌&&◌, Option, some, none, [], ◌∷◌, take, ◌==◌,
  if◌then◌else◌, arith, Option-cases,
}
use map_client.Base.Endian.{Bytes}

-- A pointer to bytes, which may be null, and their number.
pub record Blob : Type 0 where
  pub ptr : Option Bytes
  pub size : ℕ

abbrev pub null_blob : Blob
null_blob = record { ptr = none; size = 0 }

-- memcmp of two buffers, and strcmp of two strings: whether it gives 0.
unfoldable pub same_bytes : Bytes → Bytes → Bool
same_bytes [] [] = true
same_bytes [] (b ∷ bs) = false
same_bytes (a ∷ as_) [] = false
same_bytes (a ∷ as_) (b ∷ bs) = let rest = same_bytes as_ bs in a == b && rest

-- Whether memncmp0 gives 0.
unfoldable pub memncmp0 : Blob → Blob → Bool
memncmp0 a b =
    if a.size == b.size
    then elim a.ptr [
      | none ↦ elim b.ptr [ none ↦ true | some _ ↦ false ]
      | some x ↦ elim b.ptr [ none ↦ false | some y ↦ same_bytes (take a.size x) (take b.size y) ]
    ]
    else false

pub same_bytes_refl : (a : Bytes) → same_bytes a a ≡ true
unfolding same_bytes
same_bytes_refl [] = refl
same_bytes_refl (a ∷ as_) = ground (arith, same_bytes_refl as_)

pub same_bytes-eq : (a b : Bytes) → same_bytes a b ≡ true → a ≡ b
unfolding same_bytes
same_bytes-eq [] [] h = refl
same_bytes-eq [] (b ∷ bs) h = absurd (ground arith)
same_bytes-eq (a ∷ as_) [] h = absurd (ground arith)
same_bytes-eq (a ∷ as_) (b ∷ bs) h = ground (arith, same_bytes-eq as_ bs)

pub memncmp0_refl : (a : Blob) → memncmp0 a a ≡ true
unfolding memncmp0
memncmp0_refl a = elim (Option-cases a.ptr) [
  | inl null ↦ ground arith
  | inr (x, full) ↦ ground (arith, same_bytes_refl (take a.size x))
]

-- Two blobs that are the same cannot be told apart by a third.
pub memncmp0_congr : (a b c : Blob) → memncmp0 a b ≡ true → memncmp0 c a ≡ memncmp0 c b
unfolding memncmp0
memncmp0_congr a b c h = elim (Option-cases a.ptr) [
  | inl null ↦ ground arith
  | inr (x, full) ↦ elim (Option-cases b.ptr) [
    | inl null' ↦ ground arith
    | inr (y, full') ↦ let same = same_bytes-eq (take a.size x) (take b.size y) in ground arith
  ]
]
