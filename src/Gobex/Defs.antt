-- ===== src/Gobex/Defs.antt =====
-- gobex/gobex-defs.h: data policies and error codes. Also GLib's text conversions, which the
-- headers call and which stay a parameter of the model.
use map_client.Base.{ℕ, ◌<◌, ◌^◌, ◌≡◌, refl, ◌⊎◌, inl, inr, Option, some, List, [], ◌∷◌, ◌++◌, All}
use map_client.Base.Endian.{Bytes, put_be16}

pub data GObexDataPolicy : Type 0 where
  inherit copy ref : GObexDataPolicy

-- The codes of GObexError; `proto` is a response code below G_OBEX_ERROR_FIRST.
pub data GObexError : Type 0 where
  parse_error invalid_args disconnected timeout cancelled failed : GObexError
  proto : ℕ → GObexError

-- The outcome of a function with a GError argument. `aborted` is a failed g_assert, which ends the
-- process. `stuck` is no outcome of the program: a loop of the model ran out of fuel.
pub data Result {ℓ} (A : Type ℓ) : Type ℓ where
  ok : A → Result A
  err : GObexError → Result A
  aborted stuck : Result A

pub Result-cases {ℓ} :
    {A : Type ℓ} (r : Result A)
    → ((a : A) × (r ≡ ok a)) ⊎ (((e : GObexError) × (r ≡ err e)) ⊎ ((r ≡ aborted) ⊎ (r ≡ stuck)))
Result-cases (ok a) = inl (a, refl)
Result-cases (err e) = inr (inl (e, refl))
Result-cases aborted = inr (inr (inl refl))
Result-cases stuck = inr (inr (inr refl))

-- GLib's conversions of text, by their documentation: `utf8_to_utf16` is g_utf8_to_utf16 of a whole
-- string, less the terminating zero; `convert_utf16be` is g_convert from UTF16BE to UTF8;
-- `utf8_strlen` counts characters.
pub record Glib : Type 0 where
  pub utf8_to_utf16 : Bytes → Option (List ℕ)
  pub convert_utf16be : Bytes → Option Bytes
  pub utf8_strlen : Bytes → ℕ

-- 16-bit units as they are sent, in network byte order.
abbrev pub be_units : List ℕ → Bytes
be_units [] = []
be_units (u ∷ us) = put_be16 u ++ be_units us

-- What is relied on: units are 16 bits wide, and the conversion back undoes the one forth.
pub record IsConverting (g : Glib) : Type 0 where
  pub units : (s : Bytes) (us : List ℕ) → g.utf8_to_utf16 s ≡ some us → All (λ u. u < 2 ^ 16) us
  pub back :
      (s : Bytes) (us : List ℕ)
      → g.utf8_to_utf16 s ≡ some us
      → g.convert_utf16be (be_units us) ≡ some s

-- errno values, as the program returns them with a minus sign. EPERM stands for a bare -1.
abbrev pub eperm : ℕ
eperm = 1

abbrev pub eagain : ℕ
eagain = 11

abbrev pub enobufs : ℕ
enobufs = 105
