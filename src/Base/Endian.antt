-- ===== src/Base/Endian.antt =====
-- Bytes, and integers in network byte order (g_htons, g_htonl and their inverses with memcpy).
use Prim.Native.Nat.{ℕ, ◌+◌, ◌*◌, ◌/◌, ◌%◌, ◌^◌, ◌<◌}
use mathlib.Core.Path.{◌≡◌, refl}
use mathlib.Core.List.{List, [], ◌∷◌, ◌++◌}
use native.Mathlib.Omega.{arith}
use map_client.Base.Lists.{All, length}

abbrev pub Bytes : Type 0
Bytes = List ℕ

abbrev pub IsByte : ℕ → Type 0
IsByte b = b < 256

-- The two bytes that a guint16 holds in network byte order.
unfoldable pub put_be16 : ℕ → Bytes
put_be16 n = (n / 256 % 256) ∷ (n % 256) ∷ []

-- The guint16 at the front of a buffer. The sources check the length before every such read.
unfoldable pub get_be16 : Bytes → ℕ
get_be16 (a ∷ b ∷ rest) = a * 256 + b
get_be16 _ = 0

unfoldable pub put_be32 : ℕ → Bytes
put_be32 n = (n / 2 ^ 24 % 256) ∷ (n / 2 ^ 16 % 256) ∷ (n / 256 % 256) ∷ (n % 256) ∷ []

unfoldable pub get_be32 : Bytes → ℕ
get_be32 (a ∷ b ∷ c ∷ d ∷ rest) = a * 2 ^ 24 + b * 2 ^ 16 + c * 256 + d
get_be32 _ = 0

pub get_be16-put_be16 : (n : ℕ) (rest : Bytes) → get_be16 (put_be16 n ++ rest) ≡ n % 2 ^ 16
unfolding put_be16 get_be16
get_be16-put_be16 n rest = omega arith

pub get_be32-put_be32 : (n : ℕ) (rest : Bytes) → get_be32 (put_be32 n ++ rest) ≡ n % 2 ^ 32
unfolding put_be32 get_be32
get_be32-put_be32 n rest = omega arith

pub put_be16-IsByte : (n : ℕ) → All IsByte (put_be16 n)
unfolding put_be16
put_be16-IsByte n = omega arith

pub put_be32-IsByte : (n : ℕ) → All IsByte (put_be32 n)
unfolding put_be32
put_be32-IsByte n = omega arith

pub length-put_be16 : (n : ℕ) → length (put_be16 n) ≡ 2
unfolding put_be16
length-put_be16 n = refl

pub length-put_be32 : (n : ℕ) → length (put_be32 n) ≡ 4
unfolding put_be32
length-put_be32 n = refl
