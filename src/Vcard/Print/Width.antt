-- ===== src/Vcard/Print/Width.antt =====
-- plugins/vcard.c: how wide the printed lines are.
use map_client.Base.{
  ℕ, zero, suc, ◌+◌, ◌*◌, ◌/◌, ◌≤◌, ◌<◌, ◌≡◌, refl, sym, ap, subst, ◌∙◌, All, ◌≢◌, not, ◌&&◌, Bool,
  true, [], ◌∷◌, ◌++◌, take, drop, length, length-take, length-drop, append_assoc, ◌==◌,
  if◌then◌else◌, arith,
}
use map_client.Base.Endian.{Bytes}
use map_client.Vcard.Words.{crlf, fold_break}
use map_client.Vcard.Print.{fold_lines, vcard_printf, printed}

-- The column after a byte at column `c`, and after a text.
abbrev pub column_after : ℕ → ℕ → ℕ
column_after c b = if b == 10 then 0 else suc c

unfoldable pub column : ℕ → Bytes → ℕ
column c [] = c
column c (b ∷ bs) = column (column_after c b) bs

-- From column `c` on, no byte stands past column 78, the line break's two included.
unfoldable pub IsNarrow : ℕ → Bytes → Type 0
IsNarrow c [] = Unit {0}
IsNarrow c (b ∷ bs) = (c < 78) × IsNarrow (column_after c b) bs

-- Whole lines, none too wide.
abbrev pub IsLines : Bytes → Type 0
IsLines text = IsNarrow 0 text × (column 0 text ≡ 0)

pub column-append : (c : ℕ) (xs ys : Bytes) → column c (xs ++ ys) ≡ column (column c xs) ys
unfolding column
column-append c [] ys = refl
column-append c (x ∷ xs) ys = column-append (column_after c x) xs ys

pub IsNarrow-append :
    (c : ℕ) (xs ys : Bytes) → IsNarrow c xs → IsNarrow (column c xs) ys → IsNarrow c (xs ++ ys)
unfolding IsNarrow column
IsNarrow-append c [] ys h k = k
IsNarrow-append c (x ∷ xs) ys (here, h) k = (here, IsNarrow-append (column_after c x) xs ys h k)

pub IsLines-append : (xs ys : Bytes) → IsLines xs → IsLines ys → IsLines (xs ++ ys)
IsLines-append xs ys (hx, ex) (hy, ey) = (
  IsNarrow-append 0 xs ys hx (subst (λ c. IsNarrow c ys) (sym ex) hy),
  column-append 0 xs ys ∙ ap (λ c. column c ys) ex ∙ ey,
)

pub column_bound : (c : ℕ) (xs : Bytes) → column c xs ≤ c + length xs
unfolding column
column_bound c [] = omega arith
column_bound c (x ∷ xs) = ground (arith, column_bound (column_after c x) xs)

pub IsNarrow-short : (c : ℕ) (xs : Bytes) → c + length xs ≤ 78 → IsNarrow c xs
unfolding IsNarrow
IsNarrow-short c [] h = tt
IsNarrow-short c (x ∷ xs) h = (omega arith, IsNarrow-short (column_after c x) xs (ground arith))

-- No line feed, and a test for it.
abbrev pub is_inline : Bytes → Bool
is_inline [] = true
is_inline (b ∷ bs) = not (b == 10) && is_inline bs

pub inline : (xs : Bytes) → is_inline xs ≡ true → All (λ b. b ≢ 10) xs
inline [] h = tt
inline (x ∷ xs) h = (ground arith, inline xs (ground arith))

pub column_inline : (c : ℕ) (xs : Bytes) → All (λ b. b ≢ 10) xs → column c xs ≡ c + length xs
unfolding column
column_inline c [] h = omega arith
column_inline c (x ∷ xs) (here, h) = ground (arith, column_inline (suc c) xs h)

-- A short text with a line break after it.
pub IsNarrow-break :
    (c : ℕ) (xs ys : Bytes) → c + length xs ≤ 76 → IsNarrow 0 ys → IsNarrow c (xs ++ (crlf ++ ys))
unfolding IsNarrow
IsNarrow-break c xs ys h k =
    IsNarrow-append c xs (crlf ++ ys) (IsNarrow-short c xs (omega arith))
      (omega (arith, column_bound c xs), (omega (arith, column_bound c xs), k))

IsNarrow-space : (xs : Bytes) → IsNarrow 1 xs → IsNarrow 0 (32 ∷ xs)
unfolding IsNarrow
IsNarrow-space xs h = (omega arith, h)

lines-fold_lines :
    (n : ℕ) (c : ℕ) (s : Bytes)
    → c ≤ 1
    → length s < 75 * n
    → IsNarrow c (fold_lines n s ++ crlf) × (column c (fold_lines n s ++ crlf) ≡ 0)
unfolding fold_lines column
lines-fold_lines zero c s start fits = absurd (omega arith)
lines-fold_lines (suc zero) c s start fits =
    subst (λ t. IsNarrow c t × (column c t ≡ 0)) (sym (append_assoc (take 75 s) ([] ++ []) crlf))
      (
        IsNarrow-break c (take 75 s) [] (omega (arith, length-take 75 s)) (unfold IsNarrow in tt),
        column-append c (take 75 s) crlf,
      )
lines-fold_lines (suc (suc n)) c s start fits =
    let rest = fold_lines (suc n) (drop 75 s) in
    let (h, e) =
      lines-fold_lines (suc n) 1 (drop 75 s) (omega arith) (omega (arith, length-drop 75 s)) in
    subst (λ t. IsNarrow c t × (column c t ≡ 0))
      (sym (append_assoc (take 75 s) (fold_break ++ rest) crlf))
      (
        IsNarrow-break c (take 75 s) (32 ∷ (rest ++ crlf)) (omega (arith, length-take 75 s))
            (IsNarrow-space (rest ++ crlf) h),
        column-append c (take 75 s) (fold_break ++ (rest ++ crlf)) ∙ e,
      )

-- Every line that vcard_printf prints for a text has at most 76 bytes before its break.
pub vcard_printf-IsLines : (s : Bytes) → IsLines (vcard_printf s)
unfolding vcard_printf
vcard_printf-IsLines s =
    lines-fold_lines (length (printed 1024 s) / 75 + 1) 0 (printed 1024 s) (omega arith)
      (omega arith)
