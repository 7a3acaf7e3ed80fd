-- ===== src/Vcard/Print.antt =====
-- plugins/vcard.c: vcard_printf, which folds a line. A C string is the list of its bytes before the NUL.
pub mod Unfold
pub mod Width
use map_client.Base.{
  ℕ, zero, suc, ◌+◌, ◌/◌, List, [], ◌∷◌, ◌++◌, take, drop, length, ◌==◌, if◌then◌else◌,
}
use map_client.Base.Endian.{Bytes}
use map_client.Vcard.Words.{crlf, fold_break}

abbrev pub format_vcard21 : ℕ
format_vcard21 = 0

abbrev pub format_vcard30 : ℕ
format_vcard30 = 1

-- What vsnprintf and snprintf leave in a buffer of `size` bytes.
abbrev pub printed : (size : ℕ) → Bytes → Bytes
printed zero s = []
printed (suc size) s = take size s

-- The line break that follows a line, unless it is the last one.
abbrev pub break_before : (lines_left : ℕ) → Bytes
break_before zero = []
break_before (suc n) = fold_break

-- The loop with `n` lines left, at the rest of the buffer.
unfoldable pub fold_lines : (n : ℕ) → Bytes → Bytes
fold_lines zero rest = []
fold_lines (suc n) rest = take 75 rest ++ (break_before n ++ fold_lines n (drop 75 rest))

-- What is appended for the formatted text.
unfoldable pub vcard_printf : Bytes → Bytes
vcard_printf s = let buf = printed 1024 s in fold_lines (length buf / 75 + 1) buf ++ crlf
