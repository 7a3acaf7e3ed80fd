-- ===== src/Vcard/Print/Unfold.antt =====
-- plugins/vcard.c: what a reader that unfolds makes of vcard_printf.
use map_client.Base.{[], ◌∷◌, ◌==◌, if◌then◌else◌}
use map_client.Base.Endian.{Bytes}

-- A reader of one content line: a line break with a space after it is skipped, another ends the line.
pub data Reading : Type 0 where
  in_text after_cr after_lf : Reading

unfoldable pub unfolded : Reading → Bytes → Bytes
unfolded in_text [] = []
unfolded in_text (b ∷ bs) =
    let next = unfolded in_text bs in
    let break = unfolded after_cr bs in if b == 13 then break else b ∷ next
unfolded after_cr [] = []
unfolded after_cr (b ∷ bs) = unfolded after_lf bs
unfolded after_lf [] = []
unfolded after_lf (b ∷ bs) = let next = unfolded in_text bs in if b == 32 then next else []
