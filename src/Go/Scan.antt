-- ===== src/Go/Scan.antt =====
-- `bufio.Scanner` over lines, and `bytes.TrimSpace` on ASCII text.
use xuperchain.Prelude.{
  Bool, true, false, ◌||◌, ◌&&◌, List, [], ◌∷◌, ℕ, leb, ◌==◌, length, if◌then◌else◌,
}
use xuperchain.Go.Text.{Text, split, is_empty}
use mathlib.Core.List.{reverse}

abbrev pub is_space : ℕ → Bool
is_space c = c == 32 || leb 9 c && leb c 13

unfoldable pub trim_left : Text → Text
trim_left [] = []
trim_left (c ∷ s) = let rest = trim_left s in if is_space c then rest else c ∷ s

unfoldable pub trim_space : Text → Text
unfolding trim_left
trim_space s = reverse (trim_left (reverse (trim_left s)))

-- One carriage return before the line feed belongs to the line's end.
unfoldable pub drop_cr : Text → Text
drop_cr [] = []
drop_cr (c ∷ []) = if c == 13 then [] else c ∷ []
drop_cr (c ∷ d ∷ s) = c ∷ drop_cr (d ∷ s)

-- `bufio.MaxScanTokenSize`
abbrev max_scan_token_size : ℕ
max_scan_token_size = 65536

-- The lines of a text, and whether the scanner stopped at a line too long for its buffer. What
-- stands behind the last line feed is a line unless it is empty.
unfoldable pub scan_pieces : List Text → List Text × Bool
unfolding drop_cr
scan_pieces [] = ([], false)
scan_pieces (piece ∷ []) =
    if is_empty piece
    then ([], false)
    else if leb max_scan_token_size (length piece)
    then ([], true)
    else (drop_cr piece ∷ [], false)
scan_pieces (piece ∷ next ∷ rest) =
    let later = scan_pieces (next ∷ rest) in
    if leb max_scan_token_size (length piece)
    then ([], true)
    else (drop_cr piece ∷ later.0, later.1)

unfoldable pub scan_lines : Text → List Text × Bool
unfolding scan_pieces split
scan_lines s = scan_pieces (split 10 s)
