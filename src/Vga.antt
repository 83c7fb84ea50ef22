-- ===== src/Vga.antt =====
-- The VGA text writer of shared/src/vga.rs. The video memory is a list of bytes, in which the
-- character of a cell is at twice the number of the cell; a write outside it is a panic here. A
-- `char` is its code point.
pub mod Bounds
use testos.Base.{
  ℕ, zero, suc, ◌+◌, ◌-◌, ◌*◌, ◌/◌, ◌≤◌, ◌<◌, Bool, true, false, Option, none, some, List, [], ◌∷◌,
  ◌++◌, ltb, leb, ◌==◌, if◌then◌else◌, Outcome, ok, panic, ◌>>=◌, ◌>>◌, assert, add, length, set,
  min,
}

abbrev pub rows : ℕ
rows = 25

abbrev pub cols : ℕ
cols = 80

pub record VgaWriter : Type 0 where
  pub vmem : List ℕ
  pub offset : ℕ

abbrev pub writer : List ℕ → ℕ → VgaWriter
writer v o = record { vmem = v; offset = o }

-- A write through the pointer `vmem`.
abbrev pub put : List ℕ → ℕ → ℕ → Outcome (List ℕ)
put vmem i b = do assert (ltb i (length vmem)); ok (set vmem i b)

-- The loop of `clear_line`, over the `n` columns from `i` on.
unfoldable pub clear_cells : ℕ → ℕ → ℕ → List ℕ → Outcome (List ℕ)
clear_cells zero i line vmem = ok vmem
clear_cells (suc n) i line vmem = do
  vmem' ← put vmem (2 * (i + line * cols)) 0
  clear_cells n (i + 1) line vmem'

unfoldable pub clear_line : ℕ → List ℕ → Outcome (List ℕ)
clear_line line vmem = do assert (ltb line rows); clear_cells cols 0 line vmem

-- `clear_line` for the `n` lines from `i` on.
unfoldable pub clear_lines : ℕ → ℕ → List ℕ → Outcome (List ℕ)
clear_lines zero i vmem = ok vmem
clear_lines (suc n) i vmem = do vmem' ← clear_line i vmem; clear_lines n (i + 1) vmem'

unfoldable pub clear : VgaWriter → Outcome VgaWriter
clear w = do vmem ← clear_lines rows 0 w.vmem; ok (writer vmem 0)

unfoldable pub new : List ℕ → Outcome VgaWriter
new vmem = clear (writer vmem 0)

abbrev pub take_bytes : ℕ → List ℕ → List ℕ
take_bytes zero xs = []
take_bytes (suc n) [] = []
take_bytes (suc n) (x ∷ xs) = x ∷ take_bytes n xs

abbrev pub drop_bytes : ℕ → List ℕ → List ℕ
drop_bytes zero xs = xs
drop_bytes (suc n) [] = []
drop_bytes (suc n) (x ∷ xs) = drop_bytes n xs

-- `core::ptr::copy(vmem.add(from), vmem, n)`.
unfoldable pub copy_down : ℕ → ℕ → List ℕ → Outcome (List ℕ)
copy_down from n vmem = do
  assert (leb (from + n) (length vmem))
  ok (take_bytes n (drop_bytes from vmem) ++ drop_bytes n vmem)

-- `scroll` for `lines` below `rows`.
unfoldable pub scroll_part : ℕ → VgaWriter → Outcome VgaWriter
scroll_part lines w = do
  moved ← copy_down (lines * cols * 2) ((rows - lines) * cols * 2) w.vmem
  vmem ← clear_lines lines (rows - lines) moved
  ok (writer vmem (w.offset - lines * cols))

unfoldable pub scroll : ℕ → VgaWriter → Outcome VgaWriter
scroll lines w =
    if lines == 0
    then ok w
    else let n = min lines rows in if n == rows then clear w else scroll_part n w

-- The byte that is shown for a character.
abbrev pub shown : ℕ → ℕ
shown c = if ltb c 128 then c else 63

-- The body of the loop of `write_str` once there is room.
unfoldable pub write_cell : ℕ → VgaWriter → Outcome VgaWriter
write_cell c w =
    if c == 10
    then ok (writer w.vmem ((w.offset + cols) / cols * cols))
    else do vmem ← put w.vmem (2 * w.offset) (shown c); ok (writer vmem (w.offset + 1))

-- The body of the loop of `write_str`.
unfoldable pub write_char : ℕ → VgaWriter → Outcome VgaWriter
write_char c w = do
  room ←
      (if leb (rows * cols) w.offset
        then (do s ← scroll 1 w; assert (ltb s.offset (rows * cols)); ok s)
        else ok w)
  write_cell c room

unfoldable pub write_str : List ℕ → VgaWriter → Outcome VgaWriter
write_str [] w = ok w
write_str (c ∷ cs) w = do w' ← write_char c w; write_str cs w'
