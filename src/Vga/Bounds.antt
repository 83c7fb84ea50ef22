-- ===== src/Vga/Bounds.antt =====
-- The writer stays in the video memory, and never panics.
use testos.Base.{
  ℕ, zero, suc, ◌+◌, ◌-◌, ◌*◌, ◌/◌, ◌≤◌, ◌<◌, ◌≡◌, refl, ap, ◌∙◌, arith, false, List, [], ◌∷◌, ◌++◌,
  ◌==◌, Outcome, ok, length, length-append, set, length-set, min, lt→ltb, le→leb, lt→not-leb,
  le_or_lt, Bool-cases, inl, inr,
}
use testos.Vga.{
  VgaWriter, writer, clear_cells, clear_line, clear_lines, clear, new, take_bytes, drop_bytes,
  copy_down, scroll_part, scroll, shown, write_cell, write_char, write_str,
}

-- The code returns a memory of the same length.
abbrev Keeps : List ℕ → Outcome (List ℕ) → Type 0
Keeps vmem r = (after : List ℕ) × (r ≡ ok after) × (length after ≡ length vmem)

clear_cells-Keeps :
    (n i line : ℕ) (vmem : List ℕ)
    → i + n ≤ 80
    → line < 25
    → length vmem ≡ 4000
    → Keeps vmem (clear_cells n i line vmem)
unfolding clear_cells
clear_cells-Keeps zero i line vmem h hl len = (vmem, refl, refl)
clear_cells-Keeps (suc n) i line vmem h hl len =
    let len' = length-set vmem (2 * (i + line * 80)) 0 in
    let (after, run, same) =
      clear_cells-Keeps n (i + 1) line (set vmem (2 * (i + line * 80)) 0) (omega arith) hl
        (len' ∙ len) in
    (after, rw (lt→ltb (2 * (i + line * 80)) (length vmem) (omega arith)) run, same ∙ len')

clear_lines-Keeps :
    (n i : ℕ) (vmem : List ℕ) → i + n ≤ 25 → length vmem ≡ 4000 → Keeps vmem (clear_lines n i vmem)
unfolding clear_lines clear_line
clear_lines-Keeps zero i vmem h len = (vmem, refl, refl)
clear_lines-Keeps (suc n) i vmem h len =
    let (line, run, same) = clear_cells-Keeps 80 0 i vmem (omega arith) (omega arith) len in
    let (after, rest, same') = clear_lines-Keeps n (i + 1) line (omega arith) (same ∙ len) in
    (after, rw (lt→ltb i 25 (omega arith), run) rest, same' ∙ same)

length-take_bytes : (n : ℕ) (xs : List ℕ) → n ≤ length xs → length (take_bytes n xs) ≡ n
length-take_bytes zero xs h = refl
length-take_bytes (suc n) [] h = absurd (omega arith)
length-take_bytes (suc n) (x ∷ xs) h = ap suc (length-take_bytes n xs (omega arith))

length-drop_bytes : (n : ℕ) (xs : List ℕ) → length (drop_bytes n xs) ≡ length xs - n
length-drop_bytes zero xs = omega arith
length-drop_bytes (suc n) [] = omega arith
length-drop_bytes (suc n) (x ∷ xs) = omega (arith, length-drop_bytes n xs)

copy_down-Keeps :
    (from n : ℕ) (vmem : List ℕ) → from + n ≤ length vmem → Keeps vmem (copy_down from n vmem)
unfolding copy_down
copy_down-Keeps from n vmem h = (
  take_bytes n (drop_bytes from vmem) ++ drop_bytes n vmem,
  rw (le→leb (from + n) (length vmem) h),
  omega (
    arith,
    length-append (take_bytes n (drop_bytes from vmem)) (drop_bytes n vmem),
    length-take_bytes n (drop_bytes from vmem) (omega (arith, length-drop_bytes from vmem)),
    length-drop_bytes n vmem,
  ),
)

-- All of the video memory, and an offset in it or just past it.
pub record IsWriter (w : VgaWriter) : Type 0 where
  pub size : length w.vmem ≡ 4000
  pub bound : w.offset ≤ 2000

-- The code returns, and the writer is still valid.
abbrev pub IsSafe : Outcome VgaWriter → Type 0
IsSafe r = (w : VgaWriter) × (r ≡ ok w) × IsWriter w

clear-IsSafe : (w : VgaWriter) → length w.vmem ≡ 4000 → IsSafe (clear w)
unfolding clear
clear-IsSafe w len =
    let (vmem, run, same) = clear_lines-Keeps 25 0 w.vmem (omega arith) len in
    (writer vmem 0, rw run, record { size = same ∙ len; bound = omega arith })

scroll_part-IsSafe :
    (lines : ℕ) (w : VgaWriter)
    → lines < 25
    → IsWriter w
    → (s : VgaWriter) × (scroll_part lines w ≡ ok s)
      × IsWriter s
      × (s.offset ≡ w.offset - lines * 80)
unfolding scroll_part
scroll_part-IsSafe lines w h v =
    let len = v.size in
    let (moved, copy, same) =
      copy_down-Keeps (lines * 80 * 2) ((25 - lines) * 80 * 2) w.vmem (omega arith) in
    let (vmem, run, same') =
      clear_lines-Keeps lines (25 - lines) moved (omega arith) (same ∙ len) in
    (
      writer vmem (w.offset - lines * 80),
      rw (copy, run),
      record { size = same' ∙ same ∙ len; bound = omega (arith, v.bound) },
      refl,
    )

-- `scroll` of any number of lines returns and keeps the writer valid.
pub scroll-IsSafe : (lines : ℕ) (w : VgaWriter) → IsWriter w → IsSafe (scroll lines w)
unfolding scroll
scroll-IsSafe zero w v = (w, refl, v)
scroll-IsSafe (suc n) w v = elim (le_or_lt 25 (suc n)) [
  | inl all ↦
      let e : min (suc n) 25 ≡ 25 = omega arith in
      let nonzero : (suc n == 0) ≡ false = ground arith in rw (nonzero, e) (clear-IsSafe w v.size)
  | inr part ↦
      let e : min (suc n) 25 ≡ suc n = omega arith in
      let nonzero : (suc n == 0) ≡ false = ground arith in
      let fewer : (suc n == 25) ≡ false = ground arith in
      let (s, run, valid, _) = scroll_part-IsSafe (suc n) w part v in
      (s, rw (nonzero, e, fewer) run, valid)
]

write_cell-IsSafe : (c : ℕ) (w : VgaWriter) → IsWriter w → w.offset < 2000 → IsSafe (write_cell c w)
unfolding write_cell
write_cell-IsSafe c w v h = elim (Bool-cases (c == 10)) [
  | inl newline ↦ (
    writer w.vmem ((w.offset + 80) / 80 * 80),
    rw newline,
    record { size = v.size; bound = omega arith },
  )
  | inr char ↦
      let len = v.size in
      (
        writer (set w.vmem (2 * w.offset) (shown c)) (w.offset + 1),
        rw (char, lt→ltb (2 * w.offset) (length w.vmem) (omega arith)),
        record { size = length-set w.vmem (2 * w.offset) (shown c) ∙ len; bound = omega arith },
      )
]

-- One character: the writer scrolls by a line if it is full, so that there is room.
write_char-IsSafe : (c : ℕ) (w : VgaWriter) → IsWriter w → IsSafe (write_char c w)
unfolding write_char scroll
write_char-IsSafe c w v = elim (le_or_lt 2000 w.offset) [
  | inl full ↦
      let (s, run, valid, moved) = scroll_part-IsSafe 1 w (omega arith) v in
      let bound = v.bound in
      let (after, write, valid') = write_cell-IsSafe c s valid (omega arith) in
      (after, rw (le→leb 2000 w.offset full, run, lt→ltb s.offset 2000 (omega arith)) write, valid')
  | inr room ↦
      let (after, write, valid') = write_cell-IsSafe c w v room in
      (after, rw (lt→not-leb 2000 w.offset room) write, valid')
]

-- From a valid writer, `write_str` of any characters returns without a panic and without a write
-- outside the video memory, and leaves a valid writer: the assertion after the scroll never fails.
pub write_str-IsSafe : (cs : List ℕ) (w : VgaWriter) → IsWriter w → IsSafe (write_str cs w)
unfolding write_str
write_str-IsSafe [] w v = (w, refl, v)
write_str-IsSafe (c ∷ cs) w v =
    let (next, run, valid) = write_char-IsSafe c w v in
    let (after, rest, valid') = write_str-IsSafe cs next valid in (after, rw run rest, valid')

-- `new` on 4000 bytes of video memory makes a valid writer.
pub new-IsSafe : (vmem : List ℕ) → length vmem ≡ 4000 → IsSafe (new vmem)
unfolding new
new-IsSafe vmem len = clear-IsSafe (writer vmem 0) len
