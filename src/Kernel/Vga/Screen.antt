-- ===== src/Kernel/Vga/Screen.antt =====
-- The place of the cursor in kernel/src/display/vga_text.rs.
use cos_rs.Base.{
  ℕ, zero, suc, ◌+◌, ◌-◌, ◌*◌, ◌%◌, ◌^◌, ◌<◌, ◌≡◌, ◌∙◌, inl, inr, Bool, true, false, ◌&&◌, List, [],
  ◌∷◌, leb, ◌==◌, Bool-cases, if◌then◌else◌, length, length-set, replicate, slice, length-replicate,
  length-splice, arith,
}
use cos_rs.Kernel.Vga.{
  VgaTextWriter, width, height, char_with_style, with_style, write_char, scroll,
  check_height_overflow, check_width_overflow, advance, write_tab, write_byte, write_each,
  write_bytes, tab_size,
}

pub record IsOnScreen (w : VgaTextWriter) : Type 0 where
  pub row_lt : w.row < height
  pub col_lt : w.col < width
  pub cells : length w.buffer ≡ width * height

pub length-scroll : (style : ℕ) (buffer : List ℕ) → length (scroll style buffer) ≡ length buffer
length-scroll style buffer =
    length-splice (width * (height - 1)) (replicate width (char_with_style style 0x20)) _
    ∙ length-splice 0 (slice width (width * (height - 1)) buffer) buffer

check_height_overflow-IsOnScreen :
    (w : VgaTextWriter)
    → w.row < height + 1
    → w.col < width
    → length w.buffer ≡ width * height
    → IsOnScreen (check_height_overflow w)
unfolding check_height_overflow
check_height_overflow-IsOnScreen w r c l = elim (Bool-cases (leb height w.row)) [
  | inl e ↦
      rw e
        (record { row_lt = ground arith; col_lt = c; cells = length-scroll w.style w.buffer ∙ l })
  | inr e ↦ rw e (record { row_lt = ground arith; col_lt = c; cells = l })
]

advance-IsOnScreen : (w : VgaTextWriter) → IsOnScreen w → IsOnScreen (advance w)
unfolding check_width_overflow
advance-IsOnScreen w h = elim (Bool-cases (leb width ((w.col + 1) % 2 ^ 8))) [
  | inl e ↦ rw e (
      check_height_overflow-IsOnScreen (record w { col = 0; row = (w.row + 1) % 2 ^ 8 })
        (omega (arith, h.row_lt)) (omega arith) h.cells)
  | inr e ↦ rw e (record { row_lt = h.row_lt; col_lt = ground arith; cells = h.cells })
]

write_char-IsOnScreen :
    (char : ℕ) (w : VgaTextWriter) → IsOnScreen w → IsOnScreen (write_char char w)
write_char-IsOnScreen char w h = record {
  row_lt = h.row_lt;
  col_lt = h.col_lt;
  cells = length-set w.buffer _ _ ∙ h.cells;
}

put-IsOnScreen :
    (char : ℕ) (w : VgaTextWriter) → IsOnScreen w → IsOnScreen (advance (write_char char w))
put-IsOnScreen char w h = advance-IsOnScreen (write_char char w) (write_char-IsOnScreen char w h)

write_tab-IsOnScreen : (n : ℕ) (w : VgaTextWriter) → IsOnScreen w → IsOnScreen (write_tab n w)
unfolding write_tab
write_tab-IsOnScreen zero w h = h
write_tab-IsOnScreen (suc n) w h =
    write_tab-IsOnScreen n (advance (write_char 0x20 w)) (put-IsOnScreen 0x20 w h)

if-IsOnScreen :
    (b : Bool) (v w : VgaTextWriter) → IsOnScreen v → IsOnScreen w → IsOnScreen (if b then v else w)
if-IsOnScreen true v w p q = p
if-IsOnScreen false v w p q = q

write_byte-IsOnScreen :
    (byte : ℕ) (w : VgaTextWriter) → IsOnScreen w → IsOnScreen (write_byte byte w)
unfolding write_byte
write_byte-IsOnScreen byte w h =
    if-IsOnScreen (byte == 0x0d) _ _
      (record { row_lt = h.row_lt; col_lt = omega arith; cells = h.cells })
      (if-IsOnScreen (byte == 0x0a) _ _
        (check_height_overflow-IsOnScreen (record w { row = (w.row + 1) % 2 ^ 8; col = 0 })
          (omega (arith, h.row_lt)) (omega arith) h.cells)
        (if-IsOnScreen (byte == 0x08) _ _
          (record { row_lt = h.row_lt; col_lt = omega (arith, h.col_lt); cells = h.cells })
          (if-IsOnScreen (byte == 0x09) _ _ (write_tab-IsOnScreen tab_size w h) (
            if-IsOnScreen (leb 0x20 byte && leb byte 0x7e) _ _ (put-IsOnScreen byte w h)
              (put-IsOnScreen 0x2e w h)))))

write_each-IsOnScreen :
    (bytes : List ℕ) (w : VgaTextWriter) → IsOnScreen w → IsOnScreen (write_each bytes w)
unfolding write_each
write_each-IsOnScreen [] w h = h
write_each-IsOnScreen (byte ∷ bytes) w h =
    write_each-IsOnScreen bytes (write_byte byte w) (write_byte-IsOnScreen byte w h)

-- Writing any bytes to a writer whose cursor is on the screen keeps it inside the 25 rows and 80
-- columns and the buffer at its size.
pub write_bytes-IsOnScreen :
    (bytes : List ℕ) (w : VgaTextWriter) → IsOnScreen w → IsOnScreen (write_bytes bytes w)
unfolding write_bytes
write_bytes-IsOnScreen bytes w h =
    let v = write_each-IsOnScreen bytes w h in
    record { row_lt = v.row_lt; col_lt = v.col_lt; cells = v.cells }

pub with_style-IsOnScreen : (style : ℕ) → IsOnScreen (with_style style)
with_style-IsOnScreen style = record {
  row_lt = omega arith;
  col_lt = omega arith;
  cells = length-replicate {A = ℕ} (width * height) (char_with_style style 0x20);
}
