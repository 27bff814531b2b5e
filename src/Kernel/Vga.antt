-- ===== src/Kernel/Vga.antt =====
-- kernel/src/display/vga_text.rs: the text screen, as a buffer of cells with a cursor. The two
-- components of `cursor` are the fields `row` and `col`; `ports` lists the bytes that were written
-- to the ports of the hardware cursor, with the port, the latest last.
pub mod Screen
use cos_rs.Base.{
  ℕ, zero, suc, ◌+◌, ◌-◌, ◌*◌, ◌/◌, ◌%◌, ◌^◌, bit_and, bit_or, Bool, ◌&&◌, Option, none, some, List,
  [], ◌∷◌, ◌++◌, ltb, leb, ◌==◌, if◌then◌else◌, set, replicate, slice, splice,
}

abbrev pub width : ℕ
width = 80

abbrev pub height : ℕ
height = 25

abbrev pub default_style : ℕ
default_style = 0x07

abbrev pub tab_size : ℕ
tab_size = 2

pub record VgaTextWriter : Type 0 where
  pub buffer : List ℕ
  pub row : ℕ
  pub col : ℕ
  pub style : ℕ
  pub ports : List (ℕ × ℕ)

abbrev pub char_with_style : ℕ → ℕ → ℕ
char_with_style style char = bit_or (style * 2 ^ 8 % 2 ^ 16) char

-- The port writes that place the hardware cursor.
abbrev pub hw_set_cursor : ℕ → ℕ → List (ℕ × ℕ)
hw_set_cursor row col =
    let pos = (row * width + col) % 2 ^ 16 in
    (0x3d4, 0x0f)
    ∷ (0x3d5, bit_and pos 0xff % 2 ^ 8)
    ∷ (0x3d4, 0x0e)
    ∷ (0x3d5, pos / 2 ^ 8 % 2 ^ 8)
    ∷ []

abbrev pub with_style : ℕ → VgaTextWriter
with_style style = record {
  buffer = replicate (width * height) (char_with_style style 0x20);
  row = 0;
  col = 0;
  style = style;
  ports = hw_set_cursor 0 0;
}

abbrev pub new : VgaTextWriter
new = with_style default_style

-- None is a failed assertion.
unfoldable pub set_cursor : ℕ → ℕ → VgaTextWriter → Option VgaTextWriter
set_cursor row col w =
    if ltb row height && ltb col width
    then some (record w { row = row; col = col; ports = w.ports ++ hw_set_cursor row col })
    else none

abbrev pub write_char : ℕ → VgaTextWriter → VgaTextWriter
write_char char w = record w {
  buffer = set w.buffer (w.row * width + w.col) (char_with_style w.style char);
}

-- The rows move up by one, and the last one is blank.
abbrev pub scroll : ℕ → List ℕ → List ℕ
scroll style buffer =
    splice (width * (height - 1)) (replicate width (char_with_style style 0x20))
      (splice 0 (slice width (width * (height - 1)) buffer) buffer)

unfoldable pub check_height_overflow : VgaTextWriter → VgaTextWriter
check_height_overflow w =
    if leb height w.row then record w { buffer = scroll w.style w.buffer; row = w.row - 1 } else w

unfoldable pub check_width_overflow : VgaTextWriter → VgaTextWriter
check_width_overflow w =
    if leb width w.col
    then check_height_overflow (record w { col = 0; row = (w.row + 1) % 2 ^ 8 })
    else w

abbrev pub advance : VgaTextWriter → VgaTextWriter
advance w = check_width_overflow (record w { col = (w.col + 1) % 2 ^ 8 })

unfoldable pub write_tab : ℕ → VgaTextWriter → VgaTextWriter
write_tab zero w = w
write_tab (suc n) w = write_tab n (advance (write_char 0x20 w))

-- The match of `write_bytes`.
unfoldable pub write_byte : ℕ → VgaTextWriter → VgaTextWriter
write_byte byte w =
    if byte == 0x0d
    then record w { col = 0 }
    else if byte == 0x0a
    then check_height_overflow (record w { row = (w.row + 1) % 2 ^ 8; col = 0 })
    else if byte == 0x08
    then record w { col = w.col - 1 }
    else if byte == 0x09
    then write_tab tab_size w
    else if leb 0x20 byte && leb byte 0x7e
    then advance (write_char byte w)
    else advance (write_char 0x2e w)

unfoldable pub write_each : List ℕ → VgaTextWriter → VgaTextWriter
write_each [] w = w
write_each (byte ∷ bytes) w = write_each bytes (write_byte byte w)

unfoldable pub write_bytes : List ℕ → VgaTextWriter → VgaTextWriter
write_bytes bytes w =
    let v = write_each bytes w in record v { ports = v.ports ++ hw_set_cursor v.row v.col }
