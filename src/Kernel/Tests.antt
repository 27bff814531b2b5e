-- ===== src/Kernel/Tests.antt =====
-- The theorems on the parts of kernel/src at concrete inputs, and runs of the model.
use cos_rs.Base.{ℕ, ◌≡◌, refl, [], ◌∷◌, arith, List}
use cos_rs.Kernel.Keyboard
use cos_rs.Kernel.Keyboard.{
  code_ascii_mapping, code_ascii_shift_mapping, handle_keyboard_scan, scan_all,
}
use cos_rs.Kernel.Vga.{
  VgaTextWriter, new, hw_set_cursor, char_with_style, width, height, write_byte, write_bytes,
}
use cos_rs.Kernel.Vga
use cos_rs.Kernel.Vga.Screen.{IsOnScreen, with_style-IsOnScreen, write_bytes-IsOnScreen}

-- Left shift pressed, `a` pressed and released, left shift released, `a` pressed.
abbrev codes : List ℕ
codes = 0x2a ∷ 0x1e ∷ 0x9e ∷ 0xaa ∷ 0x1e ∷ []

scan_all-codes : (scan_all Keyboard.new codes).1 ≡ 0x41 ∷ 0x61 ∷ []
unfolding scan_all handle_keyboard_scan code_ascii_mapping code_ascii_shift_mapping
scan_all-codes = refl

abbrev screen : VgaTextWriter
screen = Vga.new

write_bytes-IsOnScreen_example : IsOnScreen (write_bytes (0x41 ∷ 0x09 ∷ 0x0a ∷ 0x08 ∷ []) screen)
write_bytes-IsOnScreen_example =
    write_bytes-IsOnScreen (0x41 ∷ 0x09 ∷ 0x0a ∷ 0x08 ∷ []) screen (with_style-IsOnScreen 0x07)

abbrev bottom : VgaTextWriter
bottom = record screen { row = 24; col = 3 }

bottom-IsOnScreen : IsOnScreen bottom
bottom-IsOnScreen = record {
  row_lt = omega arith;
  col_lt = omega arith;
  cells = (with_style-IsOnScreen 0x07).cells;
}
