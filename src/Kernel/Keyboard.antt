-- ===== src/Kernel/Keyboard.antt =====
-- kernel/src/io/keyboard.rs: scan codes to bytes, with the state of the shift keys. The tables write
-- each character as its ASCII number. The byte that a scan offers to the sender is a result of the
-- model.
use cos_rs.Base.{
  ℕ, non_zero, bit_and, Bool, false, ◌||◌, Option, none, some, List, [], ◌∷◌, ◌==◌, if◌then◌else◌,
  get_or, set, replicate,
}

abbrev pub left_shift_code : ℕ
left_shift_code = 0x2a

abbrev pub right_shift_code : ℕ
right_shift_code = 0x36

pub record SpecKeyStatus : Type 0 where
  pub left_shift : Bool
  pub right_shift : Bool

abbrev pub new : SpecKeyStatus
new = record { left_shift = false; right_shift = false }

abbrev pub key_count : ℕ
key_count = 0x80

abbrev pub fill : List (ℕ × ℕ) → List (Option ℕ) → List (Option ℕ)
fill [] mapping = mapping
fill ((key, c) ∷ keys) mapping = fill keys (set mapping key (non_zero c))

abbrev pub ascii_keys : List (ℕ × ℕ)
ascii_keys =
    (0x01, 0x1b)
    ∷ (0x02, 0x31)
    ∷ (0x03, 0x32)
    ∷ (0x04, 0x33)
    ∷ (0x05, 0x34)
    ∷ (0x06, 0x35)
    ∷ (0x07, 0x36)
    ∷ (0x08, 0x37)
    ∷ (0x09, 0x38)
    ∷ (0x0a, 0x39)
    ∷ (0x0b, 0x30)
    ∷ (0x0c, 0x2d)
    ∷ (0x0d, 0x3d)
    ∷ (0x0e, 0x08)
    ∷ (0x0f, 0x9)
    ∷ (0x10, 0x71)
    ∷ (0x11, 0x77)
    ∷ (0x12, 0x65)
    ∷ (0x13, 0x72)
    ∷ (0x14, 0x74)
    ∷ (0x15, 0x79)
    ∷ (0x16, 0x75)
    ∷ (0x17, 0x69)
    ∷ (0x18, 0x6f)
    ∷ (0x19, 0x70)
    ∷ (0x1a, 0x5b)
    ∷ (0x1b, 0x5d)
    ∷ (0x1c, 0xa)
    ∷ (0x1e, 0x61)
    ∷ (0x1f, 0x73)
    ∷ (0x20, 0x64)
    ∷ (0x21, 0x66)
    ∷ (0x22, 0x67)
    ∷ (0x23, 0x68)
    ∷ (0x24, 0x6a)
    ∷ (0x25, 0x6b)
    ∷ (0x26, 0x6c)
    ∷ (0x27, 0x3b)
    ∷ (0x28, 0x27)
    ∷ (0x29, 0x60)
    ∷ (0x2b, 0x5c)
    ∷ (0x2c, 0x7a)
    ∷ (0x2d, 0x78)
    ∷ (0x2e, 0x63)
    ∷ (0x2f, 0x76)
    ∷ (0x30, 0x62)
    ∷ (0x31, 0x6e)
    ∷ (0x32, 0x6d)
    ∷ (0x33, 0x2c)
    ∷ (0x34, 0x2e)
    ∷ (0x35, 0x2f)
    ∷ (0x39, 0x20)
    ∷ []

abbrev pub shift_keys : List (ℕ × ℕ)
shift_keys =
    (0x01, 0x1b)
    ∷ (0x02, 0x21)
    ∷ (0x03, 0x40)
    ∷ (0x04, 0x23)
    ∷ (0x05, 0x24)
    ∷ (0x06, 0x25)
    ∷ (0x07, 0x5e)
    ∷ (0x08, 0x26)
    ∷ (0x09, 0x2a)
    ∷ (0x0a, 0x28)
    ∷ (0x0b, 0x29)
    ∷ (0x0c, 0x5f)
    ∷ (0x0d, 0x2b)
    ∷ (0x0e, 0x08)
    ∷ (0x0f, 0x9)
    ∷ (0x10, 0x51)
    ∷ (0x11, 0x57)
    ∷ (0x12, 0x45)
    ∷ (0x13, 0x52)
    ∷ (0x14, 0x54)
    ∷ (0x15, 0x59)
    ∷ (0x16, 0x55)
    ∷ (0x17, 0x49)
    ∷ (0x18, 0x4f)
    ∷ (0x19, 0x50)
    ∷ (0x1a, 0x7b)
    ∷ (0x1b, 0x7d)
    ∷ (0x1c, 0xa)
    ∷ (0x1e, 0x41)
    ∷ (0x1f, 0x53)
    ∷ (0x20, 0x44)
    ∷ (0x21, 0x46)
    ∷ (0x22, 0x47)
    ∷ (0x23, 0x48)
    ∷ (0x24, 0x4a)
    ∷ (0x25, 0x4b)
    ∷ (0x26, 0x4c)
    ∷ (0x27, 0x3a)
    ∷ (0x28, 0x22)
    ∷ (0x29, 0x7e)
    ∷ (0x2b, 0x7c)
    ∷ (0x2c, 0x5a)
    ∷ (0x2d, 0x58)
    ∷ (0x2e, 0x43)
    ∷ (0x2f, 0x56)
    ∷ (0x30, 0x42)
    ∷ (0x31, 0x4e)
    ∷ (0x32, 0x4d)
    ∷ (0x33, 0x3c)
    ∷ (0x34, 0x3e)
    ∷ (0x35, 0x3f)
    ∷ (0x39, 0x20)
    ∷ []

unfoldable pub code_ascii_mapping : List (Option ℕ)
code_ascii_mapping = fill ascii_keys (replicate key_count none)

unfoldable pub code_ascii_shift_mapping : List (Option ℕ)
code_ascii_shift_mapping = fill shift_keys (replicate key_count none)

abbrev pub shift_pressed : SpecKeyStatus → Bool
shift_pressed s = s.left_shift || s.right_shift

abbrev pub mapping_of : SpecKeyStatus → List (Option ℕ)
mapping_of s = if shift_pressed s then code_ascii_shift_mapping else code_ascii_mapping

-- `handle_keyboard_scan`: the status afterwards, and the byte that `try_send` is called with.
unfoldable pub handle_keyboard_scan : SpecKeyStatus → ℕ → SpecKeyStatus × Option ℕ
handle_keyboard_scan s code =
    let pressed = bit_and code 0x80 == 0 in
    let button = bit_and code 0x7f in
    if button == left_shift_code
    then (record s { left_shift = pressed }, none)
    else if button == right_shift_code
    then (record s { right_shift = pressed }, none)
    else if pressed
    then (s, get_or (mapping_of s) button none)
    else (s, none)

abbrev pub send : Option ℕ → List ℕ → List ℕ
send none bytes = bytes
send (some c) bytes = c ∷ bytes

-- A sequence of interrupts, and the bytes it offers.
unfoldable pub scan_all : SpecKeyStatus → List ℕ → SpecKeyStatus × List ℕ
scan_all s [] = (s, [])
scan_all s (code ∷ codes) =
    let r = handle_keyboard_scan s code in
    let rest = scan_all r.0 codes in (rest.0, send r.1 rest.1)
