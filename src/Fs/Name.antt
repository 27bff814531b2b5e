-- ===== src/Fs/Name.antt =====
-- library/filesystem/src/fs/fat32.rs: directory entries, `Fat32FileMetadata` and its name.
pub mod Pack
pub mod RoundTrip
pub mod Match
use cos_rs.Base.{
  ℕ, zero, suc, ◌+◌, ◌-◌, ◌*◌, ◌/◌, ◌%◌, ◌^◌, bit_and, bit_or, Option, none, some, List, [], ◌∷◌,
  ◌++◌, length, set, replicate, Bool, true, false, not, ltb, ◌==◌, if◌then◌else◌, get_or,
}

-- A `&str` by its two encodings.
pub record Name : Type 0 where
  pub as_bytes : List ℕ
  pub encode_utf16 : List ℕ

pub record DirectoryEntryShort : Type 0 where
  pub name : List ℕ
  pub ext : List ℕ
  pub attr : ℕ
  pub reserved : ℕ
  pub create_time_tenths : ℕ
  pub create_time : ℕ
  pub create_date : ℕ
  pub last_access_date : ℕ
  pub first_cluster_high : ℕ
  pub write_time : ℕ
  pub write_date : ℕ
  pub first_cluster_low : ℕ
  pub file_size : ℕ

pub record DirectoryEntryLong : Type 0 where
  pub order : ℕ
  pub name1 : List ℕ
  pub attr : ℕ
  pub type_of : ℕ
  pub checksum : ℕ
  pub name2 : List ℕ
  pub first_cluster_low : ℕ
  pub name3 : List ℕ

abbrev pub name1_len : ℕ
name1_len = 5

abbrev pub name2_len : ℕ
name2_len = 6

abbrev pub name3_len : ℕ
name3_len = 2

abbrev pub attr_directory : ℕ
attr_directory = 0x10

abbrev pub attr_archive : ℕ
attr_archive = 0x20

-- `ATTR_READ_ONLY | ATTR_HIDDEN | ATTR_SYSTEM | ATTR_VOLUME_ID`.
abbrev pub attr_long_name : ℕ
attr_long_name = 0x0F

pub record Fat32FileMetadata : Type 0 where
  pub short : DirectoryEntryShort
  pub long : List DirectoryEntryLong
  pub start_cluster : ℕ
  pub start_sector : ℕ
  pub start_sector_offset : ℕ
  pub short_cluster : ℕ
  pub short_sector : ℕ
  pub short_sector_offset : ℕ

abbrev pub blank_long : ℕ → DirectoryEntryLong
blank_long order = record {
  order = order;
  name1 = replicate name1_len 0;
  attr = attr_long_name;
  type_of = 0;
  checksum = 0;
  name2 = replicate name2_len 0;
  first_cluster_low = 0;
  name3 = replicate name3_len 0;
}

-- The variables of the loop of `Fat32FileMetadata::new`.
pub record Packing : Type 0 where
  pub long : List DirectoryEntryLong
  pub current_long : Option DirectoryEntryLong
  pub i : ℕ

unfoldable pub put_unit : DirectoryEntryLong → ℕ → ℕ → DirectoryEntryLong
put_unit current i ch =
    if ltb i name1_len
    then record current { name1 = set current.name1 i ch }
    else if ltb i (name1_len + name2_len)
    then record current { name2 = set current.name2 (i - name1_len) ch }
    else record current { name3 = set current.name3 (i - name1_len - name2_len) ch }

-- The end of a round, with the entry that it writes to.
unfoldable pub put_char : List DirectoryEntryLong → DirectoryEntryLong → ℕ → ℕ → Packing
put_char long current i ch =
    if i + 1 == name1_len + name2_len + name3_len
    then record { long = long ++ put_unit current i ch ∷ []; current_long = none; i = i + 1 }
    else record { long = long; current_long = some (put_unit current i ch); i = i + 1 }

unfoldable pub pack_char : Packing → ℕ → Packing
pack_char p ch = elim p.current_long [
  | none ↦ put_char p.long (blank_long (length p.long % 2 ^ 8)) 0 ch
  | some current ↦ put_char p.long current p.i ch
]

unfoldable pub pack_chars : Packing → List ℕ → Packing
pack_chars p [] = p
pack_chars p (ch ∷ utf16) = pack_chars (pack_char p ch) utf16

abbrev pub close_packing : Packing → List DirectoryEntryLong
close_packing p = elim p.current_long [ none ↦ p.long | some current ↦ p.long ++ current ∷ [] ]

unfoldable pub pack_name : List ℕ → List DirectoryEntryLong
pack_name utf16 =
    close_packing (pack_chars (record { long = []; current_long = none; i = 0 }) utf16)

-- `Fat32FileMetadata::new`; 63 is `?`.
unfoldable pub new : Name → ℕ → ℕ → Fat32FileMetadata
new name start_cluster attr = record {
  short = record {
    name = replicate 8 63;
    ext = replicate 3 63;
    attr = attr;
    reserved = 0;
    create_time_tenths = 0;
    create_time = 0;
    create_date = 0;
    last_access_date = 0;
    first_cluster_high = start_cluster / 2 ^ 16 % 2 ^ 16;
    write_time = 0;
    write_date = 0;
    first_cluster_low = start_cluster % 2 ^ 16;
    file_size = 0;
  };
  long = pack_name name.encode_utf16;
  start_cluster = 0;
  start_sector = 0;
  start_sector_offset = 0;
  short_cluster = 0;
  short_sector = 0;
  short_sector_offset = 0;
}

-- `start_cluster()`; the two halves are 16-bit numbers, so the `|` is a sum.
unfoldable pub cluster_of : Fat32FileMetadata → ℕ
cluster_of m = m.short.first_cluster_low + m.short.first_cluster_high * 2 ^ 16

abbrev pub is_directory : Fat32FileMetadata → Bool
is_directory m = not (bit_and m.short.attr attr_directory == 0)

abbrev pub units_of : DirectoryEntryLong → List ℕ
units_of e = e.name1 ++ (e.name2 ++ e.name3)

-- `filter(|&utf16| utf16 != 0)`.
abbrev pub non_zeros : List ℕ → List ℕ
non_zeros [] = []
non_zeros (zero ∷ xs) = non_zeros xs
non_zeros (suc x ∷ xs) = suc x ∷ non_zeros xs

-- The branch of `name_to_string` for an entry with long names, in UTF-16.
unfoldable pub long_name : List DirectoryEntryLong → List ℕ
long_name [] = []
long_name (e ∷ long) = non_zeros (units_of e) ++ long_name long

-- `match_with_array`: what the iterator has left, or none for false.
unfoldable pub match_with_array : List ℕ → List ℕ → Option (List ℕ)
match_with_array iter [] = some iter
match_with_array iter (zero ∷ array) = some iter
match_with_array [] (suc item ∷ array) = none
match_with_array (next ∷ iter) (suc item ∷ array) =
    let rest = match_with_array iter array in if suc item == next then rest else none

abbrev pub then_match : Option (List ℕ) → List ℕ → Option (List ℕ)
then_match none array = none
then_match (some iter) array = match_with_array iter array

unfoldable pub match_entries : Option (List ℕ) → List DirectoryEntryLong → Option (List ℕ)
match_entries iter [] = iter
match_entries iter (e ∷ entry) =
    match_entries (then_match (then_match (then_match iter e.name1) e.name2) e.name3) entry

abbrev pub at_end : Option (List ℕ) → Bool
at_end none = false
at_end (some []) = true
at_end (some (x ∷ xs)) = false

unfoldable pub name_match_long : List DirectoryEntryLong → List ℕ → Bool
name_match_long entry name = at_end (match_entries (some name) entry)

-- `bytes.next() == Some(b'.')`, and what is left; 46 is the dot.
abbrev pub next_dot : List ℕ → Bool × List ℕ
next_dot [] = (false, [])
next_dot (b ∷ bytes) = (b == 46, bytes)

unfoldable pub name_match_short : DirectoryEntryShort → List ℕ → Bool
name_match_short entry bytes = elim (match_with_array bytes entry.name) [
  | none ↦ false
  | some left ↦
      let (name_has_dot, rest) = next_dot left in
      let entry_has_ext = not (get_or entry.ext 0 0 == 0) in
      if name_has_dot
      then (if entry_has_ext then at_end (match_with_array rest entry.ext) else false)
      else (if entry_has_ext then false else at_end (some rest))
]
