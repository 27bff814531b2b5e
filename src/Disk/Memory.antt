-- ===== src/Disk/Memory.antt =====
-- library/filesystem/src/device/memory.rs: the block device in memory.
use native.Mathlib.Nat.{mul-div_cancel}
use cos_rs.Base.{
  ℕ, ◌+◌, ◌-◌, ◌*◌, ◌/◌, ◌≤◌, ◌<◌, ◌≡◌, ◌≢◌, refl, ap, subst, ◌∙◌, List, [], ◌∷◌, length, take,
  replicate, slice, splice, overwrite, length-replicate, length-splice, length-overwrite,
  length-slice, length-take, slice-splice_self, take-all, slice-splice_before, slice-splice_after,
  leb, ltb, if◌then◌else◌, inl, inr, Bool-cases, ltb→lt, ltb→le, arith,
}
use cos_rs.Disk.Block.{out_of_bounds, Result, ok, err, BlockDevice, IsLawful, Done}

pub record MemoryDevice : Type 0 where
  pub bytes : List ℕ
  pub block_size : ℕ
  pub block_count : ℕ

-- A block size of 0 is a division by zero in the code; sizes are below `2 ^ 64`.
unfoldable pub new : ℕ → ℕ → MemoryDevice
new size_in_bytes block_size =
    let aligned_size = (size_in_bytes + block_size - 1) / block_size * block_size in
    record {
      bytes = replicate aligned_size 0;
      block_size = block_size;
      block_count = aligned_size / block_size;
    }

unfoldable pub write_block : ℕ → List ℕ → MemoryDevice → MemoryDevice × Done
write_block block_index buf m =
    if leb m.block_count block_index
    then (m, err out_of_bounds)
    else if ltb (length buf) m.block_size
    then (m, err out_of_bounds)
    else (
      record m { bytes = splice (block_index * m.block_size) (take m.block_size buf) m.bytes },
      ok tt,
    )

unfoldable pub read_block : ℕ → List ℕ → MemoryDevice → Result (List ℕ)
read_block block_index buf m =
    if leb m.block_count block_index
    then err out_of_bounds
    else if ltb (length buf) m.block_size
    then err out_of_bounds
    else ok (overwrite (slice (block_index * m.block_size) m.block_size m.bytes) buf)

abbrev pub device : BlockDevice MemoryDevice
device = record {
  block_size = λ m. m.block_size;
  block_count = λ m. m.block_count;
  write_block = write_block;
  read_block = read_block;
}

-- The bytes are whole blocks.
abbrev pub IsValid : MemoryDevice → Type 0
IsValid m = length m.bytes ≡ m.block_count * m.block_size

round_up :
    (size b : ℕ) → 0 < b → (size ≤ (size + b - 1) / b * b) × ((size + b - 1) / b * b < size + b)
round_up size b h = omega arith

-- For a positive block size, a new device in memory is whole blocks, holds at least the size that
-- was asked for, and less than one block more.
pub new-IsValid :
    (size block_size : ℕ)
    → 0 < block_size
    → IsValid (new size block_size)
      × (size ≤ length (new size block_size).bytes)
      × (length (new size block_size).bytes < size + block_size)
unfolding new
new-IsValid size block_size h =
    let q = (size + block_size - 1) / block_size in
    let n = length-replicate {A = ℕ} (q * block_size) 0 in
    let r = round_up size block_size h in (rw (n, mul-div_cancel q h), rw n r.0, rw n r.1)

block_end : (i n size : ℕ) → i < n → i * size + size ≤ n * size
block_end i n size h = grind arith

write-IsValid :
    (i : ℕ) (buf : List ℕ) (m : MemoryDevice) → IsValid m → IsValid (write_block i buf m).0
unfolding write_block
write-IsValid i buf m v =
    ground (arith, length-splice (i * m.block_size) (take m.block_size buf) m.bytes)

size-write :
    (i : ℕ) (buf : List ℕ) (m : MemoryDevice) → (write_block i buf m).0.block_size ≡ m.block_size
unfolding write_block
size-write i buf m = ground arith

count-write :
    (i : ℕ) (buf : List ℕ) (m : MemoryDevice) → (write_block i buf m).0.block_count ≡ m.block_count
unfolding write_block
count-write i buf m = ground arith

overwrite-all : (ys xs : List ℕ) → length ys ≡ length xs → overwrite ys xs ≡ ys
overwrite-all [] [] h = refl
overwrite-all (y ∷ ys) [] h = absurd (omega arith)
overwrite-all [] (x ∷ xs) h = absurd (omega arith)
overwrite-all (y ∷ ys) (x ∷ xs) h = ap (◌∷◌ y) (overwrite-all ys xs (omega arith))

write_ok :
    (i : ℕ) (buf : List ℕ) (m : MemoryDevice)
    → IsValid m
    → i < m.block_count
    → length buf ≡ m.block_size
    → (write_block i buf m).1 ≡ ok tt
unfolding write_block
write_ok i buf m v h e = ground arith

write_inside :
    (i : ℕ) (buf : List ℕ) (m : MemoryDevice)
    → i < m.block_count
    → length buf ≡ m.block_size
    → (write_block i buf m).0 ≡ record m { bytes = splice (i * m.block_size) buf m.bytes }
unfolding write_block
write_inside i buf m h e = ground (arith, take-all m.block_size buf e)

read_inside :
    (i : ℕ) (old : List ℕ) (m : MemoryDevice)
    → i < m.block_count
    → length old ≡ m.block_size
    → length m.bytes ≡ m.block_count * m.block_size
    → read_block i old m ≡ ok (slice (i * m.block_size) m.block_size m.bytes)
unfolding read_block
read_inside i old m h e v = ground (
  arith,
  overwrite-all (slice (i * m.block_size) m.block_size m.bytes) old,
  length-slice (i * m.block_size) m.block_size m.bytes,
  block_end i m.block_count m.block_size,
)

read-write_self :
    (i : ℕ) (buf old : List ℕ) (m : MemoryDevice)
    → IsValid m
    → i < m.block_count
    → length buf ≡ m.block_size
    → length old ≡ m.block_size
    → read_block i old (write_block i buf m).0 ≡ ok buf
read-write_self i buf old m v h e e' =
    let o = i * m.block_size in
    let m' : MemoryDevice = record m { bytes = splice o buf m.bytes } in
    let fits = block_end i m.block_count m.block_size h in
    rw (write_inside i buf m h e) (
      read_inside i old m' h e' (length-splice o buf m.bytes ∙ v)
      ∙ ap ok (
          subst (λ n. slice o n (splice o buf m.bytes) ≡ buf) e
            (slice-splice_self o buf m.bytes (omega (arith, fits, v, e)))))

blocks_apart : (i j b : ℕ) → i < j → i * b + b ≤ j * b
blocks_apart i j b h = grind arith

slice-splice_ne :
    (i j b : ℕ) (ys xs : List ℕ)
    → i ≢ j
    → length ys ≤ b
    → slice (j * b) b (splice (i * b) ys xs) ≡ slice (j * b) b xs
slice-splice_ne i j b ys xs n h = elim (Bool-cases (ltb i j)) [
  | inl e ↦
      slice-splice_after (j * b) b (i * b) ys xs (omega (arith, blocks_apart i j b (ltb→lt i j e)))
  | inr e ↦
      slice-splice_before (j * b) b (i * b) ys xs (blocks_apart j i b (omega (arith, ltb→le i j e)))
]

-- A block that was not written is as it was, whether the write succeeded or failed.
read-write_ne :
    (i j : ℕ) (buf old : List ℕ) (m : MemoryDevice)
    → IsValid m
    → i ≢ j
    → read_block j old (write_block i buf m).0 ≡ read_block j old m
unfolding write_block read_block
read-write_ne i j buf old m v n = elim (Bool-cases (leb m.block_count i)) [
  | inl e ↦ rw e refl
  | inr e ↦ elim (Bool-cases (ltb (length buf) m.block_size)) [
    | inl f ↦ rw (e, f) refl
    | inr f ↦ rw (
      e,
      f,
      slice-splice_ne i j m.block_size (take m.block_size buf) m.bytes n
          (omega (arith, length-take m.block_size buf)),
    )
  ]
]

read_ok :
    (i : ℕ) (m : MemoryDevice)
    → IsValid m
    → i < m.block_count
    → (block : List ℕ) × (length block ≡ m.block_size)
      × ((old : List ℕ) → length old ≡ m.block_size → read_block i old m ≡ ok block)
read_ok i m v h =
    let fits = block_end i m.block_count m.block_size h in
    (
      slice (i * m.block_size) m.block_size m.bytes,
      length-slice (i * m.block_size) m.block_size m.bytes (omega (arith, fits, v)),
      λ old e. read_inside i old m h e v,
    )

length-read :
    (i : ℕ) (old : List ℕ) (m : MemoryDevice) {buf : List ℕ}
    → read_block i old m ≡ ok buf
    → length buf ≡ length old
unfolding read_block
length-read i old m e =
    ground (arith, length-overwrite (slice (i * m.block_size) m.block_size m.bytes) old)

-- The device in memory is a lawful block device: a write keeps it valid, its sizes and every
-- other block, and a block that was written reads back.
pub memory-IsLawful : IsLawful device IsValid
memory-IsLawful = record {
  write-IsValid = write-IsValid;
  size-write = size-write;
  count-write = count-write;
  write_ok = write_ok;
  read-write_self = read-write_self;
  read-write_ne = read-write_ne;
  read_ok = read_ok;
  length-read = length-read;
}
