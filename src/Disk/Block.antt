-- ===== src/Disk/Block.antt =====
-- library/filesystem/src/device/mod.rs: the block device and the operations it has by default.
use cos_rs.Base.{
  ℕ, zero, suc, ◌+◌, ◌*◌, ◌<◌, ◌≡◌, ◌≢◌, ◌⊎◌, inl, inr, refl, List, [], ◌++◌, length, slice,
  replicate,
}

pub data BlockDeviceError : Type 0 where
  out_of_bounds out_of_memory io_error : BlockDeviceError

pub data Result {ℓ} (A : Type ℓ) : Type ℓ where
  ok : A → Result A
  err : BlockDeviceError → Result A

-- A device over a state. An operation that fails may have changed the state. `read_block` is given
-- the buffer and returns it with the block copied to its front.
pub record BlockDevice (S : Type 0) : Type 0 where
  pub block_size : S → ℕ
  pub block_count : S → ℕ
  pub write_block : ℕ → List ℕ → S → S × Result (Unit {0})
  pub read_block : ℕ → List ℕ → S → Result (List ℕ)

abbrev pub Done : Type 0
Done = Result (Unit {0})

module _ {S : Type 0} (d : BlockDevice S) where
  -- What follows a step of the loop: `?` returns at the first error.
  abbrev pub after_write : S × Done → (S → S × Done) → S × Done
  after_write (s, ok u) k = k s
  after_write (s, err e) k = (s, err e)

  -- The loop of `write_blocks` from the round `i`, with `rounds` rounds left. The buffer's range is
  -- within it, as the documentation of the trait demands.
  unfoldable pub write_rounds : ℕ → ℕ → ℕ → ℕ → List ℕ → S → S × Done
  write_rounds zero i size block_index buf s = (s, ok tt)
  write_rounds (suc rounds) i size block_index buf s =
      after_write (d.write_block (block_index + i) (slice (i * size) size buf) s)
        (λ s'. write_rounds rounds (suc i) size block_index buf s')

  unfoldable pub write_blocks : ℕ → ℕ → List ℕ → S → S × Done
  write_blocks block_index count buf s = write_rounds count 0 (d.block_size s) block_index buf s

  abbrev pub after_read : Result (List ℕ) → (List ℕ → Result (List ℕ)) → Result (List ℕ)
  after_read (ok block) k = k block
  after_read (err e) k = err e

  -- The blocks that `read_blocks` copies to the buffer, one after the other.
  unfoldable pub read_rounds : ℕ → ℕ → ℕ → ℕ → List ℕ → S → Result (List ℕ)
  read_rounds zero i size block_index buf s = ok []
  read_rounds (suc rounds) i size block_index buf s =
      after_read (d.read_block (block_index + i) (slice (i * size) size buf) s) (λ block.
        after_read (read_rounds rounds (suc i) size block_index buf s) (λ rest. ok (block ++ rest)))

  unfoldable pub read_blocks : ℕ → ℕ → List ℕ → S → Result (List ℕ)
  read_blocks block_index count buf s = read_rounds count 0 (d.block_size s) block_index buf s

  unfoldable pub write_zeros : ℕ → ℕ → S → S × Done
  write_zeros block_index count s =
      write_blocks block_index count (replicate (d.block_size s * count) 0) s

  unfoldable pub clear_blocks : ℕ → ℕ → S → S × Done
  clear_blocks block_index count s = write_zeros block_index count s

-- What a client may rely on: a device whose blocks read back what was last written there. `S` is
-- the state, `IsValid` what its operations keep.
pub record IsLawful {S : Type 0} (d : BlockDevice S) (IsValid : S → Type 0) : Type 0 where
  pub write-IsValid : (i : ℕ) (buf : List ℕ) (s : S) → IsValid s → IsValid (d.write_block i buf s).0
  pub size-write :
      (i : ℕ) (buf : List ℕ) (s : S) → d.block_size (d.write_block i buf s).0 ≡ d.block_size s
  pub count-write :
      (i : ℕ) (buf : List ℕ) (s : S) → d.block_count (d.write_block i buf s).0 ≡ d.block_count s
  pub write_ok :
      (i : ℕ) (buf : List ℕ) (s : S)
      → IsValid s
      → i < d.block_count s
      → length buf ≡ d.block_size s
      → (d.write_block i buf s).1 ≡ ok tt
  pub read-write_self :
      (i : ℕ) (buf old : List ℕ) (s : S)
      → IsValid s
      → i < d.block_count s
      → length buf ≡ d.block_size s
      → length old ≡ d.block_size s
      → d.read_block i old (d.write_block i buf s).0 ≡ ok buf
  pub read-write_ne :
      (i j : ℕ) (buf old : List ℕ) (s : S)
      → IsValid s
      → i ≢ j
      → d.read_block j old (d.write_block i buf s).0 ≡ d.read_block j old s
  pub read_ok :
      (i : ℕ) (s : S)
      → IsValid s
      → i < d.block_count s
      → (block : List ℕ) × (length block ≡ d.block_size s)
        × ((old : List ℕ) → length old ≡ d.block_size s → d.read_block i old s ≡ ok block)
  pub length-read :
      (i : ℕ) (old : List ℕ) (s : S) {buf : List ℕ}
      → d.read_block i old s ≡ ok buf
      → length buf ≡ length old

pub Result-cases {ℓ} :
    {A : Type ℓ} (r : Result A) → ((a : A) × (r ≡ ok a)) ⊎ ((e : BlockDeviceError) × (r ≡ err e))
Result-cases (ok a) = inl (a, refl)
Result-cases (err e) = inr (e, refl)
