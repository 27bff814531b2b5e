-- ===== src/Fs/Types.antt =====
-- library/filesystem/src/fs/mod.rs and fat32.rs: the errors, the structures on the disk, the state
-- of a mounted file system, and the monad of its operations.
use cos_rs.Base.{ℕ, zero, suc, ◌/◌, ◌%◌, ◌^◌, ◌≡◌, ap, Option, List, [], ◌∷◌}
use cos_rs.Disk.Block.{BlockDeviceError}

pub data FileSystemError : Type 0 where
  device_error : BlockDeviceError → FileSystemError
  file_not_found file_exists disk_full file_type_mismatch name_too_long file_occupied
        operation_not_support unmounted file_closed file_too_large :
      FileSystemError

-- The boot record. Text and code fields are byte lists.
pub record Bpb : Type 0 where
  pub reserved_code : List ℕ
  pub oem_id : List ℕ
  pub bytes_per_sector : ℕ
  pub sectors_per_cluster : ℕ
  pub reserved_sector_count : ℕ
  pub num_fats : ℕ
  pub root_entry_count : ℕ
  pub total_sectors_16 : ℕ
  pub media : ℕ
  pub fat_size_16 : ℕ
  pub sectors_per_track : ℕ
  pub num_heads : ℕ
  pub hidden_sectors : ℕ
  pub total_sectors_32 : ℕ
  pub fat_size_32 : ℕ
  pub ext_flags : ℕ
  pub fs_version : ℕ
  pub root_cluster : ℕ
  pub fs_info : ℕ
  pub bk_boot_sector : ℕ
  pub reserved : List ℕ
  pub drive_number : ℕ
  pub reserved1 : ℕ
  pub boot_signature : ℕ
  pub volume_id : ℕ
  pub volume_label : List ℕ
  pub fs_type : List ℕ
  pub code : List ℕ
  pub boot_sector_signature : ℕ

pub record FsInfo : Type 0 where
  pub lead_signature : ℕ
  pub reserved1 : List ℕ
  pub struct_signature : ℕ
  pub free_cluster_count : ℕ
  pub next_free_cluster : ℕ
  pub reserved2 : List ℕ
  pub trail_signature : ℕ

-- `FatEntry` is its number.
abbrev pub fat_entry_free : ℕ
fat_entry_free = 0

abbrev pub fat_entry_reserved_start : ℕ
fat_entry_reserved_start = 0x0FFFFFF0

abbrev pub fat_entry_eoc_start : ℕ
fat_entry_eoc_start = 0x0FFFFFF8

-- `Fat32Inner`; `store` is the state of the device behind it.
pub record Fat32 (S : Type 0) : Type 0 where
  pub store : S
  pub bpb : Bpb
  pub fs_info : Option FsInfo
  pub max_cluster : ℕ
  pub occupied_file : List ℕ

-- What a call comes to: a value, an error, a failed assertion, or no end within the fuel.
pub data Outcome {ℓ} (A : Type ℓ) : Type ℓ where
  done : A → Outcome A
  fail : FileSystemError → Outcome A
  panic out_of_fuel : Outcome A

abbrev pub M : Type 0 → Type 0 → Type 0
M S A = Fat32 S → Fat32 S × Outcome A

abbrev pub pure : {S A : Type 0} → A → M S A
pure a f = (f, done a)

abbrev pub stop : {S A : Type 0} → Outcome A → M S A
stop o f = (f, o)

abbrev pub bind_outcome : {S A B : Type 0} → Fat32 S × Outcome A → (A → M S B) → Fat32 S × Outcome B
bind_outcome (f, done a) k = k a f
bind_outcome (f, fail e) k = (f, fail e)
bind_outcome (f, panic) k = (f, panic)
bind_outcome (f, out_of_fuel) k = (f, out_of_fuel)

-- What follows a call that came to a value.
pub bind_outcome-done :
    {S A B : Type 0} (o : Fat32 S × Outcome A) (k : A → M S B) (g : Fat32 S) (a : A)
    → o ≡ (g, done a)
    → bind_outcome o k ≡ k a g
bind_outcome-done o k g a e = ap (λ x. bind_outcome x k) e

infixl 5 ◌>>=◌ ◌>>◌
abbrev pub ◌>>=◌ : {S A B : Type 0} → M S A → (A → M S B) → M S B
◌>>=◌ m k f = bind_outcome (m f) k

abbrev pub ◌>>◌ : {S A B : Type 0} → M S A → M S B → M S B
◌>>◌ m k f = bind_outcome (m f) (λ _. k)

-- `u16`, `u32` and `u64` as bytes, the lowest first.
abbrev pub le_bytes : ℕ → ℕ → List ℕ
le_bytes zero n = []
le_bytes (suc k) n = n % 2 ^ 8 ∷ le_bytes k (n / 2 ^ 8)
