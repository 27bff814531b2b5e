-- ===== src/Fs/System/Handle.antt =====
-- library/filesystem/src/fs/fat32.rs: the operations of a file handle.
use cos_rs.Base.{ℕ, ◌+◌, ◌-◌, ◌%◌, ◌^◌, min, List, Bool, true, ltb, if◌then◌else◌, length}
use cos_rs.Disk.Block.{BlockDevice}
use cos_rs.Fs.Types.{
  Fat32, Outcome, done, fail, panic, out_of_fuel, unmounted, file_closed, file_too_large,
}
use cos_rs.Fs.Name.{Fat32FileMetadata, cluster_of}
use cos_rs.Fs.Mount.{sub_u64}
use cos_rs.Fs.Directory.Edit.{update_file_metadata}
use cos_rs.Fs.System.{Fat32FileHandle, remove}
use cos_rs.Fs.System.Transfer.{Copying, Step, read_chain, write_chain, write_more}

-- The end of the life of a handle's reference: `upgrade` fails when the file system is gone, which
-- is what `mounted` says.
abbrev pub start_copying : List ℕ → ℕ → ℕ → Copying
start_copying buf pointer remain = record {
  buf = buf;
  pointer = pointer;
  offset = 0;
  copied = 0;
  remain = remain;
}

-- What a call leaves: the handle, the file system and the outcome.
pub record Left (S A : Type 0) : Type 0 where
  pub handle : Fat32FileHandle
  pub system : Fat32 S
  pub outcome : Outcome A

abbrev pub left : {S A : Type 0} → Fat32FileHandle → Fat32 S → Outcome A → Left S A
left h f o = record { handle = h; system = f; outcome = o }

-- The guards of the calls.
abbrev pub when_open : {S A : Type 0} → Fat32FileHandle → Fat32 S → Left S A → Left S A
when_open h f k = if h.closed then left h f (fail file_closed) else k

abbrev pub when_mounted : {S A : Type 0} → Bool → Fat32FileHandle → Fat32 S → Left S A → Left S A
when_mounted mounted h f k = if mounted then k else left h f (fail unmounted)

unfoldable pub close : {S : Type 0} → Bool → Fat32FileHandle → Fat32 S → Left S (Unit {0})
close mounted h f = when_open h f (
    when_mounted mounted h f (
      left (record h { closed = true })
        (record f { occupied_file = remove (cluster_of h.metadata) f.occupied_file }) (done tt)))

unfoldable pub move_pointer : {S : Type 0} → ℕ → Fat32FileHandle → Fat32 S → Left S (Unit {0})
move_pointer position h f =
    when_open h f
      (left (record h { pointer = min position h.metadata.short.file_size }) f (done tt))

unfoldable pub get_pointer : {S : Type 0} → Fat32FileHandle → Fat32 S → Left S ℕ
get_pointer h f = when_open h f (left h f (done h.pointer))

-- The bytes that a call of `read` asks for.
abbrev pub read_length : List ℕ → Fat32FileHandle → ℕ
read_length buf h = min (length buf) (sub_u64 h.metadata.short.file_size h.pointer)

abbrev pub with_count : {A : Type 0} → A → Outcome (Unit {0}) → Outcome A
with_count n (done u) = done n
with_count n (fail e) = fail e
with_count n panic = panic
with_count n out_of_fuel = out_of_fuel

module _ {S : Type 0} (d : BlockDevice S) (fuel : ℕ) where
  -- `read`, with the buffer and the number of bytes that it reports.
  unfoldable pub read : Bool → List ℕ → Fat32FileHandle → Fat32 S → Left S (List ℕ × ℕ)
  read mounted buf h f = when_open h f (
      when_mounted mounted h f (
        let (g, c, o) =
          read_chain d fuel (cluster_of h.metadata)
            (start_copying buf h.pointer (read_length buf h)) f in
        left (record h { pointer = c.pointer }) g (with_count (c.buf, read_length buf h) o)))

  -- The size of the file is written after its bytes.
  abbrev pub finish_write : Fat32FileHandle → Step S → Left S (Unit {0})
  finish_write h (f, c, done u) =
      if ltb h.metadata.short.file_size c.pointer
      then (let short = record h.metadata.short { file_size = c.pointer % 2 ^ 32 } in
          let meta : Fat32FileMetadata = record h.metadata { short = short } in
          let (g, o) = update_file_metadata d meta f in
          left (record h { metadata = meta; pointer = c.pointer }) g o)
      else left (record h { pointer = c.pointer }) f (done tt)
  finish_write h (f, c, fail e) = left (record h { pointer = c.pointer }) f (fail e)
  finish_write h (f, c, panic) = left (record h { pointer = c.pointer }) f panic
  finish_write h (f, c, out_of_fuel) = left (record h { pointer = c.pointer }) f out_of_fuel

  unfoldable pub write : Bool → List ℕ → Fat32FileHandle → Fat32 S → Left S (Unit {0})
  write mounted buf h f = when_open h f (
      if ltb (2 ^ 32 - 1) (h.pointer + length buf)
      then left h f (fail file_too_large)
      else when_mounted mounted h f (
          finish_write h (
            write_chain d fuel 0 (cluster_of h.metadata) (start_copying buf h.pointer (length buf))
              f (λ last c g. write_more d fuel last c g))))
