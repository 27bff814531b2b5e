-- ===== src/Fs/System/Reader.antt =====
-- library/filesystem/src/fs/mod.rs: `AsyncRead` and `Seekable` for a file handle, by its `read` and
-- `move_pointer`, and the laws of an open file that they keep on FAT32.
use cos_rs.Base.{
  ℕ, ◌+◌, ◌-◌, ◌^◌, ◌≤◌, ◌<◌, ◌≡◌, min, refl, ap, sym, ◌∙◌, List, Bool, true, false, length,
  length-slice, length-replicate, slice, slice-slice, slice-splice_self, splice, take, replicate,
  arith,
}
use cos_rs.Disk.Block.{BlockDevice}
use cos_rs.Elf.Io
use cos_rs.Elf.Io.{Answer, View, IsFile}
use cos_rs.Fs.Types.{Fat32, Outcome, done, fail, panic, out_of_fuel}
use cos_rs.Fs.Name.{Fat32FileMetadata, cluster_of}
use cos_rs.Fs.System.{Fat32FileHandle}
use cos_rs.Fs.System.Handle.{read, move_pointer}
use cos_rs.Fs.System.Content.{FileAt, read-content}

-- What is not a value is the error of the call.
abbrev pub answer_of : {A : Type 0} → Outcome A → Answer (Outcome (Unit {0})) A
answer_of (done x) = Io.done x
answer_of (fail e) = Io.fail (fail e)
answer_of panic = Io.fail panic
answer_of out_of_fuel = Io.fail out_of_fuel

abbrev pub filled : Outcome (List ℕ × ℕ) → Outcome (List ℕ)
filled (done (buf, k)) = done (take k buf)
filled (fail e) = fail e
filled panic = panic
filled out_of_fuel = out_of_fuel

module _ {S : Type 0} (d : BlockDevice S) (fuel : ℕ) (mounted : Bool) where
  unfoldable pub handle_io : Io.Io (Fat32FileHandle × Fat32 S) (Outcome (Unit {0}))
  handle_io = record {
    seek = λ n s. let r = move_pointer n s.0 s.1 in ((r.handle, r.system), answer_of r.outcome);
    read = λ n s.
        let r = read d fuel mounted (replicate n 0) s.0 s.1 in
        ((r.handle, r.system), answer_of (filled r.outcome));
  }

module _ {S : Type 0} where
  -- The handle of a file at a place in it, in a file system.
  abbrev pub open_at : Fat32FileMetadata → Fat32 S → ℕ → Fat32FileHandle × Fat32 S
  open_at m f p = (record { metadata = m; pointer = p; closed = false }, f)

  -- The handle is open, points into the file, and the file system is as it was.
  abbrev pub IsOpenAt : Fat32FileMetadata → Fat32 S → Fat32FileHandle × Fat32 S → Type 0
  IsOpenAt m f s = (p : ℕ) × (p ≤ m.short.file_size) × (s ≡ open_at m f p)

  abbrev pub handle_view : Fat32FileMetadata → List ℕ → View (Fat32FileHandle × Fat32 S)
  handle_view m bytes = record {
    contents = λ s. slice 0 m.short.file_size bytes;
    cursor = λ s. s.0.pointer;
  }

module _ {S : Type 0} (d : BlockDevice S) (fuel size : ℕ) (m : Fat32FileMetadata) (f : Fat32 S)
    (bytes : List ℕ) (narrow : f.bpb.bytes_per_sector ≤ d.block_size f.store)
    (file : FileAt d f (cluster_of m) bytes size) (enough : size < fuel)
    (inside : m.short.file_size ≤ length bytes) (word : m.short.file_size < 2 ^ 32) where
  seek_at :
      (n p : ℕ)
      → (handle_io d fuel true).seek n (open_at m f p)
        ≡ (open_at m f (min n m.short.file_size), Io.done tt)
  unfolding handle_io move_pointer
  seek_at n p = refl

  -- What `read` puts at the front of a buffer of zeros.
  front_of :
      (n p k : ℕ)
      → k ≤ n
      → p + k ≤ m.short.file_size
      → take k (splice 0 (slice p k bytes) (replicate n 0))
        ≡ slice p k (slice 0 m.short.file_size bytes)
  front_of n p k short low =
      let ys = slice p k bytes in
      let zeros : List ℕ = replicate n 0 in
      let l : length ys ≡ k = length-slice p k bytes (omega arith) in
      let fits : 0 + length ys ≤ length zeros = omega (arith, l, length-replicate {A = ℕ} n 0) in
      let start : 0 + p ≡ p = omega arith in
      ap (λ j. take j (splice 0 ys zeros)) (sym l)
      ∙ slice-splice_self 0 ys zeros fits
      ∙ sym (slice-slice p k 0 m.short.file_size bytes low ∙ ap (λ o. slice o k bytes) start)

  read_at :
      (n p : ℕ)
      → p ≤ m.short.file_size
      → (handle_io d fuel true).read n (open_at m f p) ≡ (
        open_at m f (p + min n (m.short.file_size - p)),
        Io.done (slice p (min n (m.short.file_size - p)) (slice 0 m.short.file_size bytes)),
      )
  unfolding handle_io
  read_at n p low =
      let h = (open_at m f p).0 in
      let r =
        read-content d fuel size f h bytes (replicate n 0) narrow file enough refl low inside
          word in
      let k : r.0 ≡ min n (m.short.file_size - p) =
        r.1 ∙ ap (λ l. min l (m.short.file_size - p)) (length-replicate n 0) in
      let found = ap (λ x. ((x.handle, x.system), answer_of (filled x.outcome))) r.2 in
      let put =
        ap (λ ys. (open_at m f (p + r.0), Io.done ys))
          (front_of n p r.0 (omega arith) (omega arith)) in
      let shown =
        ap (λ k. (open_at m f (p + k), Io.done (slice p k (slice 0 m.short.file_size bytes)))) k in
      found ∙ put ∙ shown

  length-contents : length (slice 0 m.short.file_size bytes) ≡ m.short.file_size
  length-contents = length-slice 0 m.short.file_size bytes (omega arith)

  -- An open handle of a FAT32 file keeps the laws of a file.
  pub handle-IsFile : IsFile (handle_io d fuel true) (handle_view m bytes) (IsOpenAt m f)
  handle-IsFile =
      let io = handle_io d fuel true in
      let size = m.short.file_size in
      record {
        seek-ok = λ n s o h. ap (λ x. (io.seek n x).1) o.2 ∙ ap (λ r. r.1) (seek_at n o.0);
        seek-cursor = λ n s o h.
            let inside : n ≤ size = omega (arith, length-contents) in
            ap (λ x. (io.seek n x).0.0.pointer) o.2
            ∙ ap (λ r. r.0.0.pointer) (seek_at n o.0)
            ∙ omega arith;
        seek-contents = λ n s o. refl;
        seek-IsOpen = λ n s o. (
          min n size,
          omega arith,
          ap (λ x. (io.seek n x).0) o.2 ∙ ap (λ r. r.0) (seek_at n o.0),
        );
        count = λ n s. min n (size - s.0.pointer);
        count_le = λ n s. omega arith;
        count_pos = λ n s o p q. omega (arith, length-contents);
        read-ok = λ n s o h.
            ap (λ x. (io.read n x).1) o.2
            ∙ ap (λ r. r.1) (read_at n o.0 o.1)
            ∙ ap (λ p. Io.done (slice p (min n (size - p)) (slice 0 size bytes)))
                (sym (ap (λ x. x.0.pointer) o.2));
        read-cursor = λ n s o h.
            ap (λ x. (io.read n x).0.0.pointer) o.2
            ∙ ap (λ r. r.0.0.pointer) (read_at n o.0 o.1)
            ∙ ap (λ p. p + min n (size - p)) (sym (ap (λ x. x.0.pointer) o.2));
        read-contents = λ n s o. refl;
        read-IsOpen = λ n s o. (
          o.0 + min n (size - o.0),
          omega (arith, o.1),
          ap (λ x. (io.read n x).0) o.2 ∙ ap (λ r. r.0) (read_at n o.0 o.1),
        );
      }
