-- ===== src/Fs/System/Content.antt =====
-- `read` of a file handle against the bytes of the file.
use native.Mathlib.Nat.{mul_comm}
use cos_rs.Base.{
  ℕ, zero, suc, ◌+◌, ◌-◌, ◌*◌, ◌^◌, ◌≤◌, ◌<◌, ◌≡◌, min, refl, sym, ap, ap₂, ◌∙◌, subst, List, [],
  ◌∷◌, ◌++◌, length, slice, splice, splice-nil, length-append, ltb, ltb→lt, ltb→le, ◌==◌, ◌&&◌,
  true, false, if◌then◌else◌, Bool-cases, inl, inr, arith, length-splice,
}
use cos_rs.Disk.Block.{BlockDevice}
use cos_rs.Fs.Types.{Fat32, Outcome, done, fail, file_closed}
use cos_rs.Fs.Table.{get_sector_by_cluster, get_next_cluster}
use cos_rs.Fs.Name.{cluster_of}
use cos_rs.Fs.Mount.{sub_u64}
use cos_rs.Fs.Directory.{read_cluster}
use cos_rs.Fs.Directory.Edit.{is_before_end}
use cos_rs.Fs.System.{Fat32FileHandle}
use cos_rs.Fs.System.Transfer.{
  Copying, read_sectors, bytes_per_cluster, Step, then_step, read_chain,
}
use cos_rs.Fs.System.ReadSectors.{
  sector_bytes, length-sector_bytes, Copied, Copied-append, Copied-skip, Copied-widen,
  read_sectors_lem,
}
use cos_rs.Fs.System.Handle.{Left, left, when_open, with_count, read, read_length, start_copying}

module _ {S : Type 0} (d : BlockDevice S) where
  -- The bytes behind a cluster number: those of its chain's clusters, of which there are `n`.
  pub data FileAt (f : Fat32 S) : ℕ → List ℕ → ℕ → Type 0 where
    file_end : {c : ℕ} → is_before_end c ≡ false → FileAt f c [] 0
    file_more :
        {c next sector n : ℕ} {buffer bytes : List ℕ}
        → is_before_end c ≡ true
        → get_sector_by_cluster d c f ≡ (f, done sector)
        → read_cluster d sector f ≡ (f, done buffer)
        → length buffer ≡ f.bpb.sectors_per_cluster * d.block_size f.store
        → get_next_cluster d c f ≡ (f, done next)
        → FileAt f next bytes n
        → FileAt f c
            (sector_bytes f.bpb.sectors_per_cluster 0 f.bpb.bytes_per_sector
                (d.block_size f.store)
                buffer
              ++ bytes)
            (suc n)

  then_step-done :
      {A : Type 0} (c : Copying) (o : Fat32 S × Outcome A) (g : Fat32 S) (a : A)
      (k : A → Fat32 S → Step S)
      → o ≡ (g, done a)
      → then_step c o k ≡ k a g
  then_step-done c o g a k e = ap (λ x. then_step c x k) e

  read_chain_lem :
      (fuel n : ℕ) (f : Fat32 S) (cluster : ℕ) (bytes : List ℕ) (c : Copying)
      → FileAt f cluster bytes n
      → n < fuel
      → f.bpb.bytes_per_sector ≤ d.block_size f.store
      → 0 < c.remain
      → c.offset ≤ c.pointer
      → c.pointer + c.remain ≤ c.offset + length bytes
      → c.copied + c.remain ≤ length c.buf
      → (c' : Copying) × (read_chain d fuel cluster c f ≡ (f, c', done tt))
        × (c'.remain ≡ 0)
        × Copied c c' bytes c.remain
  unfolding read_chain
  read_chain_lem zero n f cluster bytes c file enough narrow some_left low high room =
      absurd (omega arith)
  read_chain_lem (suc fuel) n f cluster bytes c (file_end e) enough narrow some_left low high room =
      absurd (omega arith)
  read_chain_lem (suc fuel) n f cluster bytes c
        (file_more {next = next} {sector = sector} {n = m} {buffer = buffer} {bytes = rest} e s r w
          t file)
        enough narrow some_left low high room =
      let b = f.bpb in
      let size = d.block_size f.store in
      let front = sector_bytes b.sectors_per_cluster 0 b.bytes_per_sector size buffer in
      let bpc = bytes_per_cluster f in
      let spc = b.sectors_per_cluster in
      let bps = b.bytes_per_sector in
      let inside : (0 + spc) * size ≤ length buffer = omega arith in
      let wide : length front ≡ bpc =
        length-sector_bytes spc 0 bps size buffer inside narrow ∙ mul_comm spc bps in
      let total = length-append front rest in
      let positive : ltb 0 c.remain ≡ true = ground (arith, some_left) in
      let going : (is_before_end cluster && ltb 0 c.remain) ≡ true = rw (e, positive) refl in
      elim (Bool-cases (ltb (c.offset + bpc) c.pointer)) [
        | inl skip ↦
            let less = ltb→lt (c.offset + bpc) c.pointer skip in
            let c1 : Copying = record c { offset = c.offset + bpc } in
            let r =
              read_chain_lem fuel m f next rest c1 file (omega arith) narrow some_left (omega arith)
                (omega arith) room in
            (
              r.0,
              rw (read_chain, going, skip)
                  (then_step-done c1 (get_next_cluster d cluster f) f next _ t ∙ r.1),
              r.2,
              Copied-skip c r.0 front rest bpc c.remain wide less r.3,
            )
        | inr here ↦
            let near = ltb→le (c.offset + bpc) c.pointer here in
            let turn = mul_comm spc bps in
            let q =
              read_sectors_lem spc 0 bps size buffer c low (omega arith) some_left room inside
                narrow in
            let run : (k : Copying → Fat32 S → Step S)
                → then_step c (get_sector_by_cluster d cluster f) (λ sector f1.
                  then_step c (read_cluster d sector f1) (λ buffer f2.
                    then_step c (f2, read_sectors spc 0 bps (d.block_size f2.store) buffer c) k))
                  ≡ k q.1 f =
              λ k.
                then_step-done c (get_sector_by_cluster d cluster f) f sector _ s
                ∙ then_step-done c (read_cluster d sector f) f buffer _ r
                ∙ then_step-done c (f, read_sectors spc 0 bps size buffer c) f q.1 k
                    (ap (λ o. (f, o)) q.2) in
            elim (Bool-cases (q.1.remain == 0)) [
              | inl z ↦
                  let all : q.0 ≡ c.remain = ground (arith, q.3.remain) in
                  (
                    q.1,
                    rw (read_chain, going, here) (run _ ∙ rw z refl),
                    ground arith,
                    subst (λ n. Copied c q.1 (front ++ rest) n) all
                        (Copied-widen c q.1 front rest q.0 q.3 (ground arith)),
                  )
              | inr z ↦ elim q.3.whole [
                | inl none_left ↦ absurd (ground (arith, z))
                | inr (eo, ef) ↦
                    let c1 = q.1 in
                    let k = q.3 in
                    let long : length c1.buf ≡ length c.buf =
                      ap length k.buf
                      ∙ length-splice c.copied (slice (c.pointer - c.offset) q.0 front) c.buf in
                    let u =
                      read_chain_lem fuel m f next rest c1 file (omega arith) narrow
                        (ground (arith, z)) (omega arith) (omega (arith, k.pointer, k.remain))
                        (omega (arith, k.copied, k.remain)) in
                    (
                      u.0,
                      rw (read_chain, going, here)
                          (run _
                            ∙ rw z (
                                then_step-done c1 (get_next_cluster d cluster f) f next _ t ∙ u.1)),
                      u.2,
                      subst (λ n. Copied c u.0 (front ++ rest) n) (omega (arith, k.remain))
                          (Copied-append c c1 u.0 front rest q.0 c1.remain low
                            (omega (arith, k.pointer)) k.buf k.pointer k.copied k.remain eo ef u.3),
                    )
              ]
            ]
      ]

  read_nothing :
      (fuel n : ℕ) (f : Fat32 S) (cluster : ℕ) (bytes : List ℕ) (c : Copying)
      → FileAt f cluster bytes n
      → n < fuel
      → c.remain ≡ 0
      → read_chain d fuel cluster c f ≡ (f, c, done tt)
  unfolding read_chain
  read_nothing zero n f cluster bytes c file enough none_left = absurd (omega arith)
  read_nothing (suc fuel) n f cluster bytes c file enough none_left =
      let stop : (is_before_end cluster && ltb 0 c.remain) ≡ false = ground arith in
      rw (read_chain, stop) refl

  opened :
      {A : Type 0} (h : Fat32FileHandle) (f : Fat32 S) (k : Left S A)
      → h.closed ≡ false
      → when_open h f k ≡ k
  opened h f k e = ap (λ b. if b then left h f (fail file_closed) else k) e

  finish : Fat32FileHandle → ℕ → Step S → Left S (List ℕ × ℕ)
  finish h k (g, c, o) = left (record h { pointer = c.pointer }) g (with_count (c.buf, k) o)

  slice-none : (o : ℕ) (xs : List ℕ) → slice o 0 xs ≡ []
  slice-none zero xs = refl
  slice-none (suc o) [] = refl
  slice-none (suc o) (x ∷ xs) = slice-none o xs

  -- If a sector is no longer than a block, and behind the start cluster of an open handle lies a
  -- chain of readable clusters with some bytes, and the pointer is at most the file size, which
  -- is at most the number of these bytes and below 2^32, and the fuel exceeds the number of
  -- clusters, then read fills the front of the buffer with the bytes from the pointer, as many as
  -- the buffer and the file size allow, reports their number, moves the pointer by it, and leaves
  -- the rest of the buffer and the file system as they were.
  pub read-content :
      (fuel n : ℕ) (f : Fat32 S) (h : Fat32FileHandle) (bytes buf : List ℕ)
      → f.bpb.bytes_per_sector ≤ d.block_size f.store
      → FileAt f (cluster_of h.metadata) bytes n
      → n < fuel
      → h.closed ≡ false
      → h.pointer ≤ h.metadata.short.file_size
      → h.metadata.short.file_size ≤ length bytes
      → h.metadata.short.file_size < 2 ^ 32
      → (k : ℕ) × (k ≡ min (length buf) (h.metadata.short.file_size - h.pointer))
        × (read d fuel true buf h f
            ≡ left
                (record h { pointer = h.pointer + k })
                f
                (done (splice 0 (slice h.pointer k bytes) buf, k)))
  unfolding read finish
  read-content fuel n f h bytes buf narrow file enough is_open low high word =
      let k = read_length buf h in
      let same : sub_u64 h.metadata.short.file_size h.pointer
          ≡ h.metadata.short.file_size - h.pointer =
        omega arith in
      let c = start_copying buf h.pointer k in
      let front : h.pointer - 0 ≡ h.pointer = omega arith in
      elim (Bool-cases (ltb 0 k)) [
        | inl some_left ↦
            let r =
              read_chain_lem fuel n f (cluster_of h.metadata) bytes c file enough narrow
                (ltb→lt 0 k some_left) (omega arith) (omega arith) (omega arith) in
            (
              k,
              ap (min (length buf)) same,
              opened h f _ is_open
                  ∙ ap (finish h k) r.1
                  ∙ ap₂ (λ p b. left (record h { pointer = p }) f (done (b, k))) r.3.pointer
                      (r.3.buf ∙ ap (λ o. splice 0 (slice o k bytes) buf) front),
            )
        | inr none_left ↦
            let nothing : k ≡ 0 = omega (arith, ltb→le 0 k none_left) in
            (
              k,
              ap (min (length buf)) same,
              opened h f _ is_open
                  ∙ ap (finish h k) (
                      read_nothing fuel n f (cluster_of h.metadata) bytes c file enough
                        (omega arith))
                  ∙ ap₂ (λ p b. left (record h { pointer = p }) f (done (b, k))) (omega arith)
                      (sym (
                        ap (λ m. splice 0 (slice h.pointer m bytes) buf) nothing
                        ∙ ap (λ u. splice 0 u buf) (slice-none h.pointer bytes)
                        ∙ splice-nil 0 buf)),
            )
      ]
