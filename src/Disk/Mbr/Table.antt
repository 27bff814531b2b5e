-- ===== src/Disk/Mbr/Table.antt =====
-- The partition table that `format` of library/filesystem/src/device/mbr.rs writes reads back.
use cos_rs.Base.{
  ℕ, suc, ◌+◌, ◌-◌, ◌*◌, ◌^◌, ◌≤◌, ◌<◌, ◌≡◌, refl, sym, ap, ap₂, subst, ◌∙◌, false, Option, none,
  some, List, [], ◌∷◌, map, length, ltb, replicate, length-replicate, slice, splice,
  slice-splice_self, slice-splice_before, length-splice, All, Bool-cases, Option-cases, inl, inr,
  arith, ltb→le,
}
use cos_rs.Disk.Block.{BlockDevice, IsLawful, Result, Result-cases, ok, err}
use cos_rs.Disk.Mbr.{
  Partition, PartitionEntry, MbrError, Outcome, done, failed, formatted, u32_byte, entry_offset,
  is_bad, partition_entry_count, read_entry, read_table, entry_bytes, write_entry, write_table,
  to_partition, mount, format,
}

-- The fields are of their types, `u32` and `u8`.
abbrev pub InRange : Option PartitionEntry → Type 0
InRange none = Unit
InRange (some e) = (e.start < 2 ^ 32) × (e.end < 2 ^ 32)

-- The partition begins on the device. `format` does not ask for this, and `mount` does.
abbrev pub Begins : ℕ → Option PartitionEntry → Type 0
Begins block_count none = Unit
Begins block_count (some e) = e.start < block_count

u32_round :
    (n : ℕ)
    → n < 2 ^ 32
    → u32_byte n 0 + 2 ^ 8 * u32_byte n 1 + 2 ^ 16 * u32_byte n 2 + 2 ^ 24 * u32_byte n 3 ≡ n
u32_round n h = omega arith

read-entry_bytes :
    (block_count : ℕ) (e : PartitionEntry)
    → is_bad block_count e ≡ false
    → (e.start < 2 ^ 32) × (e.end < 2 ^ 32)
    → e.start < block_count
    → read_entry block_count (entry_bytes e) ≡ to_partition (some e)
unfolding read_entry entry_bytes
read-entry_bytes block_count e g r b =
    rw (u32_round e.start r.0, u32_round (e.end - e.start) (omega arith)) (ground arith)

read-zero_bytes : (block_count : ℕ) → read_entry block_count (replicate 16 0) ≡ none
unfolding read_entry
read-zero_bytes block_count = refl

length-entry_bytes : (e : PartitionEntry) → length (entry_bytes e) ≡ 16
unfolding entry_bytes
length-entry_bytes e = refl

-- What `write_entry` leaves of an earlier entry, and what reads back of its own.
record Written (i block_count : ℕ) (p : Option PartitionEntry) (buf buf' : List ℕ) : Type 0 where
  sized : length buf' ≡ length buf
  earlier : (j : ℕ) → j < i → slice (entry_offset j) 16 buf' ≡ slice (entry_offset j) 16 buf
  own :
      InRange p
      → Begins block_count p
      → read_entry block_count (slice (entry_offset i) 16 buf') ≡ to_partition p

write_bytes-Written :
    (i block_count : ℕ) (p : Option PartitionEntry) (ys buf : List ℕ)
    → length ys ≡ 16
    → entry_offset i + 16 ≤ length buf
    → (InRange p → Begins block_count p → read_entry block_count ys ≡ to_partition p)
    → Written i block_count p buf (splice (entry_offset i) ys buf)
write_bytes-Written i block_count p ys buf e h k = record {
  sized = length-splice (entry_offset i) ys buf;
  earlier = λ j lt. slice-splice_before (entry_offset j) 16 (entry_offset i) ys buf (omega arith);
  own = λ r b.
      ap (read_entry block_count) (
        subst (λ n. slice (entry_offset i) n (splice (entry_offset i) ys buf) ≡ ys) e
          (slice-splice_self (entry_offset i) ys buf (omega arith)))
      ∙ k r b;
}

write_entry-Written :
    (i block_count : ℕ) (p : Option PartitionEntry) (buf buf' : List ℕ)
    → entry_offset i + 16 ≤ length buf
    → write_entry i block_count p buf ≡ some buf'
    → Written i block_count p buf buf'
unfolding write_entry
write_entry-Written i block_count none buf buf' h e =
    subst (Written i block_count none buf) (ground arith) (
      write_bytes-Written i block_count none (replicate 16 0) buf refl h
        (λ _ _. read-zero_bytes block_count))
write_entry-Written i block_count (some p) buf buf' h e = elim (Bool-cases (is_bad block_count p)) [
  | inl g ↦ ground arith
  | inr g ↦ subst (Written i block_count (some p) buf) (ground arith) (
      write_bytes-Written i block_count (some p) (entry_bytes p) buf (length-entry_bytes p) h
        (λ r b. read-entry_bytes block_count p g r b))
]

refused : {A : Type 0} {x : MbrError} {a : A} → failed x ≡ done a → ⊥
refused e = cc

done-injective : {A : Type 0} {a b : A} → done a ≡ done b → a ≡ b
done-injective e = cc

-- The same of the rest of the table.
record WrittenTable (i block_count : ℕ) (ps : List (Option PartitionEntry)) (buf buf' : List ℕ)
    : Type 0 where
  sized : length buf' ≡ length buf
  earlier : (j : ℕ) → j < i → slice (entry_offset j) 16 buf' ≡ slice (entry_offset j) 16 buf
  own :
      All InRange ps
      → All (Begins block_count) ps
      → read_table (length ps) i block_count buf' ≡ map to_partition ps

WrittenTable-cons :
    (i block_count : ℕ) (p : Option PartitionEntry) (ps : List (Option PartitionEntry))
    (buf mid buf' : List ℕ)
    → Written i block_count p buf mid
    → WrittenTable (suc i) block_count ps mid buf'
    → WrittenTable i block_count (p ∷ ps) buf buf'
unfolding read_table
WrittenTable-cons i block_count p ps buf mid buf' w t = record {
  sized = t.sized ∙ w.sized;
  earlier = λ j lt. t.earlier j (omega arith) ∙ w.earlier j lt;
  own = λ r b.
      ap₂ ◌∷◌ (ap (read_entry block_count) (t.earlier i (omega arith)) ∙ w.own r.0 b.0)
        (t.own r.1 b.1);
}

write_table-Written :
    (i block_count : ℕ) (ps : List (Option PartitionEntry)) (buf buf' : List ℕ)
    → entry_offset i + 16 * length ps ≤ length buf
    → write_table i block_count ps buf ≡ some buf'
    → WrittenTable i block_count ps buf buf'
unfolding write_table read_table
write_table-Written i block_count [] buf buf' h e = record {
  sized = ap length (ground arith);
  earlier = λ j lt. ap (slice (entry_offset j) 16) (ground arith);
  own = λ r b. refl;
}
write_table-Written i block_count (p ∷ ps) buf buf' h e =
    elim (Option-cases (write_entry i block_count p buf)) [
      | inl f ↦ ground arith
      | inr (mid, f) ↦
          let w = write_entry-Written i block_count p buf mid (omega arith) f in
          WrittenTable-cons i block_count p ps buf mid buf' w (
            write_table-Written (suc i) block_count ps mid buf' (omega (arith, w.sized))
              (ground arith))
    ]

module _ {S : Type 0} (d : BlockDevice S) (IsValid : S → Type 0) (l : IsLawful d IsValid) where
  -- What a successful `format` went through.
  record Formatted (ps : List (Option PartitionEntry)) (s : S) (buf buf' : List ℕ) : Type 0 where
    large : ltb (d.block_size s) 512 ≡ false
    reads : d.read_block 0 (replicate (d.block_size s) 0) s ≡ ok buf
    table : write_table 0 (d.block_count s) ps buf ≡ some buf'

  format-Formatted :
      (ps : List (Option PartitionEntry)) (s : S) (result : List (Option Partition))
      → (format d ps s).1 ≡ done result
      → (buf : List ℕ) × (buf' : List ℕ) × Formatted ps s buf buf'
  unfolding format
  format-Formatted ps s result e = elim (Bool-cases (ltb (d.block_size s) 512)) [
    | inl f ↦ absurd (refused (rw f at e))
    | inr f ↦ elim (Result-cases (d.read_block 0 (replicate (d.block_size s) 0) s)) [
      | inr (x, g) ↦ absurd (refused (rw (f, g) at e))
      | inl (buf, g) ↦ elim (Option-cases (write_table 0 (d.block_count s) ps buf)) [
        | inl h ↦ absurd (refused (rw (f, g, h) at e))
        | inr (buf', h) ↦ (buf, buf', record { large = f; reads = g; table = h })
      ]
    ]
  ]

  formatted-ok :
      (ps : List (Option PartitionEntry)) (r : S × Result (Unit {0}))
      → r.1 ≡ ok tt
      → formatted d ps r ≡ (r.0, done (map to_partition ps))
  formatted-ok ps (s, ok u) e = refl
  formatted-ok ps (s, err x) e = ground arith

  format-eq :
      (ps : List (Option PartitionEntry)) (s : S) (buf buf' : List ℕ)
      → Formatted ps s buf buf'
      → (d.write_block 0 buf' s).1 ≡ ok tt
      → format d ps s ≡ ((d.write_block 0 buf' s).0, done (map to_partition ps))
  unfolding format
  format-eq ps s buf buf' f w =
      rw (f.large, f.reads, f.table) (formatted-ok ps (d.write_block 0 buf' s) w)

  mount-eq :
      (s s' : S) (buf' : List ℕ)
      → ltb (d.block_size s) 512 ≡ false
      → d.block_size s' ≡ d.block_size s
      → d.read_block 0 (replicate (d.block_size s) 0) s' ≡ ok buf'
      → mount d s' ≡ done (read_table partition_entry_count 0 (d.block_count s') buf')
  unfolding mount
  mount-eq s s' buf' f z e = rw (z, f, e)

  -- On a lawful device with at least one block, if format answers with a result for four entries
  -- whose bounds are of the type u32 and whose partitions begin on the device, then mounting the
  -- device that format leaves answers the same result, and it is the partitions of the entries.
  pub mount-format :
      (ps : List (Option PartitionEntry)) (s : S) (result : List (Option Partition))
      → IsValid s
      → 0 < d.block_count s
      → length ps ≡ partition_entry_count
      → All InRange ps
      → All (Begins (d.block_count s)) ps
      → (format d ps s).1 ≡ done result
      → (mount d (format d ps s).0 ≡ done result) × (result ≡ map to_partition ps)
  mount-format ps s result v n four r b e =
      let (buf, buf', f) = format-Formatted ps s result e in
      let zeros = length-replicate {A = ℕ} (d.block_size s) 0 in
      let len = l.length-read 0 (replicate (d.block_size s) 0) s f.reads ∙ zeros in
      let t =
        write_table-Written 0 (d.block_count s) ps buf buf'
          (omega (arith, len, four, ltb→le (d.block_size s) 512 f.large)) f.table in
      let full = t.sized ∙ len in
      let w = format-eq ps s buf buf' f (l.write_ok 0 buf' s v n full) in
      let same =
        done-injective (sym e ∙ ap (λ (p : S × Outcome (List (Option Partition))). p.1) w) in
      let back =
        subst (λ k. read_table k 0 (d.block_count s) buf' ≡ map to_partition ps) four (t.own r b) in
      (
        rw (w, same)
            (mount-eq s (d.write_block 0 buf' s).0 buf' f.large (l.size-write 0 buf' s)
                (l.read-write_self 0 buf' (replicate (d.block_size s) 0) s v n full zeros)
              ∙ rw (l.count-write 0 buf' s) (ap done back)),
        same,
      )
