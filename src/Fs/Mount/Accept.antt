-- ===== src/Fs/Mount/Accept.antt =====
-- What `mount` makes of a boot record that passes its checks.
use native.Mathlib.Nat.{mul_assoc, mod-eq_of_lt, mul-div_cancel, div-mul-le_self, div-le_self}
use cos_rs.Base.{
  ℕ, zero, suc, ◌+◌, ◌-◌, ◌*◌, ◌/◌, ◌%◌, ◌^◌, ◌≤◌, ◌<◌, ◌≡◌, min, refl, sym, ap, ap₂, ◌∙◌, ltb, leb,
  ◌==◌, not, ◌&&◌, ◌||◌, if◌then◌else◌, arith, ltb→le, Bool, true, false, Option, some, none, List,
  Bool-cases, inl, inr, ltb→lt, replicate, subst,
}
use cos_rs.Disk.Block.{BlockDevice, Result, ok, err}
use cos_rs.Fs.Types.{Bpb, FsInfo, Fat32}
use cos_rs.Fs.Table.Sound.{HasTables, IsSound}
use cos_rs.Fs.Mount.{
  largest_power, is_power_of_two, check_bpb, sub_u64, max_cluster_of, boot_sector_signature,
  mount_info, mount, mounted, MountAnswer, mount_with, bpb_of, fs_info_of, check_fs_info,
  after_read, io_error, invalid_format,
}

-- The checks that the layout rests on.
record Accepted (b : Bpb) (block_size block_count : ℕ) : Type 0 where
  sector_low : 512 ≤ b.bytes_per_sector
  sector_fits : b.bytes_per_sector ≤ block_size
  power : largest_power 63 1 b.bytes_per_sector ≡ b.bytes_per_sector
  cluster_sectors : 0 < b.sectors_per_cluster
  some_reserved : 0 < b.reserved_sector_count
  some_table : 0 < b.fat_size_32

if_false : (t r : Bool) → (if t then false else r) ≡ true → (t ≡ false) × (r ≡ true)
if_false true r h = ground arith
if_false false r h = (refl, h)

two_false : (s t : Bool) → (s || t) ≡ false → (s ≡ false) × (t ≡ false)
two_false s t h = ground arith

three_false : (r s t : Bool) → (r || s || not t) ≡ false → (r ≡ false) × (s ≡ false) × (t ≡ true)
three_false r s t h = ground arith

above_zero : (n : ℕ) → (n == 0) ≡ false → 0 < n
above_zero n h = ground arith

power_lem : (n : ℕ) → is_power_of_two n ≡ true → largest_power 63 1 n ≡ n
unfolding is_power_of_two
power_lem n h = ground arith

accepted :
    (b : Bpb) (block_size block_count : ℕ)
    → check_bpb b block_size block_count ≡ true
    → Accepted b block_size block_count
unfolding check_bpb
accepted b block_size block_count h =
    let r8 =
      if ltb b.root_cluster 2
      then false
      else if not (b.boot_signature == 0x28) && not (b.boot_signature == 0x29)
      then false
      else b.boot_sector_signature == boot_sector_signature in
    let r7 = if b.fat_size_32 == 0 then false else r8 in
    let total =
      if b.total_sectors_16 == 0
      then b.total_sectors_32 == block_count
      else b.total_sectors_16 == block_count && b.total_sectors_32 == 0 in
    let r6 = if not total then false else r7 in
    let r5 = if not (b.fat_size_16 == 0) then false else r6 in
    let r4 = if not (b.root_entry_count == 0) then false else r5 in
    let r3 = if b.num_fats == 0 then false else r4 in
    let no_reserved = b.reserved_sector_count == 0 || ltb block_count b.reserved_sector_count in
    let r2 = if no_reserved then false else r3 in
    let no_cluster = b.sectors_per_cluster == 0 || not (is_power_of_two b.sectors_per_cluster) in
    let r1 = if no_cluster then false else r2 in
    let no_sector =
      ltb b.bytes_per_sector 512
      || ltb block_size b.bytes_per_sector
      || not (is_power_of_two b.bytes_per_sector) in
    let (sector, h1) = if_false no_sector r1 h in
    let (cluster, h2) = if_false no_cluster r2 h1 in
    let (reserved, h3) = if_false no_reserved r3 h2 in
    let h4 = (if_false (b.num_fats == 0) r4 h3).1 in
    let h5 = (if_false (not (b.root_entry_count == 0)) r5 h4).1 in
    let h6 = (if_false (not (b.fat_size_16 == 0)) r6 h5).1 in
    let h7 = (if_false (not total) r7 h6).1 in
    let no_table = (if_false (b.fat_size_32 == 0) r8 h7).0 in
    let (low, fits, power) = three_false _ _ _ sector in
    let (some_sectors, power_of_cluster) = two_false (b.sectors_per_cluster == 0) _ cluster in
    let (some_reserved, reserved_fits) = two_false (b.reserved_sector_count == 0) _ reserved in
    record {
      sector_low = ltb→le b.bytes_per_sector 512 low;
      sector_fits = ltb→le block_size b.bytes_per_sector fits;
      power = power_lem b.bytes_per_sector power;
      cluster_sectors = above_zero b.sectors_per_cluster some_sectors;
      some_reserved = above_zero b.reserved_sector_count some_reserved;
      some_table = above_zero b.fat_size_32 no_table;
    }

four_divides : (rounds p n : ℕ) → p % 4 ≡ 0 → largest_power rounds p n % 4 ≡ 0
unfolding largest_power
four_divides zero p n h = h
four_divides (suc rounds) p n h = ground (arith, four_divides rounds (2 * p) n (omega arith))

-- A power of two that is large enough is whole entries.
sector_entries : (n : ℕ) → 512 ≤ n → largest_power 63 1 n ≡ n → n % 4 ≡ 0
unfolding largest_power
sector_entries n h e =
    let two : leb 2 n ≡ true = ground arith in
    let four : leb 4 n ≡ true = ground arith in
    let start : largest_power 63 1 n ≡ largest_power 61 4 n = rw (two, four) refl in
    ap (λ k. k % 4) (sym e ∙ start) ∙ four_divides 61 4 n refl

fat_entries : (fat n : ℕ) → n % 4 ≡ 0 → fat * n / 4 ≡ fat * (n / 4)
fat_entries fat n h =
    let q = n / 4 in
    let whole : fat * n ≡ fat * q * 4 = ap (◌*◌ fat) (omega arith) ∙ sym (mul_assoc fat q 4) in
    ap (λ k. k / 4) whole ∙ mul-div_cancel (fat * q) (omega arith)

small_sub : (a b : ℕ) → b ≤ a → a < 2 ^ 64 → sub_u64 a b ≡ a - b
small_sub a b h k = omega arith

twice_le : (fat c : ℕ) → 128 ≤ c → 0 < fat → 128 ≤ fat * c
twice_le fat c h k = grind arith

quotient_le : (n k : ℕ) → n / k ≤ n
quotient_le n k = div-le_self n k

limit_le : (m n k : ℕ) → m ≤ n → m * k ≤ n * k
limit_le m n k h = grind arith

-- If check_bpb accepts a boot record for a device of fewer than 2^32 blocks, and it has two
-- tables that fit the device, then the tables have room for the clusters that mount counts, and
-- the clusters end within the device.
pub mount-HasTables :
    (b : Bpb) (block_size block_count : ℕ)
    → check_bpb b block_size block_count ≡ true
    → block_count < 2 ^ 32
    → b.num_fats ≡ 2
    → b.reserved_sector_count + b.fat_size_32 * 2 ≤ block_count
    → HasTables b (max_cluster_of b block_count) block_size block_count
      × (b.reserved_sector_count
            + b.fat_size_32 * 2
            + max_cluster_of b block_count * b.sectors_per_cluster
          ≤ block_count)
unfolding max_cluster_of
mount-HasTables b block_size block_count check word two room =
    let a = accepted b block_size block_count check in
    let fat = b.fat_size_32 in
    let spc = b.sectors_per_cluster in
    let free = block_count - b.reserved_sector_count - fat * 2 in
    let tables : sub_u64 (sub_u64 block_count b.reserved_sector_count) (fat * b.num_fats) ≡ free =
      ap (λ n. sub_u64 (sub_u64 block_count b.reserved_sector_count) (fat * n)) two
      ∙ ap (λ x. sub_u64 x (fat * 2))
          (small_sub block_count b.reserved_sector_count (omega arith) (omega arith))
      ∙ small_sub (block_count - b.reserved_sector_count) (fat * 2) (omega arith) (omega arith) in
    let entries =
      fat_entries fat b.bytes_per_sector (sector_entries b.bytes_per_sector a.sector_low a.power) in
    let device = div-mul-le_self free spc in
    let q = free / spc in
    let most : q ≤ free = omega (arith, quotient_le free spc) in
    let limit = min (fat * (b.bytes_per_sector / 4) - 2) q in
    let value : min (fat * b.bytes_per_sector / 4 - 2)
            (sub_u64 (sub_u64 block_count b.reserved_sector_count) (fat * b.num_fats) / spc)
          % 2 ^ 32
        ≡ limit =
      ap₂ (λ x y. min (x - 2) (y / spc) % 2 ^ 32) entries tables ∙ mod-eq_of_lt (omega arith) in
    let enough = twice_le fat (b.bytes_per_sector / 4) (omega (arith, a.sector_low)) a.some_table in
    let clusters = limit_le limit q spc (omega arith) in
    (
      record {
        sector_fits = a.sector_fits;
        sector_entry = omega (arith, a.sector_low);
        room = rw value (omega arith);
        word = rw value (omega (arith, a.some_reserved, a.some_table));
        copies = omega arith;
        inside = rw two (omega arith);
      },
      rw value (omega arith),
    )

module _ {S : Type 0} (d : BlockDevice S) where
  abbrev value_of : Fat32 S → MountAnswer (Fat32 S) → Fat32 S
  value_of g (mounted f) = f
  value_of g (io_error e) = g
  value_of g invalid_format = g

  not_refused :
      (t : Bool) (r : MountAnswer (Fat32 S)) (f : Fat32 S)
      → (if t then invalid_format else r) ≡ mounted f
      → r ≡ mounted f
  not_refused true r f e = absurd (ground arith)
  not_refused false r f e = e

  passed :
      (t : Bool) (r : MountAnswer (Fat32 S)) (f : Fat32 S)
      → (if t then r else invalid_format) ≡ mounted f
      → (t ≡ true) × (r ≡ mounted f)
  passed true r f e = (refl, e)
  passed false r f e = absurd (ground arith)

  was_read :
      (r : Result (List ℕ)) (k : List ℕ → MountAnswer (Fat32 S)) (f : Fat32 S)
      → after_read d r k ≡ mounted f
      → (block : List ℕ) × (k block ≡ mounted f)
  was_read (ok block) k f e = (block, e)
  was_read (err x) k f e = absurd (ground arith)

  -- A mounted file system has an FSInfo only in a reserved sector.
  mount_info-reserved :
      (s : S) (b : Bpb) (f : Fat32 S)
      → mount_info d s b ≡ mounted f
      → (o : Option FsInfo) × (mount_with d s b o ≡ f)
        × ((i : FsInfo) → o ≡ some i → b.fs_info < b.reserved_sector_count)
  unfolding mount_info
  mount_info-reserved s b f e = elim (Bool-cases (ltb b.fs_info b.reserved_sector_count)) [
    | inl kept ↦
        let block = d.read_block b.fs_info (replicate (d.block_size s) 0) s in
        let next : List ℕ → MountAnswer (Fat32 S) = λ buffer.
          if check_fs_info (fs_info_of buffer)
          then mounted (mount_with d s b (some (fs_info_of buffer)))
          else invalid_format in
        let start : mount_info d s b ≡ after_read d block next = rw kept refl in
        let r = was_read block next f (sym start ∙ e) in
        let info = fs_info_of r.0 in
        let p = passed (check_fs_info info) (mounted (mount_with d s b (some info))) f r.1 in
        (some info, ap (value_of f) p.1, (λ i q. ltb→lt b.fs_info b.reserved_sector_count kept))
    | inr lost ↦
        let start : mount_info d s b ≡ mounted (mount_with d s b none) = rw lost refl in
        (none, ap (value_of f) (sym start ∙ e), (λ i q. absurd (ground arith)))
  ]

  -- If mount of a valid device of fewer than 2^32 blocks gives a file system, with two tables that
  -- fit the device, then the file system keeps the laws of its tables.
  pub mount-IsSound :
      (IsValid : S → Type 0) (s : S) (f : Fat32 S)
      → IsValid s
      → mount d s ≡ mounted f
      → d.block_count s < 2 ^ 32
      → f.bpb.num_fats ≡ 2
      → f.bpb.reserved_sector_count + f.bpb.fat_size_32 * 2 ≤ d.block_count s
      → IsSound d IsValid f
  unfolding mount
  mount-IsSound IsValid s f valid e word two room =
      let e1 = not_refused (ltb (d.block_size s) 512) _ f e in
      let e2 = not_refused (ltb (d.block_count s) 2) _ f e1 in
      let next : List ℕ → MountAnswer (Fat32 S) = λ buffer.
        let b = bpb_of buffer in
        if check_bpb b (d.block_size s) (d.block_count s)
        then mount_info d s b
        else invalid_format in
      let r = was_read (d.read_block 0 (replicate (d.block_size s) 0) s) next f e2 in
      let b = bpb_of r.0 in
      let p = passed (check_bpb b (d.block_size s) (d.block_count s)) (mount_info d s b) f r.1 in
      let m = mount_info-reserved s b f p.1 in
      let same : b ≡ f.bpb = ap (λ g. g.bpb) m.1 in
      let two_here : b.num_fats ≡ 2 = ap (λ c. c.num_fats) same ∙ two in
      let room_here : b.reserved_sector_count + b.fat_size_32 * 2 ≤ d.block_count s =
        subst (λ c. c.reserved_sector_count + c.fat_size_32 * 2 ≤ d.block_count s) (sym same)
          room in
      let t = mount-HasTables b (d.block_size s) (d.block_count s) p.0 word two_here room_here in
      subst (IsSound d IsValid) m.1 (record { valid = valid; tables = t.0; info_reserved = m.2 })
