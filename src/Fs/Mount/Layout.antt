-- ===== src/Fs/Mount/Layout.antt =====
-- How `calc_cluster_count` and `with_format` share out a device, and what `mount` accepts.
use native.Mathlib.Nat.{div-add-mod, mod-lt, div-lt_iff_lt-mul, mul_comm}
use cos_rs.Base.{
  ◌⊎◌, ltb→lt, ℕ, ◌+◌, ◌-◌, ◌*◌, ◌/◌, ◌≤◌, ◌<◌, ◌≡◌, refl, ap, ltb, Bool-cases, inl, inr, arith,
}
use cos_rs.Fs.Mount.{share_remain, calc_cluster_count, fat_sectors}

-- The rest is shared out without loss.
share_remain_lem :
    (spc r : ℕ)
    → 0 < spc
    → (((share_remain spc r).0 ≡ 0) × ((share_remain spc r).1 ≡ r))
      ⊎ (r ≡ 2 + (share_remain spc r).0 * spc + (share_remain spc r).1)
unfolding share_remain
share_remain_lem spc r h = elim (Bool-cases (ltb 2 r)) [
  | inl e ↦
      let back = div-add-mod (r - 2) spc in
      let turn = mul_comm spc ((r - 2) / spc) in
      rw e (inr (omega (arith, back, turn, ltb→lt 2 r e)))
  | inr e ↦ rw e (inl (refl, refl))
]

group_product : (g c s : ℕ) → (2 + c * s) * g ≡ 2 * g + g * c * s
group_product g c s = grind arith

spread : (a b s : ℕ) → (a + b) * s ≡ a * s + b * s
spread a b s = grind arith

fewer : (a c s : ℕ) → a * s < c * s → a < c
fewer a c s h = grind arith

-- A table sector for each of `n` sectors' worth of entries.
sectors_le : (total c n : ℕ) → 0 < c → total ≤ n * c → (total + c - 1) / c ≤ n
sectors_le total c n p h =
    let more = spread n 1 c in
    let small = (div-lt_iff_lt-mul {k = c} {x = total + c - 1} {y = n + 1} p).1 (omega arith) in
    omega arith

shared :
    (reserved count c s g r rc rb total : ℕ)
    → 0 < c
    → 0 < s
    → reserved ≤ count
    → count - reserved + s * 2 ≡ (2 + c * s) * g + r
    → r < 2 + c * s
    → total + 2 ≡ g * c + rc
    → ((rc ≡ 0) × (rb ≡ r)) ⊎ (r ≡ 2 + rc * s + rb)
    → reserved + 2 * ((total + c - 1) / c) + total * s + rb ≤ count
shared reserved count c s g r rc rb total pc ps h v less t (inl (none_left, same)) =
    let products = group_product g c s in
    let cut : (total + 2) * s ≡ g * c * s = ap (λ x. x * s) (omega arith) in
    let f = sectors_le total c g pc (omega arith) in omega (arith, spread total 2 s)
shared reserved count c s g r rc rb total pc ps h v less t (inr rest) =
    let products = group_product g c s in
    let cut : (total + 2) * s ≡ (g * c + rc) * s = ap (λ x. x * s) t in
    let few = fewer rc c s (omega arith) in
    let f = sectors_le total c (g + 1) pc (omega (arith, spread g 1 c)) in
    omega (arith, spread total 2 s, spread (g * c) rc s)

-- For positive sectors per cluster, at least 4 bytes per sector and no more reserved than there
-- are blocks, if calc_cluster_count gives at least two clusters, then the reserved sectors, two
-- tables of the size that with_format gives them, all clusters and the sectors left over fit in
-- the device.
pub calc_cluster_count-accounts :
    (reserved bytes spc count : ℕ)
    → 0 < spc
    → 4 ≤ bytes
    → reserved ≤ count
    → 2 ≤ (calc_cluster_count reserved bytes spc count).0
    → reserved
        + 2 * fat_sectors bytes (calc_cluster_count reserved bytes spc count).0
        + (calc_cluster_count reserved bytes spc count).0 * spc
        + (calc_cluster_count reserved bytes spc count).1
      ≤ count
unfolding calc_cluster_count fat_sectors
calc_cluster_count-accounts reserved bytes spc count p q h two =
    let c = bytes / 4 in
    let v = count - reserved + spc * 2 in
    let size = 2 + c * spc in
    let r = v - size * (v / size) in
    let whole = div-add-mod v size in
    shared reserved count c spc (v / size) r (share_remain spc r).0 (share_remain spc r).1
      (v / size * c + (share_remain spc r).0 - 2) (omega arith) p h (omega arith)
      (omega (arith, mod-lt v {m = size} (omega arith))) (omega arith) (share_remain_lem spc r p)

-- For every positive number of groups, on a device of 1026 blocks of 512 bytes per group less 4,
-- the table that with_format lays out has fewer entries than its clusters and the two reserved
-- numbers need.
pub with_format-too_small :
    (groups : ℕ)
    → 1 ≤ groups
    → fat_sectors 512 (calc_cluster_count 2 512 8 (1026 * groups - 4)).0 * (512 / 4)
      < (calc_cluster_count 2 512 8 (1026 * groups - 4)).0 + 2
unfolding fat_sectors calc_cluster_count share_remain
with_format-too_small groups h =
    let v = 1026 * groups - 4 - 2 + 8 * 2 in
    let whole : v / (2 + 512 / 4 * 8) ≡ groups = omega arith in
    let left : v - (2 + 512 / 4 * 8) * (v / (2 + 512 / 4 * 8)) ≡ 10 = omega arith in
    rw (left, whole) (omega arith)
