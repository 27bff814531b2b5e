-- ===== src/Fs/System/ReadSectors.antt =====
-- The inner loop of `read`: the bytes of the sectors of one cluster.
use cos_rs.Base.{
  ℕ, zero, suc, ◌+◌, ◌-◌, ◌*◌, ◌≤◌, ◌<◌, ◌≡◌, ◌⊎◌, refl, sym, ap, ap₂, ◌∙◌, List, [], ◌++◌, length,
  slice, splice, splice-nil, splice-append, slice-slice, length-slice, length-append,
  slice-append_left, slice-append_right, slice-append_across, ltb, ltb→lt, ltb→le, ◌==◌, true,
  Bool-cases, inl, inr, arith, length-splice, not, ◌&&◌,
}
use cos_rs.Fs.Types.{done}
use cos_rs.Fs.System.Transfer.{Copying, advance, copy_length, copy_fits, is_aligned, read_sectors}

-- What the sectors from `i` hold: the first bytes of each block of the buffer.
unfoldable pub sector_bytes : ℕ → ℕ → ℕ → ℕ → List ℕ → List ℕ
sector_bytes zero i bps size buffer = []
sector_bytes (suc rounds) i bps size buffer =
    slice (i * size) bps buffer ++ sector_bytes rounds (suc i) bps size buffer

-- What a loop over `content` comes to: the bytes that stand in it, as many as remain.
pub record Copied (c c' : Copying) (content : List ℕ) (n : ℕ) : Type 0 where
  pub buf : c'.buf ≡ splice c.copied (slice (c.pointer - c.offset) n content) c.buf
  pub pointer : c'.pointer ≡ c.pointer + n
  pub copied : c'.copied ≡ c.copied + n
  pub remain : c'.remain + n ≡ c.remain
  pub fits : c.pointer - c.offset + n ≤ length content
  pub whole : (c'.remain ≡ 0) ⊎ ((c'.offset ≡ c'.pointer) × (c'.offset ≡ c.offset + length content))

block_fits :
    (i rounds size bps len : ℕ) → (i + suc rounds) * size ≤ len → bps ≤ size → i * size + bps ≤ len
block_fits i rounds size bps len h k =
    let step : i * size + size ≤ (i + suc rounds) * size = grind arith in omega arith

-- A part, and then what is behind it.
pub Copied-append :
    (c c1 c' : Copying) (front content : List ℕ) (n1 n2 : ℕ)
    → c.offset ≤ c.pointer
    → c.pointer - c.offset + n1 ≡ length front
    → c1.buf ≡ splice c.copied (slice (c.pointer - c.offset) n1 front) c.buf
    → c1.pointer ≡ c.pointer + n1
    → c1.copied ≡ c.copied + n1
    → c1.remain + n1 ≡ c.remain
    → c1.offset ≡ c1.pointer
    → c1.offset ≡ c.offset + length front
    → Copied c1 c' content n2
    → Copied c c' (front ++ content) (n1 + n2)
Copied-append c c1 c' front content n1 n2 low fill eb ep ec er eo ef k =
    let start = c.pointer - c.offset in
    let part = slice start n1 front in
    let size : length part ≡ n1 = length-slice start n1 front (omega arith) in
    let none_before : c1.pointer - c1.offset ≡ 0 = omega arith in
    let at : c1.copied ≡ c.copied + length part = omega arith in
    record {
      buf =
          k.buf
          ∙ ap₂ (λ o s. splice o (slice s n2 content) c1.buf) at none_before
          ∙ ap (splice (c.copied + length part) (slice 0 n2 content)) eb
          ∙ splice-append c.copied part (slice 0 n2 content) c.buf
          ∙ ap (λ u. splice c.copied u c.buf)
              (sym (slice-append_across start n1 n2 front content fill));
      pointer = omega (arith, k.pointer);
      copied = omega (arith, k.copied);
      remain = omega (arith, k.remain);
      fits = omega (arith, k.fits, length-append front content);
      whole = elim k.whole [
        | inl e ↦ inl e
        | inr (e, o) ↦ inr (e, omega (arith, length-append front content))
      ];
    }

-- Content that is skipped.
pub Copied-skip :
    (c c' : Copying) (front content : List ℕ) (bps n : ℕ)
    → length front ≡ bps
    → c.offset + bps < c.pointer
    → Copied (record c { offset = c.offset + bps }) c' content n
    → Copied c c' (front ++ content) n
Copied-skip c c' front content bps n size less k =
    let back : c.pointer - c.offset - length front ≡ c.pointer - (c.offset + bps) = omega arith in
    record {
      buf =
          k.buf
          ∙ ap (λ u. splice c.copied u c.buf)
              (ap (λ o. slice o n content) (sym back)
                ∙ sym (slice-append_right (c.pointer - c.offset) n front content (omega arith)));
      pointer = k.pointer;
      copied = k.copied;
      remain = k.remain;
      fits = omega (arith, k.fits, length-append front content);
      whole = elim k.whole [
        | inl e ↦ inl e
        | inr (e, o) ↦ inr (e, omega (arith, length-append front content))
      ];
    }

-- All that remains stands in the first sector.
Copied-last :
    (c : Copying) (front content part : List ℕ) (bps n : ℕ)
    → part ≡ slice (c.pointer - c.offset) n front
    → c.pointer - c.offset + n ≤ length front
    → c.remain ≡ n
    → Copied c (advance bps n (record c { buf = splice c.copied part c.buf })) (front ++ content) n
Copied-last c front content part bps n same fill all = record {
  buf =
      ap (λ u. splice c.copied u c.buf)
        (same ∙ sym (slice-append_left (c.pointer - c.offset) n front content fill));
  pointer = refl;
  copied = refl;
  remain = omega arith;
  fits = omega (arith, length-append front content);
  whole = inl (omega arith);
}

-- All that remains stands in the content in front.
pub Copied-widen :
    (c c' : Copying) (front content : List ℕ) (n : ℕ)
    → Copied c c' front n
    → c'.remain ≡ 0
    → Copied c c' (front ++ content) n
Copied-widen c c' front content n k none_left = record {
  buf =
      k.buf
      ∙ ap (λ u. splice c.copied u c.buf)
          (sym (slice-append_left (c.pointer - c.offset) n front content k.fits));
  pointer = k.pointer;
  copied = k.copied;
  remain = k.remain;
  fits = omega (arith, k.fits, length-append front content);
  whole = inl none_left;
}

pub length-sector_bytes :
    (rounds i bps size : ℕ) (buffer : List ℕ)
    → (i + rounds) * size ≤ length buffer
    → bps ≤ size
    → length (sector_bytes rounds i bps size buffer) ≡ rounds * bps
unfolding sector_bytes
length-sector_bytes zero i bps size buffer fits narrow = omega arith
length-sector_bytes (suc rounds) i bps size buffer fits narrow =
    let inside = block_fits i rounds size bps (length buffer) fits narrow in
    let wide = length-slice (i * size) bps buffer inside in
    let more : suc rounds * bps ≡ bps + rounds * bps = grind arith in
    omega (
      arith,
      wide,
      length-append (slice (i * size) bps buffer) (sector_bytes rounds (suc i) bps size buffer),
      length-sector_bytes rounds (suc i) bps size buffer (omega arith) narrow,
    )

Copied-none : (c : Copying) → c.offset ≡ c.pointer → Copied c c [] 0
Copied-none c e =
    let here : c.pointer - c.offset ≡ 0 = omega arith in
    record {
      buf = sym (ap (λ s. splice c.copied (slice s 0 []) c.buf) here ∙ splice-nil c.copied c.buf);
      pointer = omega arith;
      copied = omega arith;
      remain = omega arith;
      fits = omega arith;
      whole = inr (e, omega arith);
    }

pub both_fit : (a b x y : ℕ) → b ≤ a → y ≤ x → not (ltb a b) && not (ltb x y) ≡ true
both_fit a b x y h k = ground arith

pub read_sectors_lem :
    (rounds i bps size : ℕ) (buffer : List ℕ) (c : Copying)
    → c.offset ≤ c.pointer
    → c.pointer ≤ c.offset + rounds * bps
    → 0 < c.remain
    → c.copied + c.remain ≤ length c.buf
    → (i + rounds) * size ≤ length buffer
    → bps ≤ size
    → (n : ℕ) × (c' : Copying) × (read_sectors rounds i bps size buffer c ≡ done c')
      × Copied c c' (sector_bytes rounds i bps size buffer) n
unfolding read_sectors sector_bytes
read_sectors_lem zero i bps size buffer c low high some_left room fits narrow =
    (0, c, refl, Copied-none c (omega arith))
read_sectors_lem (suc rounds) i bps size buffer c low high some_left room fits narrow =
    let front = slice (i * size) bps buffer in
    let content = sector_bytes rounds (suc i) bps size buffer in
    let inside = block_fits i rounds size bps (length buffer) fits narrow in
    let wide = length-slice (i * size) bps buffer inside in
    let step : (suc i + rounds) * size ≤ length buffer = omega arith in
    let more : suc rounds * bps ≡ bps + rounds * bps = grind arith in
    elim (Bool-cases (ltb (c.offset + bps) c.pointer)) [
      | inl t ↦
          let less = ltb→lt (c.offset + bps) c.pointer t in
          let c1 : Copying = record c { offset = c.offset + bps } in
          let r =
            read_sectors_lem rounds (suc i) bps size buffer c1 (omega arith) (omega arith) some_left
              room step narrow in
          (
            r.0,
            r.1,
            rw (read_sectors, t) r.2,
            Copied-skip c r.1 front content bps r.0 wide less r.3,
          )
      | inr t ↦
          let near = ltb→le (c.offset + bps) c.pointer t in
          let start = c.pointer - c.offset in
          let n1 = copy_length bps c in
          let part = slice (i * size + start) n1 buffer in
          let same : part ≡ slice start n1 front =
            sym (slice-slice start n1 (i * size) bps buffer (omega arith)) in
          let c1 : Copying = advance bps n1 (record c { buf = splice c.copied part c.buf }) in
          let ok_copy : copy_fits bps (i * size) (length buffer) c ≡ true =
            both_fit (length buffer) (i * size + start + n1) (length c.buf) (c.copied + n1)
              (omega arith) (omega arith) in
          elim (Bool-cases (c1.remain == 0)) [
            | inl z ↦ (
              n1,
              c1,
              rw (read_sectors, t, ok_copy, z) refl,
              Copied-last c front content part bps n1 same (omega arith) (ground arith),
            )
            | inr z ↦
                let all : n1 ≡ bps - start = ground arith in
                let aligned : is_aligned c1 ≡ true = ground arith in
                let r =
                  read_sectors_lem rounds (suc i) bps size buffer c1 (omega arith) (omega arith)
                    (ground arith) (omega (arith, length-splice c.copied part c.buf)) step narrow in
                (
                  n1 + r.0,
                  r.1,
                  rw (read_sectors, t, ok_copy, z, aligned) r.2,
                  Copied-append c c1 r.1 front content n1 r.0 low (omega arith)
                      (ap (λ u. splice c.copied u c.buf) same) refl refl (omega arith) (omega arith)
                      (omega arith) r.3,
                )
          ]
    ]
