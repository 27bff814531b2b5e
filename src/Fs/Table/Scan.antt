-- ===== src/Fs/Table/Scan.antt =====
-- One pass of the search of `find_available_cluster` over the table.
use cos_rs.Base.{
  ℕ, zero, suc, ◌+◌, ◌≤◌, ◌<◌, ◌≡◌, ◌⊎◌, refl, sym, ap, ◌∙◌, subst, Option, none, some, List,
  length, leb, ◌==◌, Bool-cases, false, inl, inr, arith,
}
use cos_rs.Disk.Block.{BlockDevice, IsLawful, ok}
use cos_rs.Fs.Types.{Fat32, Outcome, done, bind_outcome, fat_entry_free, fat_entry_eoc_start}
use cos_rs.Fs.Table.{block_index, offset_in, entry_in, get_next_cluster, cached, find_rounds}
use cos_rs.Fs.Table.Sound.{IsSound, IsEntry}
use cos_rs.Fs.Table.Update.{Sector, block_of, get_next_cluster-Sector}
use cos_rs.Fs.Table.Count.{Changed, claim_lem}

module _ {S : Type 0} (d : BlockDevice S) where
  unfoldable pub IsFree : Fat32 S → ℕ → Type 0
  IsFree f cluster = (get_next_cluster d cluster f).1 ≡ done fat_entry_free

  -- None of the `n` clusters from a number on is free.
  abbrev pub AllUsed : Fat32 S → ℕ → ℕ → Type 0
  AllUsed f from zero = Unit {0}
  AllUsed f from (suc n) = (IsFree f from → ⊥) × AllUsed f (suc from) n

  pub AllUsed-get :
      (f : Fat32 S) (from n cluster : ℕ)
      → AllUsed f from n
      → from ≤ cluster
      → cluster < from + n
      → IsFree f cluster
      → ⊥
  AllUsed-get f from zero cluster u low high = absurd (omega arith)
  AllUsed-get f from (suc n) cluster u low high = elim (Bool-cases (from == cluster)) [
    | inl e ↦ subst (λ c. IsFree f c → ⊥) (ground arith) u.0
    | inr e ↦ AllUsed-get f (suc from) n cluster u.1 (ground arith) (omega arith)
  ]

module _ {S : Type 0} (d : BlockDevice S) (IsValid : S → Type 0) (l : IsLawful d IsValid) where
  -- What the search found: a free cluster in a range, marked as the end of a chain.
  pub record Found (f g : Fat32 S) (low high cluster : ℕ) : Type 0 where
    pub from_low : low ≤ cluster
    pub below_high : cluster < high
    pub was_free : IsFree d f cluster
    pub taken : Changed d IsValid l f g cluster fat_entry_eoc_start

  -- The cached sector is the one on the disk.
  pub record Cached (f : Fat32 S) (at : Option ℕ) (cache : List ℕ) : Type 0 where
    pub length_ok : length cache ≡ d.block_size f.store
    pub read_ok :
        (b : ℕ)
        → at ≡ some b
        → (old : List ℕ) → length old ≡ d.block_size f.store
        → d.read_block b old f.store ≡ ok cache

  pub cached_lem :
      (f : Fat32 S) (cluster : ℕ) (at : Option ℕ) (cache : List ℕ)
      → IsSound d IsValid f
      → IsEntry d IsValid f cluster
      → Cached f at cache
      → (sector : List ℕ) × (cached d (block_index f.bpb cluster) at cache f ≡ (f, done sector))
        × Sector d IsValid l f cluster sector
  cached_lem f cluster none cache h c k =
      let b = block_of d IsValid l f cluster h c in
      (b.0, rw (b.1.read_ok cache k.length_ok) refl, b.1)
  cached_lem f cluster (some last) cache h c k =
      elim (Bool-cases (block_index f.bpb cluster == last)) [
        | inl e ↦ (
          cache,
          rw e refl,
          record {
            length_ok = k.length_ok;
            read_ok = λ old eo. k.read_ok (block_index f.bpb cluster) (ground arith) old eo;
          },
        )
        | inr e ↦
            let b = block_of d IsValid l f cluster h c in
            (b.0, rw (e, b.1.read_ok cache k.length_ok) refl, b.1)
      ]

  Cached-Sector :
      (f : Fat32 S) (cluster : ℕ) (sector : List ℕ)
      → Sector d IsValid l f cluster sector
      → Cached f (some (block_index f.bpb cluster)) sector
  Cached-Sector f cluster sector r = record {
    length_ok = r.length_ok;
    read_ok = λ b e old eo.
        subst (λ x. d.read_block x old f.store ≡ ok sector) (ground arith) (r.read_ok old eo);
  }

  -- One round at a cluster of the table.
  pub round_lem :
      (fuel : ℕ) (hint : Option ℕ) (current end : ℕ) (at : Option ℕ) (cache : List ℕ) (f : Fat32 S)
      → IsSound d IsValid f
      → IsEntry d IsValid f current
      → current < end
      → Cached f at cache
      → (sector : List ℕ) × Cached f (some (block_index f.bpb current)) sector
        × (((g : Fat32 S) × (find_rounds d (suc fuel) hint current end at cache f
                ≡ (g, done current))
              × Found f g current end current)
            ⊎ ((IsFree d f current → ⊥)
                × (find_rounds d (suc fuel) hint current end at cache f
                    ≡ find_rounds d fuel hint
                        (suc current)
                        end
                        (some (block_index f.bpb current))
                        sector
                        f)))
  unfolding find_rounds IsFree
  round_lem fuel hint current end at cache f h c less k =
      let s = cached_lem f current at cache h c k in
      let inside : leb end current ≡ false = ground arith in
      let entry = get_next_cluster-Sector d IsValid l f current s.0 s.2 in
      (
        s.0,
        Cached-Sector f current s.0 s.2,
        elim (Bool-cases (entry_in s.0 (offset_in f.bpb current) == fat_entry_free)) [
          | inl e ↦
              let t = claim_lem d IsValid l f current s.0 h c s.2 in
              inl (
                t.0,
                rw (find_rounds, inside, s.1) (rw (bind_outcome, e) t.1),
                record {
                  from_low = omega arith;
                  below_high = less;
                  was_free = ap (λ x. x.1) entry ∙ ap done (ground arith);
                  taken = t.2;
                },
              )
          | inr e ↦ inr (
            λ free.
                let same : Outcome.done (entry_in s.0 (offset_in f.bpb current)) ≡ done 0 =
                  sym (ap (λ x. x.1) entry) ∙ free in
                ground arith,
            rw (find_rounds, inside, s.1) (rw (bind_outcome, e) refl),
          )
        ],
      )
