-- ===== src/Fs/Table/Find.antt =====
-- The search for a free cluster, `find_available_cluster`, from its start to its result.
use native.Mathlib.Nat.{mod-eq_of_lt}
use cos_rs.Base.{
  ℕ, zero, suc, ◌+◌, ◌-◌, ◌%◌, ◌^◌, ◌≤◌, ◌<◌, ◌≡◌, ◌≢◌, ◌⊎◌, refl, ap₂, ◌∙◌, Option, none, some,
  List, replicate, length-replicate, leb, ◌==◌, Bool-cases, true, false, inl, inr, arith,
}
use cos_rs.Disk.Block.{BlockDevice, IsLawful}
use cos_rs.Fs.Types.{FsInfo, Fat32, done, fail, out_of_fuel, disk_full}
use cos_rs.Fs.Table.{block_index, find_rounds, disk_is_full, find_available_cluster}
use cos_rs.Fs.Table.Sound.{IsSound}
use cos_rs.Fs.Table.Scan.{IsFree, AllUsed, AllUsed-get, Found, Cached, round_lem}

module _ {S : Type 0} (d : BlockDevice S) (IsValid : S → Type 0) (l : IsLawful d IsValid) where
  -- What `n` rounds from a cluster come to: a free cluster, or the end with `rest` rounds left.
  Pass : ℕ → ℕ → ℕ → Option ℕ → ℕ → ℕ → Option ℕ → List ℕ → Fat32 S → Type 0
  Pass n total rest hint current end at cache f =
      ((cluster : ℕ) × (g : Fat32 S) × (find_rounds d total hint current end at cache f
          ≡ (g, done cluster))
        × Found d IsValid l f g current end cluster)
      ⊎ (AllUsed d f current n
          × (at' : Option ℕ) × (cache' : List ℕ) × Cached d IsValid l f at' cache'
          × (find_rounds d total hint current end at cache f
              ≡ find_rounds d rest hint end end at' cache' f))

  Found-wider :
      (f g : Fat32 S) (low low' high high' cluster : ℕ)
      → low' ≤ low
      → high ≤ high'
      → Found d IsValid l f g low high cluster
      → Found d IsValid l f g low' high' cluster
  Found-wider f g low low' high high' cluster p q found = record {
    from_low = omega (arith, found.from_low);
    below_high = omega (arith, found.below_high);
    was_free = found.was_free;
    taken = found.taken;
  }

  Pass-suc :
      (n total rest : ℕ) (hint : Option ℕ) (current end : ℕ) (at : Option ℕ) (cache : List ℕ)
      (at' : Option ℕ) (sector : List ℕ) (f : Fat32 S)
      → (IsFree d f current → ⊥)
      → find_rounds d (suc total) hint current end at cache f
        ≡ find_rounds d total hint (suc current) end at' sector f
      → Pass n total rest hint (suc current) end at' sector f
      → Pass (suc n) (suc total) rest hint current end at cache f
  unfolding Pass
  Pass-suc n total rest hint current end at cache at' sector f used step (inl (c, g, e, found)) =
      inl (
        c,
        g,
        step ∙ e,
        Found-wider f g (suc current) current end end c (omega arith) (omega arith) found,
      )
  Pass-suc n total rest hint current end at cache at' sector f used step (inr (all, b, s, k, e)) =
      inr ((used, all), b, s, k, step ∙ e)

  scan :
      (n total rest : ℕ) (hint : Option ℕ) (current end : ℕ) (at : Option ℕ) (cache : List ℕ)
      (f : Fat32 S)
      → IsSound d IsValid f
      → end ≤ f.max_cluster + 2
      → current + n ≡ end
      → n + rest ≡ total
      → Cached d IsValid l f at cache
      → Pass n total rest hint current end at cache f
  unfolding Pass
  scan zero total rest hint current end at cache f h top stop enough k =
      let same : current ≡ end = omega arith in
      let left : total ≡ rest = omega arith in
      inr (tt, at, cache, k, ap₂ (λ t c. find_rounds d t hint c end at cache f) left same)
  scan (suc n) zero rest hint current end at cache f h top stop enough k = absurd (omega arith)
  scan (suc n) (suc total) rest hint current end at cache f h top stop enough k =
      let (sector, k', r) =
        round_lem d IsValid l total hint current end at cache f h (omega arith) (omega arith) k in
      elim r [
        | inl (g, e, found) ↦ inl (current, g, e, found)
        | inr (used, step) ↦
            Pass-suc n total rest hint current end at cache (some (block_index f.bpb current))
              sector f used step
              (scan n total rest hint (suc current) end (some (block_index f.bpb current)) sector f
                h top (omega arith) (omega arith) k')
      ]

  fresh : (f : Fat32 S) → Cached d IsValid l f none (replicate (d.block_size f.store) 0)
  fresh f = record {
    length_ok = length-replicate (d.block_size f.store) 0;
    read_ok = λ b e. ground arith;
  }

  limit_word :
      (f : Fat32 S) → IsSound d IsValid f → (f.max_cluster + 2) % 2 ^ 32 ≡ f.max_cluster + 2
  limit_word f h = mod-eq_of_lt h.tables.word

  full_round :
      (fuel end : ℕ) (at : Option ℕ) (cache : List ℕ) (f : Fat32 S)
      → f.fs_info ≡ none
      → find_rounds d (suc fuel) none end end at cache f ≡ (f, fail disk_full)
  unfolding find_rounds disk_is_full
  full_round fuel end at cache f e =
      let stop : leb end end ≡ true = ground arith in rw (find_rounds, stop) (rw e refl)

  again_round :
      (fuel hint current end : ℕ) (at : Option ℕ) (cache : List ℕ) (f : Fat32 S)
      → end ≤ current
      → find_rounds d (suc fuel) (some hint) current end at cache f
        ≡ find_rounds d fuel (some hint) 2 hint at cache f
  unfolding find_rounds
  again_round fuel hint current end at cache f h =
      let stop : leb end current ≡ true = ground arith in rw (find_rounds, stop) refl

  start_none :
      (fuel : ℕ) (f : Fat32 S)
      → IsSound d IsValid f
      → f.fs_info ≡ none
      → find_available_cluster d fuel f
        ≡ find_rounds d fuel none 2 (f.max_cluster + 2) none (replicate (d.block_size f.store) 0) f
  unfolding find_available_cluster
  start_none fuel f h e = rw (e, limit_word f h) refl

  -- On a lawful device and tables that fit it, without an FSInfo and with fuel above the number
  -- of clusters, the search for a free cluster ends: either with a cluster from 2 up to the last
  -- that was free and is then the only changed entry and the end of a chain, or with the error
  -- for a full disk, and then no cluster is free.
  pub find_available_cluster-no_info :
      (fuel : ℕ) (f : Fat32 S)
      → IsSound d IsValid f
      → f.fs_info ≡ none
      → f.max_cluster < fuel
      → ((cluster : ℕ) × (g : Fat32 S) × (find_available_cluster d fuel f ≡ (g, done cluster))
          × Found d IsValid l f g 2 (f.max_cluster + 2) cluster)
        ⊎ ((find_available_cluster d fuel f ≡ (f, fail disk_full)) × AllUsed d f 2 f.max_cluster)
  unfolding Pass
  find_available_cluster-no_info fuel f h e enough =
      let end = f.max_cluster + 2 in
      let rest = fuel - suc f.max_cluster in
      elim (scan f.max_cluster fuel (suc rest) none 2 end none (replicate (d.block_size f.store) 0)
        f h (omega arith) (omega arith) (omega arith) (fresh f)) [
          | inl (c, g, run, found) ↦ inl (c, g, start_none fuel f h e ∙ run, found)
          | inr (all, at, cache, k, run) ↦
              inr (start_none fuel f h e ∙ run ∙ full_round rest end at cache f e, all)
        ]

  module _ (f : Fat32 S) (h : IsSound d IsValid f) (info : FsInfo) (e : f.fs_info ≡ some info) where
    start_hint :
        (fuel : ℕ)
        → info.free_cluster_count ≢ 0
        → find_available_cluster d fuel f
          ≡ find_rounds d fuel
              (some info.next_free_cluster)
              info.next_free_cluster
              (f.max_cluster + 2)
              none
              (replicate (d.block_size f.store) 0)
              f
    unfolding find_available_cluster
    start_hint fuel n =
        let some_left : (info.free_cluster_count == 0) ≡ false = ground arith in
        rw (e, some_left, limit_word f h) refl

    -- On a lawful device and tables that fit it, with an FSInfo that counts a free cluster and a
    -- hint from 2 up to the end of the table, if some cluster is free, then with fuel above the
    -- number of clusters the search finds a cluster that was free, and marks it as the end of a
    -- chain as the only changed entry.
    pub find_available_cluster-hint :
        (fuel cluster : ℕ)
        → info.free_cluster_count ≢ 0
        → 2 ≤ info.next_free_cluster
        → info.next_free_cluster ≤ f.max_cluster + 2
        → 2 ≤ cluster
        → cluster < f.max_cluster + 2
        → IsFree d f cluster
        → f.max_cluster < fuel
        → (found : ℕ) × (g : Fat32 S) × (find_available_cluster d fuel f ≡ (g, done found))
          × Found d IsValid l f g 2 (f.max_cluster + 2) found
    unfolding Pass
    find_available_cluster-hint fuel cluster n low high from inside free enough =
        let end = f.max_cluster + 2 in
        let hint = info.next_free_cluster in
        let buffer : List ℕ = replicate (d.block_size f.store) 0 in
        let left = fuel - suc (end - hint) in
        elim (scan (end - hint) fuel (suc left) (some hint) hint end none buffer f h (omega arith)
          (omega arith) (omega arith) (fresh f)) [
            | inl (c, g, run, found) ↦ (
              c,
              g,
              start_hint fuel n ∙ run,
              Found-wider f g hint 2 end end c low (omega arith) found,
            )
            | inr (all, at, cache, k, run) ↦
                elim (scan (hint - 2) left (left - (hint - 2)) (some hint) 2 hint at cache f h high
                  (omega arith) (omega arith) k) [
                    | inl (c, g, run', found) ↦ (
                      c,
                      g,
                      start_hint fuel n
                          ∙ run
                          ∙ again_round left hint end end at cache f (omega arith)
                          ∙ run',
                      Found-wider f g 2 2 hint end c (omega arith) high found,
                    )
                    | inr (all', at', cache', k', run') ↦
                        absurd (not_both cluster all all' from inside free)
                  ]
          ]
      where
        not_both :
            (c : ℕ)
            → AllUsed d f info.next_free_cluster (f.max_cluster + 2 - info.next_free_cluster)
            → AllUsed d f 2 (info.next_free_cluster - 2)
            → 2 ≤ c
            → c < f.max_cluster + 2
            → IsFree d f c
            → ⊥
        not_both c all all' p q fr = elim (Bool-cases (leb info.next_free_cluster c)) [
          | inl t ↦
              AllUsed-get d f info.next_free_cluster (f.max_cluster + 2 - info.next_free_cluster) c
                all (ground arith) (omega arith) fr
          | inr t ↦ AllUsed-get d f 2 (info.next_free_cluster - 2) c all' p (ground arith) fr
        ]

    rounds_forever :
        (fuel hint current end : ℕ) (at : Option ℕ) (cache : List ℕ)
        → AllUsed d f 2 f.max_cluster
        → 2 ≤ hint
        → hint ≤ f.max_cluster + 2
        → 2 ≤ current
        → end ≤ f.max_cluster + 2
        → Cached d IsValid l f at cache
        → find_rounds d fuel (some hint) current end at cache f ≡ (f, out_of_fuel)
    unfolding find_rounds
    rounds_forever zero hint current end at cache all low high from top k = refl
    rounds_forever (suc fuel) hint current end at cache all low high from top k =
        elim (Bool-cases (leb end current)) [
          | inl t ↦
              again_round fuel hint current end at cache f (ground arith)
              ∙ rounds_forever fuel hint 2 hint at cache all low high (omega arith) high k
          | inr t ↦
              let less : current < end = ground arith in
              let (sector, k', r) =
                round_lem d IsValid l fuel (some hint) current end at cache f h (omega arith) less
                  k in
              elim r [
                | inl (g, run, found) ↦
                    absurd (
                      AllUsed-get d f 2 f.max_cluster current all from (omega arith) found.was_free)
                | inr (used, run) ↦
                    run
                    ∙ rounds_forever fuel hint (suc current) end (some (block_index f.bpb current))
                        sector all low high (omega arith) top k'
              ]
        ]

    -- On a lawful device and tables that fit it, with an FSInfo that counts a free cluster and a
    -- hint from 2 up to the end of the table, if no cluster is free, then the search for a free
    -- cluster does not end within any fuel.
    pub find_available_cluster-forever :
        (fuel : ℕ)
        → info.free_cluster_count ≢ 0
        → 2 ≤ info.next_free_cluster
        → info.next_free_cluster ≤ f.max_cluster + 2
        → AllUsed d f 2 f.max_cluster
        → find_available_cluster d fuel f ≡ (f, out_of_fuel)
    find_available_cluster-forever fuel n low high all =
        start_hint fuel n
        ∙ rounds_forever fuel info.next_free_cluster info.next_free_cluster (f.max_cluster + 2) none
            (replicate (d.block_size f.store) 0) all low high low (omega arith) (fresh f)
