-- ===== src/Fs/Table/Laws.antt =====
-- What a caller sees of a change of the table.
use cos_rs.Base.{ℕ, ◌+◌, ◌^◌, ◌<◌, ◌≡◌, ◌≢◌, List, length, All}
use cos_rs.Disk.Block.{BlockDevice, IsLawful}
use cos_rs.Fs.Types.{Fat32, done}
use cos_rs.Fs.Table.{get_next_cluster, update_cluster, free_chain}
use cos_rs.Fs.Table.Sound.{IsSound}
use cos_rs.Fs.Table.Count.{update_cluster_lem}
use cos_rs.Fs.Table.Scan.{IsFree}
use cos_rs.Fs.Table.Chain.{Chain, free_chain_lem}

module _ {S : Type 0} (d : BlockDevice S) (IsValid : S → Type 0) (l : IsLawful d IsValid)
    (f : Fat32 S) (h : IsSound d IsValid f) where
  -- On a lawful device and tables that fit it, update_cluster of an entry below 2^32 succeeds,
  -- the entry reads back, an entry of any other cluster is as it was, and the tables fit
  -- afterwards.
  pub get_next_cluster-update_cluster :
      (cluster entry other : ℕ)
      → cluster < f.max_cluster + 2
      → entry < 2 ^ 32
      → other < f.max_cluster + 2
      → other ≢ cluster
      → (g : Fat32 S) × (update_cluster d cluster entry f ≡ (g, done tt))
        × IsSound d IsValid g
        × ((get_next_cluster d cluster g).1 ≡ done entry)
        × ((get_next_cluster d other g).1 ≡ (get_next_cluster d other f).1)
  get_next_cluster-update_cluster cluster entry other c small o n =
      let u = update_cluster_lem d IsValid l f cluster entry h c small in
      (u.0, u.1, u.2.sound, u.2.changed, u.2.others other o n)

  -- On a lawful device and tables that fit it, for a chain of clusters and fuel above its length,
  -- freeing the chain succeeds, every cluster of it is free afterwards, an entry of a cluster
  -- that is not in the chain is as it was, and the tables fit.
  pub free_chain-frees :
      (fuel cluster other : ℕ) (chain : List ℕ)
      → Chain d IsValid f cluster chain
      → length chain < fuel
      → other < f.max_cluster + 2
      → All (λ c. other ≢ c) chain
      → (g : Fat32 S) × (free_chain d fuel cluster f ≡ (g, done tt))
        × IsSound d IsValid g
        × All (IsFree d g) chain
        × ((get_next_cluster d other g).1 ≡ (get_next_cluster d other f).1)
  free_chain-frees fuel cluster other chain t enough o n =
      let u = free_chain_lem d IsValid l fuel f cluster chain h t enough in
      (u.0, u.1, u.2.sound, u.2.freed, u.2.others other o n)
