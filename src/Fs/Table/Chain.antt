-- ===== src/Fs/Table/Chain.antt =====
-- Chains of clusters: their size, and what freeing one leaves.
use cos_rs.Base.{
  ℕ, zero, suc, ◌+◌, ◌*◌, ◌<◌, ◌≡◌, ◌≢◌, refl, sym, ap, ◌∙◌, subst, List, [], ◌∷◌, length, All,
  true, false, arith,
}
use cos_rs.Disk.Block.{BlockDevice, IsLawful}
use cos_rs.Fs.Types.{Fat32, Outcome, done, bind_outcome-done, fat_entry_free}
use cos_rs.Fs.Table.{
  is_link, get_next_cluster, free_cluster, count_clusters, get_allocated_size, free_chain,
}
use cos_rs.Fs.Table.Sound.{IsSound, IsEntry}
use cos_rs.Fs.Table.Update.{block_of, get_next_cluster-Sector}
use cos_rs.Fs.Table.Count.{Changed, free_cluster_lem}
use cos_rs.Fs.Table.Scan.{IsFree}

module _ {S : Type 0} (d : BlockDevice S) (IsValid : S → Type 0) where
  -- The clusters that the links of the table lead through, from a number to one that is no link.
  pub data Chain (f : Fat32 S) : ℕ → List ℕ → Type 0 where
    stop : {c : ℕ} → is_link c ≡ false → Chain f c []
    link :
        {c next : ℕ} {cs : List ℕ}
        → is_link c ≡ true
        → IsEntry d IsValid f c
        → (get_next_cluster d c f).1 ≡ done next
        → Chain f next cs
        → Chain f c (c ∷ cs)

  -- A number leads through one chain only.
  length-Chain :
      (f : Fat32 S) (c : ℕ) (cs cs' : List ℕ)
      → Chain f c cs
      → Chain f c cs'
      → length cs ≡ length cs'
  length-Chain f c cs cs' (stop e) (stop e') = refl
  length-Chain f c cs cs' (stop e) (link e' _ _ _) = ground arith
  length-Chain f c cs cs' (link e _ _ _) (stop e') = ground arith
  length-Chain f c cs cs' (link {next = n} {cs = ds} e i p t)
        (link {next = n'} {cs = ds'} e' i' p' t') =
      let same : Outcome.done n ≡ done n' = sym p ∙ p' in
      ap suc (length-Chain f n ds ds' t (subst (λ x. Chain f x ds') (ground arith) t'))

  -- So it does not come back to where a longer chain starts.
  apart :
      (f : Fat32 S) (x c : ℕ) (xs cs : List ℕ)
      → Chain f x xs
      → Chain f c cs
      → length cs < length xs
      → All (λ y. x ≢ y) cs
  apart f x c xs [] t u h = tt
  apart f x c xs (y ∷ cs) t (link {next = n} e i p u) h = (
    λ same. absurd (
        omega
          (arith, length-Chain f c (c ∷ cs) xs (link e i p u) (subst (λ z. Chain f z xs) same t))),
    apart f x n xs cs t u (omega arith),
  )

  module _ (l : IsLawful d IsValid) where
    next_lem :
        (f : Fat32 S) (c next : ℕ)
        → IsSound d IsValid f
        → IsEntry d IsValid f c
        → (get_next_cluster d c f).1 ≡ done next
        → get_next_cluster d c f ≡ (f, done next)
    next_lem f c next h i e =
        let b = block_of d IsValid l f c h i in
        let run = get_next_cluster-Sector d IsValid l f c b.0 b.1 in
        run ∙ ap (λ o. (f, o)) (sym (ap (λ x. x.1) run) ∙ e)

    pub Chain-Changed :
        (f g : Fat32 S) (c entry x : ℕ) (xs : List ℕ)
        → Changed d IsValid l f g c entry
        → All (λ y. c ≢ y) xs
        → Chain f x xs
        → Chain g x xs
    Chain-Changed f g c entry x xs k a (stop e) = stop e
    Chain-Changed f g c entry x xs k a (link {next = n} {cs = ys} e i p t) =
        link e (omega (arith, k.max_same)) (k.others x i (λ same. a.0 (sym same)) ∙ p)
          (Chain-Changed f g c entry n ys k a.1 t)

    -- A chain that was freed.
    pub record Freed (f g : Fat32 S) (cs : List ℕ) : Type 0 where
      pub sound : IsSound d IsValid g
      pub max_same : g.max_cluster ≡ f.max_cluster
      pub freed : All (IsFree d g) cs
      pub others :
          (other : ℕ)
          → IsEntry d IsValid f other
          → All (λ y. other ≢ y) cs
          → (get_next_cluster d other g).1 ≡ (get_next_cluster d other f).1

    Freed-cons :
        (f g k : Fat32 S) (c : ℕ) (cs : List ℕ)
        → IsEntry d IsValid f c
        → Changed d IsValid l f g c fat_entry_free
        → All (λ y. c ≢ y) cs
        → Freed g k cs
        → Freed f k (c ∷ cs)
    unfolding IsFree
    Freed-cons f g k c cs i a apart_c b = record {
      sound = b.sound;
      max_same = b.max_same ∙ a.max_same;
      freed = (b.others c (omega (arith, a.max_same)) apart_c ∙ a.changed, b.freed);
      others = λ other o n. b.others other (omega (arith, a.max_same)) n.1 ∙ a.others other o n.0;
    }

    pub free_chain_lem :
        (fuel : ℕ) (f : Fat32 S) (c : ℕ) (cs : List ℕ)
        → IsSound d IsValid f
        → Chain f c cs
        → length cs < fuel
        → (g : Fat32 S) × (free_chain d fuel c f ≡ (g, done tt)) × Freed f g cs
    unfolding free_chain
    free_chain_lem zero f c cs h t enough = absurd (omega arith)
    free_chain_lem (suc fuel) f c cs h (stop e) enough = (
      f,
      rw (free_chain, e) refl,
      record { sound = h; max_same = refl; freed = tt; others = λ other o n. refl },
    )
    free_chain_lem (suc fuel) f c cs h (link {next = n} {cs = ds} e i p t) enough =
        let u = free_cluster_lem d IsValid l f c h i in
        let a = apart f c n (c ∷ ds) ds (link e i p t) t (omega arith) in
        let r =
          free_chain_lem fuel u.0 n ds u.2.sound (Chain-Changed f u.0 c fat_entry_free n ds u.2 a t)
            (omega arith) in
        (
          r.0,
          rw (free_chain, e)
              (bind_outcome-done (get_next_cluster d c f) _ f n (next_lem f c n h i p)
                ∙ bind_outcome-done (free_cluster d c f) _ u.0 tt u.1
                ∙ r.1),
          Freed-cons f u.0 r.0 c ds i u.2 a r.2,
        )

    count_clusters_lem :
        (fuel count : ℕ) (f : Fat32 S) (c : ℕ) (cs : List ℕ)
        → IsSound d IsValid f
        → Chain f c cs
        → length cs < fuel
        → count_clusters d fuel c count f ≡ (f, done (length cs + count))
    unfolding count_clusters
    count_clusters_lem zero count f c cs h t enough = absurd (omega arith)
    count_clusters_lem (suc fuel) count f c cs h (stop e) enough =
        let none_more : count ≡ 0 + count = omega arith in
        rw (count_clusters, e) (ap (λ k. (f, done k)) none_more)
    count_clusters_lem (suc fuel) count f c cs h (link {next = n} {cs = ds} e i p t) enough =
        let total : length ds + suc count ≡ suc (length ds) + count = omega arith in
        rw (count_clusters, e)
          (bind_outcome-done (get_next_cluster d c f) _ f n (next_lem f c n h i p)
            ∙ count_clusters_lem fuel (suc count) f n ds h t (omega arith)
            ∙ ap (λ k. (f, done k)) total)

    -- The size of a chain is what its clusters hold.
    pub get_allocated_size_lem :
        (fuel : ℕ) (f : Fat32 S) (c : ℕ) (cs : List ℕ)
        → IsSound d IsValid f
        → Chain f c cs
        → length cs < fuel
        → get_allocated_size d fuel c f
          ≡ (f, done (length cs * f.bpb.bytes_per_sector * f.bpb.sectors_per_cluster))
    unfolding get_allocated_size
    get_allocated_size_lem fuel f c cs h t enough =
        let zero_more : length cs + 0 ≡ length cs = omega arith in
        rw (count_clusters_lem fuel 0 f c cs h t enough, zero_more) refl
