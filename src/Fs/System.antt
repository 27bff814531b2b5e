-- ===== src/Fs/System.antt =====
-- library/filesystem/src/fs/fat32.rs: the operations of `FileSystem` and `FileHandle`.
pub mod Transfer
pub mod ReadSectors
pub mod Handle
pub mod Content
pub mod Reader
pub mod Calls
pub mod Occupied
use cos_rs.Base.{
  ℕ, zero, suc, ◌+◌, ◌-◌, ◌*◌, ◌/◌, ◌^◌, min, Option, none, some, List, [], ◌∷◌, ◌++◌, Bool, true,
  false, not, ◌||◌, ltb, leb, ◌==◌, if◌then◌else◌, length, replicate,
}
use cos_rs.Disk.Block.{BlockDevice}
use cos_rs.Fs.Types.{
  FileSystemError, file_not_found, file_exists, file_type_mismatch, file_occupied,
  operation_not_support, unmounted, file_closed, Bpb, FsInfo, Fat32, Outcome, done, fail, panic,
  out_of_fuel, M, pure, stop, bind_outcome, ◌>>=◌, ◌>>◌,
}
use cos_rs.Fs.Table.{
  get_sector_by_cluster, find_available_cluster, free_cluster, free_chain, get_allocated_size,
}
use cos_rs.Fs.Name.{
  Name, Fat32FileMetadata, new, cluster_of, is_directory, attr_directory, attr_archive, long_name,
}
use cos_rs.Fs.Directory.Edit.{
  get_file_metadata_by_cluster, get_all_filemeta_by_cluster, create_file_meta, delete_file_meta,
  zero_cluster,
}

-- A path by its segments; `FileMetadata` keeps the file that it describes in place of its name.
pub record FileMetadata : Type 0 where
  pub file : Fat32FileMetadata
  pub size : ℕ
  pub is_directory : Bool
  pub allocated_size : ℕ

pub record Fat32FileHandle : Type 0 where
  pub metadata : Fat32FileMetadata
  pub pointer : ℕ
  pub closed : Bool

abbrev pub last_segment : List Name → Option Name
last_segment [] = none
last_segment (name ∷ []) = some name
last_segment (name ∷ next ∷ path) = last_segment (next ∷ path)

abbrev pub parent : List Name → List Name
parent [] = []
parent (name ∷ []) = []
parent (name ∷ next ∷ path) = name ∷ parent (next ∷ path)

unfoldable pub contains : ℕ → List ℕ → Bool
contains n [] = false
contains n (x ∷ xs) = if n == x then true else contains n xs

unfoldable pub remove : ℕ → List ℕ → List ℕ
remove n [] = []
remove n (x ∷ xs) = let rest = remove n xs in if n == x then rest else x ∷ rest

module _ {S : Type 0} (d : BlockDevice S) (fuel : ℕ) where
  -- The loop of `get_file_metadata`.
  unfoldable pub walk_path :
      List Name → ℕ → Option Fat32FileMetadata → M S (Option Fat32FileMetadata)
  walk_path [] cluster meta f = (f, done meta)
  walk_path (name ∷ path) cluster meta f =
      let into : Bool = elim meta [ none ↦ true | some m ↦ is_directory m ] in
      elim into [
        | false ↦ (f, fail file_not_found)
        | true ↦
            (do
              next ← get_file_metadata_by_cluster d fuel cluster name
              walk_path path (cluster_of next) (some next))
              f
      ]

  unfoldable pub get_file_metadata : List Name → M S (Option Fat32FileMetadata)
  get_file_metadata path f = walk_path path f.bpb.root_cluster none f

  -- The directory that a new entry goes to, by its first cluster.
  abbrev pub directory_of : Option Fat32FileMetadata → M S ℕ
  directory_of none f = (f, done f.bpb.root_cluster)
  directory_of (some m) f =
      if is_directory m then (f, done (cluster_of m)) else (f, fail file_type_mismatch)

  -- The check that a name is new.
  abbrev pub when_missing :
      {A : Type 0} → Fat32 S × Outcome Fat32FileMetadata → M S A → Fat32 S × Outcome A
  when_missing (g, done m) k = (g, fail file_exists)
  when_missing (g, fail file_not_found) k = k g
  when_missing (g, fail e) k = (g, fail e)
  when_missing (g, panic) k = (g, panic)
  when_missing (g, out_of_fuel) k = (g, out_of_fuel)

  -- The entry is written, or the cluster is given back. `create_file` reports an error of that.
  abbrev pub or_free : ℕ → Fat32 S × Outcome (Unit {0}) → Fat32 S × Outcome (Unit {0})
  or_free cluster (g, fail e) = bind_outcome (free_cluster d cluster g) (λ u h. (h, fail e))
  or_free cluster (g, done u) = (g, done u)
  or_free cluster (g, panic) = (g, panic)
  or_free cluster (g, out_of_fuel) = (g, out_of_fuel)

  unfoldable pub create_file : List Name → M S (Unit {0})
  create_file path f = elim (last_segment path) [
    | none ↦ (f, fail file_exists)
    | some name ↦
        (do
          meta ← get_file_metadata (parent path)
          directory ← directory_of meta
          (λ g. when_missing (get_file_metadata_by_cluster d fuel directory name g) (do
            cluster ← find_available_cluster d fuel
            (λ h.
                or_free cluster
                  (create_file_meta d fuel directory (new name cluster attr_archive) h)))))
          f
  ]

  -- `create_directory` passes over an error of giving the cluster back.
  abbrev pub or_free_quietly : ℕ → Fat32 S × Outcome (Unit {0}) → Fat32 S × Outcome (Unit {0})
  or_free_quietly cluster (g, fail e) = elim ((free_cluster d cluster g).1) [
    | panic ↦ ((free_cluster d cluster g).0, panic)
    | _ ↦ ((free_cluster d cluster g).0, fail e)
  ]
  or_free_quietly cluster (g, done u) = (g, done u)
  or_free_quietly cluster (g, panic) = (g, panic)
  or_free_quietly cluster (g, out_of_fuel) = (g, out_of_fuel)

  unfoldable pub create_directory : List Name → M S (Unit {0})
  create_directory path f = elim (last_segment path) [
    | none ↦ (f, fail file_exists)
    | some name ↦
        (do
          meta ← get_file_metadata (parent path)
          directory ← directory_of meta
          (λ g. when_missing (get_file_metadata_by_cluster d fuel directory name g) (do
            cluster ← find_available_cluster d fuel
            sector ← get_sector_by_cluster d cluster
            (λ h. or_free_quietly cluster (zero_cluster d sector h))
            (λ h.
                or_free_quietly cluster
                  (create_file_meta d fuel directory (new name cluster attr_directory) h)))))
          f
  ]

  -- The new handle of `open_file`, unless the file is occupied.
  unfoldable pub occupy : Fat32FileMetadata → M S Fat32FileHandle
  occupy file f = elim (contains (cluster_of file) f.occupied_file) [
    | true ↦ (f, fail file_occupied)
    | false ↦ (
      record f { occupied_file = cluster_of file ∷ f.occupied_file },
      done (record { metadata = file; pointer = 0; closed = false }),
    )
  ]

  -- What `open_file` and `delete_file` ask of a path: a file and not a directory.
  abbrev pub file_at : List Name → M S Fat32FileMetadata
  file_at path = do
    meta ← get_file_metadata path
    elim meta [
      | none ↦ stop (fail file_type_mismatch)
      | some file ↦ elim (is_directory file) [
        | true ↦ stop (fail file_type_mismatch)
        | false ↦ pure file
      ]
    ]

  unfoldable pub open_file : List Name → M S Fat32FileHandle
  open_file path = do file ← file_at path; occupy file

  unfoldable pub delete_file : List Name → M S (Unit {0})
  delete_file path f =
      (do
        file ← file_at path
        (λ g. elim (contains (cluster_of file) g.occupied_file) [
          | true ↦ (g, fail file_occupied)
          | false ↦ (do delete_file_meta d fuel file; free_chain d fuel (cluster_of file)) g
        ]))
        f

  unfoldable pub delete_directory : List Name → M S (Unit {0})
  delete_directory path = do
    meta ← get_file_metadata path
    elim meta [
      | none ↦ stop (fail operation_not_support)
      | some file ↦ elim (is_directory file) [
        | false ↦ stop (fail file_type_mismatch)
        | true ↦ (do
          files ← get_all_filemeta_by_cluster d fuel (cluster_of file)
          elim files [
            | [] ↦ (do delete_file_meta d fuel file; free_chain d fuel (cluster_of file))
            | m ∷ ms ↦ stop (fail file_exists)
          ])
      ]
    ]

  abbrev pub directory_or_root : Option Fat32FileMetadata → M S ℕ
  directory_or_root none f = (f, done f.bpb.root_cluster)
  directory_or_root (some m) f = (f, done (cluster_of m))

  -- The entry that was found is removed and written again under the new parent.
  unfoldable pub rename : List Name → List Name → M S (Unit {0})
  rename old_path new_path = do
    meta ← get_file_metadata old_path
    elim meta [
      | none ↦ stop (fail operation_not_support)
      | some src ↦ (do
        dst_parent ← get_file_metadata (parent new_path)
        dst_cluster ← directory_or_root dst_parent
        elim (last_segment new_path) [
          | none ↦ stop (fail operation_not_support)
          | some name ↦ (λ g.
              when_missing (get_file_metadata_by_cluster d fuel dst_cluster name g)
                (do delete_file_meta d fuel src; create_file_meta d fuel dst_cluster src))
        ])
    ]

  unfoldable pub get_fs_metadata : Fat32FileMetadata → M S FileMetadata
  get_fs_metadata file = do
    allocated_size ← get_allocated_size d fuel (cluster_of file)
    pure (record {
      file = file;
      size = file.short.file_size;
      is_directory = is_directory file;
      allocated_size = allocated_size;
    })

  unfoldable pub get_metadata : List Name → M S FileMetadata
  get_metadata path = do
    meta ← get_file_metadata path
    elim meta [ none ↦ stop (fail operation_not_support) | some file ↦ get_fs_metadata file ]

  unfoldable pub all_fs_metadata : List Fat32FileMetadata → M S (List FileMetadata)
  all_fs_metadata [] = pure []
  all_fs_metadata (file ∷ files) = do
    first ← get_fs_metadata file
    rest ← all_fs_metadata files
    pure (first ∷ rest)

  unfoldable pub list_directory : List Name → M S (List FileMetadata)
  list_directory path = do
    meta ← get_file_metadata path
    directory ← directory_of meta
    files ← get_all_filemeta_by_cluster d fuel directory
    all_fs_metadata files

  unfoldable pub total_space : M S ℕ
  total_space f = (f, done (f.max_cluster * f.bpb.bytes_per_sector * f.bpb.sectors_per_cluster))

  unfoldable pub free_space : M S ℕ
  free_space f =
      let free : ℕ = elim f.fs_info [ none ↦ 0 | some info ↦ info.free_cluster_count ] in
      (f, done (free * f.bpb.bytes_per_sector * f.bpb.sectors_per_cluster))
