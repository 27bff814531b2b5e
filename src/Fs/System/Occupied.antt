-- ===== src/Fs/System/Occupied.antt =====
-- Open files: who may open one, and what the handle answers that `close` leaves.
use cos_rs.Base.{
  ℕ, ◌≡◌, refl, ap, List, [], ◌∷◌, length, replicate, ◌==◌, if◌then◌else◌, Bool, true, false,
  Bool-cases, inl, inr, arith,
}
use cos_rs.Disk.Block.{BlockDevice}
use cos_rs.Fs.Types.{Fat32, done, fail, file_closed, file_occupied}
use cos_rs.Fs.Name.{Fat32FileMetadata, cluster_of}
use cos_rs.Fs.System.{Fat32FileHandle, contains, remove, occupy}
use cos_rs.Fs.System.Calls.{
  FileCall, close_call, get_pointer_call, move_pointer_call, read_call, write_call, Turn,
  without_value, call_handle, use_handle, others_only,
}
use cos_rs.Fs.System.Handle.{Left, left, close, move_pointer, get_pointer, read, write}

contains-remove : (n : ℕ) (xs : List ℕ) → contains n (remove n xs) ≡ false
unfolding contains remove
contains-remove n [] = refl
contains-remove n (x ∷ xs) = elim (Bool-cases (n == x)) [
  | inl e ↦ rw e (contains-remove n xs)
  | inr e ↦ rw e (rw e (contains-remove n xs))
]

contains-cons : (n : ℕ) (xs : List ℕ) → contains n (n ∷ xs) ≡ true
unfolding contains
contains-cons n xs = ground arith

module _ {S : Type 0} (d : BlockDevice S) (fuel : ℕ) where
  -- Opening a file whose cluster is not occupied gives a handle, no file with the same cluster
  -- can then be opened, closing the handle succeeds, and then the file can be opened again.
  pub occupy-close :
      (file other : Fat32FileMetadata) (f : Fat32 S)
      → contains (cluster_of file) f.occupied_file ≡ false
      → cluster_of other ≡ cluster_of file
      → (g : Fat32 S) × (h : Fat32FileHandle) × (occupy d fuel file f ≡ (g, done h))
        × (occupy d fuel other g ≡ (g, fail file_occupied))
        × ((close true h g).outcome ≡ done tt)
        × ((k : Fat32FileHandle) × ((occupy d fuel other (close true h g).system).1 ≡ done k))
  unfolding occupy close
  occupy-close file other f free same =
      let c = cluster_of file in
      let g : Fat32 S = record f { occupied_file = c ∷ f.occupied_file } in
      let h : Fat32FileHandle = record { metadata = file; pointer = 0; closed = false } in
      let held = contains-cons c f.occupied_file in
      let again = contains-remove c (c ∷ f.occupied_file) in
      (
        g,
        h,
        rw (occupy, free) refl,
        rw (occupy, same, held) refl,
        refl,
        (record { metadata = other; pointer = 0; closed = false }, rw (occupy, same, again) refl),
      )

  closed_answers :
      (mounted : Bool) (buf : List ℕ) (position : ℕ) (h : Fat32FileHandle) (f : Fat32 S)
      → h.closed ≡ true
      → (close mounted h f ≡ left h f (fail file_closed))
        × (move_pointer position h f ≡ left h f (fail file_closed))
        × (get_pointer h f ≡ left h f (fail file_closed))
        × (read d fuel mounted buf h f ≡ left h f (fail file_closed))
        × (write d fuel mounted buf h f ≡ left h f (fail file_closed))
  unfolding close move_pointer get_pointer read write
  closed_answers mounted buf position h f e =
      (stays _ e, stays _ e, stays _ e, stays _ e, stays _ e)
    where
      stays :
          {A : Type 0} (k : Left S A)
          → h.closed ≡ true
          → (if h.closed then left h f (fail file_closed) else k) ≡ left h f (fail file_closed)
      stays k e = ap (λ b. if b then left h f (fail file_closed) else k) e

  close-closed : (h : Fat32FileHandle) (f : Fat32 S) → (close true h f).handle.closed ≡ true
  unfolding close
  close-closed h f = ground arith

  call_handle-closed :
      (mounted : Bool) (call : FileCall) (h : Fat32FileHandle) (f : Fat32 S)
      → h.closed ≡ true
      → call_handle d fuel mounted call h f ≡ left h f (fail file_closed)
  unfolding call_handle
  call_handle-closed mounted close_call h f e = (closed_answers mounted [] 0 h f e).0
  call_handle-closed mounted get_pointer_call h f e =
      ap without_value (closed_answers mounted [] 0 h f e).2
  call_handle-closed mounted (move_pointer_call position) h f e =
      (closed_answers mounted [] position h f e).1
  call_handle-closed mounted (read_call buf) h f e =
      ap without_value (closed_answers mounted buf 0 h f e).3
  call_handle-closed mounted (write_call buf) h f e = (closed_answers mounted buf 0 h f e).4

  use_handle-closed :
      (turns : List (Turn S)) (h : Fat32FileHandle) (f : Fat32 S)
      → h.closed ≡ true
      → use_handle d fuel turns h f
        ≡ (h, others_only turns f, replicate (length turns) (fail file_closed))
  unfolding use_handle
  use_handle-closed [] h f e = refl
  use_handle-closed (t ∷ turns) h f e =
      let refused = call_handle-closed t.mounted t.call h (t.others f) e in
      let rest = use_handle-closed turns h (t.others f) e in rw (refused, rest) refl

  -- Closing an open handle of a mounted file system succeeds, and then, whatever calls of the
  -- handle follow, and whatever others do to the file system before the close and between the
  -- calls, each of these calls answers with the error for a closed file; at the end the handle is
  -- closed and otherwise as it was, and the file system is as the others leave it, with the
  -- cluster of the file removed from the occupied ones at the close.
  pub use_handle-close :
      (others : Fat32 S → Fat32 S) (turns : List (Turn S)) (h : Fat32FileHandle) (f : Fat32 S)
      → h.closed ≡ false
      → let first : Turn S = record { others = others; mounted = true; call = close_call } in
        let g = others f in
        use_handle d fuel (first ∷ turns) h f ≡ (
          record h { closed = true },
          others_only turns
              (record g { occupied_file = remove (cluster_of h.metadata) g.occupied_file }),
          done tt ∷ replicate (length turns) (fail file_closed),
        )
  unfolding use_handle call_handle close
  use_handle-close others turns h f e =
      let g = others f in
      let k : Fat32FileHandle = record h { closed = true } in
      let g1 : Fat32 S = record g {
        occupied_file = remove (cluster_of h.metadata) g.occupied_file;
      } in
      let rest = use_handle-closed turns k g1 refl in rw (e, rest) refl
