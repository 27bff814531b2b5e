-- ===== src/Fs/System/Calls.antt =====
-- library/filesystem/src/fs/mod.rs: the trait `FileHandle` as calls of one handle, one after another,
-- with whatever others do to the file system in between.
use cos_rs.Base.{ℕ, List, [], ◌∷◌, Bool}
use cos_rs.Disk.Block.{BlockDevice}
use cos_rs.Fs.Types.{Fat32, Outcome, done, fail, panic, out_of_fuel}
use cos_rs.Fs.System.{Fat32FileHandle}
use cos_rs.Fs.System.Handle.{Left, left, close, move_pointer, get_pointer, read, write}

pub data FileCall : Type 0 where
  close_call get_pointer_call : FileCall
  move_pointer_call : ℕ → FileCall
  read_call write_call : List ℕ → FileCall

-- A call of a mounted or unmounted file system, behind what others did to it.
pub record Turn (S : Type 0) : Type 0 where
  pub others : Fat32 S → Fat32 S
  pub mounted : Bool
  pub call : FileCall

-- Of a value only that there is one.
abbrev pub without_value : {S A : Type 0} → Left S A → Left S (Unit {0})
without_value l = left l.handle l.system (shape l.outcome)
  where
    shape : {A : Type 0} → Outcome A → Outcome (Unit {0})
    shape (done x) = done tt
    shape (fail e) = fail e
    shape panic = panic
    shape out_of_fuel = out_of_fuel

-- What the others alone make of the file system.
abbrev pub others_only : {S : Type 0} → List (Turn S) → Fat32 S → Fat32 S
others_only [] f = f
others_only (t ∷ turns) f = others_only turns (t.others f)

module _ {S : Type 0} (d : BlockDevice S) (fuel : ℕ) where
  unfoldable pub call_handle : Bool → FileCall → Fat32FileHandle → Fat32 S → Left S (Unit {0})
  call_handle mounted close_call h f = close mounted h f
  call_handle mounted get_pointer_call h f = without_value (get_pointer h f)
  call_handle mounted (move_pointer_call position) h f = move_pointer position h f
  call_handle mounted (read_call buf) h f = without_value (read d fuel mounted buf h f)
  call_handle mounted (write_call buf) h f = write d fuel mounted buf h f

  -- The handle and the file system at the end, and the outcome of each call.
  unfoldable pub use_handle :
      List (Turn S)
      → Fat32FileHandle
      → Fat32 S
      → Fat32FileHandle × Fat32 S × List (Outcome (Unit {0}))
  use_handle [] h f = (h, f, [])
  use_handle (t ∷ turns) h f =
      let l = call_handle t.mounted t.call h (t.others f) in
      let (k, g, outcomes) = use_handle turns l.handle l.system in (k, g, l.outcome ∷ outcomes)
