-- ===== src/Elf/Io.antt =====
-- library/async_io/src/lib.rs: `AsyncRead` and `Seekable` as operations over a state, and
-- `read_exact`. A future runs to its end in one step.
pub mod Exact
use cos_rs.Base.{
  ℕ, zero, suc, ◌+◌, ◌-◌, ◌<◌, ◌≤◌, ◌≡◌, Option, none, some, List, [], ◌∷◌, ◌++◌, length, slice,
  ◌==◌, if◌then◌else◌,
}

pub data Answer (X : Type 0) (A : Type 0) : Type 0 where
  done : A → Answer X A
  fail : X → Answer X A

pub data ReadExactError (E : Type 0) : Type 0 where
  inner_error : E → ReadExactError E
  eof : ReadExactError E

-- `read` answers with the bytes that it put at the front of a buffer of the given length.
pub record Io (S : Type 0) (E : Type 0) : Type 0 where
  pub seek : ℕ → S → S × Answer E (Unit {0})
  pub read : ℕ → S → S × Answer E (List ℕ)

abbrev pub prefix : {X : Type 0} → List ℕ → Answer X (List ℕ) → Answer X (List ℕ)
prefix bytes (done rest) = done (bytes ++ rest)
prefix bytes (fail e) = fail e

module _ {S : Type 0} {E : Type 0} (io : Io S E) where
  -- The loop of `read_exact`; each round fills at least one byte, so a round per byte is enough.
  unfoldable pub read_rounds : ℕ → ℕ → S → S × Answer (ReadExactError E) (List ℕ)
  read_rounds zero n s = (s, done [])
  read_rounds (suc fuel) n s =
      if n == 0
      then (s, done [])
      else let r = io.read n s in
        elim r.1 [
          | fail e ↦ (r.0, fail (inner_error e))
          | done bytes ↦
              let rest = read_rounds fuel (n - length bytes) r.0 in
              if length bytes == 0 then (r.0, fail eof) else (rest.0, prefix bytes rest.1)
        ]

  unfoldable pub read_exact : ℕ → S → S × Answer (ReadExactError E) (List ℕ)
  read_exact n s = read_rounds n n s

-- A state that is a file with contents and a cursor.
pub record View (S : Type 0) : Type 0 where
  pub contents : S → List ℕ
  pub cursor : S → ℕ

-- What a client relies on while a file is open: seeking into the file sets the cursor; reading what
-- lies in the file answers with some bytes from the cursor, at least one where one is asked for, and
-- moves the cursor behind them; neither changes the contents nor closes the file.
pub record IsFile {S : Type 0} {E : Type 0} (io : Io S E) (v : View S) (IsOpen : S → Type 0)
    : Type 0 where
  pub seek-ok : (n : ℕ) (s : S) → IsOpen s → n ≤ length (v.contents s) → (io.seek n s).1 ≡ done tt
  pub seek-cursor :
      (n : ℕ) (s : S) → IsOpen s → n ≤ length (v.contents s) → v.cursor (io.seek n s).0 ≡ n
  pub seek-contents : (n : ℕ) (s : S) → IsOpen s → v.contents (io.seek n s).0 ≡ v.contents s
  pub seek-IsOpen : (n : ℕ) (s : S) → IsOpen s → IsOpen (io.seek n s).0
  pub count : ℕ → S → ℕ
  pub count_le : (n : ℕ) (s : S) → count n s ≤ n
  pub count_pos :
      (n : ℕ) (s : S) → IsOpen s → 0 < n → v.cursor s < length (v.contents s) → 0 < count n s
  pub read-ok :
      (n : ℕ) (s : S)
      → IsOpen s
      → v.cursor s + n ≤ length (v.contents s)
      → (io.read n s).1 ≡ done (slice (v.cursor s) (count n s) (v.contents s))
  pub read-cursor :
      (n : ℕ) (s : S)
      → IsOpen s
      → v.cursor s + n ≤ length (v.contents s)
      → v.cursor (io.read n s).0 ≡ v.cursor s + count n s
  pub read-contents : (n : ℕ) (s : S) → IsOpen s → v.contents (io.read n s).0 ≡ v.contents s
  pub read-IsOpen : (n : ℕ) (s : S) → IsOpen s → IsOpen (io.read n s).0
