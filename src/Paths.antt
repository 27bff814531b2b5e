-- ===== src/Paths.antt =====
-- library/filesystem/src/path/mod.rs: paths as lists of segments. A string is its bytes;
-- `is_utf8` says where `String::from_utf8` succeeds. `Path` is a view of the segments.
pub mod Parse
mod Tests
use cos_rs.Base.{
  ℕ, Bool, true, false, not, Option, none, some, List, [], ◌∷◌, ◌++◌, ◌==◌, if◌then◌else◌,
}

abbrev pub delimiter : ℕ
delimiter = 0x2f

pub record PathBuf : Type 0 where
  pub segments : List (List ℕ)

abbrev pub default_path : PathBuf
default_path = record { segments = [] }

-- `ParsePathError::InvalidSegments` is the failure.
pub data ParseResult : Type 0 where
  parsed : PathBuf → ParseResult
  invalid_segments : ParseResult

-- `split` at the delimiter, as the first segment and the others.
unfoldable pub split : List ℕ → List ℕ × List (List ℕ)
split [] = ([], [])
split (b ∷ bytes) =
    let r = split bytes in if b == delimiter then ([], r.0 ∷ r.1) else (b ∷ r.0, r.1)

abbrev pub is_empty : List ℕ → Bool
is_empty [] = true
is_empty (b ∷ bytes) = false

-- `filter`, and `collect` of the conversions of the segments.
unfoldable pub collect : (List ℕ → Bool) → List (List ℕ) → Option (List (List ℕ))
collect is_utf8 [] = some []
collect is_utf8 (segment ∷ segments) =
    let rest = collect is_utf8 segments in
    if is_empty segment
    then rest
    else if is_utf8 segment
    then elim rest [ none ↦ none | some s ↦ some (segment ∷ s) ]
    else none

abbrev pub to_result : Option (List (List ℕ)) → ParseResult
to_result none = invalid_segments
to_result (some segments) = parsed (record { segments = segments })

unfoldable pub from_bytes : (List ℕ → Bool) → List ℕ → ParseResult
from_bytes is_utf8 bytes =
    if is_empty bytes
    then parsed default_path
    else let r = split bytes in to_result (collect is_utf8 (r.0 ∷ r.1))

unfoldable pub extends : PathBuf → PathBuf → PathBuf
extends p other = record { segments = p.segments ++ other.segments }

-- `Add` for references to paths.
unfoldable pub join : PathBuf → PathBuf → PathBuf
join p q = record { segments = p.segments ++ q.segments }

abbrev pub is_root : PathBuf → Bool
is_root p = elim p.segments [ [] ↦ true | s ∷ segments ↦ false ]

-- All but the last segment, `[..len - 1]`.
abbrev pub init : List (List ℕ) → List (List ℕ)
init [] = []
init (s ∷ []) = []
init (s ∷ t ∷ segments) = s ∷ init (t ∷ segments)

abbrev pub last : List (List ℕ) → Option (List ℕ)
last [] = none
last (s ∷ []) = some s
last (s ∷ t ∷ segments) = last (t ∷ segments)

unfoldable pub parent : PathBuf → PathBuf
parent p = if is_root p then default_path else record { segments = init p.segments }

unfoldable pub last_segment : PathBuf → Option (List ℕ)
last_segment p = last p.segments
