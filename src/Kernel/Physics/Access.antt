-- ===== src/Kernel/Physics/Access.antt =====
-- The accesses of kernel/src/memory/physics.rs, without the temporary page.
use Prim.Native.Nat.add
use cos_rs.Base.{
  ℕ, zero, suc, ◌+◌, ◌-◌, ◌^◌, ◌<◌, ◌≤◌, ◌≡◌, refl, sym, ap, ap₂, ◌∙◌, bit_and_frame, List, [], ◌∷◌,
  ◌++◌, ltb, ltb→lt, ltb→le, ◌⊎◌, min, length, take, drop, take-append-drop, length-take,
  length-drop, arith, inl, inr, Bool-cases,
}
use cos_rs.Kernel.Physics.{
  Memory, Window, insert_temp_page_table, poke, load, store, read_rounds, read_memory, write_rounds,
  write_memory,
}

-- The bytes from an address, and bytes written from an address.
abbrev pub bytes_at : Memory → ℕ → ℕ → List ℕ
bytes_at mem a zero = []
bytes_at mem a (suc n) = mem a ∷ bytes_at mem (a + 1) n

abbrev pub poke_all : ℕ → List ℕ → Memory → Memory
poke_all a [] mem = mem
poke_all a (byte ∷ bytes) mem = poke_all (a + 1) bytes (poke a byte mem)

bytes_at-append :
    (mem : Memory) (n m a : ℕ) → bytes_at mem a n ++ bytes_at mem (a + n) m ≡ bytes_at mem a (n + m)
bytes_at-append mem zero m a = let e : a + 0 ≡ a = omega arith in rw (e, add.zero m)
bytes_at-append mem (suc n) m a =
    let e : a + suc n ≡ a + 1 + n = omega arith in
    rw (e, add.suc n m) (ap (◌∷◌ (mem a)) (bytes_at-append mem n m (a + 1)))

pub poke_all-append :
    (xs ys : List ℕ) (a : ℕ) (mem : Memory)
    → poke_all (a + length xs) ys (poke_all a xs mem) ≡ poke_all a (xs ++ ys) mem
poke_all-append [] ys a mem = let e : a + 0 ≡ a = omega arith in rw e
poke_all-append (x ∷ xs) ys a mem =
    let e : a + suc (length xs) ≡ a + 1 + length xs = omega arith in
    rw e (poke_all-append xs ys (a + 1) (poke a x mem))

-- The window shows the address at its start, and at least one byte from there.
window :
    (a : ℕ)
    → a < 2 ^ 64
    → ((insert_temp_page_table a).frame + ((insert_temp_page_table a).start - 0x3000) ≡ a)
      × (0 < (insert_temp_page_table a).size)
      × (0x3000 ≤ (insert_temp_page_table a).start)
unfolding insert_temp_page_table
window a h = let e = bit_and_frame a h in rw e (omega arith, omega arith, omega arith)

load-bytes_at :
    (mem : Memory) (w : Window) (n a v : ℕ)
    → w.frame + (v - 0x3000) ≡ a
    → 0x3000 ≤ v
    → load mem w v n ≡ bytes_at mem a n
unfolding load
load-bytes_at mem w zero a v e h = refl
load-bytes_at mem w (suc n) a v e h =
    ap₂ ◌∷◌ (ap mem e) (load-bytes_at mem w n (a + 1) (v + 1) (omega arith) (omega arith))

store-poke_all :
    (w : Window) (bytes : List ℕ) (a v : ℕ) (mem : Memory)
    → w.frame + (v - 0x3000) ≡ a
    → 0x3000 ≤ v
    → store w v bytes mem ≡ poke_all a bytes mem
unfolding store
store-poke_all w [] a v mem e h = refl
store-poke_all w (byte ∷ bytes) a v mem e h =
    ap (λ (x : ℕ). store w (v + 1) bytes (poke x byte mem)) e
    ∙ store-poke_all w bytes (a + 1) (v + 1) (poke a byte mem) (omega arith) (omega arith)

bytes_at_none : (mem : Memory) (a n : ℕ) → n ≡ 0 → [] ≡ bytes_at mem a n
bytes_at_none mem a n e = rw e

read_rounds-bytes_at :
    (fuel : ℕ) (mem : Memory) (a b : ℕ)
    → b - a ≤ fuel
    → b ≤ 2 ^ 64
    → read_rounds fuel mem a b ≡ bytes_at mem a (b - a)
unfolding read_rounds
read_rounds-bytes_at zero mem a b h l = bytes_at_none mem a (b - a) (omega arith)
read_rounds-bytes_at (suc fuel) mem a b h l = elim (Bool-cases (ltb a b)) [
  | inl e ↦ rw e (
      let lt : a < b = ltb→lt a b e in
      let w = insert_temp_page_table a in
      let v = window a (omega arith) in
      let len : ℕ = min w.size (b - a) in
      let some_len : 0 < len = omega (arith, v.1) in
      let fits : len ≤ b - a = omega arith in
      let rest = read_rounds-bytes_at fuel mem (a + len) b (omega arith) l in
      ap₂ ◌++◌ (load-bytes_at mem w len a w.start v.0 v.2) rest
      ∙ bytes_at-append mem len (b - (a + len)) a
      ∙ ap (bytes_at mem a) (omega arith))
  | inr e ↦ rw e (bytes_at_none mem a (b - a) (omega (arith, ltb→le a b e)))
]

-- Below 2^64, read_memory through the temporary page returns the bytes of physical memory from
-- the address, also where they cross pages.
pub read_memory-bytes_at :
    (mem : Memory) (address size : ℕ)
    → address + size ≤ 2 ^ 64
    → read_memory address size mem ≡ bytes_at mem address size
unfolding read_memory
read_memory-bytes_at mem address size h =
    read_rounds-bytes_at size mem address (address + size) (omega arith) h
    ∙ ap (bytes_at mem address) (omega arith)

poke_none : (src : List ℕ) (a n : ℕ) (mem : Memory) → length src ≡ 0 → mem ≡ poke_all a src mem
poke_none [] a n mem e = refl
poke_none (x ∷ src) a n mem e = absurd (omega arith)

write_rounds-poke_all :
    (fuel a b : ℕ) (src : List ℕ) (mem : Memory)
    → length src ≡ b - a
    → b - a ≤ fuel
    → b ≤ 2 ^ 64
    → write_rounds fuel a b src mem ≡ poke_all a src mem
unfolding write_rounds
write_rounds-poke_all zero a b src mem k h l = poke_none src a 0 mem (omega arith)
write_rounds-poke_all (suc fuel) a b src mem k h l = elim (Bool-cases (ltb a b)) [
  | inl e ↦ rw e (
      let lt : a < b = ltb→lt a b e in
      let w = insert_temp_page_table a in
      let v = window a (omega arith) in
      let len : ℕ = min w.size (b - a) in
      let some_len : 0 < len = omega (arith, v.1) in
      let fits : len ≤ b - a = omega arith in
      let front : length (take len src) ≡ len = omega (arith, length-take len src) in
      let back : length (drop len src) ≡ b - (a + len) = omega (arith, length-drop len src) in
      write_rounds-poke_all fuel (a + len) b (drop len src) (store w w.start (take len src) mem)
        back (omega arith) l
      ∙ ap (poke_all (a + len) (drop len src))
          (store-poke_all w (take len src) a w.start mem v.0 v.2)
      ∙ ap (λ (n : ℕ). poke_all (a + n) (drop len src) (poke_all a (take len src) mem)) (sym front)
      ∙ poke_all-append (take len src) (drop len src) a mem
      ∙ ap (λ (s : List ℕ). poke_all a s mem) (take-append-drop len src))
  | inr e ↦ rw e (poke_none src a 0 mem (omega (arith, ltb→le a b e)))
]

-- Below 2^64, write_memory through the temporary page writes its bytes to physical memory from
-- the address and nothing else, also where they cross pages.
pub write_memory-poke_all :
    (mem : Memory) (address : ℕ) (src : List ℕ)
    → address + length src ≤ 2 ^ 64
    → write_memory address src mem ≡ poke_all address src mem
unfolding write_memory
write_memory-poke_all mem address src h =
    write_rounds-poke_all (length src) address (address + length src) src mem (omega arith)
      (omega arith) h

poke_all_before : (bytes : List ℕ) (a x : ℕ) (mem : Memory) → x < a → poke_all a bytes mem x ≡ mem x
poke_all_before [] a x mem h = refl
poke_all_before (byte ∷ bytes) a x mem h =
    poke_all_before bytes (a + 1) x (poke a byte mem) (omega arith) ∙ ground arith

poke_all_after :
    (bytes : List ℕ) (a x : ℕ) (mem : Memory)
    → a + length bytes ≤ x
    → poke_all a bytes mem x ≡ mem x
poke_all_after [] a x mem h = refl
poke_all_after (byte ∷ bytes) a x mem h =
    poke_all_after bytes (a + 1) x (poke a byte mem) (omega arith) ∙ ground arith

-- Bytes that were written read back, and bytes apart from them are as they were.
pub bytes_at-poke_all_self :
    (bytes : List ℕ) (a : ℕ) (mem : Memory)
    → bytes_at (poke_all a bytes mem) a (length bytes) ≡ bytes
bytes_at-poke_all_self [] a mem = refl
bytes_at-poke_all_self (byte ∷ bytes) a mem =
    ap₂ ◌∷◌ (poke_all_before bytes (a + 1) a (poke a byte mem) (omega arith) ∙ ground arith)
      (bytes_at-poke_all_self bytes (a + 1) (poke a byte mem))

pub bytes_at-poke_all_apart :
    (bytes : List ℕ) (n a b : ℕ) (mem : Memory)
    → (b + n ≤ a) ⊎ (a + length bytes ≤ b)
    → bytes_at (poke_all a bytes mem) b n ≡ bytes_at mem b n
bytes_at-poke_all_apart bytes zero a b mem h = refl
bytes_at-poke_all_apart bytes (suc n) a b mem (inl h) =
    ap₂ ◌∷◌ (poke_all_before bytes a b mem (omega arith))
      (bytes_at-poke_all_apart bytes n a (b + 1) mem (inl (omega arith)))
bytes_at-poke_all_apart bytes (suc n) a b mem (inr h) =
    ap₂ ◌∷◌ (poke_all_after bytes a b mem h)
      (bytes_at-poke_all_apart bytes n a (b + 1) mem (inr (omega arith)))
