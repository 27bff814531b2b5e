-- ===== src/RbTree/Ops.antt =====
-- The operations of `RBTreeMap` in library/try_alloc/src/collection/rbtree/map.rs that look for a key
-- and insert one.
use Prim.Native.Nat.{Ordering}
use cos_rs.Base.{ℕ, zero, suc, Option, none, some, ◌==◌, if◌then◌else◌, ◌||◌, store}
use cos_rs.RbTree.{
  black, red, Entry, RbNode, RbTreeMap, Run, done, panicked, out_of_fuel, ◌>>=◌, dangling, set_node,
  set_parent, set_left, set_right, set_color, insert_fixup, replace,
}

-- `NonNull::dangling()` of core, which is the alignment: here that of a node whose entry is aligned
-- to at most 8 bytes.
abbrev pub unset : ℕ
unset = 8

module _ {K V : Type 0} where
  -- A map without memory, and one with its NIL node at an address.
  abbrev pub const_new : (ℕ → RbNode (Entry K V)) → RbTreeMap (Entry K V)
  const_new nodes = record { root = dangling; nil = dangling; nodes = nodes }

  abbrev pub nil_node : ℕ → RbNode (Entry K V)
  nil_node a = record { parent = a; left = a; right = a; color = black; value = none }

  -- `RBNode::new_detach`.
  abbrev pub detached : Entry K V → RbNode (Entry K V)
  detached e = record { parent = unset; left = unset; right = unset; color = black; value = some e }

  abbrev pub with_nil : ℕ → RbTreeMap (Entry K V) → RbTreeMap (Entry K V)
  with_nil a m = record { root = a; nil = a; nodes = store a (nil_node a) m.nodes }

  -- The address is what the allocator gives, `none` if it gives none; `none` is the `AllocError`.
  unfoldable pub new : Option ℕ → (ℕ → RbNode (Entry K V)) → Option (RbTreeMap (Entry K V))
  new (some a) nodes = some (with_nil a (const_new nodes))
  new none nodes = none

  unfoldable pub init : Option ℕ → RbTreeMap (Entry K V) → Option (RbTreeMap (Entry K V))
  init address m =
      if m.nil == dangling
      then elim address [ none ↦ none | some a ↦ some (with_nil a m) ]
      else some m

  module _ (cmp : K → K → Ordering) where
    -- The loop of `find` from a node.
    unfoldable pub find_from : ℕ → ℕ → K → RbTreeMap (Entry K V) → Run (Option ℕ)
    find_from zero x key m = out_of_fuel
    find_from (suc fuel) x key m = elim (m.nodes x).value [
      | none ↦ done none
      | some e ↦ elim (cmp key e.key) [
        | Ordering.eq ↦ done (some x)
        | Ordering.lt ↦ find_from fuel (m.nodes x).left key m
        | Ordering.gt ↦ find_from fuel (m.nodes x).right key m
      ]
    ]

    unfoldable pub find : ℕ → K → RbTreeMap (Entry K V) → Run (Option ℕ)
    find fuel key m =
        if (m.root == dangling) || (m.nil == dangling)
        then done none
        else find_from fuel m.root key m

    -- The value at a node that `find` gives.
    abbrev pub value_at : RbTreeMap (Entry K V) → Option ℕ → Run (Option V)
    value_at m none = done none
    value_at m (some a) = elim (m.nodes a).value [ none ↦ panicked | some e ↦ done (some e.value) ]

    unfoldable pub get : ℕ → K → RbTreeMap (Entry K V) → Run (Option V)
    get fuel key m = find fuel key m >>= value_at m

    -- The caller changes the value by a function through the reference.
    unfoldable pub get_mut :
        ℕ → K → (V → V) → RbTreeMap (Entry K V) → Run (Option V × RbTreeMap (Entry K V))
    get_mut fuel key change m = find fuel key m >>= λ o. elim o [
      | none ↦ done (none, m)
      | some a ↦ elim (m.nodes a).value [
        | none ↦ panicked
        | some e ↦
            let node = record (m.nodes a) { value = some (record e { value = change e.value }) } in
            done (some e.value, set_node a node m)
      ]
    ]

    -- The search of `insert`: the last node before NIL, or the node with the key.
    unfoldable pub locate : ℕ → ℕ → ℕ → K → RbTreeMap (Entry K V) → Run (ℕ × Option ℕ)
    locate zero y x key m = out_of_fuel
    locate (suc fuel) y x key m = elim (m.nodes x).value [
      | none ↦ done (y, none)
      | some e ↦ elim (cmp key e.key) [
        | Ordering.eq ↦ done (x, some x)
        | Ordering.lt ↦ locate fuel x (m.nodes x).left key m
        | Ordering.gt ↦ locate fuel x (m.nodes x).right key m
      ]
    ]

    abbrev pub link_below : ℕ → ℕ → K → RbTreeMap (Entry K V) → RbTreeMap (Entry K V)
    link_below y z key m = elim (m.nodes y).value [
      | none ↦ record m { root = z }
      | some p ↦ elim (cmp key p.key) [
        | Ordering.lt ↦ set_left y z m
        | Ordering.eq ↦ set_right y z m
        | Ordering.gt ↦ set_right y z m
      ]
    ]

    -- The new node becomes a red leaf below a node.
    unfoldable pub attach : ℕ → ℕ → K → RbTreeMap (Entry K V) → RbTreeMap (Entry K V)
    attach y z key m =
        let m2 = link_below y z key (set_parent z y m) in
        set_color z red (set_right z m2.nil (set_left z m2.nil m2))

    abbrev pub put :
        ℕ → ℕ → K → RbTreeMap (Entry K V) → ℕ × Option ℕ → Run (Option ℕ × RbTreeMap (Entry K V))
    put fuel z key m (y, some x) = replace x z m >>= λ k. done (some x, k)
    put fuel z key m (y, none) = insert_fixup fuel z (attach y z key m) >>= λ k. done (none, k)

    unfoldable pub insert : ℕ → ℕ → RbTreeMap (Entry K V) → Run (Option ℕ × RbTreeMap (Entry K V))
    insert fuel z m = elim (m.nodes z).value [
      | none ↦ panicked
      | some e ↦ locate fuel m.nil m.root e.key m >>= put fuel z e.key m
    ]

    unfoldable pub insert_raw :
        ℕ → ℕ → RbTreeMap (Entry K V) → Run (Option ℕ × RbTreeMap (Entry K V))
    insert_raw fuel z m =
        if (m.root == dangling) || (m.nil == dangling) then panicked else insert fuel z m

    -- `unbox_value` of a node that was replaced, whose memory is then free.
    abbrev pub unbox : Option ℕ × RbTreeMap (Entry K V) → Run (Option V × RbTreeMap (Entry K V))
    unbox (none, m) = done (none, m)
    unbox (some a, m) = elim (m.nodes a).value [
      | none ↦ panicked
      | some e ↦ done (some e.value, set_node a (record (m.nodes a) { value = none }) m)
    ]

    -- `none` is the `AllocError`.
    unfoldable pub try_insert :
        ℕ
        → Option ℕ
        → K
        → V
        → RbTreeMap (Entry K V)
        → Run (Option (Option V × RbTreeMap (Entry K V)))
    try_insert fuel none key value m = done none
    try_insert fuel (some z) key value m =
        insert_raw fuel z (set_node z (detached (record { key = key; value = value })) m) >>= λ r.
        unbox r >>= λ r. done (some r)
