-- ===== src/Virtual.antt =====
-- src/kernel/memory/virtual.cpp: the list of free virtual regions of a `virt` object. A node is never
-- shared between lists, so `free_mem_list_` is the list of the nodes' values; what the code does to
-- a node through its pointer is done to its place in the list.
pub mod Regions
pub mod Alloc
pub mod Free
pub mod Reserve
use coronel.Base.{
  ℕ, ◌+◌, ◌-◌, ◌*◌, ◌^◌, Bool, true, false, ◌&&◌, ◌||◌, Option, none, some, List, [], ◌∷◌, ◌++◌,
  ltb, leb, ◌==◌, if◌then◌else◌, add64, sub64,
}
use coronel.Config.{align_up}
use coronel.Machine.{Machine, null, placement_kalloc}

-- `virt::node`; 16 bytes, as a node of the `ilist` that holds a pointer to it.
pub record Node : Type 0 where
  pub start : ℕ
  pub size : ℕ

abbrev pub node : ℕ → ℕ → Node
node st sz = record { start = st; size = sz }

abbrev pub vaddr_start : ℕ
vaddr_start = 0

-- 256_GB
abbrev pub vaddr_size : ℕ
vaddr_size = 2 ^ 38

-- The memory for a node and for its link, and the node at the end of the list.
pub push_back : Node → List Node → Machine → List Node × Machine
unfolding placement_kalloc
push_back n ns m =
    let (_, _, m₁) = placement_kalloc 16 false m in
    let (_, _, m₂) = placement_kalloc 16 false m₁ in (ns ++ (n ∷ []), m₂)

-- `virt::virt()`
unfoldable pub create : Machine → List Node × Machine
unfolding push_back
create m = push_back (node vaddr_start vaddr_size) [] m

pub copy_nodes : List Node → List Node → Machine → List Node × Machine
unfolding push_back
copy_nodes [] out m = (out, m)
copy_nodes (n ∷ ns) out m =
    let (out', m') = push_back (node n.start n.size) out m in copy_nodes ns out' m'

-- The copy constructor, and `operator=` on distinct objects, which clear the list first.
unfoldable pub copy : List Node → Machine → List Node × Machine
unfolding copy_nodes
copy other m = copy_nodes other [] m

-- The loop of `alloc(size_t)`.
unfoldable pub take_first : ℕ → List Node → ℕ × List Node
take_first aligned_size [] = (null, [])
take_first aligned_size (n ∷ ns) =
    let (found, ns') = take_first aligned_size ns in
    if (n.size == 0) || ltb n.size aligned_size
    then (found, n ∷ ns')
    else if n.size == aligned_size
    then (n.start, record n { size = 0 } ∷ ns)
    else (n.start, node (add64 n.start aligned_size) (sub64 n.size aligned_size) ∷ ns)

unfoldable pub alloc : ℕ → List Node → ℕ × List Node
unfolding take_first
alloc size ns = take_first (align_up size) ns

-- The loop of `alloc(vaddr_t, size_t)`: the resized list and the slot to append, if a region is
-- taken.
pub reserve_first : ℕ → ℕ → List Node → Option (List Node × Node)
reserve_first addr size [] = none
reserve_first addr size (n ∷ ns) =
    let rest = reserve_first addr size ns in
    if ltb n.start addr && leb (add64 n.start n.size) (add64 addr size)
    then elim rest [ none ↦ none | some (ns', slot) ↦ some (n ∷ ns', slot) ]
    else some (record n { size = sub64 addr n.start } ∷ ns, node (add64 addr size) n.size)

unfoldable pub alloc_at : ℕ → ℕ → List Node → Machine → Bool × List Node × Machine
unfolding reserve_first push_back
alloc_at addr size ns m = elim (reserve_first addr size ns) [
  | none ↦ (false, ns, m)
  | some (ns', slot) ↦ let (ns'', m') = push_back slot ns' m in (true, ns'', m')
]

-- The inner loop of `free`: the first live region that starts at `end`, marked as deleted, and its
-- size.
pub absorb : ℕ → List Node → Option (ℕ × List Node)
absorb end [] = none
absorb end (n ∷ ns) =
    let rest = absorb end ns in
    if n.size == 0
    then elim rest [ none ↦ none | some (sz, ns') ↦ some (sz, n ∷ ns') ]
    else if end == n.start
    then some (n.size, record n { size = 0 } ∷ ns)
    else elim rest [ none ↦ none | some (sz, ns') ↦ some (sz, n ∷ ns') ]

-- `current` stands between `before` and `after`, and already has the freed region at its end.
pub extend : Node → List Node → List Node → List Node
unfolding absorb
extend current before after = elim (absorb (add64 current.start current.size) before) [
  | some (sz, before') ↦ before' ++ (record current { size = add64 current.size sz } ∷ after)
  | none ↦ elim (absorb (add64 current.start current.size) after) [
    | some (sz, after') ↦ before ++ (record current { size = add64 current.size sz } ∷ after')
    | none ↦ before ++ (current ∷ after)
  ]
]

-- The outer loop of `free`, the regions already passed in front; `none` if nothing was merged.
pub merge : ℕ → ℕ → List Node → List Node → Option (List Node)
unfolding extend
merge addr aligned_size before [] = none
merge addr aligned_size before (n ∷ after) =
    let rest = merge addr aligned_size (before ++ (n ∷ [])) after in
    if n.size == 0
    then rest
    else if add64 addr aligned_size == n.start
    then some (before ++ (node addr (add64 n.size aligned_size) ∷ after))
    else if add64 n.start n.size == addr
    then some (extend (record n { size = add64 n.size aligned_size }) before after)
    else rest

unfoldable pub free : ℕ → ℕ → List Node → Machine → List Node × Machine
unfolding merge push_back
free addr size ns m = elim (merge addr (align_up size) [] ns) [
  | some ns' ↦ (ns', m)
  | none ↦ push_back (node addr (align_up size)) ns m
]
