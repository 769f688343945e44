-- ===== src/Physical/Chain.antt =====
-- The nodes of `free_list_` as the list of frames that they hold.
use coronel.Base.{
  ℕ, ◌+◌, ◌^◌, ◌≤◌, ◌<◌, ◌≡◌, ◌≢◌, refl, true, false, List, [], ◌∷◌, arith, ◌==◌, if◌then◌else◌,
  Bool, ◌%◌, ◌&&◌, ltb, Bool-cases, inl, inr,
}
use coronel.Config.{is_aligned}
use coronel.Config.Align.{is_aligned_iff}
use coronel.Machine.{Frame, Machine, null, update}
use coronel.Physical.{push, free, alloc}

-- From `p` the nodes, all below `limit`, hold the frames of the list in order.
abbrev pub Chain : (ℕ → Frame) → ℕ → ℕ → List ℕ → Type 0
Chain frames limit p [] = p ≡ null
Chain frames limit p (a ∷ l) =
    (p ≢ null) × (p < limit) × ((frames p).address ≡ a) × Chain frames limit (frames p).previous l

-- The free list of `m` is `l`, and its nodes lie in memory that has been handed out.
abbrev pub IsFreeList : Machine → List ℕ → Type 0
IsFreeList m l = Chain m.frames m.placement m.free_list l

-- A node of 16 bytes fits below the end of the address space.
abbrev pub HasRoom : ℕ → Machine → Type 0
HasRoom nodes m = (0 < m.placement) × (m.placement + nodes < 2 ^ 64)

-- Writing at or above the limit leaves a chain as it is.
pub Chain-update :
    (frames : ℕ → Frame) (limit limit' p at : ℕ) (f : Frame) (l : List ℕ)
    → limit ≤ at
    → limit ≤ limit'
    → Chain frames limit p l
    → Chain (update frames at f) limit' p l
Chain-update frames limit limit' p at f [] h h' c = c
Chain-update frames limit limit' p at f (a ∷ l) h h' c =
    let same : (p == at) ≡ false = ground arith in
    rw same
      (c.0, omega arith, c.2, Chain-update frames limit limit' (frames p).previous at f l h h' c.3)

-- Raising the limit keeps a chain.
pub Chain-mono :
    (frames : ℕ → Frame) (limit limit' p : ℕ) (l : List ℕ)
    → limit ≤ limit'
    → Chain frames limit p l
    → Chain frames limit' p l
Chain-mono frames limit limit' p [] h c = c
Chain-mono frames limit limit' p (a ∷ l) h c =
    (c.0, omega arith, c.2, Chain-mono frames limit limit' (frames p).previous l h c.3)

pub free_accepts :
    (addr : ℕ) (m : Machine)
    → is_aligned addr ≡ true
    → addr < m.physical_end
    → free addr m ≡ push addr m
unfolding free
free_accepts addr m al lt = ground arith

pub push-IsFreeList :
    (addr : ℕ) (m : Machine) (l : List ℕ)
    → HasRoom 16 m
    → IsFreeList m l
    → IsFreeList (push addr m) (addr ∷ l)
unfolding push
push-IsFreeList addr m l room c = (
  omega arith,
  omega arith,
  ground arith,
  ground (
    arith,
    Chain-update m.frames m.placement (m.placement + 16) m.free_list m.placement
        (record { address = addr; previous = m.free_list }) l,
  ),
)

-- `alloc` pops the first frame, whatever bounds the nodes.
pub alloc-Chain :
    (limit : ℕ) (m : Machine) (a : ℕ) (l : List ℕ)
    → Chain m.frames limit m.free_list (a ∷ l)
    → ((alloc m).0 ≡ a)
      × Chain (alloc m).1.frames limit (alloc m).1.free_list l
      × ((alloc m).1.placement ≡ m.placement)
      × ((alloc m).1.physical_end ≡ m.physical_end)
unfolding alloc
alloc-Chain limit m a l c =
    let some_node : (m.free_list == null) ≡ false = ground arith in
    rw some_node (c.2, c.3, refl, refl)

pub alloc_empty : (m : Machine) → m.free_list ≡ null → alloc m ≡ (null, m)
unfolding alloc
alloc_empty m c = ground arith

-- Whether a frame is a page below the end of memory.
abbrev pub is_frame : ℕ → ℕ → Bool
is_frame end addr = (addr % 4096 == 0) && ltb addr end

pub free_by_test :
    (addr : ℕ) (m : Machine)
    → free addr m ≡ (if is_frame m.physical_end addr then push addr m else m)
unfolding free
free_by_test addr m = ground (arith, is_aligned_iff addr)

-- With room for a node, `free` puts a page-aligned address below the end of memory in front of the free
-- list, and ignores every other address; the end of memory stays.
pub free-IsFreeList :
    (addr : ℕ) (m : Machine) (l : List ℕ)
    → HasRoom 16 m
    → IsFreeList m l
    → IsFreeList (free addr m) (if is_frame m.physical_end addr then addr ∷ l else l)
      × ((free addr m).physical_end ≡ m.physical_end)
free-IsFreeList addr m l room c = elim (Bool-cases (is_frame m.physical_end addr)) [
  | inl e ↦ rw (free_by_test addr m, e) (push-IsFreeList addr m l room c, unfold push in refl)
  | inr e ↦ rw (free_by_test addr m, e) (c, refl)
]
