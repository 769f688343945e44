-- ===== src/Physical/Blocks.antt =====
-- `physical::alloc(size_t blocks)`: the success path, and the failure path with its accounting of
-- the tracking array.
use coronel.Base.{
  ℕ, zero, suc, ◌+◌, ◌*◌, ◌^◌, ◌≤◌, ◌<◌, ◌≡◌, ◌≢◌, refl, true, false, List, [], ◌∷◌, arith, length,
  All, ◌∙◌, ◌==◌, ap, sym, subst, Bool, ltb, mul64, add64, sub64, if◌then◌else◌,
}
use coronel.Machine.{Machine, null}
use coronel.Physical.{alloc, push, take_each, free_each, onto, first, alloc_blocks}
use coronel.Physical.Chain.{Chain, IsFreeList, HasRoom, is_frame, alloc-Chain, alloc_empty}
use coronel.Physical.Chain.{free_by_test, push-IsFreeList}

abbrev NonNull : List ℕ → Type 0
NonNull = All (λ a. a ≢ 0)

-- Every listed address is one that `free` accepts.
abbrev Frames : ℕ → List ℕ → Type 0
Frames end = All (λ a. is_frame end a ≡ true)

abbrev pub take : ℕ → List ℕ → List ℕ
take zero l = []
take (suc n) [] = []
take (suc n) (a ∷ l) = a ∷ take n l

abbrev pub drop : ℕ → List ℕ → List ℕ
drop zero l = l
drop (suc n) [] = []
drop (suc n) (a ∷ l) = drop n l

abbrev pub head_or_null : List ℕ → ℕ
head_or_null [] = null
head_or_null (a ∷ l) = a

-- With enough frames every round gets one, in the order of the list.
take_each-full :
    (limit n : ℕ) (got : List ℕ) (m : Machine) (l : List ℕ)
    → n ≤ length l
    → NonNull l
    → Chain m.frames limit m.free_list l
    → ((take_each n got m).0 ≡ true)
      × (onto (take_each n got m).1 [] ≡ onto got (take n l))
      × Chain (take_each n got m).2.frames limit (take_each n got m).2.free_list (drop n l)
      × ((take_each n got m).2.placement ≡ m.placement)
unfolding take_each onto
take_each-full limit zero got m l h nn c = (refl, refl, c, refl)
take_each-full limit (suc n) got m [] h nn c = absurd (omega arith)
take_each-full limit (suc n) got m (a ∷ l) h nn c =
    let popped = alloc-Chain limit m a l c in
    let some_frame : ((alloc m).0 == null) ≡ false = ground (arith, nn.0) in
    let rest = take_each-full limit n (a ∷ got) (alloc m).1 l (omega arith) nn.1 popped.1 in
    rw (some_frame, popped.0) (rest.0, rest.1, rest.2, rest.3 ∙ popped.2)

-- With too few frames the loop stops on an empty list, having taken all of them.
take_each-short :
    (limit n : ℕ) (got : List ℕ) (m : Machine) (l : List ℕ)
    → length l < n
    → NonNull l
    → Chain m.frames limit m.free_list l
    → ((take_each n got m).0 ≡ false)
      × (onto (take_each n got m).1 [] ≡ onto got l)
      × ((take_each n got m).2.placement ≡ m.placement)
      × ((take_each n got m).2.physical_end ≡ m.physical_end)
      × ((take_each n got m).2.free_list ≡ null)
unfolding take_each onto
take_each-short limit zero got m l h nn c = absurd (omega arith)
take_each-short limit (suc n) got m [] h nn c =
    let e = alloc_empty m c in
    rw (ap (λ (r : ℕ × Machine). r.0) e, ap (λ (r : ℕ × Machine). r.1) e)
      (refl, refl, refl, refl, c)
take_each-short limit (suc n) got m (a ∷ l) h nn c =
    let popped = alloc-Chain limit m a l c in
    let some_frame : ((alloc m).0 == null) ≡ false = ground (arith, nn.0) in
    let rest = take_each-short limit n (a ∷ got) (alloc m).1 l (omega arith) nn.1 popped.1 in
    rw (some_frame, popped.0) (rest.0, rest.1, rest.2 ∙ popped.2, rest.3 ∙ popped.3, rest.4)

free_each-cons :
    (a : ℕ) (l : List ℕ) (m : Machine)
    → is_frame m.physical_end a ≡ true
    → free_each (a ∷ l) m ≡ free_each l (push a m)
unfolding free_each
free_each-cons a l m fr = ap (free_each l) (ground (arith, free_by_test a m))

-- Frames that are given back one by one come to the front of the list.
free_each-IsFreeList :
    (l out : List ℕ) (m : Machine)
    → Frames m.physical_end l
    → HasRoom (length l * 16) m
    → IsFreeList m out
    → IsFreeList (free_each l m) (onto l out)
unfolding free_each onto push
free_each-IsFreeList [] out m fr room c = c
free_each-IsFreeList (a ∷ l) out m fr room c =
    let pushed = push-IsFreeList a m out (omega arith, omega arith) c in
    let rest = free_each-IsFreeList l (a ∷ out) (push a m) fr.1 (omega arith, omega arith) pushed in
    subst (λ (s : Machine). IsFreeList s (onto l (a ∷ out))) (sym (free_each-cons a l m fr.0)) rest

free_each-placement :
    (l : List ℕ) (m : Machine)
    → Frames m.physical_end l
    → m.placement + length l * 16 < 2 ^ 64
    → m.free_list + 16 ≡ m.placement
    → ((free_each l m).free_list + 16 ≡ (free_each l m).placement)
      × ((free_each l m).placement ≡ m.placement + length l * 16)
unfolding free_each push
free_each-placement [] m fr room last = (last, omega arith)
free_each-placement (a ∷ l) m fr room last =
    let rest = free_each-placement l (push a m) fr.1 (omega arith) (omega arith) in
    let e = free_each-cons a l m fr.0 in
    (
      ap (λ (s : Machine). s.free_list + 16) e ∙ rest.0 ∙ ap (λ (s : Machine). s.placement) (sym e),
      ap (λ (s : Machine). s.placement) e ∙ rest.1 ∙ omega arith,
    )

free_each-last :
    (l : List ℕ) (m : Machine)
    → 0 < length l
    → Frames m.physical_end l
    → m.placement + length l * 16 < 2 ^ 64
    → ((free_each l m).free_list + 16 ≡ (free_each l m).placement)
      × ((free_each l m).placement ≡ m.placement + length l * 16)
unfolding push
free_each-last [] m some_left fr room = absurd (omega arith)
free_each-last (a ∷ l) m some_left fr room = rw (free_each-cons a l m fr.0) (
  (free_each-placement l (push a m) fr.1 (omega arith) (omega arith)).0,
  (free_each-placement l (push a m) fr.1 (omega arith) (omega arith)).1 ∙ omega arith,
)

first-take :
    (n : ℕ) (l : List ℕ) → n ≢ 0 → n ≤ length l → first (onto [] (take n l)) ≡ head_or_null l
unfolding first onto
first-take zero l ne h = absurd (ne refl)
first-take (suc n) [] ne h = absurd (omega arith)
first-take (suc n) (a ∷ l) ne h = refl

-- The state in which the loop starts: the tracking array has been placed.
abbrev tracking : ℕ → Machine → Machine
tracking blocks m = record m { placement = m.placement + blocks * 8 }

-- The array's memory is given back.
abbrev give_back : ℕ → Machine → Machine
give_back blocks m = record m { placement = sub64 m.placement (blocks * 8) }

abbrev taken : ℕ → Machine → Bool × List ℕ × Machine
taken blocks m = take_each blocks [] (tracking blocks m)

module _ (blocks : ℕ) (m : Machine) (ne : blocks ≢ 0) (fits : blocks * 4096 ≤ m.physical_end)
    (small : m.physical_end < 2 ^ 64) (room : HasRoom (blocks * 8) m) where
  alloc_blocks_split : alloc_blocks blocks m ≡ (
      if (taken blocks m).0
      then (first (onto (taken blocks m).1 []), give_back blocks (taken blocks m).2)
      else (null, give_back blocks (free_each (onto (taken blocks m).1 []) (taken blocks m).2)))
  unfolding alloc_blocks
  alloc_blocks_split =
      let in_range : ltb m.physical_end (mul64 blocks 4096) ≡ false = ground arith in
      let some_block : (blocks == 0) ≡ false = ground arith in
      let bytes : mul64 blocks 8 ≡ blocks * 8 = omega arith in
      let placed : add64 m.placement (blocks * 8) ≡ m.placement + blocks * 8 = omega arith in
      let some_array : (m.placement == 0) ≡ false = ground arith in
      rw (in_range, some_block, bytes, placed, some_array)

-- `alloc(blocks)` for a number of blocks that is not 0 and fits the memory, with at least so many
-- frames listed, none of them null, and room for the tracking array, takes the first `blocks`
-- frames off the list but returns only the first of them, as the comment in the code admits: the
-- others are known to nobody afterwards. The placement pointer is back where it was.
pub alloc_blocks-full :
    (blocks : ℕ) (m : Machine) (l : List ℕ)
    → blocks ≢ 0
    → blocks * 4096 ≤ m.physical_end
    → m.physical_end < 2 ^ 64
    → HasRoom (blocks * 8) m
    → blocks ≤ length l
    → NonNull l
    → IsFreeList m l
    → ((alloc_blocks blocks m).0 ≡ head_or_null l)
      × IsFreeList (alloc_blocks blocks m).1 (drop blocks l)
      × ((alloc_blocks blocks m).1.placement ≡ m.placement)
alloc_blocks-full blocks m l ne fits small room enough nn c =
    let run = take_each-full m.placement blocks [] (tracking blocks m) l enough nn c in
    let found = alloc_blocks_split blocks m ne fits small room in
    let done : alloc_blocks blocks m ≡ (first (onto got.1 []), give_back blocks got.2) =
      rw (found, run.0) in
    let back : sub64 got.2.placement (blocks * 8) ≡ m.placement = omega (arith, run.3) in
    subst
      (λ (r : ℕ × Machine).
        (r.0 ≡ head_or_null l) × IsFreeList r.1 (drop blocks l) × (r.1.placement ≡ m.placement))
      (sym done)
      (
        rw run.1 (first-take blocks l ne enough),
        subst (λ (p : ℕ). Chain got.2.frames p got.2.free_list (drop blocks l)) (sym back) run.2,
        back,
      )
  where
    got : Bool × List ℕ × Machine
    got = taken blocks m

-- `alloc(blocks)` for at most as many blocks as the memory has, with some frames listed but too
-- few, all of them pages below the end of memory and none null, and with room for 24 bytes for
-- each block, returns null and gives every frame back, in the opposite order. The nodes of the
-- list are new ones behind the tracking array, and giving the array back moves the placement
-- pointer down by its size, so 16 bytes for each frame stay taken from where it was before; the
-- head of the list ends the size of the array above the placement pointer, in memory that later
-- placements hand out again.
pub alloc_blocks_reclaims_nodes :
    (blocks : ℕ) (m : Machine) (l : List ℕ)
    → blocks * 4096 ≤ m.physical_end
    → m.physical_end < 2 ^ 64
    → HasRoom (blocks * 24) m
    → 0 < length l
    → length l < blocks
    → NonNull l
    → Frames m.physical_end l
    → IsFreeList m l
    → ((alloc_blocks blocks m).0 ≡ null)
      × Chain
          (alloc_blocks blocks m).1.frames
          (m.placement + blocks * 8 + length l * 16)
          (alloc_blocks blocks m).1.free_list
          (onto l [])
      × ((alloc_blocks blocks m).1.placement ≡ m.placement + length l * 16)
      × ((alloc_blocks blocks m).1.free_list + 16 ≡ m.placement + blocks * 8 + length l * 16)
unfolding onto
alloc_blocks_reclaims_nodes blocks m l fits small room some_left few nn fr c =
    let run = take_each-short m.placement blocks [] (tracking blocks m) l few nn c in
    let found = alloc_blocks_split blocks m (omega arith) fits small (omega arith) in
    let all_got : onto got.1 [] ≡ l = run.1 in
    let done : alloc_blocks blocks m ≡ (null, give_back blocks (free_each l got.2)) =
      found ∙ rw (run.0, all_got) refl in
    let frames : Frames got.2.physical_end l = rw run.3 fr in
    let (top, at) = free_each-last l got.2 some_left frames (omega (arith, run.2)) in
    let listed =
      free_each-IsFreeList l [] got.2 frames (omega (arith, run.2), omega (arith, run.2)) run.4 in
    let placed : (free_each l got.2).placement ≡ m.placement + blocks * 8 + length l * 16 =
      at ∙ omega (arith, run.2) in
    subst
      (λ (r : ℕ × Machine).
        (r.0 ≡ null)
        × Chain r.1.frames (m.placement + blocks * 8 + length l * 16) r.1.free_list (onto l [])
        × (r.1.placement ≡ m.placement + length l * 16)
        × (r.1.free_list + 16 ≡ m.placement + blocks * 8 + length l * 16))
      (sym done)
      (
        refl,
        subst
            (λ (p : ℕ).
              Chain (free_each l got.2).frames p (free_each l got.2).free_list (onto l []))
            placed listed,
        omega (arith, placed),
        top ∙ placed,
      )
  where
    got : Bool × List ℕ × Machine
    got = taken blocks m
