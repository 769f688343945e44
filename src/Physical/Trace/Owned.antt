-- ===== src/Physical/Trace/Owned.antt =====
-- Who has a frame.
use coronel.Base.{
  ℕ, zero, suc, ◌+◌, ◌*◌, ◌/◌, ◌%◌, ◌^◌, ◌<◌, ◌≡◌, ◌≢◌, refl, Bool, true, ◌&&◌, ltb, leb, List, [],
  ◌∷◌, ◌==◌, if◌then◌else◌, arith, sym, subst, ap, ◌∙◌,
}
use coronel.Machine.{Machine, null}
use coronel.Physical.{alloc, free, setup}
use coronel.Physical.Chain.{
  Chain, IsFreeList, HasRoom, free-IsFreeList, alloc-Chain, alloc_empty, is_frame,
}
use coronel.Physical.Setup.{frames_from, whole_pages, setup-frames_from, setup-physical_end}
use coronel.Physical.Trace.{count, without, Frames, Step, Run}

-- Whether `a` is one of the `n` frames from `base` on.
abbrev pub is_page : ℕ → ℕ → ℕ → ℕ
is_page base n a = if leb base a && ltb a (base + n * 4096) && (a % 4096 == 0) then 1 else 0

count-frames_from :
    (base n a : ℕ) → base % 4096 ≡ 0 → count a (frames_from base n) ≡ is_page base n a
count-frames_from base zero a al = ground arith
count-frames_from base (suc n) a al = ground (arith, count-frames_from base n a al)

count-without :
    (a b : ℕ) (l : List ℕ)
    → 0 < count b l
    → count a l ≡ (if a == b then 1 else 0) + count a (without b l)
count-without a b [] h = absurd (omega arith)
count-without a b (c ∷ l) h = ground (arith, count-without a b l)

-- Every frame is held or free as often as it was listed first, which is once or never.
pub record IsShared (total : ℕ → ℕ) (end : ℕ) (f : Frames) : Type 0 where
  pub free : List ℕ
  pub listed : IsFreeList f.machine free
  pub same_end : f.machine.physical_end ≡ end
  pub counts : (a : ℕ) → count a f.held + count a free ≡ total a

-- The frames that there are: pages below the end, and not the page at 0.
abbrev AreFrames : (ℕ → ℕ) → ℕ → Type 0
AreFrames total end = (a : ℕ) → 0 < total a → (is_frame end a ≡ true) × (0 < a)

-- `alloc` on a list that is known.
taken :
    (total : ℕ → ℕ) (end : ℕ) (m : Machine) (held l : List ℕ) (a : ℕ)
    → IsFreeList m (a ∷ l)
    → m.physical_end ≡ end
    → ((x : ℕ) → count x held + count x (a ∷ l) ≡ total x)
    → IsShared total end (record { machine = (alloc m).1; held = (alloc m).0 ∷ held })
taken total end m held l a c same counts =
    let (at, rest, place, ends) = alloc-Chain m.placement m a l c in
    record {
      free = l;
      listed =
          subst (λ (p : ℕ). Chain (alloc m).1.frames p (alloc m).1.free_list l) (sym place) rest;
      same_end = ends ∙ same;
      counts = λ x. ground (arith, counts x, at);
    }

takes-IsShared :
    (total : ℕ → ℕ) (end : ℕ) (m : Machine) (held l : List ℕ)
    → IsFreeList m l
    → m.physical_end ≡ end
    → ((x : ℕ) → count x held + count x l ≡ total x)
    → (alloc m).0 ≢ null
    → IsShared total end (record { machine = (alloc m).1; held = (alloc m).0 ∷ held })
takes-IsShared total end m held [] c same counts ne =
    absurd (ne (ap (λ (r : ℕ × Machine). r.0) (alloc_empty m c)))
takes-IsShared total end m held (a ∷ l) c same counts ne = taken total end m held l a c same counts

finds_none-IsShared :
    (total : ℕ → ℕ) (end : ℕ) (m : Machine) (held l : List ℕ)
    → AreFrames total end
    → IsFreeList m l
    → m.physical_end ≡ end
    → ((x : ℕ) → count x held + count x l ≡ total x)
    → (alloc m).0 ≡ null
    → IsShared total end (record { machine = (alloc m).1; held = held })
finds_none-IsShared total end m held [] frames c same counts null_given =
    rw (alloc_empty m c) (record { free = []; listed = c; same_end = same; counts = counts })
finds_none-IsShared total end m held (a ∷ l) frames c same counts null_given =
    let at = (alloc-Chain m.placement m a l c).0 in
    let here : 0 < total a = ground (arith, counts a) in
    absurd (omega (arith, (frames a here).1, at, null_given))

gives-IsShared :
    (total : ℕ → ℕ) (end : ℕ) (m : Machine) (held l : List ℕ) (addr : ℕ)
    → AreFrames total end
    → IsFreeList m l
    → m.physical_end ≡ end
    → ((x : ℕ) → count x held + count x l ≡ total x)
    → 0 < count addr held
    → HasRoom 16 m
    → IsShared total end (record { machine = free addr m; held = without addr held })
gives-IsShared total end m held l addr frames c same counts mine room =
    let here : 0 < total addr = omega (arith, counts addr, mine) in
    let accepted : is_frame m.physical_end addr ≡ true = rw same (frames addr here).0 in
    let (listed, ends) = free-IsFreeList addr m l room c in
    record {
      free = addr ∷ l;
      listed =
          subst (λ (t : Bool). IsFreeList (free addr m) (if t then addr ∷ l else l)) accepted
            listed;
      same_end = ends ∙ same;
      counts = λ x. ground (arith, counts x, count-without x addr held mine);
    }

Step-IsShared :
    (total : ℕ → ℕ) (end : ℕ)
    → AreFrames total end
    → {f g : Frames} → Step f g
    → IsShared total end f
    → IsShared total end g
Step-IsShared total end frames {f} (Step.takes ne) s =
    takes-IsShared total end f.machine f.held s.free s.listed s.same_end s.counts ne
Step-IsShared total end frames {f} (Step.finds_none null_given) s =
    finds_none-IsShared total end f.machine f.held s.free frames s.listed s.same_end s.counts
      null_given
Step-IsShared total end frames {f} (Step.gives addr mine room) s =
    gives-IsShared total end f.machine f.held s.free addr frames s.listed s.same_end s.counts mine
      room

Run-IsShared :
    (total : ℕ → ℕ) (m : Machine) (l : List ℕ)
    → AreFrames total m.physical_end
    → IsFreeList m l
    → ((a : ℕ) → count a l ≡ total a)
    → {f : Frames} → Run m f
    → IsShared total m.physical_end f
Run-IsShared total m l frames c counts Run.start = record {
  free = l;
  listed = c;
  same_end = refl;
  counts = λ a. omega (arith, counts a);
}
Run-IsShared total m l frames c counts (Run.later before step) =
    Step-IsShared total m.physical_end frames step (Run-IsShared total m l frames c counts before)

-- After `setup` on an empty list with room for a node for each whole page, for a region that does
-- not start at 0 and ends a page below the end of the address space, whatever calls of `alloc` and
-- `free` follow, each `free` of a frame that is held and with room for a node: a whole page of the
-- region is either held by one caller or in the free list, once, and no other address is in either.
pub Run-count :
    (start len : ℕ) (m : Machine) (f : Frames)
    → 0 < start
    → start + len + 4095 < 2 ^ 64
    → HasRoom (whole_pages start len * 16) m
    → IsFreeList m []
    → Run (setup start len m) f
    → (free : List ℕ) × IsFreeList f.machine free
      × ((a : ℕ)
          → count a f.held + count a free
            ≡ is_page ((start + 4095) / 4096 * 4096) (whole_pages start len) a)
Run-count start len m f pos small room c run =
    let base = (start + 4095) / 4096 * 4096 in
    let n = whole_pages start len in
    let ends : (setup start len m).physical_end ≡ start + len =
      setup-physical_end start len m (omega arith) in
    let shared =
      Run-IsShared (is_page base n) (setup start len m) (frames_from base n)
        (λ a h. rw ends (ground (arith, h))) (setup-frames_from start len m small room c)
        (λ a. count-frames_from base n a (omega arith)) run in
    (shared.free, shared.listed, shared.counts)
