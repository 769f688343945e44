-- ===== src/Physical/Setup.antt =====
-- What `physical::setup` puts into the free list.
use coronel.Base.{
  ℕ, zero, suc, ◌+◌, ◌-◌, ◌*◌, ◌/◌, ◌%◌, ◌^◌, ◌≤◌, ◌<◌, ◌≡◌, refl, List, [], ◌∷◌, ◌++◌, arith, ap,
  sym, ◌∙◌, add64,
}
use mathlib.Core.Path.{subst₂}
use mathlib.Core.List.{append-nil}
use coronel.Config.{frame_size, align_up, align_down}
use coronel.Config.Align.{align_up_lem, align_down_lem}
use coronel.Machine.{Machine}
use coronel.Physical.{free, free_all, setup, push}
use coronel.Physical.Chain.{IsFreeList, HasRoom, free_by_test, push-IsFreeList}

-- The `n` page frames from `base` on, highest first.
abbrev pub frames_from : ℕ → ℕ → List ℕ
frames_from base zero = []
frames_from base (suc n) = (base + n * 4096) ∷ frames_from base n

-- The number of whole pages inside `len` bytes from `start` on.
abbrev pub whole_pages : ℕ → ℕ → ℕ
whole_pages start len = (start + len) / 4096 - (start + 4095) / 4096

frames_from-suc :
    (base n : ℕ) (l : List ℕ)
    → frames_from (base + 4096) n ++ base ∷ l ≡ frames_from base (suc n) ++ l
frames_from-suc base zero l = ap (λ (a : ℕ). a ∷ l) (omega arith)
frames_from-suc base (suc n) l =
    let e : base + 4096 + n * 4096 ≡ base + suc n * 4096 = omega arith in
    rw e (ap (λ (t : List ℕ). (base + suc n * 4096) ∷ t) (frames_from-suc base n l))

free_page :
    (addr : ℕ) (m : Machine) → addr % 4096 ≡ 0 → addr < m.physical_end → free addr m ≡ push addr m
free_page addr m al lt = ground (arith, free_by_test addr m)

free_all-suc :
    (n addr : ℕ) (m : Machine)
    → addr % 4096 ≡ 0
    → suc n * 4096 ≤ m.physical_end - addr
    → m.physical_end < 2 ^ 64
    → free_all (suc n) addr m ≡ free_all n (addr + 4096) (push addr m)
unfolding free_all
free_all-suc n addr m al fits small =
    let e : add64 addr 4096 ≡ addr + 4096 = omega arith in rw (free_page addr m al (omega arith), e)

pub free_all-IsFreeList :
    (n addr : ℕ) (m : Machine) (l : List ℕ)
    → addr % 4096 ≡ 0
    → n * 4096 ≤ m.physical_end - addr
    → m.physical_end < 2 ^ 64
    → HasRoom (n * 16) m
    → IsFreeList m l
    → IsFreeList (free_all n addr m) (frames_from addr n ++ l)
free_all-IsFreeList zero addr m l al fits small room c = unfold free_all in c
free_all-IsFreeList (suc n) addr m l al fits small room c =
    let listed =
      free_all-IsFreeList n (addr + 4096) (push addr m) (addr ∷ l) (omega arith)
        (unfold push in omega arith) (unfold push in omega arith)
        (unfold push in (omega arith, omega arith)) (push-IsFreeList addr m l (omega arith) c) in
    subst₂ IsFreeList (sym (free_all-suc n addr m al fits small)) (frames_from-suc addr n l) listed

-- Each page takes a node.
pub free_all-placement :
    (n addr : ℕ) (m : Machine)
    → addr % 4096 ≡ 0
    → n * 4096 ≤ m.physical_end - addr
    → m.physical_end < 2 ^ 64
    → HasRoom (n * 16) m
    → (free_all n addr m).placement ≡ m.placement + n * 16
free_all-placement zero addr m al fits small room = unfold free_all in omega arith
free_all-placement (suc n) addr m al fits small room =
    let rest =
      free_all-placement n (addr + 4096) (push addr m) (omega arith) (unfold push in omega arith)
        (unfold push in omega arith) (unfold push in (omega arith, omega arith)) in
    let pushed : (push addr m).placement ≡ m.placement + 16 = unfold push in omega arith in
    ap (λ (t : Machine). t.placement) (free_all-suc n addr m al fits small)
    ∙ rest
    ∙ omega (arith, pushed)

-- The same for `setup`.
pub setup-placement :
    (start len : ℕ) (m : Machine)
    → start + len + 4095 < 2 ^ 64
    → HasRoom (whole_pages start len * 16) m
    → (setup start len m).placement ≡ m.placement + whole_pages start len * 16
unfolding setup
setup-placement start len m small room =
    let up = align_up_lem start (omega arith) in
    let no_wrap : add64 start len ≡ start + len = omega arith in
    let down = align_down_lem (start + len) (omega arith) in
    let first = (start + 4095) / 4096 * 4096 in
    let n = whole_pages start len in
    let count : ((start + len) / 4096 * 4096 - first) / 4096 ≡ n = omega arith in
    rw (up, no_wrap, down, count)
      (free_all-placement n first (record m { physical_end = start + len }) (omega arith)
        (omega arith) (omega arith) room)

-- The end of memory is that of the region.
free-physical_end : (addr : ℕ) (m : Machine) → (free addr m).physical_end ≡ m.physical_end
unfolding free push
free-physical_end addr m = ground arith

free_all-physical_end :
    (n addr : ℕ) (m : Machine) → (free_all n addr m).physical_end ≡ m.physical_end
unfolding free_all
free_all-physical_end zero addr m = refl
free_all-physical_end (suc n) addr m =
    free_all-physical_end n (add64 addr frame_size) (free addr m) ∙ free-physical_end addr m

pub setup-physical_end :
    (start len : ℕ) (m : Machine)
    → start + len < 2 ^ 64
    → (setup start len m).physical_end ≡ start + len
unfolding setup
setup-physical_end start len m small =
    let no_wrap : add64 start len ≡ start + len = omega arith in
    let first = align_up start in
    let n = (align_down (add64 start len) - first) / frame_size in
    free_all-physical_end n first (record m { physical_end = add64 start len }) ∙ no_wrap

-- `setup` on an empty list lists exactly the whole pages inside the region, highest first, if the region
-- ends a page below the end of the address space and the nodes have room.
pub setup-frames_from :
    (start len : ℕ) (m : Machine)
    → start + len + 4095 < 2 ^ 64
    → HasRoom (whole_pages start len * 16) m
    → IsFreeList m []
    → IsFreeList
        (setup start len m)
        (frames_from ((start + 4095) / 4096 * 4096) (whole_pages start len))
unfolding setup
setup-frames_from start len m small room c =
    let up = align_up_lem start (omega arith) in
    let no_wrap : add64 start len ≡ start + len = omega arith in
    let down = align_down_lem (start + len) (omega arith) in
    let first = (start + 4095) / 4096 * 4096 in
    let n = whole_pages start len in
    let count : ((start + len) / 4096 * 4096 - first) / 4096 ≡ n = omega arith in
    rw (up, no_wrap, down, count)
      (rw append-nil at (
        free_all-IsFreeList n first (record m { physical_end = start + len }) [] (omega arith)
          (omega arith) (omega arith) room c))
