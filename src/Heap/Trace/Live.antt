-- ===== src/Heap/Trace/Live.antt =====
-- What the client holds, against what the heap has handed out.
use coronel.Base.{
  ℕ, ◌+◌, ◌≤◌, ◌<◌, ◌≡◌, ◌≢◌, refl, false, List, [], ◌∷◌, ◌==◌, arith, Bool-cases, inl, inr, none,
  some, subst, ltb, ◌∙◌,
}
use coronel.Heap.{Blocks}
use coronel.Heap.Chain.{Entry, IsChain, used}
use coronel.Heap.Chain.Used.{insert_used, remove_used}
use coronel.Heap.Chain.Held.{size_at, size_at-insert, size_at-remove, size_at-apart}
use coronel.Heap.Trace.{IsClear, AreApart}

-- For headers of `header` bytes, in a list of blocks whose sizes are taken behind 40.
module _ (header : ℕ) where
  -- Behind the pointer `p` is a block of the list `us` with at least `n` bytes, when a header takes `header`.
  pub record IsHeld (us : List (ℕ × ℕ)) (p n : ℕ) : Type 0 where
    pub block : ℕ
    pub size : ℕ
    pub at : p ≡ block + header
    pub there : size_at block us ≡ some size
    pub enough : header + n ≤ size + 40

  -- Every pointer is of such a block, and none is there twice.
  abbrev pub AreHeld : List (ℕ × ℕ) → List (ℕ × ℕ) → Type 0
  AreHeld us [] = Unit
  AreHeld us ((p, n) ∷ live) = IsHeld us p n × (size_at p live ≡ none) × AreHeld us live

  -- The block of a pointer that is held.
  pub AreHeld-at :
      (us live : List (ℕ × ℕ)) (p n : ℕ) → AreHeld us live → size_at p live ≡ some n → IsHeld us p n
  AreHeld-at us [] p n h at = absurd (ground arith)
  AreHeld-at us ((q, m) ∷ live) p n h at = elim (Bool-cases (q == p)) [
    | inl here ↦
        let same_p : q ≡ p = ground arith in
        let same_n : m ≡ n = ground (arith, at, here) in
        subst (λ (a : ℕ). IsHeld us a n) same_p (subst (IsHeld us q) same_n h.0)
    | inr elsewhere ↦ AreHeld-at us live p n h.2 (ground (arith, at, elsewhere))
  ]

  -- A block that was not handed out before leaves the others.
  pub AreHeld-insert :
      (us live : List (ℕ × ℕ)) (b sz : ℕ)
      → size_at b us ≡ none
      → AreHeld us live
      → AreHeld (insert_used b sz us) live
  AreHeld-insert us [] b sz fresh h = h
  AreHeld-insert us ((p, n) ∷ live) b sz fresh h =
      let held = h.0 in
      let other : (held.block == b) ≡ false = elim (Bool-cases (held.block == b)) [
        | inl same ↦ absurd (ground (arith, held.there, fresh))
        | inr other ↦ other
      ] in
      (
        record {
          block = held.block;
          size = held.size;
          at = held.at;
          there = size_at-insert held.block b sz us other ∙ held.there;
          enough = held.enough;
        },
        h.1,
        AreHeld-insert us live b sz fresh h.2,
      )

  -- Pointers to other blocks stay.
  IsHeld-remove :
      (us : List (ℕ × ℕ)) (p n b : ℕ)
      → (p == b + header) ≡ false
      → IsHeld us p n
      → IsHeld (remove_used b us) p n
  IsHeld-remove us p n b ne held =
      let other : (held.block == b) ≡ false = ground (arith, held.at) in
      record {
        block = held.block;
        size = held.size;
        at = held.at;
        there = size_at-remove held.block b us other ∙ held.there;
        enough = held.enough;
      }

  AreHeld-others :
      (us live : List (ℕ × ℕ)) (b : ℕ)
      → size_at (b + header) live ≡ none
      → AreHeld us live
      → AreHeld (remove_used b us) live
  AreHeld-others us [] b out h = h
  AreHeld-others us ((p, n) ∷ live) b out h = (
    IsHeld-remove us p n b (ground (arith, out)) h.0,
    h.1,
    AreHeld-others us live b (ground (arith, out)) h.2,
  )

  pub AreHeld-remove :
      (us live : List (ℕ × ℕ)) (b : ℕ)
      → AreHeld us live
      → AreHeld (remove_used b us) (remove_used (b + header) live)
  AreHeld-remove us [] b h = h
  AreHeld-remove us ((p, n) ∷ live) b h = elim (Bool-cases (p == b + header)) [
    | inl here ↦
        let same : p ≡ b + header = ground arith in
        rw here (AreHeld-others us live b (subst (λ (t : ℕ). size_at t live ≡ none) same h.1) h.2)
    | inr elsewhere ↦ rw elsewhere (
      IsHeld-remove us p n b elsewhere h.0,
      size_at-remove p (b + header) live elsewhere ∙ h.1,
      AreHeld-remove us live b h.2,
    )
  ]

  -- A pointer to a block that is not handed out is not held.
  pub AreHeld-fresh :
      (us live : List (ℕ × ℕ)) (b : ℕ)
      → size_at b us ≡ none
      → AreHeld us live
      → size_at (b + header) live ≡ none
  AreHeld-fresh us [] b fresh h = refl
  AreHeld-fresh us ((p, n) ∷ live) b fresh h =
      let held = h.0 in
      let rest = AreHeld-fresh us live b fresh h.2 in
      elim (Bool-cases (p == b + header)) [
        | inl same ↦
            let block : held.block ≡ b = ground (arith, held.at) in
            absurd (ground (arith, held.there, fresh, block))
        | inr other ↦ rw other rest
      ]

  -- Two pointers that are held.
  IsHeld-apart :
      (mem : Blocks) (lo before at p n q m : ℕ) (es : List Entry)
      → IsChain mem lo before at es
      → IsHeld (used es) p n
      → IsHeld (used es) q m
      → p < q
      → p + n ≤ q
  IsHeld-apart mem lo before at p n q m es c hp hq less = omega (
    arith,
    size_at-apart mem hp.block hq.block hp.size hq.size lo before at es c hp.there hq.there
        (omega (arith, hp.at, hq.at)),
    hp.at,
    hq.at,
    hp.enough,
  )

  -- Regions that are held do not overlap.
  AreHeld-IsClear :
      (mem : Blocks) (lo before at p n : ℕ) (es : List Entry) (live : List (ℕ × ℕ))
      → IsChain mem lo before at es
      → IsHeld (used es) p n
      → size_at p live ≡ none
      → AreHeld (used es) live
      → IsClear p n live
  AreHeld-IsClear mem lo before at p n es [] c hp out h = h
  AreHeld-IsClear mem lo before at p n es ((q, m) ∷ live) c hp out h =
      let rest = AreHeld-IsClear mem lo before at p n es live c hp (ground (arith, out)) h.2 in
      let ne : p ≢ q = ground (arith, out) in
      elim (Bool-cases (ltb p q)) [
        | inl below ↦ (inl (IsHeld-apart mem lo before at p n q m es c hp h.0 (ground arith)), rest)
        | inr above ↦ (inr (IsHeld-apart mem lo before at q m p n es c h.0 hp (ground arith)), rest)
      ]

  pub AreHeld-AreApart :
      (mem : Blocks) (lo before at : ℕ) (es : List Entry) (live : List (ℕ × ℕ))
      → IsChain mem lo before at es
      → AreHeld (used es) live
      → AreApart live
  AreHeld-AreApart mem lo before at es [] c h = h
  AreHeld-AreApart mem lo before at es ((p, n) ∷ live) c h = (
    AreHeld-IsClear mem lo before at p n es live c h.0 h.1 h.2,
    AreHeld-AreApart mem lo before at es live c h.2,
  )
