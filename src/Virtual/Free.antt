-- ===== src/Virtual/Free.antt =====
-- `virt::free`: merging, as an equation on every address.
use coronel.Base.{
  ℕ, ◌+◌, ◌^◌, ◌<◌, ◌≡◌, refl, List, [], ◌∷◌, ◌++◌, ◌==◌, arith, Bool-cases, inl, inr, add64, sym,
  subst, Option, none, some, if◌then◌else◌,
}
use coronel.Config.{align_up}
use coronel.Machine.{Machine}
use coronel.Virtual.{Node, node, absorb, extend, merge, free, push_back}
use coronel.Virtual.Regions.{inside, count, IsBounded, inside-add, count-append}

-- `absorb` takes out one region of the size that it reports.
abbrev Absorbed : ℕ → ℕ → List Node → Option (ℕ × List Node) → Type 0
Absorbed x end ns none = Unit
Absorbed x end ns (some (sz, ns')) =
    (count x ns' + inside x end sz ≡ count x ns) × (end + sz < 2 ^ 64) × IsBounded ns'

absorb_lem : (x end : ℕ) (ns : List Node) → IsBounded ns → Absorbed x end ns (absorb end ns)
unfolding absorb
absorb_lem x end [] b = tt
absorb_lem x end (n ∷ ns) b = ground (arith, absorb_lem x end ns b.1)

IsBounded-append : (ns ms : List Node) → IsBounded ns → IsBounded ms → IsBounded (ns ++ ms)
IsBounded-append [] ms b c = c
IsBounded-append (n ∷ ns) ms b c = (b.0, IsBounded-append ns ms b.1 c)

-- `ns` lists `x` as often as `k` says, and is bounded.
abbrev Lists : ℕ → ℕ → List Node → Type 0
Lists x k ns = (count x ns ≡ k) × IsBounded ns

Lists-middle :
    (x : ℕ) (n : Node) (before after : List Node)
    → n.start + n.size < 2 ^ 64
    → IsBounded before
    → IsBounded after
    → Lists x (count x before + inside x n.start n.size + count x after) (before ++ (n ∷ after))
Lists-middle x n before after h b c =
    (omega (arith, count-append x before (n ∷ after)), IsBounded-append before (n ∷ after) b (h, c))

-- The same for `n` grown by `more` bytes.
Lists-grown :
    (x k more : ℕ) (n : Node) (before after : List Node)
    → n.start + n.size + more < 2 ^ 64
    → IsBounded before
    → IsBounded after
    → count x before + (inside x n.start n.size + inside x (n.start + n.size) more) + count x after
      ≡ k
    → Lists x k (before ++ (record n { size = add64 n.size more } ∷ after))
Lists-grown x k more n before after h b c e =
    let sum : add64 n.size more ≡ n.size + more = omega arith in
    rw sum (
      omega (
        arith,
        count-append x before (node n.start (n.size + more) ∷ after),
        inside-add x n.start n.size more,
      ),
      IsBounded-append before (node n.start (n.size + more) ∷ after) b (omega arith, c),
    )

extend_lem :
    (x : ℕ) (n : Node) (before after : List Node)
    → n.start + n.size < 2 ^ 64
    → IsBounded before
    → IsBounded after
    → Lists x (count x before + inside x n.start n.size + count x after) (extend n before after)
unfolding extend
extend_lem x n before after h b c =
    go (absorb (add64 n.start n.size) before) (absorb (add64 n.start n.size) after)
      (subst (λ (t : ℕ). Absorbed x t before (absorb (add64 n.start n.size) before)) e
        (absorb_lem x (add64 n.start n.size) before b))
      (subst (λ (t : ℕ). Absorbed x t after (absorb (add64 n.start n.size) after)) e
        (absorb_lem x (add64 n.start n.size) after c))
  where
    e : add64 n.start n.size ≡ n.start + n.size
    e = omega arith

    go :
        (l r : Option (ℕ × List Node))
        → Absorbed x (n.start + n.size) before l
        → Absorbed x (n.start + n.size) after r
        → Lists x (count x before + inside x n.start n.size + count x after) (elim l [
          | some (sz, before') ↦ before' ++ (record n { size = add64 n.size sz } ∷ after)
          | none ↦ elim r [
            | some (sz, after') ↦ before ++ (record n { size = add64 n.size sz } ∷ after')
            | none ↦ before ++ (n ∷ after)
          ]
        ])
    go none none p q = Lists-middle x n before after h b c
    go none (some (sz, after')) p q =
        Lists-grown x _ sz n before after' q.1 b q.2 (omega (arith, q.0))
    go (some (sz, before')) none p q =
        Lists-grown x _ sz n before' after p.1 p.2 c (omega (arith, p.0))
    go (some (sz, before')) (some s) p q =
        Lists-grown x _ sz n before' after p.1 p.2 c (omega (arith, p.0))

-- The outcome of the outer loop over `before ++ after`.
abbrev Merged : ℕ → ℕ → ℕ → ℕ → Option (List Node) → Type 0
Merged x addr size k none = Unit
Merged x addr size k (some ns) = Lists x (k + inside x addr size) ns

module _ (x addr size : ℕ) (fits : addr + size < 2 ^ 64) where
  merge_in_front :
      (n : Node) (before after : List Node)
      → n.start + n.size < 2 ^ 64
      → IsBounded before
      → IsBounded after
      → addr + size ≡ n.start
      → Lists x
          (count x before + count x (n ∷ after) + inside x addr size)
          (before ++ (node addr (add64 n.size size) ∷ after))
  merge_in_front n before after h b c e =
      let swap : add64 n.size size ≡ add64 size n.size = omega arith in
      rw swap
        (Lists-grown x _ n.size (node addr size) before after (omega arith) b c (ground (arith, e)))

  merge_behind :
      (n : Node) (before after : List Node)
      → n.start + n.size < 2 ^ 64
      → IsBounded before
      → IsBounded after
      → n.start + n.size ≡ addr
      → Lists x
          (count x before + count x (n ∷ after) + inside x addr size)
          (extend (record n { size = add64 n.size size }) before after)
  merge_behind n before after h b c e =
      let sum : add64 n.size size ≡ n.size + size = omega arith in
      let done = extend_lem x (node n.start (n.size + size)) before after (omega arith) b c in
      rw sum (ground (arith, done.0, inside-add x n.start n.size size), done.1)

  abbrev after_node : Node → List Node → List Node → Option (List Node)
  after_node n before after = merge addr size (before ++ (n ∷ [])) after

  -- One round of the loop.
  abbrev round : Node → List Node → List Node → Option (List Node)
  round n before after =
      if n.size == 0
      then after_node n before after
      else if add64 addr size == n.start
      then some (before ++ (node addr (add64 n.size size) ∷ after))
      else if add64 n.start n.size == addr
      then some (extend (record n { size = add64 n.size size }) before after)
      else after_node n before after

  round_lem :
      (n : Node) (before after : List Node)
      → IsBounded before
      → IsBounded (n ∷ after)
      → Merged x addr size (count x before + count x (n ∷ after)) (after_node n before after)
      → Merged x addr size (count x before + count x (n ∷ after)) (round n before after)
  round_lem n before after b c rest = elim (Bool-cases (n.size == 0)) [
    | inl dead ↦ rw dead rest
    | inr live ↦ elim (Bool-cases (add64 addr size == n.start)) [
      | inl front ↦ rw (live, front) (merge_in_front n before after c.0 b c.1 (ground arith))
      | inr not_front ↦ elim (Bool-cases (add64 n.start n.size == addr)) [
        | inl behind ↦
            rw (live, not_front, behind) (merge_behind n before after c.0 b c.1 (ground arith))
        | inr apart ↦ rw (live, not_front, apart) rest
      ]
    ]
  ]

  merge_step :
      (n : Node) (before after : List Node)
      → round n before after ≡ merge addr size before (n ∷ after)
  unfolding merge
  merge_step n before after = refl

  merge_lem :
      (before after : List Node)
      → IsBounded before
      → IsBounded after
      → Merged x addr size (count x before + count x after) (merge addr size before after)
  merge_lem before [] b c = unfold merge in tt
  merge_lem before (n ∷ after) b c =
      let passed : count x (before ++ (n ∷ [])) + count x after
          ≡ count x before + count x (n ∷ after) =
        omega (arith, count-append x before (n ∷ [])) in
      let rest =
        subst (λ (k : ℕ). Merged x addr size k (after_node n before after)) passed
          (merge_lem (before ++ (n ∷ [])) after (IsBounded-append before (n ∷ []) b (c.0, tt))
            c.1) in
      subst (Merged x addr size (count x before + count x (n ∷ after))) (merge_step n before after)
        (round_lem n before after b c rest)

free-result :
    (addr size : ℕ) (ns : List Node) (m : Machine) (r : Option (List Node))
    → merge addr (align_up size) [] ns ≡ r
    → (free addr size ns m).0
      ≡ elim r [ some ns' ↦ ns' | none ↦ ns ++ (node addr (align_up size) ∷ []) ]
unfolding free push_back
free-result addr size ns m none e = rw (e, free)
free-result addr size ns m (some ns') e = rw (e, free)

appended :
    (x addr size : ℕ) (ns : List Node)
    → addr + size < 2 ^ 64
    → IsBounded ns
    → (r : Option (List Node)) → Merged x addr size (count x ns) r
    → Lists x
        (count x ns + inside x addr size)
        (elim r [ some ns' ↦ ns' | none ↦ ns ++ (node addr size ∷ []) ])
appended x addr size ns fits b none p = (
  omega (arith, count-append x ns (node addr size ∷ [])),
  IsBounded-append ns (node addr size ∷ []) b (fits, tt),
)
appended x addr size ns fits b (some ns') p = p

-- If neither the freed region nor a listed one reaches the end of the address space, `free` puts each
-- address of the region, rounded up to pages, on the free list once more, leaves every other address as
-- it was, and keeps the list bounded: merging neither loses nor invents an address.
pub free-count :
    (addr size : ℕ) (ns : List Node) (m : Machine)
    → addr + align_up size < 2 ^ 64
    → IsBounded ns
    → ((x : ℕ) → count x (free addr size ns m).0 ≡ count x ns + inside x addr (align_up size))
      × IsBounded (free addr size ns m).0
free-count addr size ns m fits b = (λ x. (at x).0, (at 0).1)
  where
    at : (x : ℕ) → Lists x (count x ns + inside x addr (align_up size)) (free addr size ns m).0
    at x =
        let size' = align_up size in
        let zero_count : 0 + count x ns ≡ count x ns = omega arith in
        let out = merge addr size' [] ns in
        let ran =
          subst (λ (k : ℕ). Merged x addr size' k out) zero_count
            (merge_lem x addr size' fits [] ns tt b) in
        subst (Lists x (count x ns + inside x addr size'))
          (sym (free-result addr size ns m out refl)) (appended x addr size' ns fits b out ran)
