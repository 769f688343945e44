-- ===== src/Number/Digits.antt =====
-- The last loop of `itoa` reverses the buffer.
use coronel.Base.{
  ℕ, zero, suc, ◌+◌, ◌-◌, ◌≤◌, ◌≡◌, refl, true, false, List, [], ◌∷◌, ◌++◌, ltb, arith, length,
  get_or, set, length-append, ap, ◌∙◌,
}
use mathlib.Core.List.{append_assoc}
use coronel.Number.{swap_ends}

-- The list from back to front.
abbrev pub backwards : List ℕ → List ℕ
backwards [] = []
backwards (x ∷ xs) = backwards xs ++ (x ∷ [])

pub get_or-append : (xs ys : List ℕ) (y d i : ℕ) → i ≡ length xs → get_or (xs ++ y ∷ ys) i d ≡ y
get_or-append [] ys y d zero h = refl
get_or-append [] ys y d (suc i) h = absurd (omega arith)
get_or-append (x ∷ xs) ys y d zero h = absurd (omega arith)
get_or-append (x ∷ xs) ys y d (suc i) h = get_or-append xs ys y d i (omega arith)

pub set-append :
    (xs ys : List ℕ) (y v i : ℕ) → i ≡ length xs → set (xs ++ y ∷ ys) i v ≡ xs ++ v ∷ ys
set-append [] ys y v zero h = refl
set-append [] ys y v (suc i) h = absurd (omega arith)
set-append (x ∷ xs) ys y v zero h = absurd (omega arith)
set-append (x ∷ xs) ys y v (suc i) h =
    ap (λ (l : List ℕ). x ∷ l) (set-append xs ys y v i (omega arith))

pub length-backwards : (xs : List ℕ) → length (backwards xs) ≡ length xs
length-backwards [] = refl
length-backwards (x ∷ xs) =
    length-append (backwards xs) (x ∷ []) ∙ omega (arith, length-backwards xs)

pub backwards-snoc : (xs : List ℕ) (z : ℕ) → backwards (xs ++ z ∷ []) ≡ z ∷ backwards xs
backwards-snoc [] z = refl
backwards-snoc (x ∷ xs) z = ap (λ (l : List ℕ). l ++ (x ∷ [])) (backwards-snoc xs z)

-- A list that is not empty, by its last element.
last-split : (x : ℕ) (xs : List ℕ) → (m : List ℕ) × (z : ℕ) × (x ∷ xs ≡ m ++ z ∷ [])
last-split x [] = ([], x, refl)
last-split x (y ∷ xs) = let (m, z, e) = last-split y xs in (x ∷ m, z, ap (λ (l : List ℕ). x ∷ l) e)

-- One swap around a middle.
swap_step :
    (n : ℕ) (xs m ys : List ℕ) (a z : ℕ)
    → swap_ends (suc n) (length xs) (length xs + length m + 1) (xs ++ a ∷ ((m ++ z ∷ []) ++ ys))
      ≡ swap_ends n (length xs + 1) (length xs + length m) ((xs ++ z ∷ []) ++ (m ++ a ∷ ys))
unfolding swap_ends
swap_step n xs m ys a z =
    let j = length xs in
    let i = length xs + length m + 1 in
    let more : ltb j i ≡ true = ground arith in
    let buffer = xs ++ a ∷ ((m ++ z ∷ []) ++ ys) in
    let at_j : get_or buffer j 0 ≡ a = get_or-append xs ((m ++ z ∷ []) ++ ys) a 0 j refl in
    let long : buffer ≡ (xs ++ a ∷ m) ++ z ∷ ys = simp append_assoc in
    let at_i : get_or buffer i 0 ≡ z =
      ap (λ (l : List ℕ). get_or l i 0) long
      ∙ get_or-append (xs ++ a ∷ m) ys z 0 i (omega (arith, length-append xs (a ∷ m))) in
    let set_j : set buffer j z ≡ xs ++ z ∷ ((m ++ z ∷ []) ++ ys) =
      set-append xs ((m ++ z ∷ []) ++ ys) a z j refl in
    let long' : xs ++ z ∷ ((m ++ z ∷ []) ++ ys) ≡ (xs ++ z ∷ m) ++ z ∷ ys = simp append_assoc in
    let set_i : set ((xs ++ z ∷ m) ++ z ∷ ys) i a ≡ (xs ++ z ∷ m) ++ a ∷ ys =
      set-append (xs ++ z ∷ m) ys z a i (omega (arith, length-append xs (z ∷ m))) in
    let done : (xs ++ z ∷ m) ++ a ∷ ys ≡ (xs ++ z ∷ []) ++ (m ++ a ∷ ys) = simp append_assoc in
    let before : i - 1 ≡ length xs + length m = omega arith in
    rw (more, at_j, at_i, set_j, long', set_i, done, before) refl

pub swap_ends_lem :
    (n j i : ℕ) (xs mid ys : List ℕ)
    → length mid ≤ n
    → j ≡ length xs
    → i ≡ length xs + length mid - 1
    → swap_ends n j i (xs ++ (mid ++ ys)) ≡ xs ++ (backwards mid ++ ys)
swap_ends_lem zero j i xs [] ys f hj hi = unfold swap_ends in refl
swap_ends_lem zero j i xs (a ∷ mid) ys f hj hi = absurd (omega arith)
swap_ends_lem (suc n) j i xs [] ys f hj hi =
    let done : ltb j i ≡ false = ground arith in unfold swap_ends in rw done refl
swap_ends_lem (suc n) j i xs (a ∷ []) ys f hj hi =
    let done : ltb j i ≡ false = ground arith in unfold swap_ends in rw done refl
swap_ends_lem (suc n) j i xs (a ∷ b ∷ l) ys f hj hi =
    let (m, z, e) = last-split b l in
    let len : suc (length l) ≡ length m + 1 = ap length e ∙ length-append m (z ∷ []) in
    let at : i ≡ length xs + length m + 1 = omega (arith, len) in
    let rest =
      swap_ends_lem n (length xs + 1) (length xs + length m) (xs ++ z ∷ []) m (a ∷ ys)
        (omega (arith, len)) (omega (arith, length-append xs (z ∷ [])))
        (omega (arith, length-append xs (z ∷ []))) in
    let turned : backwards (b ∷ l) ≡ z ∷ backwards m = ap backwards e ∙ backwards-snoc m z in
    let start : swap_ends (suc n) j i (xs ++ ((a ∷ b ∷ l) ++ ys))
        ≡ swap_ends (suc n) (length xs) (length xs + length m + 1)
            (xs ++ a ∷ ((m ++ z ∷ []) ++ ys)) =
      rw (hj, at)
        (ap
          (λ (k : List ℕ).
            swap_ends (suc n) (length xs) (length xs + length m + 1) (xs ++ a ∷ (k ++ ys)))
          e) in
    start ∙ swap_step n xs m ys a z ∙ rest ∙ rw turned (simp append_assoc)
