-- ===== src/Virtual/Regions.antt =====
-- How often an address is listed as free: the abstract view of a list of regions.
use coronel.Base.{
  ℕ, ◌+◌, ◌^◌, ◌<◌, ◌≡◌, ◌&&◌, List, [], ◌∷◌, ◌++◌, ltb, leb, if◌then◌else◌, All, arith,
}
use coronel.Virtual.{Node}

-- 1 if `x` lies in the `size` bytes from `start` on, else 0.
abbrev pub inside : ℕ → ℕ → ℕ → ℕ
inside x start size = if leb start x && ltb x (start + size) then 1 else 0

-- The number of regions that hold `x`.
abbrev pub count : ℕ → List Node → ℕ
count x [] = 0
count x (n ∷ ns) = inside x n.start n.size + count x ns

-- No region reaches the end of the address space.
abbrev pub IsBounded : List Node → Type 0
IsBounded = All (λ n. n.start + n.size < 2 ^ 64)

pub count-append : (x : ℕ) (ns ms : List Node) → count x (ns ++ ms) ≡ count x ns + count x ms
count-append x [] ms = omega arith
count-append x (n ∷ ns) ms = omega (arith, count-append x ns ms)

-- Two regions end to end are one.
pub inside-add :
    (x start size more : ℕ)
    → inside x start (size + more) ≡ inside x start size + inside x (start + size) more
inside-add x start size more = ground arith
