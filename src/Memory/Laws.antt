-- ===== src/Memory/Laws.antt =====
-- What the byte loops leave in memory.
use coronel.Base.{
  ℕ, zero, suc, ◌+◌, ◌-◌, ◌≤◌, ◌≡◌, ◌&&◌, ◌⊎◌, inl, inr, Bool-cases, ltb, leb, if◌then◌else◌, arith,
  ◌<◌, ◌≢◌, subst, ap, ◌∙◌,
}
use coronel.Machine.{update}
use coronel.Memory.{Bytes, memset, memcpy, copy_down, memmove, strlen_from, strlen}

-- `memset` writes the byte to the `count` addresses from `p` on and to no other.
pub memset_lem :
    (p ch count : ℕ) (bytes : Bytes) (a : ℕ)
    → memset p ch count bytes a ≡ (if leb p a && ltb a (p + count) then ch else bytes a)
unfolding memset
memset_lem p ch zero bytes a = ground arith
memset_lem p ch (suc count) bytes a =
    ground (arith, memset_lem (p + 1) ch count (update bytes p ch) a)

-- Copying upwards is right if the destination does not start inside the source.
pub memcpy_lem :
    (d s count : ℕ) (bytes : Bytes) (a : ℕ)
    → (d ≤ s) ⊎ (s + count ≤ d)
    → memcpy d s count bytes a
      ≡ (if leb d a && ltb a (d + count) then bytes (s + (a - d)) else bytes a)
unfolding memcpy
memcpy_lem d s zero bytes a h = ground arith
memcpy_lem d s (suc count) bytes a h =
    let bytes' = update bytes d (bytes s) in
    let rest = memcpy_lem (d + 1) (s + 1) count bytes' a (ground arith) in
    elim (Bool-cases (ltb d a)) [
      | inl above ↦
          let e : s + 1 + (a - (d + 1)) ≡ s + (a - d) = ground arith in ground (arith, rest, e)
      | inr not_above ↦ ground (arith, rest)
    ]

-- Copying downwards is right if the source does not start inside the destination.
pub copy_down_lem :
    (d s count : ℕ) (bytes : Bytes) (a : ℕ)
    → s ≤ d
    → copy_down d s count bytes a
      ≡ (if leb d a && ltb a (d + count) then bytes (s + (a - d)) else bytes a)
unfolding copy_down
copy_down_lem d s zero bytes a h = ground arith
copy_down_lem d s (suc count) bytes a h =
    ground (arith, copy_down_lem d s count (update bytes (d + count) (bytes (s + count))) a h)

-- `memmove` is right for every overlap: afterwards the `count` bytes from `dest` on are those that
-- stood from `src` on before the call, and every other byte is as it was.
pub memmove_lem :
    (dest src count : ℕ) (bytes : Bytes) (a : ℕ)
    → memmove dest src count bytes a
      ≡ (if leb dest a && ltb a (dest + count) then bytes (src + (a - dest)) else bytes a)
unfolding memmove
memmove_lem dest src count bytes a = elim (Bool-cases (ltb dest src)) [
  | inl below ↦ rw below (memcpy_lem dest src count bytes a (inl (ground arith)))
  | inr not_below ↦ rw not_below (copy_down_lem dest src count bytes a (ground arith))
]

strlen_from_lem :
    (n len fuel str : ℕ) (bytes : Bytes)
    → ((i : ℕ) → i < n → bytes (str + (len + i)) ≢ 0)
    → bytes (str + (len + n)) ≡ 0
    → n < fuel
    → strlen_from fuel str len bytes ≡ len + n
unfolding strlen_from
strlen_from_lem n len zero str bytes h z f = absurd (omega arith)
strlen_from_lem zero len (suc fuel) str bytes h z f =
    let e : str + (len + 0) ≡ str + len = omega arith in ground (arith, z, e)
strlen_from_lem (suc n) len (suc fuel) str bytes h z f =
    let here : bytes (str + len) ≢ 0 =
      subst (λ (a : ℕ). bytes a ≢ 0) (omega arith) (h 0 (omega arith)) in
    let rest =
      strlen_from_lem n (len + 1) fuel str bytes
        (λ i lt. subst (λ (a : ℕ). bytes a ≢ 0) (omega arith) (h (suc i) (omega arith)))
        (ap bytes (omega arith) ∙ z) (omega arith) in
    ground (arith, here, rest)

-- With fuel beyond the first zero byte, `strlen` counts the bytes in front of it.
pub strlen_lem :
    (n fuel str : ℕ) (bytes : Bytes)
    → ((i : ℕ) → i < n → bytes (str + i) ≢ 0)
    → bytes (str + n) ≡ 0
    → n < fuel
    → strlen fuel str bytes ≡ n
unfolding strlen
strlen_lem n fuel str bytes h z f =
    strlen_from_lem n 0 fuel str bytes
      (λ i lt. subst (λ (a : ℕ). bytes a ≢ 0) (omega arith) (h i lt)) (ap bytes (omega arith) ∙ z) f
    ∙ omega arith
