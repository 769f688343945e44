-- ===== src/Memory.antt =====
-- src/kernel/libs/string.hpp: the byte loops, on a map from addresses to bytes. Pointer arithmetic past
-- the end of the address space is undefined in the source, and is plain addition here.
pub mod Laws
use coronel.Base.{ℕ, zero, suc, ◌+◌, ◌-◌, Bool, true, false, ◌&&◌, ltb, leb, ◌==◌, if◌then◌else◌}
use coronel.Machine.{update}

abbrev pub Bytes : Type 0
Bytes = ℕ → ℕ

-- `strlen` from `len` on, with fuel; `fuel` itself if no terminator was met.
pub strlen_from : ℕ → ℕ → ℕ → Bytes → ℕ
strlen_from zero str len bytes = len
strlen_from (suc fuel) str len bytes =
    let rest = strlen_from fuel str (len + 1) bytes in if bytes (str + len) == 0 then len else rest

unfoldable pub strlen : ℕ → ℕ → Bytes → ℕ
unfolding strlen_from
strlen fuel str bytes = strlen_from fuel str 0 bytes

unfoldable pub isdigit : ℕ → Bool
isdigit c = leb b'0' c && leb c b'9'

-- `count` falls to 0 while `p` climbs.
unfoldable pub memset : ℕ → ℕ → ℕ → Bytes → Bytes
memset p ch zero bytes = bytes
memset p ch (suc count) bytes = memset (p + 1) ch count (update bytes p ch)

unfoldable pub memcpy : ℕ → ℕ → ℕ → Bytes → Bytes
memcpy d s zero bytes = bytes
memcpy d s (suc count) bytes = memcpy (d + 1) (s + 1) count (update bytes d (bytes s))

-- `*(--d) = *(--s)` with both pointers at the end of what is left.
pub copy_down : ℕ → ℕ → ℕ → Bytes → Bytes
copy_down d s zero bytes = bytes
copy_down d s (suc count) bytes = copy_down d s count (update bytes (d + count) (bytes (s + count)))

unfoldable pub memmove : ℕ → ℕ → ℕ → Bytes → Bytes
unfolding memcpy copy_down
memmove dest src count bytes =
    if ltb dest src then memcpy dest src count bytes else copy_down dest src count bytes
