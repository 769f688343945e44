-- ===== src/Tests/Numbers.antt =====
-- src/kernel/libs/stdlib.hpp on numbers of several lengths.
use coronel.Base.{ℕ, List, ◌^◌, ◌<◌, ◌≡◌, arith, length, ◌-◌}
use coronel.Number.{Written, itoa}
use coronel.Number.RoundTrip.{read, read-itoa}

-- Minus 255 takes four bytes and a terminator.
read-itoa_example :
    (cs : List ℕ) × (itoa 5 (2 ^ 64 - 255) 10 ≡ Written.within cs)
    × (length cs < 5)
    × (read 10 cs ≡ 2 ^ 64 - 255)
read-itoa_example =
    read-itoa 3 5 (2 ^ 64 - 255) 10 (omega arith) (omega arith) (omega arith) (omega arith)
      (omega arith) (omega arith)
