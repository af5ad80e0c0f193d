-- ===== src/Ring/Hash.antt =====
-- What the ring takes from outside and from the standard library: the hash of
-- github.com/spaolacci/murmur3, a parameter, and `strconv.Itoa`.
use tempura.Common.{ℕ, zero, suc, ◌+◌, ◌/◌, ◌%◌, ◌^◌, ◌<◌, [], ◌∷◌, Text, ◌==◌, if◌then◌else◌}

-- `murmur3.Sum32` is a function into uint32; nothing else about it is assumed.
pub record Murmur3 : Type 0 where
  pub sum32 : Text → ℕ
  pub sum32_lt : (key : Text) → sum32 key < 2 ^ 32

itoa_loop : ℕ → ℕ → Text → Text
itoa_loop zero n out = out
itoa_loop (suc fuel) n out =
    let out' : Text = (b'0' + n % 10) ∷ out in
    let rest = itoa_loop fuel (n / 10) out' in if n / 10 == 0 then out' else rest

-- The decimal digits; a number below 10 ^ n has at most n of them, so n + 1 rounds are enough.
unfoldable pub itoa : ℕ → Text
unfolding itoa_loop
itoa n = itoa_loop (suc n) n []
