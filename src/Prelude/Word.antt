-- ===== src/Prelude/Word.antt =====
-- 32-bit words as native numbers below 2 ^ 32, and the number operators of JavaScript on them.
use Prim.Native.Nat.{ℕ, ◌+◌, ◌-◌, ◌/◌, ◌%◌, ◌^◌, ◌<◌}
use mathlib.Core.Bool.{Bool}
use mog_jit.Prelude.Tests.{ltb, leb, if◌then◌else◌}

abbrev pub IsWord : ℕ → Type 0
IsWord n = n < 2 ^ 32

-- `x >>> 0`.
abbrev pub to_u32 : ℕ → ℕ
to_u32 x = x % 2 ^ 32

-- `a - b` under `>>> 0`, for a word `b`.
abbrev pub sub32 : ℕ → ℕ → ℕ
sub32 a b = (a + (2 ^ 32 - b)) % 2 ^ 32

-- `~a` under `>>> 0`.
abbrev pub not32 : ℕ → ℕ
not32 a = 2 ^ 32 - 1 - a

-- The order of `a | 0` and `b | 0`: the top bit counts as -2 ^ 31, so adding 2 ^ 31 to both sides
-- (modulo 2 ^ 32) turns it into the order of numbers.
abbrev pub bias : ℕ → ℕ
bias a = (a + 2 ^ 31) % 2 ^ 32

abbrev pub lt_s : ℕ → ℕ → Bool
lt_s a b = ltb (bias a) (bias b)

abbrev pub le_s : ℕ → ℕ → Bool
le_s a b = leb (bias a) (bias b)

-- `((a | 0) >> k) >>> 0`: a negative number is shifted through its complement.
abbrev pub asr : ℕ → ℕ → ℕ
asr a k = if ltb a (2 ^ 31) then a / 2 ^ k else not32 (not32 a / 2 ^ k)
