-- ===== src/Prelude/Decimal.antt =====
-- `String(n)` of a natural number: its decimal digits.
use Prim.Native.Nat.{ℕ, zero, suc, ◌+◌, ◌/◌, ◌%◌}
use mathlib.Core.List.{[], ◌∷◌, ◌++◌}
use mog_jit.Prelude.Tests.{ltb, if◌then◌else◌}
use mog_jit.Prelude.Text.{Text}

-- The digits of a number below 10 to the fuel, and one at least.
unfoldable pub digits : ℕ → ℕ → Text
digits zero n = []
digits (suc fuel) n =
    let front = digits fuel (n / 10) in
    if ltb n 10 then (b'0' + n) ∷ [] else front ++ ((b'0' + n % 10) ∷ [])

-- A number has fewer digits than its successor.
unfoldable pub decimal : ℕ → Text
unfolding digits
decimal n = digits (n + 1) n
