-- ===== src/Prelude/Decimal.antt =====
-- `strconv.Itoa` of a number that is not negative.
use Prim.Native.Nat.{ℕ, zero, suc, ◌+◌, ◌/◌, ◌%◌}
use mathlib.Core.List.{[], ◌∷◌, ◌++◌}
use cubozoa.Prelude.Tests.{ltb, if◌then◌else◌}
use cubozoa.Prelude.Text.{Str}

-- The digits of `n`, the first one first, in at most `fuel` rounds.
unfoldable pub digits : ℕ → ℕ → Str
digits zero n = []
digits (suc fuel) n =
    let more = digits fuel (n / 10) ++ (b'0' + n % 10) ∷ [] in
    if ltb n 10 then (b'0' + n) ∷ [] else more

-- A number has fewer digits than `n + 1`, so the fuel is enough.
unfoldable pub itoa : ℕ → Str
unfolding digits
itoa n = digits (suc n) n
