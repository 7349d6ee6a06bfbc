-- ===== src/Prelude/Numbers.antt =====
-- Python's `round` of a quotient.
use Prim.Native.Nat.{ℕ, ◌+◌, ◌*◌, ◌/◌, ◌%◌}
use project_mimic.Prelude.Tests.{ltb, ◌==◌, if◌then◌else◌}

-- `round(a / b, ...)` to the nearest unit, a half to the even one, for `0 < b`
unfoldable pub round_div : ℕ → ℕ → ℕ
round_div a b =
    let q = a / b in
    let r = a % b in
    if ltb (2 * r) b then q else if ltb b (2 * r) then q + 1 else if q % 2 == 0 then q else q + 1
