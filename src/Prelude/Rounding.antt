-- ===== src/Prelude/Rounding.antt =====
-- Python's `round` of a quotient of natural numbers.
use Prim.Native.Nat.{ℕ, ◌+◌, ◌*◌, ◌/◌, ◌%◌}
use mathlib.Core.Bool.{◌&&◌, ◌||◌}
use qwen38_flash_next_sglang.Prelude.Tests.{◌==◌, ltb, if◌then◌else◌}

-- `round(a / b)`, which rounds a half to the even number
unfoldable pub round_ratio : ℕ → ℕ → ℕ
round_ratio a b =
    let down = a / b in
    let twice = 2 * (a % b) in
    if ltb twice b || ((twice == b) && (down % 2 == 0)) then down else down + 1
