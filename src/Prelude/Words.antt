-- ===== src/Prelude/Words.antt =====
-- Unsigned words of Rust. `+`, `-` and `*` wrap, as the release profile compiles them.
use Prim.Native.Nat.{ℕ, ◌+◌, ◌-◌, ◌*◌, ◌%◌, ◌^◌, ◌≤◌, min}
use mathlib.Core.Path.{◌≡◌}
use mathlib.Core.Option.{Option, none, some}
use native.Mathlib.Omega.{arith}
use maestro_dogecoin_indexer.Prelude.Tests.{leb, if◌then◌else◌}

abbrev pub u8_max : ℕ
u8_max = 2 ^ 8 - 1

abbrev pub u16_max : ℕ
u16_max = 2 ^ 16 - 1

abbrev pub u32_max : ℕ
u32_max = 2 ^ 32 - 1

abbrev pub u64_max : ℕ
u64_max = 2 ^ 64 - 1

abbrev pub u128_max : ℕ
u128_max = 2 ^ 128 - 1

-- uN::try_from: a value above the target's maximum is refused.
abbrev pub try_from : ℕ → ℕ → Option ℕ
try_from limit n = if leb n limit then some n else none

abbrev pub add128 : ℕ → ℕ → ℕ
add128 a b = (a + b) % 2 ^ 128

abbrev pub sub128 : ℕ → ℕ → ℕ
sub128 a b = (a + 2 ^ 128 - b) % 2 ^ 128

abbrev pub add64 : ℕ → ℕ → ℕ
add64 a b = (a + b) % 2 ^ 64

abbrev pub sub64 : ℕ → ℕ → ℕ
sub64 a b = (a + 2 ^ 64 - b) % 2 ^ 64

-- u128::saturating_add, u128::saturating_mul
abbrev pub saturating_add : ℕ → ℕ → ℕ
saturating_add a b = min (a + b) u128_max

abbrev pub saturating_mul : ℕ → ℕ → ℕ
saturating_mul a b = min (a * b) u128_max

-- u128::checked_add, u128::checked_mul
abbrev pub checked_add : ℕ → ℕ → Option ℕ
checked_add a b = try_from u128_max (a + b)

abbrev pub checked_mul : ℕ → ℕ → Option ℕ
checked_mul a b = try_from u128_max (a * b)

-- An addition of words whose sum fits does not wrap.
pub add128_exact : (a b : ℕ) → a + b ≤ u128_max → add128 a b ≡ a + b
add128_exact a b h = omega arith

-- A subtraction that does not go below zero does not wrap.
pub sub128_exact : (a b : ℕ) → b ≤ a → a ≤ u128_max → sub128 a b ≡ a - b
sub128_exact a b h k = omega arith
