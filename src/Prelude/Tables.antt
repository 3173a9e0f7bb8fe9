-- ===== src/Prelude/Tables.antt =====
-- Facts about small numbers, checked value by value.
use mathlib.Core.Bool.{◌&&◌, true, Bool}
use mathlib.Core.Path.{◌≡◌}
use native.Mathlib.Omega.{arith}
use Prim.Native.Nat.{ℕ, zero, suc, ◌<◌}

unfoldable pub all_below : (bound : ℕ) (test : ℕ → Bool) → Bool
all_below zero test = true
all_below (suc last) test = test last && all_below last test

pub all_below→ :
    (bound : ℕ) (test : ℕ → Bool)
    → all_below bound test ≡ true
    → (i : ℕ) → i < bound
    → test i ≡ true
unfolding all_below
all_below→ zero test all i h = absurd (omega arith)
all_below→ (suc last) test all i h = ground (arith, all_below→ last test (ground arith) i)
