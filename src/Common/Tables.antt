-- ===== src/Common/Tables.antt =====
-- Facts about every number below a bound, by evaluation of a test at each.
use Prim.Native.Nat.{ℕ, zero, suc, ◌<◌}
use mathlib.Core.Path.{◌≡◌}
use mathlib.Core.Bool.{Bool, true, ◌&&◌}
use native.Mathlib.Omega.{arith}
use esp_misc.Common.Tests.{◌==◌, eq_of_==}

unfoldable pub holds_below : ℕ → (ℕ → Bool) → Bool
holds_below zero test = true
holds_below (suc n) test = test n && holds_below n test

holds_at : (n : ℕ) (test : ℕ → Bool) (i : ℕ) → holds_below n test ≡ true → i < n → test i ≡ true
unfolding holds_below
holds_at zero test i all lt = absurd (omega arith)
holds_at (suc n) test i all lt = ground (arith, holds_at n test i)

-- Two functions that agree at every tested number agree below the bound.
pub table_eq :
    (n : ℕ) (f g : ℕ → ℕ) → holds_below n (λ i. f i == g i) ≡ true → (i : ℕ) → i < n → f i ≡ g i
table_eq n f g all i lt = eq_of_== (f i) (g i) (holds_at n (λ i. f i == g i) i all lt)

pub table_holds :
    (n : ℕ) (test : ℕ → Bool) → holds_below n test ≡ true → (i : ℕ) → i < n → test i ≡ true
table_holds n test all i lt = holds_at n test i all lt
