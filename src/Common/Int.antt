-- ===== src/Common/Int.antt =====
-- C's `int` where its sign matters: a result, or a negative error number.
use Prim.Native.Nat.{ℕ, zero, suc, compare, Ordering}
use mathlib.Core.Bool.{Bool, true, false}
use mathlib.Core.Logic.{◌⊎◌, inl, inr}
use mathlib.Core.Path.{◌≡◌, refl}

-- `negsuc n` is `- (n + 1)`.
pub data ℤ : Type 0 where
  pos : ℕ → ℤ
  negsuc : ℕ → ℤ

abbrev pub is_negative : ℤ → Bool
is_negative (pos n) = false
is_negative (negsuc n) = true

abbrev pub same_int : ℤ → ℤ → Bool
same_int (pos m) (pos n) = elim (compare m n) [ Ordering.eq ↦ true | _ ↦ false ]
same_int (negsuc m) (negsuc n) = elim (compare m n) [ Ordering.eq ↦ true | _ ↦ false ]
same_int m n = false

pub negative_cases : (r : ℤ) → is_negative r ≡ true → (n : ℕ) × (r ≡ negsuc n)
negative_cases (pos n) e = cc
negative_cases (negsuc n) e = (n, refl)

pub ℤ-cases : (r : ℤ) → (r ≡ pos 0) ⊎ (((n : ℕ) × (r ≡ pos (suc n))) ⊎ ((n : ℕ) × (r ≡ negsuc n)))
ℤ-cases (pos zero) = inl refl
ℤ-cases (pos (suc n)) = inr (inl (n, refl))
ℤ-cases (negsuc n) = inr (inr (n, refl))
