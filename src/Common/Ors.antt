-- ===== src/Common/Ors.antt =====
-- Laws of `|` on words: it is a semilattice, and commutes with shifts.
use Prim.Native.Nat.{ℕ, zero, suc, ◌+◌, ◌-◌, ◌*◌, ◌/◌, ◌%◌, ◌^◌, ◌≤◌, ◌<◌, max, bit_or}
use mathlib.Core.Path.{◌≡◌, refl, sym, ap, ap₂, ◌∙◌}
use native.Mathlib.Omega.{arith}
use native.Mathlib.Nat.{div-one}
use esp_misc.Common.Bits.{bit_or_step}
use esp_misc.Common.Masks.{pow_double, div_pow_suc, bit_or_zero_below}

pub bit_or_zero : (a : ℕ) → bit_or a 0 ≡ a
bit_or_zero a = bit_or_zero_below a a (omega arith)

bit_or_comm_below : (n a b : ℕ) → a ≤ n → b ≤ n → bit_or a b ≡ bit_or b a
bit_or_comm_below zero zero zero ha hb = refl
bit_or_comm_below zero (suc a) b ha hb = absurd (omega arith)
bit_or_comm_below zero zero (suc b) ha hb = absurd (omega arith)
bit_or_comm_below (suc n) a b ha hb = omega (
  arith,
  bit_or_step a b,
  bit_or_step b a,
  bit_or_comm_below n (a / 2) (b / 2) (omega arith) (omega arith),
)

pub bit_or_comm : (a b : ℕ) → bit_or a b ≡ bit_or b a
bit_or_comm a b = bit_or_comm_below (a + b) a b (omega arith) (omega arith)

pub bit_or-half : (a b : ℕ) → bit_or a b / 2 ≡ bit_or (a / 2) (b / 2)
bit_or-half a b = omega (arith, bit_or_step a b)

bit_or_assoc_below :
    (n a b c : ℕ) → a ≤ n → b ≤ n → c ≤ n → bit_or (bit_or a b) c ≡ bit_or a (bit_or b c)
bit_or_assoc_below zero zero zero zero ha hb hc = refl
bit_or_assoc_below zero (suc a) b c ha hb hc = absurd (omega arith)
bit_or_assoc_below zero zero (suc b) c ha hb hc = absurd (omega arith)
bit_or_assoc_below zero zero zero (suc c) ha hb hc = absurd (omega arith)
bit_or_assoc_below (suc n) a b c ha hb hc =
    bit_or_step (bit_or a b) c
    ∙ ap (λ t. bit_or t (c / 2) * 2 + max (bit_or a b % 2) (c % 2)) (bit_or-half a b)
    ∙ omega (
      arith,
      bit_or_step a b,
      bit_or_step b c,
      bit_or_assoc_below n (a / 2) (b / 2) (c / 2) (omega arith) (omega arith) (omega arith),
    )
    ∙ ap (λ t. bit_or (a / 2) t * 2 + max (a % 2) (bit_or b c % 2)) (sym (bit_or-half b c))
    ∙ sym (bit_or_step a (bit_or b c))

pub bit_or_assoc : (a b c : ℕ) → bit_or (bit_or a b) c ≡ bit_or a (bit_or b c)
bit_or_assoc a b c = bit_or_assoc_below (a + b + c) a b c (omega arith) (omega arith) (omega arith)

pub bit_or-shift : (k a b : ℕ) → bit_or a b / 2 ^ k ≡ bit_or (a / 2 ^ k) (b / 2 ^ k)
bit_or-shift zero a b = div-one (bit_or a b) ∙ ap₂ bit_or (sym (div-one a)) (sym (div-one b))
bit_or-shift (suc k) a b =
    div_pow_suc k (bit_or a b)
    ∙ ap (λ t. t / 2 ^ k) (bit_or-half a b)
    ∙ bit_or-shift k (a / 2) (b / 2)
    ∙ ap₂ bit_or (sym (div_pow_suc k a)) (sym (div_pow_suc k b))

-- Below a field of ones.
pub bit_or_ones : (k r : ℕ) → r < 2 ^ k → bit_or r (2 ^ k - 1) ≡ 2 ^ k - 1
bit_or_ones zero zero h = refl
bit_or_ones zero (suc r) h = absurd (omega arith)
bit_or_ones (suc k) r h =
    let half : (2 ^ suc k - 1) / 2 ≡ 2 ^ k - 1 = omega (arith, pow_double k) in
    bit_or_step r (2 ^ suc k - 1)
    ∙ ap (λ t. bit_or (r / 2) t * 2 + max (r % 2) ((2 ^ suc k - 1) % 2)) half
    ∙ omega (arith, pow_double k, bit_or_ones k (r / 2) (omega (arith, pow_double k)))
