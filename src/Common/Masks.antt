-- ===== src/Common/Masks.antt =====
-- `&`, `|` and `^` of words as arithmetic: bounds, masks, fields and inverses.
use Prim.Native.Nat.{
  ℕ, zero, suc, ◌+◌, ◌-◌, ◌*◌, ◌/◌, ◌%◌, ◌^◌, ◌≤◌, ◌<◌, min, max, bit_and, bit_or, bit_xor,
  bit_xor-bitwise,
}
use mathlib.Core.Path.{◌≡◌, refl, sym, ap, ap₂, ◌∙◌}
use native.Mathlib.Omega.{arith}
use native.Mathlib.Nat.{pow-suc, div-div-eq-div-mul, div-one, mod-one, one-le-pow}
use esp_misc.Common.Bits.{bit_and_step, bit_or_step, bit_xor_step}

pub pow_double : (k : ℕ) → 2 ^ suc k ≡ 2 * 2 ^ k
pow_double k = omega (arith, pow-suc 2 k)

pub bit_xor-lt : (k a b : ℕ) → a < 2 ^ k → b < 2 ^ k → bit_xor a b < 2 ^ k
bit_xor-lt zero zero zero ha hb = omega arith
bit_xor-lt zero (suc a) b ha hb = absurd (omega arith)
bit_xor-lt zero zero (suc b) ha hb = absurd (omega arith)
bit_xor-lt (suc k) a b ha hb = omega (
  arith,
  bit_xor_step a b,
  pow_double k,
  bit_xor-lt k (a / 2) (b / 2) (omega (arith, pow_double k)) (omega (arith, pow_double k)),
)

bit_xor_twice_below : (n a m : ℕ) → a ≤ n → m ≤ n → bit_xor (bit_xor a m) m ≡ a
bit_xor_twice_below zero zero zero h k = refl
bit_xor_twice_below zero (suc a) m h k = absurd (omega arith)
bit_xor_twice_below zero zero (suc m) h k = absurd (omega arith)
bit_xor_twice_below (suc n) a m h k =
    let half : bit_xor a m / 2 ≡ bit_xor (a / 2) (m / 2) = omega (arith, bit_xor_step a m) in
    bit_xor_step (bit_xor a m) m
    ∙ ap (λ t. bit_xor t (m / 2) * 2 + (bit_xor a m % 2 + m % 2) % 2) half
    ∙ omega
        (arith, bit_xor_step a m, bit_xor_twice_below n (a / 2) (m / 2) (omega arith) (omega arith))

-- Flipping the same bits twice gives the word back.
pub bit_xor_twice : (a m : ℕ) → bit_xor (bit_xor a m) m ≡ a
bit_xor_twice a m = bit_xor_twice_below (a + m) a m (omega arith) (omega arith)

pub bit_xor-half : (a b : ℕ) → bit_xor a b / 2 ≡ bit_xor (a / 2) (b / 2)
bit_xor-half a b = omega (arith, bit_xor_step a b)

pub bit_xor-zero : (a : ℕ) → bit_xor 0 a ≡ a
bit_xor-zero a = bit_xor-bitwise 0 a

bit_xor_self_below : (n a : ℕ) → a ≤ n → bit_xor a a ≡ 0
bit_xor_self_below zero zero h = refl
bit_xor_self_below zero (suc a) h = absurd (omega arith)
bit_xor_self_below (suc n) a h =
    omega (arith, bit_xor_step a a, bit_xor_self_below n (a / 2) (omega arith))

pub bit_xor_self : (a : ℕ) → bit_xor a a ≡ 0
bit_xor_self a = bit_xor_self_below a a (omega arith)

-- Flipping all `k` bits of a word counts down from the largest.
pub bit_xor_ones : (k a m : ℕ) → a < 2 ^ k → m + 1 ≡ 2 ^ k → bit_xor a m ≡ m - a
bit_xor_ones zero zero zero h e = refl
bit_xor_ones zero (suc a) m h e = absurd (omega arith)
bit_xor_ones zero zero (suc m) h e = absurd (omega arith)
bit_xor_ones (suc k) a m h e = omega (
  arith,
  pow_double k,
  bit_xor_step a m,
  bit_xor_ones k (a / 2) (m / 2) (omega (arith, pow_double k)) (omega (arith, pow_double k)),
)

pub bit_or_zero_below : (n a : ℕ) → a ≤ n → bit_or a 0 ≡ a
bit_or_zero_below n zero h = refl
bit_or_zero_below zero (suc a) h = absurd (omega arith)
bit_or_zero_below (suc n) (suc a) h =
    omega (arith, bit_or_step (suc a) 0, bit_or_zero_below n (suc a / 2) (omega arith))

-- A field put above `k` lower bits.
pub bit_or_sum : (k q r : ℕ) → r < 2 ^ k → bit_or (q * 2 ^ k) r ≡ q * 2 ^ k + r
bit_or_sum zero q zero h = omega (arith, bit_or_zero_below (q * 1) (q * 1) (omega arith))
bit_or_sum zero q (suc r) h = absurd (omega arith)
bit_or_sum (suc k) q r h =
    let twice : q * 2 ^ suc k ≡ 2 * (q * 2 ^ k) =
      omega (arith, ap (λ (t : ℕ). q * t) (pow_double k)) in
    let half : q * 2 ^ suc k / 2 ≡ q * 2 ^ k = omega arith in
    bit_or_step (q * 2 ^ suc k) r
    ∙ ap (λ t. bit_or t (r / 2) * 2 + max (q * 2 ^ suc k % 2) (r % 2)) half
    ∙ omega (arith, bit_or_sum k q (r / 2) (omega (arith, pow_double k)))

bit_and_zero_below : (n a : ℕ) → a ≤ n → bit_and a 0 ≡ 0
bit_and_zero_below n zero h = refl
bit_and_zero_below zero (suc a) h = absurd (omega arith)
bit_and_zero_below (suc n) (suc a) h =
    omega (arith, bit_and_step (suc a) 0, bit_and_zero_below n (suc a / 2) (omega arith))

pub bit_and-zero : (a : ℕ) → bit_and a 0 ≡ 0
bit_and-zero a = bit_and_zero_below a a (omega arith)

mod_double : (p a : ℕ) → 0 < p → a % (2 * p) ≡ a / 2 % p * 2 + a % 2
mod_double p a h = grind arith

-- The `k` low bits are a remainder.
pub bit_and_low : (k a m : ℕ) → m + 1 ≡ 2 ^ k → bit_and a m ≡ a % 2 ^ k
bit_and_low zero a zero e = omega (arith, bit_and-zero a)
bit_and_low zero a (suc m) e = absurd (omega arith)
bit_and_low (suc k) a m e = omega (
  arith,
  bit_and_step a m,
  pow_double k,
  ap (λ (t : ℕ). a % t) (pow_double k) ∙ mod_double (2 ^ k) a (omega (arith, pow_double k)),
  bit_and_low k (a / 2) (m / 2) (omega (arith, pow_double k)),
)

-- One bit of a word.
pub bit_and_bit : (k a : ℕ) → bit_and a (2 ^ k) ≡ a / 2 ^ k % 2 * 2 ^ k
bit_and_bit zero a = omega (arith, bit_and_low 1 a 1 (omega arith))
bit_and_bit (suc k) a =
    let even : 2 ^ suc k / 2 ≡ 2 ^ k = omega (arith, pow_double k) in
    let deeper : a / 2 ^ suc k ≡ a / 2 / 2 ^ k =
      ap (λ t. a / t) (pow_double k) ∙ sym (div-div-eq-div-mul a 2 (2 ^ k)) in
    let shifted : a / 2 / 2 ^ k % 2 * 2 ^ suc k ≡ a / 2 / 2 ^ k % 2 * (2 * 2 ^ k) =
      ap (λ t. a / 2 / 2 ^ k % 2 * t) (pow_double k) in
    bit_and_step a (2 ^ suc k)
    ∙ ap (λ t. bit_and (a / 2) t * 2 + min (a % 2) (2 ^ suc k % 2)) even
    ∙ omega (arith, pow_double k, shifted, bit_and_bit k (a / 2))
    ∙ ap (λ t. t % 2 * 2 ^ suc k) (sym deeper)

bit_xor_assoc_below :
    (n a b c : ℕ) → a ≤ n → b ≤ n → c ≤ n → bit_xor (bit_xor a b) c ≡ bit_xor a (bit_xor b c)
bit_xor_assoc_below zero zero b c ha hb hc =
    ap (λ t. bit_xor t c) (bit_xor-zero b) ∙ sym (bit_xor-zero (bit_xor b c))
bit_xor_assoc_below zero (suc a) b c ha hb hc = absurd (omega arith)
bit_xor_assoc_below (suc n) a b c ha hb hc =
    let left : bit_xor a b / 2 ≡ bit_xor (a / 2) (b / 2) = bit_xor-half a b in
    let right : bit_xor b c / 2 ≡ bit_xor (b / 2) (c / 2) = bit_xor-half b c in
    bit_xor_step (bit_xor a b) c
    ∙ ap (λ t. bit_xor t (c / 2) * 2 + (bit_xor a b % 2 + c % 2) % 2) left
    ∙ omega (
      arith,
      bit_xor_step a b,
      bit_xor_step b c,
      bit_xor_assoc_below n (a / 2) (b / 2) (c / 2) (omega arith) (omega arith) (omega arith),
    )
    ∙ ap (λ t. bit_xor (a / 2) t * 2 + (a % 2 + bit_xor b c % 2) % 2) (sym right)
    ∙ sym (bit_xor_step a (bit_xor b c))

pub bit_xor_assoc : (a b c : ℕ) → bit_xor (bit_xor a b) c ≡ bit_xor a (bit_xor b c)
bit_xor_assoc a b c =
    bit_xor_assoc_below (a + b + c) a b c (omega arith) (omega arith) (omega arith)

bit_xor_comm_below : (n a b : ℕ) → a ≤ n → b ≤ n → bit_xor a b ≡ bit_xor b a
bit_xor_comm_below zero zero zero ha hb = refl
bit_xor_comm_below zero (suc a) b ha hb = absurd (omega arith)
bit_xor_comm_below zero zero (suc b) ha hb = absurd (omega arith)
bit_xor_comm_below (suc n) a b ha hb = omega (
  arith,
  bit_xor_step a b,
  bit_xor_step b a,
  bit_xor_comm_below n (a / 2) (b / 2) (omega arith) (omega arith),
)

pub bit_xor_comm : (a b : ℕ) → bit_xor a b ≡ bit_xor b a
bit_xor_comm a b = bit_xor_comm_below (a + b) a b (omega arith) (omega arith)

pub bit_xor_sum : (k q r : ℕ) → r < 2 ^ k → bit_xor (q * 2 ^ k) r ≡ q * 2 ^ k + r
bit_xor_sum zero q zero h = omega (arith, bit_xor_comm (q * 1) 0, bit_xor-zero (q * 1))
bit_xor_sum zero q (suc r) h = absurd (omega arith)
bit_xor_sum (suc k) q r h =
    let twice : q * 2 ^ suc k ≡ 2 * (q * 2 ^ k) =
      omega (arith, ap (λ (t : ℕ). q * t) (pow_double k)) in
    let half : q * 2 ^ suc k / 2 ≡ q * 2 ^ k = omega arith in
    bit_xor_step (q * 2 ^ suc k) r
    ∙ ap (λ t. bit_xor t (r / 2) * 2 + (q * 2 ^ suc k % 2 + r % 2) % 2) half
    ∙ omega (arith, bit_xor_sum k q (r / 2) (omega (arith, pow_double k)))

-- Shifting right and keeping the low bits both go through `^`.
pub div_pow_suc : (k a : ℕ) → a / 2 ^ suc k ≡ a / 2 / 2 ^ k
div_pow_suc k a = ap (λ t. a / t) (pow_double k) ∙ sym (div-div-eq-div-mul a 2 (2 ^ k))

pub bit_xor-shift : (k a b : ℕ) → bit_xor a b / 2 ^ k ≡ bit_xor (a / 2 ^ k) (b / 2 ^ k)
bit_xor-shift zero a b = div-one (bit_xor a b) ∙ ap₂ bit_xor (sym (div-one a)) (sym (div-one b))
bit_xor-shift (suc k) a b =
    div_pow_suc k (bit_xor a b)
    ∙ ap (λ t. t / 2 ^ k) (bit_xor-half a b)
    ∙ bit_xor-shift k (a / 2) (b / 2)
    ∙ ap₂ bit_xor (sym (div_pow_suc k a)) (sym (div_pow_suc k b))

mod_pow_suc : (k a : ℕ) → a % 2 ^ suc k ≡ a / 2 % 2 ^ k * 2 + a % 2
mod_pow_suc k a =
    ap (λ t. a % t) (pow_double k)
    ∙ mod_double (2 ^ k) a (omega (arith, pow_double k, one-le-pow k 2))

pub bit_xor-low : (k a b : ℕ) → bit_xor a b % 2 ^ k ≡ bit_xor (a % 2 ^ k) (b % 2 ^ k)
bit_xor-low zero a b = refl_of (mod-one (bit_xor a b)) (mod-one a) (mod-one b)
  where
    refl_of :
        bit_xor a b % 1 ≡ 0 → a % 1 ≡ 0 → b % 1 ≡ 0 → bit_xor a b % 1 ≡ bit_xor (a % 1) (b % 1)
    refl_of p q r = p ∙ ap₂ bit_xor (sym q) (sym r)
bit_xor-low (suc k) a b =
    let ha : a % 2 ^ suc k / 2 ≡ a / 2 % 2 ^ k = omega (arith, mod_pow_suc k a) in
    let hb : b % 2 ^ suc k / 2 ≡ b / 2 % 2 ^ k = omega (arith, mod_pow_suc k b) in
    mod_pow_suc k (bit_xor a b)
    ∙ ap (λ t. t % 2 ^ k * 2 + bit_xor a b % 2) (bit_xor-half a b)
    ∙ omega
        (arith, bit_xor-low k (a / 2) (b / 2), bit_xor_step a b, mod_pow_suc k a, mod_pow_suc k b)
    ∙ ap₂ (λ s t. bit_xor s t * 2 + (a % 2 ^ suc k % 2 + b % 2 ^ suc k % 2) % 2) (sym ha) (sym hb)
    ∙ sym (bit_xor_step (a % 2 ^ suc k) (b % 2 ^ suc k))

bit_or_comm_below : (n a b : ℕ) → a ≤ n → b ≤ n → bit_or a b ≡ bit_or b a
bit_or_comm_below zero zero zero ha hb = refl
bit_or_comm_below zero (suc a) b ha hb = absurd (omega arith)
bit_or_comm_below zero zero (suc b) ha hb = absurd (omega arith)
bit_or_comm_below (suc n) a b ha hb = omega (
  arith,
  bit_or_step a b,
  bit_or_step b a,
  bit_or_comm_below n (a / 2) (b / 2) (omega arith) (omega arith),
)

-- The next higher bit set in a word of `k` bits.
pub bit_or_next : (k r : ℕ) → r < 2 ^ k → bit_or r (2 ^ k) ≡ r + 2 ^ k
bit_or_next k r h =
    ap (bit_or r) (omega arith)
    ∙ bit_or_comm_below (r + 1 * 2 ^ k) r (1 * 2 ^ k) (omega arith) (omega arith)
    ∙ bit_or_sum k 1 r h
    ∙ omega arith

bit_and_comm_below : (n a b : ℕ) → a ≤ n → b ≤ n → bit_and a b ≡ bit_and b a
bit_and_comm_below zero zero zero ha hb = refl
bit_and_comm_below zero (suc a) b ha hb = absurd (omega arith)
bit_and_comm_below zero zero (suc b) ha hb = absurd (omega arith)
bit_and_comm_below (suc n) a b ha hb = omega (
  arith,
  bit_and_step a b,
  bit_and_step b a,
  bit_and_comm_below n (a / 2) (b / 2) (omega arith) (omega arith),
)

pub bit_and_comm : (a b : ℕ) → bit_and a b ≡ bit_and b a
bit_and_comm a b = bit_and_comm_below (a + b) a b (omega arith) (omega arith)
