-- ===== src/Base/Bits.antt =====
-- Laws of `&`, `|` and `^` at variables, from one equation for the lowest digit.
use Prim.Native.Nat.{
  ℕ, zero, suc, ◌+◌, ◌-◌, ◌*◌, ◌/◌, ◌%◌, ◌^◌, ◌≤◌, ◌<◌, min, max, bit_and, bit_or, bit_xor, digits,
  bitwise, bit_and-bitwise, bit_or-bitwise, bit_xor-bitwise, differ,
}
use mathlib.Core.Path.{◌≡◌, refl, sym, ap, ◌∙◌}
use mathlib.Core.Logic.{◌↔◌}
use mathlib.Core.WellFounded
use native.Mathlib.Nat.{pow-suc, one-le-pow}
use native.Mathlib.Omega.{arith}
use nff_go.Base.Order.{lt_wf}

-- More fuel than the first number changes nothing.
module _ (z : ℕ → ℕ) (f : ℕ → ℕ → ℕ) where
  digits-enough : (n a b : ℕ) → a ≤ n → digits z f n a b ≡ digits z f a a b
  digits-enough n a =
      WellFounded.induction lt_wf {C = λ a. (n b : ℕ) → a ≤ n → digits z f n a b ≡ digits z f a a b}
        a step n
    where
      step :
          (a : ℕ)
          → ((m : ℕ) → m < a → (n b : ℕ) → m ≤ n → digits z f n m b ≡ digits z f m m b)
          → (n b : ℕ) → a ≤ n
          → digits z f n a b ≡ digits z f a a b
      step zero ih zero b h = refl
      step zero ih (suc n) b h = refl
      step (suc a) ih zero b h = absurd (omega arith)
      step (suc a) ih (suc n) b h = omega (
        arith,
        ih (suc a / 2) (omega arith) n (b / 2) (omega arith),
        ih (suc a / 2) (omega arith) a (b / 2) (omega arith),
      )

  bitwise-digit :
      (a b : ℕ)
      → bitwise z f (suc a) b ≡ bitwise z f (suc a / 2) (b / 2) * 2 + f (suc a % 2) (b % 2)
  bitwise-digit a b = omega (arith, digits-enough a (suc a / 2) (b / 2) (omega arith))

pub bit_or_digit : (a b : ℕ) → bit_or a b ≡ bit_or (a / 2) (b / 2) * 2 + max (a % 2) (b % 2)
bit_or_digit zero b = simp bit_or-bitwise (omega arith)
bit_or_digit (suc a) b = simp bit_or-bitwise (bitwise-digit (λ y. y) max a b)

pub bit_and_digit : (a b : ℕ) → bit_and a b ≡ bit_and (a / 2) (b / 2) * 2 + min (a % 2) (b % 2)
bit_and_digit zero b = simp bit_and-bitwise (omega arith)
bit_and_digit (suc a) b = simp bit_and-bitwise (bitwise-digit (λ y. 0) min a b)

pub bit_xor_digit : (a b : ℕ) → bit_xor a b ≡ bit_xor (a / 2) (b / 2) * 2 + differ (a % 2) (b % 2)
bit_xor_digit zero b = simp bit_xor-bitwise (omega arith)
bit_xor_digit (suc a) b = simp bit_xor-bitwise (bitwise-digit (λ y. y) differ a b)

-- Strong induction on a number by its half.
module _ {ℓ} (P : ℕ → Type ℓ) (base : P 0) (half : (a : ℕ) → P (suc a / 2) → P (suc a)) where
  halving_step : (a : ℕ) → ((m : ℕ) → m < a → P m) → P a
  halving_step zero ih = base
  halving_step (suc a) ih = half a (ih (suc a / 2) (omega arith))

  halving_induction : (a : ℕ) → P a
  halving_induction a = WellFounded.induction lt_wf {C = P} a halving_step

pub bit_and-zero : (a : ℕ) → bit_and a 0 ≡ 0
bit_and-zero =
    halving_induction (λ a. bit_and a 0 ≡ 0) refl
      (λ a ih. omega (arith, bit_and_digit (suc a) 0, ih))

pub bit_or-zero : (a : ℕ) → bit_or a 0 ≡ a
bit_or-zero =
    halving_induction (λ a. bit_or a 0 ≡ a) refl (λ a ih. omega (arith, bit_or_digit (suc a) 0, ih))

double-pow : (k q : ℕ) → q * 2 ^ suc k ≡ q * 2 ^ k * 2
double-pow k q = omega (arith, ap (λ (t : ℕ). q * t) (pow-suc 2 k))

-- A shifted value and a value that fits the free bits: `|` adds them.
pub bit_or-add : (k q r : ℕ) → r < 2 ^ k → bit_or (q * 2 ^ k) r ≡ q * 2 ^ k + r
bit_or-add zero q r h = ground (arith, bit_or-zero q)
bit_or-add (suc k) q r h = ground (
  arith,
  double-pow k q,
  pow-suc 2 k,
  bit_or_digit (q * 2 ^ suc k) r,
  bit_or-add k q (r / 2) (omega (arith, pow-suc 2 k)),
)

-- `&` with `k` ones is the remainder.
bit_and-ones : (k q r : ℕ) → r < 2 ^ k → bit_and (q * 2 ^ k + r) (2 ^ k - 1) ≡ r
bit_and-ones zero q r h = rw bit_and-zero (omega arith)
bit_and-ones (suc k) q r h = ground (
  arith,
  double-pow k q,
  pow-suc 2 k,
  one-le-pow k 2,
  bit_and_digit (q * 2 ^ suc k + r) (2 ^ suc k - 1),
  bit_and-ones k q (r / 2) (omega (arith, pow-suc 2 k)),
)

pub bit_and-low : (k a : ℕ) → bit_and a (2 ^ k - 1) ≡ a % 2 ^ k
bit_and-low k a = ground (arith, one-le-pow k 2, bit_and-ones k (a / 2 ^ k) (a % 2 ^ k))

-- `&` with a mask whose `k` lowest bits are clear.
bit_and-clear :
    (k q r m : ℕ) → r < 2 ^ k → bit_and (q * 2 ^ k + r) (m * 2 ^ k) ≡ bit_and q m * 2 ^ k
bit_and-clear zero q r m h = ground arith
bit_and-clear (suc k) q r m h = ground (
  arith,
  double-pow k q,
  double-pow k m,
  double-pow k (bit_and q m),
  pow-suc 2 k,
  bit_and_digit (q * 2 ^ suc k + r) (m * 2 ^ suc k),
  bit_and-clear k q (r / 2) m (omega (arith, pow-suc 2 k)),
)

pub bit_and-high : (k a m : ℕ) → bit_and a (m * 2 ^ k) ≡ bit_and (a / 2 ^ k) m * 2 ^ k
bit_and-high k a m = ground (arith, one-le-pow k 2, bit_and-clear k (a / 2 ^ k) (a % 2 ^ k) m)

differ-bit : (a b : ℕ) → a < 2 → b < 2 → differ a b < 2
differ-bit zero b h k = k
differ-bit (suc a) zero h k = h
differ-bit (suc zero) (suc zero) h k = omega arith
differ-bit (suc zero) (suc (suc b)) h k = absurd (omega arith)
differ-bit (suc (suc a)) (suc b) h k = absurd (omega arith)

differ_iff : (a b m : ℕ) → a < 2 → b < 2 → m < 2 → (min (differ a b) m ≡ 0) ↔ (min a m ≡ min b m)
differ_iff zero b m h k l = (λ e. omega arith, λ e. omega arith)
differ_iff (suc zero) zero m h k l = (λ e. omega arith, λ e. omega arith)
differ_iff (suc zero) (suc zero) m h k l = (λ e. refl, λ e. omega arith)
differ_iff (suc zero) (suc (suc b)) m h k l = absurd (omega arith)
differ_iff (suc (suc a)) b m h k l = absurd (omega arith)

module _ (a b m : ℕ) where
  xor_and_digit :
      bit_and (bit_xor a b) m
      ≡ bit_and (bit_xor (a / 2) (b / 2)) (m / 2) * 2 + min (differ (a % 2) (b % 2)) (m % 2)
  xor_and_digit = ground (
    arith,
    bit_xor_digit a b,
    bit_and_digit (bit_xor a b) m,
    differ-bit (a % 2) (b % 2) (omega arith) (omega arith),
  )

  masked_difference_step :
      ((bit_and (bit_xor (a / 2) (b / 2)) (m / 2) ≡ 0)
        ↔ (bit_and (a / 2) (m / 2) ≡ bit_and (b / 2) (m / 2)))
      → (bit_and (bit_xor a b) m ≡ 0) ↔ (bit_and a m ≡ bit_and b m)
  masked_difference_step ih = (
    λ e. omega (
      arith,
      e,
      xor_and_digit,
      bit_and_digit a m,
      bit_and_digit b m,
      ih.0 (omega (arith, xor_and_digit)),
      (differ_iff (a % 2) (b % 2) (m % 2) (omega arith) (omega arith) (omega arith)).0
          (omega (arith, xor_and_digit)),
    ),
    λ e. omega (
      arith,
      xor_and_digit,
      ih.1 (omega (arith, bit_and_digit a m, bit_and_digit b m)),
      (differ_iff (a % 2) (b % 2) (m % 2) (omega arith) (omega arith) (omega arith)).1
          (omega (arith, bit_and_digit a m, bit_and_digit b m)),
    ),
  )

zero-bit_xor : (b : ℕ) → bit_xor 0 b ≡ b
zero-bit_xor b = bit_xor-bitwise 0 b

pub zero-bit_and : (m : ℕ) → bit_and 0 m ≡ 0
zero-bit_and m = bit_and-bitwise 0 m

-- A masked difference is zero exactly when both sides agree under the mask.
pub masked_difference : (a b m : ℕ) → (bit_and (bit_xor a b) m ≡ 0) ↔ (bit_and a m ≡ bit_and b m)
masked_difference =
    halving_induction (λ a. (b m : ℕ) → (bit_and (bit_xor a b) m ≡ 0) ↔ (bit_and a m ≡ bit_and b m))
      (λ b m. (
        λ e. zero-bit_and m ∙ sym (rw (zero-bit_xor b) at e),
        λ e. rw (zero-bit_xor b) (sym e ∙ zero-bit_and m),
      ))
      λ a ih b m. masked_difference_step (suc a) b m (ih (b / 2) (m / 2))
