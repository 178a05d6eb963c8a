-- ===== src/Base/Wrapped.antt =====
-- A counter that wraps at 32 bits, taken modulo a power of two: it goes round in step.
use nff_go.Base.{
  ℕ, zero, suc, ◌+◌, ◌-◌, ◌*◌, ◌%◌, ◌^◌, ◌≡◌, ◌≤◌, ◌<◌, sym, ap, ◌∙◌, arith, ltb, if◌then◌else◌,
  u32, dec_lt,
}
use native.Mathlib.Nat.{
  pow-suc, mul_assoc, dvd-mul_right, mod-mod_of_dvd, mod-add-mod, mod-eq_of_lt, mod-eq-sub-mod,
  mod-lt, pow-le-pow_right, one-le-pow,
}

pow-add : (j k : ℕ) → 2 ^ (j + k) ≡ 2 ^ k * 2 ^ j
pow-add zero k = let same : 0 + k ≡ k = omega arith in rw same (omega arith)
pow-add (suc j) k =
    let more : suc j + k ≡ suc (j + k) = omega arith in
    rw (more, pow-suc 2 (j + k), pow-suc 2 j, pow-add j k) (mul_assoc (2 ^ k) (2 ^ j) 2)

pub u32-mod : (x k : ℕ) → k ≤ 32 → u32 x % 2 ^ k ≡ x % 2 ^ k
u32-mod x k h =
    let exponent : 32 ≡ 32 - k + k = omega arith in
    let whole : 2 ^ 32 ≡ 2 ^ k * 2 ^ (32 - k) = ap (λ t. 2 ^ t) exponent ∙ pow-add (32 - k) k in
    rw whole (mod-mod_of_dvd (2 ^ k) x (dvd-mul_right (2 ^ k) (2 ^ (32 - k))))

pub pow-pos : (k : ℕ) → 0 < 2 ^ k
pow-pos k = omega (arith, one-le-pow k 2)

pub pow-le : (j k : ℕ) → j ≤ k → 2 ^ j ≤ 2 ^ k
pow-le j k h = pow-le-pow_right {n = 2} (omega arith) h

pub mod_twice : (x m : ℕ) → x < m + m → x % m ≡ (if ltb x m then x else x - m)
mod_twice x m h = elim (dec_lt x m) [
  | yes l ↦ ground (arith, mod-eq_of_lt l)
  | no l ↦
      let le : m ≤ x = omega arith in
      let less : x - m < m = omega arith in ground (arith, mod-eq-sub-mod le ∙ mod-eq_of_lt less)
]

-- The next position is behind the end of the storage, or it is not.
pub u32-step :
    (c n k : ℕ)
    → k ≤ 32
    → n < 2 ^ k
    → u32 (c + n) % 2 ^ k
      ≡ (if ltb (c % 2 ^ k + n) (2 ^ k) then c % 2 ^ k + n else c % 2 ^ k + n - 2 ^ k)
u32-step c n k h l =
    let low = mod-lt c (pow-pos k) in
    let sum = u32-mod (c + n) k h ∙ sym (mod-add-mod c (2 ^ k) n) in
    sum ∙ mod_twice (c % 2 ^ k + n) (2 ^ k) (omega arith)
