-- ===== src/Packet/Checksum/Reduce.antt =====
-- `reduceChecksum` is the one's complement reduction: it ends, and keeps the sum modulo 65535.
use nff_go.Base.{ℕ, ◌+◌, ◌%◌, ◌^◌, ◌<◌, ◌≡◌, ◌↔◌, arith, dec_lt, lt_wf, not16}
use nff_go.Base.Bits.{bit_and-low}
use native.Mathlib.Bridge.{le_prop}
use mathlib.Core.Logic.{dif_pos, dif_neg}
use mathlib.Core.WellFounded.{Acc}
use nff_go.Packet.Checksum.{fold_carry, fold_carry-lt, reduce_loop, reduce_checksum}

-- The reduced sum `r` of `s`.
pub record Reduces (s r : ℕ) : Type 0 where
  pub fits : r < 2 ^ 16
  pub same : r % 65535 ≡ s % 65535
  pub positive : 0 < s → 0 < r
  pub zero_from : s ≡ 0 → r ≡ 0

fold_carry-same :
    (s : ℕ) → s < 2 ^ 32 → 0xffff < s → (fold_carry s % 65535 ≡ s % 65535) × (0 < fold_carry s)
unfolding fold_carry
fold_carry-same s fits h = (omega (arith, bit_and-low 16 s), omega (arith, bit_and-low 16 s))

reduce_loop-Reduces : (s : ℕ) (w : Acc ◌<◌ s) → s < 2 ^ 32 → Reduces s (reduce_loop s w)
unfolding reduce_loop
reduce_loop-Reduces s (Acc.intro _ smaller) fits = elim (dec_lt 0xffff s) [
  | yes h ↦
      let ih =
        reduce_loop-Reduces (fold_carry s) (smaller (fold_carry s) (fold_carry-lt s h))
          (omega (arith, fold_carry-lt s h)) in
      rw (dif_pos (dec_lt 0xffff s) le_prop h) (record {
        fits = ih.fits;
        same = omega (arith, ih.same, fold_carry-same s fits h);
        positive = λ e. ih.positive (fold_carry-same s fits h).1;
        zero_from = λ e. absurd (omega arith);
      })
  | no h ↦ rw (dif_neg (dec_lt 0xffff s) h) (omega arith)
]

-- For every uint32 sum the loop ends in a uint16 that is the sum modulo 65535, and is zero for a
-- zero sum only.
pub reduce_checksum-Reduces : (s : ℕ) → s < 2 ^ 32 → Reduces s (reduce_checksum s)
unfolding reduce_checksum
reduce_checksum-Reduces s h = reduce_loop-Reduces s (lt_wf.apply s) h

-- A receiver's sum is all ones exactly when the stored checksum `c` is the complement of the
-- reduced sum of the other words, the two forms of zero taken as one.
pub reduce_checksum_receiver :
    (s c : ℕ)
    → s + c < 2 ^ 32
    → 0 < s + c
    → c < 2 ^ 16
    → (reduce_checksum (s + c) ≡ 0xffff) ↔ (c % 65535 ≡ not16 (reduce_checksum s) % 65535)
reduce_checksum_receiver s c fits pos small =
    let whole = reduce_checksum-Reduces (s + c) fits in
    let rest = reduce_checksum-Reduces s (omega arith) in
    (
      λ e. omega (arith, whole.same, rest.same, rest.fits),
      λ e. omega (arith, whole.same, rest.same, rest.fits, whole.fits, whole.positive pos),
    )
