-- ===== src/Low/Ring/Dequeue.antt =====
-- Taking entries from a ring.
use nff_go.Base.{
  ℕ, suc, ◌+◌, ◌%◌, ◌^◌, ◌≡◌, ◌≤◌, ◌<◌, refl, sym, ap, ◌∙◌, arith, List, ◌++◌, length, ltb, ◌==◌,
  take, drop, u32, sub32, take-drop, length-take, drop-append, take-append, dec_lt, true, false,
  ℕ_discrete,
}
use native.Mathlib.Nat.{mod-lt}
use Prim.Native.Nat.{min}
use nff_go.Base.Wrapped.{u32-step, pow-pos}
use nff_go.Common.Errors.{ok}
use nff_go.Low.Ring.{Ring, dequeue_reserved, nffgo_ring_mc_do_dequeue, dequeue_burst}
use nff_go.Low.Ring.Slots.{wrap, window, length-window, window-append, window-congr}
use nff_go.Low.Ring.Pointers.{dequeue_ptrs-window}
use nff_go.Low.Ring.State.{held, contents, IsRing, size_bounds}

-- `n` entries are taken.
module _ (r : Ring) (w : IsRing r) (n : ℕ) (fits : n ≤ held r) where
  abbrev shrunk : Ring
  shrunk = record r { cons_head = u32 (r.cons_head + u32 n); cons_tail = u32 (r.cons_head + u32 n) }

  bounds : (r.size ≡ suc r.mask) × (r.size ≤ 2 ^ 29)
  bounds = size_bounds r w

  shrunk-held : held shrunk + n ≡ held r
  shrunk-held = omega (arith, w.prod_word, w.cons_word, w.room, bounds.0, bounds.1)

  shrunk-IsRing : IsRing shrunk
  shrunk-IsRing = record {
    k = w.k;
    k_small = w.k_small;
    size_pow = w.size_pow;
    mask_pow = w.mask_pow;
    prod_done = w.prod_done;
    cons_done = refl;
    prod_word = w.prod_word;
    cons_word = omega arith;
    room = omega (arith, shrunk-held, w.room);
  }

  cons-index : u32 (r.cons_head + u32 n) % r.size ≡ wrap r.size (r.cons_head % r.size + n)
  cons-index =
      let small : u32 n ≡ n = omega (arith, w.room, bounds.0, bounds.1) in
      let below : n < 2 ^ w.k = omega (arith, w.room, w.mask_pow, pow-pos w.k) in
      rw (small, w.size_pow) (u32-step r.cons_head n w.k (omega (arith, w.k_small)) below)

  shrunk-contents : contents r ≡ window r.size r.cells (r.cons_head % r.size) n ++ contents shrunk
  shrunk-contents =
      let size = r.size in
      let y = r.cons_head % r.size in
      let low : y < size = mod-lt r.cons_head (omega (arith, bounds.0)) in
      let total : held r ≡ n + held shrunk = omega (arith, shrunk-held) in
      let same : window size r.cells (y + n) (held shrunk) ≡ contents shrunk =
        window-congr size r.cells (y + n) (u32 (r.cons_head + u32 n) % size) (held shrunk)
          (λ t m. ground (arith, cons-index, bounds.0, shrunk-held, w.room)) in
      ap (λ t. window size r.cells y t) total
      ∙ window-append size r.cells y n (held shrunk)
      ∙ ap (λ t. window size r.cells y n ++ t) same

  taken-eq : take n (contents r) ≡ window r.size r.cells (r.cons_head % r.size) n
  taken-eq =
      let first = window r.size r.cells (r.cons_head % r.size) n in
      let len : length first ≡ n = length-window r.size r.cells (r.cons_head % r.size) n in
      ap (take n) shrunk-contents ∙ (rw len at (take-append first (contents shrunk)))

  left-eq : drop n (contents r) ≡ contents shrunk
  left-eq =
      let first = window r.size r.cells (r.cons_head % r.size) n in
      let len : length first ≡ n = length-window r.size r.cells (r.cons_head % r.size) n in
      ap (drop n) shrunk-contents ∙ (rw len at (drop-append first (contents shrunk)))

  pub dequeue_reserved-shrunk :
      (buffer : List ℕ)
      → n ≤ length buffer
      → dequeue_reserved r buffer n ≡ ok (shrunk, take n (contents r) ++ drop n buffer, n)
  unfolding dequeue_reserved
  dequeue_reserved-shrunk buffer l =
      let read =
        dequeue_ptrs-window r w.k w.k_small w.size_pow r.cons_head n (take n buffer) (drop n buffer)
          (length-take n buffer l) (omega (arith, w.room, bounds.0)) in
      rw (rw (take-drop n buffer, ← w.mask_pow, ← taken-eq) at read) refl

-- `next` is `r` without its first `n` entries, and these are now in front of the table `filled`.
pub record Takes (r : Ring) (buffer : List ℕ) (n : ℕ) (next : Ring) (filled : List ℕ) : Type 0 where
  pub valid : IsRing next
  pub entries : contents next ≡ drop n (contents r)
  pub copied : filled ≡ take n (contents r) ++ drop n buffer
  pub same_mask : next.mask ≡ r.mask

dequeue_reserved-Takes :
    (r : Ring) (w : IsRing r) (n : ℕ) (buffer : List ℕ)
    → n ≤ held r
    → n ≤ length buffer
    → (next : Ring) × (filled : List ℕ) × (dequeue_reserved r buffer n ≡ ok (next, filled, n))
      × Takes r buffer n next filled
dequeue_reserved-Takes r w n buffer fits l = (
  shrunk r w n fits,
  take n (contents r) ++ drop n buffer,
  dequeue_reserved-shrunk r w n fits buffer l,
  record {
    valid = shrunk-IsRing r w n fits;
    entries = sym (left-eq r w n fits);
    copied = refl;
    same_mask = refl;
  },
)

entries-eq : (r : Ring) → IsRing r → sub32 r.prod_tail r.cons_head ≡ held r
entries-eq r w = omega (arith, w.prod_done)

pub dequeue_burst-Takes :
    (r : Ring)
    → IsRing r
    → (buffer : List ℕ) (count : ℕ) → count < 2 ^ 32
    → count ≤ length buffer
    → (next : Ring) × (filled : List ℕ) × (dequeue_burst r buffer count
        ≡ ok (next, filled, min count (held r)))
      × Takes r buffer (min count (held r)) next filled
unfolding dequeue_burst nffgo_ring_mc_do_dequeue
dequeue_burst-Takes r w buffer count word l =
    let full : u32 count ≡ count = omega arith in
    rw (entries-eq r w, full)
      (elim (dec_lt (held r) count) [
        | yes m ↦
            let test : ltb (held r) count ≡ true = ground arith in
            let least : min count (held r) ≡ held r = omega arith in
            rw (test, least)
              (elim (ℕ_discrete (held r) 0) [
                | yes z ↦ rw z (
                  r,
                  buffer,
                  refl,
                  record { valid = w; entries = refl; copied = refl; same_mask = refl },
                )
                | no z ↦
                    let test : (held r == 0) ≡ false = ground arith in
                    rw test (dequeue_reserved-Takes r w (held r) buffer (omega arith) (omega arith))
              ])
        | no m ↦
            let test : ltb (held r) count ≡ false = ground arith in
            let least : min count (held r) ≡ count = omega arith in
            rw (test, least) (dequeue_reserved-Takes r w count buffer (omega arith) l)
      ])
