-- ===== src/Low/Ring/Enqueue.antt =====
-- Adding entries to a ring.
use nff_go.Base.{
  ℕ, suc, ◌+◌, ◌-◌, ◌%◌, ◌^◌, ◌≡◌, ◌≤◌, ◌<◌, refl, sym, ap, ap₂, ◌∙◌, arith, List, ◌++◌, length,
  ltb, ◌==◌, take, drop, u32, sub32, take-drop, length-take, dec_lt, append_nil, true, false,
  ℕ_discrete,
}
use native.Mathlib.Nat.{mod-lt}
use Prim.Native.Nat.{min}
use nff_go.Base.Wrapped.{pow-le}
use nff_go.Common.Errors.{ok}
use nff_go.Low.Ring.{Ring, enqueue_reserved, nffgo_ring_mp_do_enqueue, enqueue_burst}
use nff_go.Low.Ring.Slots.{
  window, fill, window-fill_before, window-fill_same, window-append, fill-congr,
}
use nff_go.Low.Ring.Pointers.{enqueue_ptrs-fill}
use nff_go.Low.Ring.State.{held, contents, IsRing, prod-index, size_bounds}

-- `n` entries are added.
module _ (r : Ring) (w : IsRing r) (n : ℕ) (fits : n + held r ≤ r.mask) where
  abbrev grown : (ℕ → ℕ) → Ring
  grown written = record r {
    prod_head = u32 (r.prod_head + u32 n);
    prod_tail = u32 (r.prod_head + u32 n);
    cells = written;
  }

  bounds : (r.size ≡ suc r.mask) × (r.size ≤ 2 ^ 29)
  bounds = size_bounds r w

  grown-held : (written : ℕ → ℕ) → held (grown written) ≡ held r + n
  grown-held written = omega (arith, w.prod_word, w.cons_word, bounds.0, bounds.1)

  grown-IsRing : (written : ℕ → ℕ) → IsRing (grown written)
  grown-IsRing written = record {
    k = w.k;
    k_small = w.k_small;
    size_pow = w.size_pow;
    mask_pow = w.mask_pow;
    prod_done = refl;
    cons_done = w.cons_done;
    prod_word = omega arith;
    cons_word = w.cons_word;
    room = omega (arith, grown-held written);
  }

  grown-contents :
      (vs : List ℕ)
      → length vs ≡ n
      → contents (grown (fill r.size r.cells (r.prod_head % r.size) vs)) ≡ contents r ++ vs
  grown-contents vs e =
      let size = r.size in
      let y = r.cons_head % r.size in
      let x = y + held r in
      let low : y < size = mod-lt r.cons_head (omega (arith, bounds.0)) in
      let same : fill size r.cells (r.prod_head % r.size) vs ≡ fill size r.cells x vs =
        fill-congr size r.cells (r.prod_head % r.size) x vs
          (λ t m. ground (arith, prod-index r w, bounds.0)) in
      let written = fill size r.cells x vs in
      let count = grown-held (fill size r.cells (r.prod_head % size) vs) in
      let new : window size written x n ≡ vs =
        ap (λ t. window size written x t) (sym e)
        ∙ window-fill_same size r.cells x vs (omega (arith, e, bounds.0))
            (omega (arith, e, bounds.0)) in
      ap₂ (λ f t. window size f y t) same count
      ∙ window-append size written y (held r) n
      ∙ ap₂ (λ (a b : List ℕ). a ++ b)
          (window-fill_before size r.cells x vs y (held r) (omega arith)
            (omega (arith, e, bounds.0)) (omega (arith, e, bounds.0)))
          new

  pub enqueue_reserved-grown :
      (table : List ℕ)
      → n ≤ length table
      → enqueue_reserved r table n
        ≡ ok (grown (fill r.size r.cells (r.prod_head % r.size) (take n table)), n)
  unfolding enqueue_reserved
  enqueue_reserved-grown table l =
      let len = length-take n table l in
      let written =
        enqueue_ptrs-fill r w.k w.k_small w.size_pow r.prod_head (take n table) (drop n table)
          (omega (arith, len, bounds.0)) in
      rw (rw (len, take-drop n table, ← w.mask_pow) at written) refl

-- `next` is `r` with the first `n` entries of `table` added behind its own.
pub record Adds (r : Ring) (table : List ℕ) (n : ℕ) (next : Ring) : Type 0 where
  pub valid : IsRing next
  pub entries : contents next ≡ contents r ++ take n table
  pub same_mask : next.mask ≡ r.mask

enqueue_reserved-Adds :
    (r : Ring) (w : IsRing r) (n : ℕ) (table : List ℕ)
    → n + held r ≤ r.mask
    → n ≤ length table
    → (next : Ring) × (enqueue_reserved r table n ≡ ok (next, n)) × Adds r table n next
enqueue_reserved-Adds r w n table fits l = (
  grown r w n fits (fill r.size r.cells (r.prod_head % r.size) (take n table)),
  enqueue_reserved-grown r w n fits table l,
  record {
    valid = grown-IsRing r w n fits (fill r.size r.cells (r.prod_head % r.size) (take n table));
    entries = grown-contents r w n fits (take n table) (length-take n table l);
    same_mask = refl;
  },
)

free_entries-eq :
    (r : Ring) → IsRing r → sub32 (u32 (r.mask + r.cons_tail)) r.prod_head ≡ r.mask - held r
free_entries-eq r w =
    let size = pow-le w.k 29 w.k_small in
    omega (arith, w.room, w.prod_word, w.cons_word, w.cons_done, w.mask_pow, size)

pub enqueue_burst-Adds :
    (r : Ring)
    → IsRing r
    → (table : List ℕ) (count : ℕ) → count < 2 ^ 32
    → count ≤ length table
    → (next : Ring) × (enqueue_burst r table count ≡ ok (next, min count (r.mask - held r)))
      × Adds r table (min count (r.mask - held r)) next
unfolding enqueue_burst nffgo_ring_mp_do_enqueue
enqueue_burst-Adds r w table count word l =
    let free = r.mask - held r in
    let full : u32 count ≡ count = omega arith in
    let room = w.room in
    rw (free_entries-eq r w, full)
      (elim (dec_lt free count) [
        | yes m ↦
            let test : ltb free count ≡ true = ground arith in
            let least : min count free ≡ free = omega arith in
            rw (test, least)
              (elim (ℕ_discrete free 0) [
                | yes z ↦ rw z (
                  r,
                  refl,
                  record { valid = w; entries = sym (append_nil (contents r)); same_mask = refl },
                )
                | no z ↦
                    let test : (free == 0) ≡ false = ground arith in
                    rw test (enqueue_reserved-Adds r w free table (omega arith) (omega arith))
              ])
        | no m ↦
            let test : ltb free count ≡ false = ground arith in
            let least : min count free ≡ count = omega arith in
            rw (test, least) (enqueue_reserved-Adds r w count table (omega arith) l)
      ])
