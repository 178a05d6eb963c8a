-- ===== src/Low/Ring/State.antt =====
-- The states of a ring with no operation in progress, and the entries it holds.
use nff_go.Base.{ℕ, suc, ◌+◌, ◌-◌, ◌%◌, ◌^◌, ◌≡◌, ◌≤◌, ◌<◌, arith, List, length, u32, sub32}
use nff_go.Base.Wrapped.{u32-step, pow-le, pow-pos}
use nff_go.Low.Ring.{Ring}
use nff_go.Low.Ring.Slots.{wrap, window, length-window}

-- The number of entries, and the entries, the oldest first.
abbrev pub held : Ring → ℕ
held r = sub32 r.prod_head r.cons_head

abbrev pub contents : Ring → List ℕ
contents r = window r.size r.cells (r.cons_head % r.size) (held r)

-- A ring of `2 ^ k` cells, with `k` at most `most`, of which one stays free, with no operation in
-- progress.
pub record IsRingOf (most : ℕ) (r : Ring) : Type 0 where
  pub k : ℕ
  pub k_small : k ≤ most
  pub size_pow : r.size ≡ 2 ^ k
  pub mask_pow : r.mask ≡ 2 ^ k - 1
  pub prod_done : r.prod_tail ≡ r.prod_head
  pub cons_done : r.cons_tail ≡ r.cons_head
  pub prod_word : r.prod_head < 2 ^ 32
  pub cons_word : r.cons_head < 2 ^ 32
  pub room : held r ≤ r.mask

-- A ring of which the address of every cell is a 32-bit word.
abbrev pub IsRing : Ring → Type 0
IsRing = IsRingOf 29

pub IsRingOf-le : (most more : ℕ) (r : Ring) → most ≤ more → IsRingOf most r → IsRingOf more r
IsRingOf-le most more r h w = record {
  k = w.k;
  k_small = omega (arith, h, w.k_small);
  size_pow = w.size_pow;
  mask_pow = w.mask_pow;
  prod_done = w.prod_done;
  cons_done = w.cons_done;
  prod_word = w.prod_word;
  cons_word = w.cons_word;
  room = w.room;
}

pub length-contents : (r : Ring) → length (contents r) ≡ held r
length-contents r = length-window r.size r.cells (r.cons_head % r.size) (held r)

-- The index of the next free cell, from that of the oldest entry.
pub prod-index :
    (r : Ring) (w : IsRing r) → r.prod_head % r.size ≡ wrap r.size (r.cons_head % r.size + held r)
prod-index r w =
    let head : u32 (r.cons_head + held r) ≡ r.prod_head = omega (arith, w.prod_word, w.cons_word) in
    let below : held r < 2 ^ w.k = omega (arith, w.room, w.mask_pow, pow-pos w.k) in
    rw w.size_pow (rw head at (u32-step r.cons_head (held r) w.k (omega (arith, w.k_small)) below))

pub size_bounds : (r : Ring) → IsRing r → (r.size ≡ suc r.mask) × (r.size ≤ 2 ^ 29)
size_bounds r w = (
  omega (arith, w.size_pow, w.mask_pow, pow-pos w.k),
  omega (arith, w.size_pow, pow-le w.k 29 w.k_small),
)
