-- ===== src/Low/Ring/Fifo.antt =====
-- The ring against a bounded first-in first-out queue, which is a list with a capacity.
use nff_go.Base.{
  ℕ, ◌-◌, ◌^◌, ◌≡◌, ◌≤◌, ◌<◌, refl, sym, ap, ◌∙◌, arith, List, [], ◌∷◌, ◌++◌, length, take, drop,
  All, bit_and,
}
use nff_go.Base.Bits.{bit_and-low}
use native.Mathlib.Nat.{mod-eq_of_lt}
use Prim.Native.Nat.{min}
use nff_go.Base.Wrapped.{pow-pos}
use nff_go.Common.Errors.{Result, ok, ◌>>=◌}
use nff_go.Low.Ring.{Ring, enqueue_burst, dequeue_burst, get_ring_count}
use nff_go.Low.Ring.State.{held, contents, IsRing, IsRingOf, length-contents}
use nff_go.Low.Ring.Enqueue.{enqueue_burst-Adds}
use nff_go.Low.Ring.Dequeue.{dequeue_burst-Takes}

-- A call of the ring's users: the table and the number of entries asked for.
pub data Burst : Type 0 where
  enqueue : List ℕ → ℕ → Burst
  dequeue : List ℕ → ℕ → Burst

-- What a call gives back: the number of entries, and the table afterwards.
abbrev pub Answer : Type 0
Answer = ℕ × List ℕ

abbrev answer_enqueue : List ℕ → Ring × ℕ → Ring × Answer
answer_enqueue table out = (out.0, (out.1, table))

abbrev answer_dequeue : Ring × List ℕ × ℕ → Ring × Answer
answer_dequeue out = (out.0, (out.2, out.1))

abbrev pub ring_burst : Ring → Burst → Result (Ring × Answer)
ring_burst r (enqueue table count) =
    enqueue_burst r table count >>= (λ out. ok (answer_enqueue table out))
ring_burst r (dequeue buffer count) =
    dequeue_burst r buffer count >>= (λ out. ok (answer_dequeue out))

abbrev pub ring_run : Ring → List Burst → Result (Ring × List Answer)
ring_run r [] = ok (r, [])
ring_run r (b ∷ bs) = do
  one ← ring_burst r b
  rest ← ring_run (one.0) bs
  ok (rest.0, one.1 ∷ rest.1)

-- The queue: as many entries as there is room for are added behind, and the oldest are taken.
abbrev pub fifo_burst : ℕ → List ℕ → Burst → List ℕ × Answer
fifo_burst capacity queue (enqueue table count) =
    let n = min count (capacity - length queue) in (queue ++ take n table, (n, table))
fifo_burst capacity queue (dequeue buffer count) =
    let n = min count (length queue) in (drop n queue, (n, take n queue ++ drop n buffer))

abbrev pub fifo_run : ℕ → List ℕ → List Burst → List ℕ × List Answer
fifo_run capacity queue [] = (queue, [])
fifo_run capacity queue (b ∷ bs) =
    let one = fifo_burst capacity queue b in
    let rest = fifo_run capacity (one.0) bs in (rest.0, one.1 ∷ rest.1)

-- The table has the entries asked for, and their number is a 32-bit word.
abbrev pub IsBurst : Burst → Type 0
IsBurst (enqueue table count) = (count < 2 ^ 32) × (count ≤ length table)
IsBurst (dequeue buffer count) = (count < 2 ^ 32) × (count ≤ length buffer)

-- `r` stands for a queue of that capacity.
pub record Represents (r : Ring) (capacity : ℕ) (queue : List ℕ) : Type 0 where
  pub valid : IsRing r
  pub entries : contents r ≡ queue
  pub limit : r.mask ≡ capacity

abbrev pub Refines {ℓ} : {A : Type ℓ} → ℕ → Result (Ring × A) → List ℕ × A → Type ℓ
Refines capacity m spec =
    (next : Ring) × (m ≡ ok (next, spec.1)) × Represents next capacity (spec.0)

burst-Refines :
    (r : Ring) (capacity : ℕ) (queue : List ℕ) (b : Burst)
    → Represents r capacity queue
    → IsBurst b
    → Refines capacity (ring_burst r b) (fifo_burst capacity queue b)
burst-Refines r capacity queue (enqueue table count) w h =
    let (next, e, adds) = enqueue_burst-Adds r w.valid table count h.0 h.1 in
    let size : held r ≡ length queue = sym (length-contents r) ∙ ap length w.entries in
    rw (e, ← w.limit, ← size)
      (
        next,
        refl,
        record {
          valid = adds.valid;
          entries =
              adds.entries ∙ ap (λ t. t ++ take (min count (r.mask - held r)) table) w.entries;
          limit = adds.same_mask;
        },
      )
burst-Refines r capacity queue (dequeue buffer count) w h =
    let (next, filled, e, takes) = dequeue_burst-Takes r w.valid buffer count h.0 h.1 in
    let size : held r ≡ length queue = sym (length-contents r) ∙ ap length w.entries in
    rw (e, ← size)
      (
        next,
        (rw takes.copied (rw w.entries refl)),
        record {
          valid = takes.valid;
          entries = takes.entries ∙ ap (drop (min count (held r))) w.entries;
          limit = takes.same_mask ∙ w.limit;
        },
      )

-- For a ring of at most 2 ^ 29 cells: the outcomes of a run of calls on it are those of the run on the queue it stands for: no call
-- panics, each gives back the number of entries and the table that the queue gives back, and the
-- ring stands for the queue afterwards. Each call is given a table with the entries it asks for.
pub ring_run-Refines :
    (bs : List Burst) (r : Ring) (capacity : ℕ) (queue : List ℕ)
    → Represents r capacity queue
    → All IsBurst bs
    → Refines capacity (ring_run r bs) (fifo_run capacity queue bs)
ring_run-Refines [] r capacity queue w h = (r, refl, w)
ring_run-Refines (b ∷ bs) r capacity queue w h =
    let (next, e, v) = burst-Refines r capacity queue b w (h.0) in
    let (last, es, vs) =
      ring_run-Refines bs next capacity (fifo_burst capacity queue b).0 v (h.1) in
    rw (e, es) (last, refl, vs)

-- The count of a ring at rest, of at most 2 ^ 31 cells, is the number of its entries, and
-- at most its capacity.
pub get_ring_count-held :
    (r : Ring)
    → IsRingOf 31 r
    → (get_ring_count r ≡ length (contents r)) × (length (contents r) ≤ r.mask)
unfolding get_ring_count
get_ring_count-held r w =
    let below : held r < 2 ^ w.k = omega (arith, w.room, w.mask_pow, pow-pos w.k) in
    let whole : bit_and (held r) r.mask ≡ held r =
      rw w.mask_pow (bit_and-low w.k (held r) ∙ mod-eq_of_lt below) in
    (
      rw (w.prod_done, w.cons_done) (whole ∙ sym (length-contents r)),
      omega (arith, length-contents r, w.room),
    )
