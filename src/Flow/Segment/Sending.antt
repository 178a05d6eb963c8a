-- ===== src/Flow/Segment/Sending.antt =====
-- One burst into a ring of the system, and what is left of it.
use nff_go.Base.{
  ℕ, ◌-◌, ◌^◌, ◌≡◌, ◌≢◌, ◌≤◌, ◌<◌, refl, sym, ap, ◌∙◌, arith, true, false, List, [], ◌++◌, length,
  take, drop, drop-length, append_nil, ltb, dec_lt, if◌then◌else◌,
}
use Prim.Native.Nat.{min}
use nff_go.Common.Errors.{ok}
use nff_go.Common.Slices.{fetch, put, put-Written, fetch-ok_lt}
use nff_go.Low.Ring.{Ring, enqueue_burst}
use nff_go.Low.Ring.State.{held, contents, IsRing}
use nff_go.Low.Ring.Enqueue.{enqueue_burst-Adds}
use nff_go.Flow.Segment.{Traffic, direct_stop, enqueue_rest}

-- The ring at that place is a ring at rest with these entries.
pub record Has (rings : List Ring) (place : ℕ) (entries : List ℕ) : Type 0 where
  pub ring : Ring
  pub there : fetch rings place ≡ ok ring
  pub valid : IsRing ring
  pub holds : contents ring ≡ entries

-- A burst into one ring of the system.
pub record Sent (rings : List Ring) (place : ℕ) (entries table : List ℕ) (number : ℕ) : Type 0 where
  pub ring : Ring
  pub next : Ring
  pub count : ℕ
  pub changed : List Ring
  pub there : fetch rings place ≡ ok ring
  pub burst : enqueue_burst ring table number ≡ ok (next, count)
  pub written : put rings place next ≡ ok changed
  pub most : count ≤ number
  pub output : Has changed place (entries ++ take count table)
  pub others : (j : ℕ) (q : List ℕ) → j ≢ place → Has rings j q → Has changed j q

pub send :
    (rings : List Ring) (place : ℕ) (entries table : List ℕ) (number : ℕ)
    → Has rings place entries
    → number < 2 ^ 32
    → number ≤ length table
    → Sent rings place entries table number
send rings place entries table number h word room =
    let n = min number (h.ring.mask - held h.ring) in
    let (next, e, adds) = enqueue_burst-Adds h.ring h.valid table number word room in
    let w = put-Written rings place next (fetch-ok_lt rings place h.ring h.there) in
    record {
      ring = h.ring;
      next = next;
      count = n;
      changed = w.slice;
      there = h.there;
      burst = e;
      written = w.done;
      most = omega arith;
      output = record {
        ring = next;
        there = w.here;
        valid = adds.valid;
        holds = adds.entries ∙ ap (λ u. u ++ take n table) h.holds;
      };
      others = λ j q apart k. record {
        ring = k.ring;
        there = w.others j apart ∙ k.there;
        valid = k.valid;
        holds = k.holds;
      };
    }

-- What is left behind `count` packets, where it is freed if there is any.
abbrev left_over : Traffic → List ℕ → ℕ → ℕ → Traffic
left_over kept left count number =
    if ltb count number then direct_stop kept (drop count left) else kept

pub record Freed (kept : Traffic) (freed : List ℕ) (next : Traffic) : Type 0 where
  pub rings : next.rings ≡ kept.rings
  pub stopped : next.stopped ≡ kept.stopped ++ freed
  pub dropped : next.dropped ≡ kept.dropped

left_over-Freed :
    (kept : Traffic) (left : List ℕ) (count number : ℕ)
    → count ≤ number
    → length left ≡ number
    → Freed kept (drop count left) (left_over kept left count number)
unfolding direct_stop
left_over-Freed kept left count number h len = elim (dec_lt count number) [
  | yes l ↦
      let test : ltb count number ≡ true = ground arith in
      rw test record { rings = refl; stopped = refl; dropped = refl }
  | no l ↦
      let test : ltb count number ≡ false = ground arith in
      let all : count ≡ length left = omega (arith, len) in
      let none : drop count left ≡ [] = ap (λ k. drop k left) all ∙ drop-length left in
      rw (test, none)
        record { rings = refl; stopped = sym (append_nil kept.stopped); dropped = refl }
]

pub enqueue_rest-Freed :
    (t : Traffic) (stop_ring : ℕ) (s left : List ℕ) (number : ℕ)
    → (second : Sent t.rings stop_ring s left number) → length left ≡ number
    → (next : Traffic) × (enqueue_rest t stop_ring left number ≡ ok next)
      × Freed (record t { rings = second.changed }) (drop second.count left) next
unfolding enqueue_rest
enqueue_rest-Freed t stop_ring s left number second len =
    let parked = record t { rings = second.changed } in
    rw (second.there, second.burst, second.written)
      (
        left_over parked left second.count number,
        refl,
        left_over-Freed parked left second.count number second.most len,
      )
