-- ===== src/Flow/Segment/Drops.antt =====
-- Where the packets go that a segment puts into its output rings.
use nff_go.Base.{
  ℕ, ◌+◌, ◌-◌, ◌^◌, ◌≡◌, ◌≢◌, ◌≤◌, ◌<◌, refl, sym, ap, ap₂, ◌∙◌, arith, true, false, List, [], ◌++◌,
  length, take, drop, take-drop, length-take, length-drop, take-take, append_nil, length-append,
  ltb, dec_lt, u64,
}
use nff_go.Common.Errors.{ok}
use nff_go.Flow.Segment.{Traffic, enqueue_rest, safe_enqueue}
use nff_go.Flow.Segment.Sending.{Has, Sent, send, enqueue_rest-Freed}

-- The packets went to the ring `place`, to the ring `stop_ring`, and to be freed.
pub record Delivered (t : Traffic) (stop_ring place : ℕ) (q s packets : List ℕ) (next : Traffic)
    : Type 0 where
  pub sent : List ℕ
  pub parked : List ℕ
  pub freed : List ℕ
  pub whole : sent ++ (parked ++ freed) ≡ packets
  pub output : Has next.rings place (q ++ sent)
  pub stops : Has next.rings stop_ring (s ++ parked)
  pub frees : next.stopped ≡ t.stopped ++ freed
  pub counts : next.dropped ≡ t.dropped + (length parked + length freed)

-- The parts of a list that is cut twice.
cut_twice :
    (data_in : List ℕ) (number m n : ℕ)
    → m ≤ number
    → take m data_in
        ++ (take n (drop m (take number data_in)) ++ drop n (drop m (take number data_in)))
      ≡ take number data_in
cut_twice data_in number m n h =
    let left = drop m (take number data_in) in
    ap₂ (λ (a b : List ℕ). a ++ b) (sym (take-take m number data_in h)) (take-drop n left)
    ∙ take-drop m (take number data_in)

module _ (t : Traffic) (stop_ring place : ℕ) (q s data_in : List ℕ) (number : ℕ)
    (apart : place ≢ stop_ring) (at_place : Has t.rings place q) (at_stop : Has t.rings stop_ring s)
    (word : number < 2 ^ 32) (room : number ≤ length data_in)
    (small : t.dropped + number < 2 ^ 64) where
  abbrev first : Sent t.rings place q data_in number
  first = send t.rings place q data_in number at_place word room

  abbrev kept : Traffic
  kept = record t { rings = first.changed }

  abbrev left : List ℕ
  left = drop first.count (take number data_in)

  length-left : length left ≡ number - first.count
  length-left =
      let len = length-take number data_in room in
      let most = first.most in
      omega (arith, length-drop first.count (take number data_in) (omega (arith, len, most)), len)

  abbrev counted : Traffic
  counted = record kept { dropped = u64 (t.dropped + (number - first.count)) }

  all_sent : first.count ≡ number → Delivered t stop_ring place q s (take number data_in) kept
  all_sent e =
      let stopped = first.others stop_ring s (λ p. apart (sym p)) at_stop in
      record {
        sent = take first.count data_in;
        parked = [];
        freed = [];
        whole = append_nil (take first.count data_in) ∙ ap (λ n. take n data_in) e;
        output = first.output;
        stops = rw (append_nil s) stopped;
        frees = sym (append_nil t.stopped);
        counts = omega arith;
      }

  some_left :
      first.count < number
      → (next : Traffic) × (enqueue_rest counted stop_ring left (number - first.count) ≡ ok next)
        × Delivered t stop_ring place q s (take number data_in) next
  some_left l =
      let stopped = first.others stop_ring s (λ p. apart (sym p)) at_stop in
      let second =
        send first.changed stop_ring s left (number - first.count) stopped (omega arith)
          (omega (arith, length-left)) in
      let (next, e, freed) =
        enqueue_rest-Freed counted stop_ring s left (number - first.count) second length-left in
      let here = second.others place (q ++ take first.count data_in) apart first.output in
      let parts = ap length (take-drop second.count left) in
      let sizes = length-append (take second.count left) (drop second.count left) in
      (
        next,
        e,
        record {
          sent = take first.count data_in;
          parked = take second.count left;
          freed = drop second.count left;
          whole = cut_twice data_in number first.count second.count first.most;
          output = rw freed.rings here;
          stops = rw freed.rings second.output;
          frees = freed.stopped;
          counts = omega (arith, freed.dropped, parts, sizes, length-left);
        },
      )

-- For two rings at rest of at most 2 ^ 29 cells each, the output and the stop ring, at least `number`
-- packets, `number` being a 32-bit word, and a counter that `number` more do not wrap around: the call
-- returns, each of the first `number` packets goes to exactly one of the output ring, the stop ring
-- and the packets freed, in order, no packet is left out, the rings keep what they held, and the
-- counter of dropped packets grows by those that did not go to the output ring.
pub safe_enqueue-Delivered :
    (t : Traffic) (stop_ring place : ℕ) (q s data_in : List ℕ) (number : ℕ)
    → place ≢ stop_ring
    → Has t.rings place q
    → Has t.rings stop_ring s
    → number < 2 ^ 32
    → number ≤ length data_in
    → t.dropped + number < 2 ^ 64
    → (next : Traffic) × (safe_enqueue t stop_ring place data_in number ≡ ok next)
      × Delivered t stop_ring place q s (take number data_in) next
unfolding safe_enqueue
safe_enqueue-Delivered t stop_ring place q s data_in number apart at_place at_stop word room small =
    let one = first t stop_ring place q s data_in number apart at_place at_stop word room small in
    let most = one.most in
    rw (one.there, one.burst, one.written)
      (elim (dec_lt one.count number) [
        | yes l ↦
            let test : ltb one.count number ≡ true = ground arith in
            rw test (
              some_left t stop_ring place q s data_in number apart at_place at_stop word room small
                l)
        | no l ↦
            let test : ltb one.count number ≡ false = ground arith in
            rw test (
              record t { rings = one.changed },
              refl,
              all_sent t stop_ring place q s data_in number apart at_place at_stop word room small
                  (omega arith),
            )
      ])
