-- ===== src/Tests/Rings.antt =====
-- Rings and the packets that go to them.
use nff_go.Base.{
  ℕ, ◌-◌, ◌^◌, ◌≡◌, ◌≤◌, refl, arith, true, false, List, [], ◌∷◌, length, if◌then◌else◌, ◌==◌,
}
use nff_go.Common.Errors.{ok}
use nff_go.Common.Slices.{fetch}
use nff_go.Low.Ring.{Ring, get_ring_count}
use nff_go.Low.Ring.State.{contents, IsRing, IsRingOf-le}
use nff_go.Low.Ring.Fifo.{
  Burst, enqueue, dequeue, ring_run, fifo_run, Refines, ring_run-Refines, get_ring_count-held,
}
use nff_go.Flow.Segment.{
  PartitionCtx, Traffic, copy_ctx, partition, v_partition, fill_slice_from_mask, safe_enqueue,
}
use nff_go.Flow.Segment.Rounds.{after, partition-rounds}
use nff_go.Flow.Segment.Masks.{
  select, partition_all, v_partition-scalar, fill_slice_from_mask-select,
}
use nff_go.Flow.Segment.Sending.{Has}
use nff_go.Flow.Segment.Drops.{Delivered, safe_enqueue-Delivered}

-- Two entries, just before the counters wrap.
abbrev eight : Ring
eight = record {
  prod_head = 2 ^ 32 - 1;
  prod_tail = 2 ^ 32 - 1;
  cons_head = 2 ^ 32 - 3;
  cons_tail = 2 ^ 32 - 3;
  mask = 7;
  size = 8;
  cells = λ j. if j == 5 then 11 else 12;
}

eight-IsRing : IsRing eight
eight-IsRing = record {
  k = 3;
  k_small = omega arith;
  size_pow = refl;
  mask_pow = refl;
  prod_done = refl;
  cons_done = refl;
  prod_word = omega arith;
  cons_word = omega arith;
  room = omega arith;
}

abbrev bursts : List Burst
bursts =
    enqueue (21 ∷ 22 ∷ 23 ∷ 24 ∷ 25 ∷ 26 ∷ []) 6
    ∷ dequeue (0 ∷ 0 ∷ 0 ∷ 0 ∷ []) 3
    ∷ enqueue (31 ∷ []) 1
    ∷ []

fifo_run-bursts : fifo_run 7 (11 ∷ 12 ∷ []) bursts ≡ (
  22 ∷ 23 ∷ 24 ∷ 25 ∷ 31 ∷ [],
  (5, 21 ∷ 22 ∷ 23 ∷ 24 ∷ 25 ∷ 26 ∷ []) ∷ (3, 11 ∷ 12 ∷ 21 ∷ 0 ∷ []) ∷ (1, 31 ∷ []) ∷ [],
)
fifo_run-bursts = refl

ring_run-Refines_example : Refines 7 (ring_run eight bursts) (fifo_run 7 (11 ∷ 12 ∷ []) bursts)
ring_run-Refines_example =
    ring_run-Refines bursts eight 7 (11 ∷ 12 ∷ [])
      (record { valid = eight-IsRing; entries = refl; limit = refl })
      ((omega arith, omega arith), ((omega arith, omega arith), ((omega arith, omega arith), tt)))

get_ring_count-held_example : (get_ring_count eight ≡ 2) × (length (contents eight) ≤ 7)
get_ring_count-held_example =
    get_ring_count-held eight (IsRingOf-le 29 31 eight (omega arith) eight-IsRing)

-- A stop ring with room for one packet.
abbrev two : Ring
two = record {
  prod_head = 0;
  prod_tail = 0;
  cons_head = 0;
  cons_tail = 0;
  mask = 1;
  size = 2;
  cells = λ j. 0;
}

two-IsRing : IsRing two
two-IsRing = record {
  k = 1;
  k_small = omega arith;
  size_pow = refl;
  mask_pow = refl;
  prod_done = refl;
  cons_done = refl;
  prod_word = omega arith;
  cons_word = omega arith;
  room = omega arith;
}

abbrev traffic : Traffic
traffic = record { rings = eight ∷ two ∷ []; dropped = 4; stopped = 9 ∷ [] }

abbrev packets : List ℕ
packets = 21 ∷ 22 ∷ 23 ∷ 24 ∷ 25 ∷ 26 ∷ 27 ∷ 28 ∷ []

eight-Has : Has traffic.rings 0 (11 ∷ 12 ∷ [])
unfolding fetch
eight-Has = record { ring = eight; there = refl; valid = eight-IsRing; holds = refl }

two-Has : Has traffic.rings 1 []
unfolding fetch
two-Has = record { ring = two; there = refl; valid = two-IsRing; holds = refl }

safe_enqueue-Delivered_example :
    (next : Traffic) × (safe_enqueue traffic 1 0 packets 8 ≡ ok next)
    × Delivered traffic 1 0 (11 ∷ 12 ∷ []) [] packets next
safe_enqueue-Delivered_example =
    safe_enqueue-Delivered traffic 1 0 (11 ∷ 12 ∷ []) [] packets 8 (λ e. absurd (omega (arith, e)))
      eight-Has two-Has (omega arith) (omega arith) (omega arith)

-- Two packets stay, three leave.
abbrev two_three : PartitionCtx
two_three = record {
  current_answer = 0;
  current_compare = 0;
  current_packet_number = 0;
  n = 2;
  m = 3;
}

partition-rounds_example : (partition (after (copy_ctx two_three) 5)).1 ≡ 0
partition-rounds_example = partition-rounds two_three 5 (omega arith) (omega arith) (omega arith)

partition-answers :
    (partition_all {A = ℕ} (copy_ctx two_three) (0 ∷ 0 ∷ 0 ∷ 0 ∷ 0 ∷ 0 ∷ 0 ∷ [])).1
    ≡ 0 ∷ 1 ∷ 1 ∷ 1 ∷ 0 ∷ 0 ∷ 1 ∷ []
unfolding partition copy_ctx
partition-answers = refl

v_partition-scalar_example :
    ((v_partition (copy_ctx two_three) (true ∷ false ∷ true ∷ []) (7 ∷ 8 ∷ 9 ∷ [])).0
      ≡ (partition_all {A = ℕ} (copy_ctx two_three) (7 ∷ 9 ∷ [])).0)
    × (select
          (true ∷ false ∷ true ∷ [])
          ((v_partition (copy_ctx two_three) (true ∷ false ∷ true ∷ []) (7 ∷ 8 ∷ 9 ∷ [])).1)
        ≡ (partition_all {A = ℕ} (copy_ctx two_three) (7 ∷ 9 ∷ [])).1)
    × (select
          (false ∷ true ∷ false ∷ [])
          ((v_partition (copy_ctx two_three) (true ∷ false ∷ true ∷ []) (7 ∷ 8 ∷ 9 ∷ [])).1)
        ≡ 8 ∷ [])
v_partition-scalar_example =
    v_partition-scalar (true ∷ false ∷ true ∷ []) (7 ∷ 8 ∷ 9 ∷ []) (copy_ctx two_three) refl

fill_slice_from_mask-select_example :
    fill_slice_from_mask (7 ∷ 8 ∷ 9 ∷ []) (true ∷ false ∷ true ∷ []) (0 ∷ 0 ∷ 0 ∷ [])
    ≡ ok (7 ∷ 9 ∷ 0 ∷ [], 2)
fill_slice_from_mask-select_example =
    fill_slice_from_mask-select (true ∷ false ∷ true ∷ []) (7 ∷ 8 ∷ 9 ∷ []) (0 ∷ 0 ∷ 0 ∷ []) refl
      (omega arith) (omega arith)
