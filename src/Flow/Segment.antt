-- ===== src/Flow/Segment.antt =====
-- What a segment does to its packets, flow/flow.go: the partition, the slices it is cut into by a
-- mask, and the rings that its packets go to. An array of `burstSize` entries is a list.
pub mod Rounds
pub mod Masks
pub mod Sending
pub mod Drops
use nff_go.Base.{
  ℕ, zero, suc, ◌+◌, ◌-◌, Bool, true, false, List, [], ◌∷◌, ◌++◌, length, take, drop, ltb, ◌==◌,
  if◌then◌else◌, bit_xor, u8, u64, sub64,
}
use nff_go.Common.Errors.{Result, ok, panic, ◌>>=◌}
use nff_go.Common.Slices.{fetch, put}
use nff_go.Low.Ring.{Ring, enqueue_burst}

pub record PartitionCtx : Type 0 where
  pub current_answer : ℕ
  pub current_compare : ℕ
  pub current_packet_number : ℕ
  pub n : ℕ
  pub m : ℕ

-- `Copy`, which a clone's context comes from.
unfoldable pub copy_ctx : PartitionCtx → PartitionCtx
copy_ctx c = record {
  current_answer = 0;
  current_compare = c.n;
  current_packet_number = 0;
  n = c.n;
  m = c.m;
}

-- The context after a packet; its answer is `current_answer`.
unfoldable pub count_packet : PartitionCtx → PartitionCtx
count_packet c =
    let number = u64 (c.current_packet_number + 1) in
    if number == c.current_compare
    then record c {
      current_answer = bit_xor c.current_answer 1;
      current_compare = sub64 (u64 (c.n + c.m)) c.current_compare;
      current_packet_number = 0;
    }
    else record c { current_packet_number = number }

unfoldable pub partition : PartitionCtx → PartitionCtx × ℕ
unfolding count_packet
partition c = let next = count_packet c in (next, next.current_answer)

unfoldable pub v_partition : PartitionCtx → List Bool → List ℕ → PartitionCtx × List ℕ
v_partition c (true ∷ mask) (a ∷ answers) =
    let next = count_packet c in
    let rest = v_partition next mask answers in (rest.0, next.current_answer ∷ rest.1)
v_partition c (false ∷ mask) (a ∷ answers) =
    let rest = v_partition c mask answers in (rest.0, a ∷ rest.1)
v_partition c mask answers = (c, answers)

-- The loop at lane `i`, with the mask of the lanes to go: the output and the number of its entries.
unfoldable pub fill_from : List ℕ → List Bool → ℕ → ℕ → List ℕ → Result (List ℕ × ℕ)
fill_from input [] i count output = ok (output, count)
fill_from input (false ∷ mask) i count output = fill_from input mask (i + 1) count output
fill_from input (true ∷ mask) i count output = do
  mbuf ← fetch input i
  next ← put output count mbuf
  fill_from input mask (i + 1) (count + 1) next

unfoldable pub fill_slice_from_mask : List ℕ → List Bool → List ℕ → Result (List ℕ × ℕ)
fill_slice_from_mask input mask output = do
  (filled, count) ← fill_from input mask 0 0 output
  ok (filled, u8 count)

-- The rings of the system, the number of packets that did not fit their ring, and the packets that
-- `DirectStop` freed.
pub record Traffic : Type 0 where
  pub rings : List Ring
  pub dropped : ℕ
  pub stopped : List ℕ

unfoldable pub direct_stop : Traffic → List ℕ → Traffic
direct_stop t packets = record t { stopped = t.stopped ++ packets }

-- What does not fit the ring `place` goes to the ring `stop_ring`, and the rest is freed.
unfoldable pub enqueue_rest : Traffic → ℕ → List ℕ → ℕ → Result Traffic
enqueue_rest t stop_ring left number = do
  stop ← fetch t.rings stop_ring
  (next, done) ← enqueue_burst stop left number
  rings ← put t.rings stop_ring next
  let kept = record t { rings = rings }
  ok (if ltb done number then direct_stop kept (drop done left) else kept)

unfoldable pub safe_enqueue : Traffic → ℕ → ℕ → List ℕ → ℕ → Result Traffic
safe_enqueue t stop_ring place data_in number = do
  ring ← fetch t.rings place
  (next, done) ← enqueue_burst ring data_in number
  rings ← put t.rings place next
  let kept = record t { rings = rings }
  if ltb done number
      then enqueue_rest (record kept { dropped = u64 (kept.dropped + (number - done)) }) stop_ring
          (drop done (take number data_in)) (number - done)
      else ok kept

unfoldable pub safe_enqueue_one : Traffic → ℕ → ℕ → ℕ → Result Traffic
unfolding safe_enqueue
safe_enqueue_one t stop_ring place packet = safe_enqueue t stop_ring place (packet ∷ []) 1
