-- ===== src/Flow/Segment/Rounds.antt =====
-- The rounds of a partition.
use nff_go.Base.{
  ℕ, zero, suc, ◌+◌, ◌-◌, ◌%◌, ◌^◌, ◌≡◌, ◌≤◌, ◌<◌, refl, sym, ap, ◌∙◌, arith, ltb, ◌==◌,
  if◌then◌else◌, u64, sub64, dec_lt, ℕ_discrete, true, false,
}
use native.Mathlib.Nat.{mod-lt, mod-add-mod}
use nff_go.Base.Wrapped.{mod_twice}
use nff_go.Flow.Segment.{PartitionCtx, copy_ctx, count_packet, partition}

-- The contexts after `k` packets.
abbrev pub after : PartitionCtx → ℕ → PartitionCtx
after c zero = c
after c (suc k) = (partition (after c k)).0

-- A context at `r` packets from the start of its turn: those that stay, and those that leave.
abbrev stays : ℕ → ℕ → ℕ → PartitionCtx
stays n m r = record {
  current_answer = 0;
  current_compare = n;
  current_packet_number = r;
  n = n;
  m = m;
}

abbrev leaves : ℕ → ℕ → ℕ → PartitionCtx
leaves n m r = record {
  current_answer = 1;
  current_compare = m;
  current_packet_number = r;
  n = n;
  m = m;
}

-- Where a context stands in its round, at `r` packets from the round's start.
abbrev standing : ℕ → ℕ → ℕ → PartitionCtx
standing n m r = if ltb r n then stays n m r else leaves n m (r - n)

abbrev turn : ℕ → ℕ → ℕ
turn whole r = if r + 1 == whole then 0 else r + 1

module _ (n m : ℕ) (n_pos : 0 < n) (m_pos : 0 < m) (word : n + m < 2 ^ 64) where
  turn-mod : (k : ℕ) → (k + 1) % (n + m) ≡ turn (n + m) (k % (n + m))
  turn-mod k =
      let low : k % (n + m) < n + m = mod-lt k (omega arith) in
      let step =
        sym (mod-add-mod k (n + m) 1) ∙ mod_twice (k % (n + m) + 1) (n + m) (omega arith) in
      step ∙ ground arith

  count_packet-stays : (r : ℕ) → r + 1 < n → count_packet (stays n m r) ≡ stays n m (r + 1)
  unfolding count_packet
  count_packet-stays r h =
      let next : u64 (r + 1) ≡ r + 1 = omega arith in
      let test : (r + 1 == n) ≡ false = ground arith in rw (next, test) refl

  count_packet-last_stays : (r : ℕ) → r + 1 ≡ n → count_packet (stays n m r) ≡ leaves n m 0
  unfolding count_packet
  count_packet-last_stays r h =
      let next : u64 (r + 1) ≡ n = omega (arith, h) in
      let test : (n == n) ≡ true = ground arith in
      let other : sub64 (u64 (n + m)) n ≡ m = omega arith in rw (next, test, other) refl

  count_packet-leaves : (r : ℕ) → r + 1 < m → count_packet (leaves n m r) ≡ leaves n m (r + 1)
  unfolding count_packet
  count_packet-leaves r h =
      let next : u64 (r + 1) ≡ r + 1 = omega arith in
      let test : (r + 1 == m) ≡ false = ground arith in rw (next, test) refl

  count_packet-last_leaves : (r : ℕ) → r + 1 ≡ m → count_packet (leaves n m r) ≡ stays n m 0
  unfolding count_packet
  count_packet-last_leaves r h =
      let next : u64 (r + 1) ≡ m = omega (arith, h) in
      let test : (m == m) ≡ true = ground arith in
      let other : sub64 (u64 (n + m)) m ≡ n = omega arith in rw (next, test, other) refl

  standing-stays : (r : ℕ) → r < n → standing n m r ≡ stays n m r
  standing-stays r h = let test : ltb r n ≡ true = ground arith in rw test refl

  standing-leaves : (r s : ℕ) → n ≤ r → r - n ≡ s → standing n m r ≡ leaves n m s
  standing-leaves r s h e = let test : ltb r n ≡ false = ground arith in rw (test, e) refl

  turn-next : (r : ℕ) → r + 1 < n + m → turn (n + m) r ≡ r + 1
  turn-next r h = ground arith

  turn-back : (r : ℕ) → r + 1 ≡ n + m → turn (n + m) r ≡ 0
  turn-back r h = ground arith

  count_packet-standing :
      (r : ℕ) → r < n + m → count_packet (standing n m r) ≡ standing n m (turn (n + m) r)
  count_packet-standing r h = elim (dec_lt r n) [
    | yes l ↦ elim (ℕ_discrete (r + 1) n) [
      | yes e ↦
          rw
            (
              standing-stays r l,
              turn-next r (omega (arith, e)),
              standing-leaves (r + 1) 0 (omega (arith, e)) (omega (arith, e)),
            )
            (count_packet-last_stays r e)
      | no e ↦
          rw (standing-stays r l, turn-next r (omega arith), standing-stays (r + 1) (omega arith))
            (count_packet-stays r (omega arith))
    ]
    | no l ↦ elim (ℕ_discrete (r + 1) (n + m)) [
      | yes e ↦
          rw (standing-leaves r (r - n) (omega arith) refl, turn-back r e, standing-stays 0 n_pos)
            (count_packet-last_leaves (r - n) (omega (arith, e)))
      | no e ↦
          rw
            (
              standing-leaves r (r - n) (omega arith) refl,
              turn-next r (omega arith),
              standing-leaves (r + 1) (r - n + 1) (omega arith) (omega arith),
            )
            (count_packet-leaves (r - n) (omega arith))
    ]
  ]

  after-standing : (k : ℕ) → after (stays n m 0) k ≡ standing n m (k % (n + m))
  unfolding partition
  after-standing zero =
      let none : 0 % (n + m) ≡ 0 = omega arith in rw (none, standing-stays 0 n_pos) refl
  after-standing (suc k) =
      let next : suc k ≡ k + 1 = omega arith in
      let low : k % (n + m) < n + m = mod-lt k (omega arith) in
      ap count_packet (after-standing k)
      ∙ count_packet-standing (k % (n + m)) low
      ∙ ap (standing n m) (sym (turn-mod k) ∙ ap (λ t. t % (n + m)) (sym next))

standing-answer : (n m r : ℕ) → (standing n m r).current_answer ≡ (if ltb r n then 0 else 1)
standing-answer n m r = elim (dec_lt r n) [
  | yes l ↦ let test : ltb r n ≡ true = ground arith in rw test refl
  | no l ↦ let test : ltb r n ≡ false = ground arith in rw test refl
]

-- For N and M that are not 0 and whose sum is a 64-bit word: the answer to packet `k + 1` of a
-- copied context is 0, that it stays in its flow, where the remainder of `k + 1` by N + M is below
-- N, and else 1. So a round keeps N packets and sends M away, but the first one keeps N - 1.
pub partition-rounds :
    (c : PartitionCtx) (k : ℕ)
    → 0 < c.n
    → 0 < c.m
    → c.n + c.m < 2 ^ 64
    → (partition (after (copy_ctx c) k)).1 ≡ (if ltb ((k + 1) % (c.n + c.m)) c.n then 0 else 1)
unfolding partition copy_ctx
partition-rounds c k n_pos m_pos word =
    let next : suc k ≡ k + 1 = omega arith in
    let there = after-standing c.n c.m n_pos m_pos word (suc k) in
    ap (λ t. t.current_answer) there
    ∙ ap (λ t. (standing c.n c.m (t % (c.n + c.m))).current_answer) next
    ∙ standing-answer c.n c.m ((k + 1) % (c.n + c.m))
