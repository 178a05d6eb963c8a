-- ===== src/Flow/Schedule/Rings.antt =====
-- The rings that the scheduler asks for the queues of an instance are there.
use nff_go.Base.{
  ℕ, zero, suc, ◌+◌, ◌≤◌, ◌<◌, arith, Bool, List, [], ◌∷◌, length, All, Bool-cases, inl, inr,
}
use nff_go.Common.Errors.{Result, ok, Succeeds, Succeeds-value}
use nff_go.Common.Slices.{fetch_lt}
use nff_go.Flow.Schedule.State.{Config, Parameters, segment, copy, receive, generate}
use nff_go.Flow.Schedule.Adding.{
  any_queue, ring_test, any_output, copy_test, check_input_ring_clonable,
  check_output_ring_clonable,
}
use nff_go.Flow.Schedule.Indexes.{IsIndex}

-- A flow function has a ring for each of its queues.
abbrev pub HasRings : ℕ → Parameters → Type 0
HasRings number (segment ins outs) =
    (number ≤ length ins) × All (λ (out : List ℕ). number ≤ length out) outs
HasRings number (copy ins outs copies) =
    (number ≤ length ins) × (number ≤ length outs) × (number ≤ length copies)
HasRings number (receive port outs) = number ≤ length outs
HasRings number (generate outs) = 0 < length outs

-- A test of a queue gives an answer.
abbrev Answers : Result Bool → Type 0
Answers r = Succeeds (λ b. Unit {0}) r

ring_test-Answers :
    (test : ℕ → Bool) (rings : List ℕ) (q : ℕ) → q < length rings → Answers (ring_test test rings q)
unfolding ring_test
ring_test-Answers test rings q h = let (x, e) = fetch_lt rings q h in rw e tt

copy_test-Answers :
    (test : ℕ → Bool) (outs copies : List ℕ) (q : ℕ)
    → q < length outs
    → q < length copies
    → Answers (copy_test test outs copies q)
unfolding copy_test
copy_test-Answers test outs copies q h k =
    let (b, e, _) = Succeeds-value _ (ring_test test outs q) (ring_test-Answers test outs q h) in
    elim (Bool-cases b) [
      | inl t ↦ rw (e, t) tt
      | inr f ↦ rw (e, f) (ring_test-Answers test copies q k)
    ]

module _ (number : ℕ) (index : List ℕ) (i : IsIndex number index) where
  any_queue-Answers :
      (test : ℕ → Result Bool) (left q : ℕ)
      → ((x : ℕ) → x < number → Answers (test x))
      → 0 < q
      → q + left ≤ i.size + 1
      → Answers (any_queue test index left q)
  unfolding any_queue
  any_queue-Answers test zero q all h k = tt
  any_queue-Answers test (suc left) q all h k =
      let (x, e, inside) = i.read q h (omega (arith, k)) in
      let (b, eb, _) = Succeeds-value _ (test x) (all x inside) in
      elim (Bool-cases b) [
        | inl t ↦ rw (e, eb, t) tt
        | inr f ↦
            rw (e, eb, f) (any_queue-Answers test left (q + 1) all (omega arith) (omega (arith, k)))
      ]

  -- The queues of the instance, all of them.
  every_queue :
      (test : ℕ → Result Bool)
      → ((x : ℕ) → x < number → Answers (test x))
      → Answers (any_queue test index i.size 1)
  every_queue test all = any_queue-Answers test i.size 1 all (omega arith) (omega arith)

  any_output-Answers :
      (test : ℕ → Bool) (outs : List (List ℕ))
      → All (λ (out : List ℕ). number ≤ length out) outs
      → Answers (any_output test outs index i.size)
  unfolding any_output
  any_output-Answers test [] h = tt
  any_output-Answers test (out ∷ outs) (here, rest) =
      let (b, e, _) = Succeeds-value _ (any_queue (ring_test test out) index i.size 1) (
        every_queue (ring_test test out)
          (λ x k. ring_test-Answers test out x (omega (arith, k, here)))) in
      elim (Bool-cases b) [
        | inl t ↦ rw (e, t) tt
        | inr f ↦ rw (e, f) (any_output-Answers test outs rest)
      ]

  module _ (c : Config) where
    pub check_input_ring_clonable-Answers :
        (par : Parameters) (min : ℕ)
        → HasRings number par
        → Answers (check_input_ring_clonable c par min index)
    unfolding check_input_ring_clonable
    check_input_ring_clonable-Answers (segment ins outs) min h =
        rw i.head (every_queue _ (λ x k. ring_test-Answers _ ins x (omega (arith, k, h.0))))
    check_input_ring_clonable-Answers (copy ins outs copies) min h =
        rw i.head (every_queue _ (λ x k. ring_test-Answers _ ins x (omega (arith, k, h.0))))
    check_input_ring_clonable-Answers (receive port outs) min h =
        rw i.head (every_queue (λ queue. ok (c.rss_above port queue min)) (λ x k. tt))
    check_input_ring_clonable-Answers (generate outs) min h = tt

    pub check_output_ring_clonable-Answers :
        (par : Parameters) (max : ℕ)
        → HasRings number par
        → Answers (check_output_ring_clonable c par max index)
    unfolding check_output_ring_clonable
    check_output_ring_clonable-Answers (segment ins outs) max h =
        rw i.head (any_output-Answers _ outs h.1)
    check_output_ring_clonable-Answers (copy ins outs copies) max h = rw i.head (
        every_queue _ (λ x k.
          copy_test-Answers _ outs copies x (omega (arith, k, h.1)) (omega (arith, k, h.2))))
    check_output_ring_clonable-Answers (receive port outs) max h =
        rw i.head (every_queue _ (λ x k. ring_test-Answers _ outs x (omega (arith, k, h))))
    check_output_ring_clonable-Answers (generate outs) max h = ring_test-Answers _ outs 0 h
