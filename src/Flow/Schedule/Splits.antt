-- ===== src/Flow/Schedule/Splits.antt =====
-- Splitting instances keeps what the scheduler relies on, and the tests that decide on a split or a
-- clone give an answer.
use nff_go.Base.{
  ℕ, zero, suc, ◌+◌, ◌<◌, ◌≡◌, refl, ◌∙◌, arith, Bool, true, false, List, length, Bool-cases, inl,
  inr, ◌==◌, ◌&&◌, ◌||◌, ltb, if◌then◌else◌,
}
use nff_go.Common.Errors.{ok, Succeeds, Succeeds-value, Succeeds-weaken}
use nff_go.Common.Slices.{fetch, fetch_lt}
use nff_go.Flow.Schedule.State.{Running, Config, State, Parameters, update_pause}
use nff_go.Flow.Schedule.Adding.{
  check_input_ring_clonable, check_output_ring_clonable, split_running, split_loop, wants_clone,
  split_receiver, add_receivers,
}
use nff_go.Flow.Schedule.Serving.{Serves, ServesBy, update_pause-Serves}
use nff_go.Flow.Schedule.Indexes.{IsIndex, Serves-IsIndex}
use nff_go.Flow.Schedule.Rings.{
  HasRings, check_input_ring_clonable-Answers, check_output_ring_clonable-Answers,
}
use nff_go.Flow.Schedule.Starts.{Grown, split_running-Grown}

module _ (number : ℕ) (others : List ℕ) (c : Config) (par : Parameters)
    (rings : HasRings number par) where
  -- The input rings, asked only where a test holds.
  input_if :
      (test : Bool) (min : ℕ) (index : List ℕ)
      → IsIndex number index
      → Succeeds
          (λ b. Unit {0})
          (if test then check_input_ring_clonable c par min index else ok false)
  input_if true min index i = check_input_ring_clonable-Answers number index i c par min rings
  input_if false min index i = tt

  output_if :
      (test : Bool) (max : ℕ) (index : List ℕ)
      → IsIndex number index
      → Succeeds
          (λ b. Unit {0})
          (if test then check_output_ring_clonable c par max index else ok false)
  output_if true max index i = check_output_ring_clonable-Answers number index i c par max rings
  output_if false max index i = tt

  -- The pause of an instance that was split is reset.
  pause_if :
      (q n : ℕ) (r : State × Bool)
      → Grown number others n r
      → q < n
      → Succeeds
          (λ t. Grown number others n (t, r.1))
          (if r.1 then update_pause r.0 q 0 else ok r.0)
  pause_if q n (t, true) g h =
      Succeeds-weaken (λ u. Grown number others n (u, true))
        (ServesBy number others (length t.instances)) (update_pause t q 0)
        (update_pause-Serves number others t q 0 g.0 (omega (arith, h, g.1)))
        (λ u k. (k.0, omega (arith, k.1, g.1), λ f. absurd (cc)))
  pause_if q n (t, false) g h = g

  split_if :
      (full : Bool) (s : State) (q : ℕ) (ffi : Running)
      → Serves number others s
      → fetch s.instances q ≡ ok ffi
      → Succeeds
          (Grown number others (length s.instances))
          (if full then split_running s q ffi else ok (s, false))
  split_if true s q ffi v e = split_running-Grown number others s q ffi v e
  split_if false s q ffi v e = (v, omega arith, λ k. refl)

  Grown-after :
      (n : ℕ) (s t : State) (before after : Bool)
      → Grown number others n (s, before)
      → Grown number others (length s.instances) (t, after)
      → Grown number others n (t, before || after)
  Grown-after n s t true after g k = (k.0, omega (arith, g.1, k.1), λ f. absurd (cc))
  Grown-after n s t false after g k = (k.0, omega (arith, g.1, k.1), λ f. k.2 f ∙ g.2 refl)

  pub split_loop-Grown :
      (left q n : ℕ) (s : State) (split : Bool)
      → q + left ≡ n
      → Grown number others n (s, split)
      → Succeeds (Grown number others n) (split_loop c par left q s split)
  unfolding split_loop
  split_loop-Grown zero q n s split sum g = g
  split_loop-Grown (suc left) q n s split sum g =
      let (ffi, e) = fetch_lt s.instances q (omega (arith, sum, g.1)) in
      let i = Serves-IsIndex number others s q ffi g.0 e in
      let (full, ef, _) =
        Succeeds-value (λ b. Unit {0})
          (if ltb 1 i.size
            then check_input_ring_clonable c par c.max_packets_to_clone ffi.in_index
            else ok false)
          (input_if (ltb 1 i.size) c.max_packets_to_clone ffi.in_index i) in
      let (next, en, grown) =
        Succeeds-value (Grown number others (length s.instances))
          (if full then split_running s q ffi else ok (s, false)) (split_if full s q ffi g.0 e) in
      let (paused, ep, kept) =
        Succeeds-value (λ t. Grown number others (length s.instances) (t, next.1))
          (if next.1 then update_pause next.0 q 0 else ok next.0)
          (pause_if q (length s.instances) next grown (omega (arith, sum, g.1))) in
      rw (e, i.head, ef, en, ep)
        (split_loop-Grown left (q + 1) n paused (split || next.1) (omega (arith, sum))
          (Grown-after n s paused split next.1 g kept))

  pub wants_clone-some :
      (ffi : Running)
      → IsIndex number ffi.in_index
      → Succeeds (λ b. Unit {0}) (wants_clone c par ffi)
  unfolding wants_clone
  wants_clone-some ffi i =
      let (input, ei, _) =
        Succeeds-value (λ b. Unit {0})
          (if i.size == 1 && c.anyway
            then check_input_ring_clonable c par c.max_packets_to_clone ffi.in_index
            else ok false)
          (input_if (i.size == 1 && c.anyway) c.max_packets_to_clone ffi.in_index i) in
      let (output, eo, _) =
        Succeeds-value (λ b. Unit {0})
          (if input
            then check_output_ring_clonable c par c.max_packets_to_clone ffi.in_index
            else ok false)
          (output_if input c.max_packets_to_clone ffi.in_index i) in
      rw (i.head, ei, eo) tt

  split_receiver-Serves :
      (left q : ℕ) (s : State)
      → q + left ≡ length s.instances
      → Serves number others s
      → Succeeds (Serves number others) (split_receiver c par left q s)
  unfolding split_receiver
  split_receiver-Serves zero q s sum v = v
  split_receiver-Serves (suc left) q s sum v =
      let (ffi, e) = fetch_lt s.instances q (omega (arith, sum)) in
      let i = Serves-IsIndex number others s q ffi v e in
      let (input, ei, _) =
        Succeeds-value (λ b. Unit {0}) (check_input_ring_clonable c par 39 ffi.in_index)
          (check_input_ring_clonable-Answers number ffi.in_index i c par 39 rings) in
      let (output, eo, _) =
        Succeeds-value (λ b. Unit {0})
          (if input
            then check_output_ring_clonable c par c.max_packets_to_clone ffi.in_index
            else ok false)
          (output_if input c.max_packets_to_clone ffi.in_index i) in
      elim (Bool-cases output) [
        | inl t ↦
            let (next, en, g) =
              Succeeds-value (Grown number others (length s.instances)) (split_running s q ffi)
                (split_running-Grown number others s q ffi v e) in
            rw (e, ei, eo, t, en) g.0
        | inr f ↦ rw (e, ei, eo, f) (split_receiver-Serves left (q + 1) s (omega (arith, sum)) v)
      ]

  pub add_receivers-Serves :
      (in_index_number : ℕ) (s : State)
      → Serves number others s
      → Succeeds (Serves number others) (add_receivers c par in_index_number s)
  unfolding add_receivers
  add_receivers-Serves in_index_number s v =
      elim (Bool-cases (ltb (length s.instances) c.max_recv && ltb 1 in_index_number)) [
        | inl t ↦ rw t (split_receiver-Serves (length s.instances) 0 s (omega arith) v)
        | inr f ↦ rw f v
      ]
