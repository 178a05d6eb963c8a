-- ===== src/Flow/Schedule/Merges.antt =====
-- The first half of a round keeps what the scheduler relies on, and no index is out of range.
use nff_go.Base.{
  ℕ, zero, suc, ◌+◌, ◌≤◌, ◌<◌, ◌≡◌, ◌≢◌, refl, ◌∙◌, arith, Bool, true, false, List, length, Option,
  none, some, ltb, ◌==◌, u64, Bool-cases, inl, inr,
}
use nff_go.Common.Errors.{ok, Succeeds, Succeeds-value, Succeeds-bind, Succeeds-weaken}
use nff_go.Common.Slices.{fetch_lt}
use nff_go.Flow.Schedule.State.{Config, State, clone_number, change, update_pause}
use nff_go.Flow.Schedule.Removing.{
  wasted_time, remove_clone, weigh, attempts_of, beats, Maxima, rank, remove_step, remove_loop,
  stop_instance, moved, merge_maxima, remove_segments, all_idle, merge_idle, remove_receivers,
}
use nff_go.Flow.Schedule.Serving.{
  Serves, ServesBy, Serves-running, change-same-Serves, update_pause-Serves, Attempted,
}
use nff_go.Flow.Schedule.Indexes.{IsIndex, Serves-IsIndex}
use nff_go.Flow.Schedule.Stops.{remove_clone-Serves, stop_instance-Serves}
use nff_go.Flow.Schedule.Weights.{weigh-Attempted}

-- The two instances with the most attempts stand apart, below `n`.
abbrev Apart : ℕ → Maxima → Type 0
Apart n (none, none) = Unit
Apart n (none, some b) = ⊥
Apart n (some a, none) = a < n
Apart n (some a, some b) = (a < n) × (b < n) × (a ≢ b)

Apart-later : (q : ℕ) (best : Maxima) → Apart q best → Apart (q + 1) best
Apart-later q (none, none) h = tt
Apart-later q (none, some b) h = absurd h
Apart-later q (some a, none) h = omega (arith, h)
Apart-later q (some a, some b) h = (omega (arith, h.0), omega (arith, h.1), h.2)

module _ (number : ℕ) (others : List ℕ) where
  attempts_of-some :
      (s : State) (q : ℕ)
      → Serves number others s
      → q < length s.instances
      → (v : ℕ) × (attempts_of s.instances q ≡ ok v)
  unfolding attempts_of
  attempts_of-some s q v h =
      let (ffi, e) = fetch_lt s.instances q h in
      let was = Serves-running number others s q ffi v e in
      let (a, ea) = fetch_lt ffi.reported.zero_attempts 0 (omega (arith, was.attempts)) in
      (a, rw (e, ea) refl)

  rank-Apart :
      (s : State) (q : ℕ) (best : Maxima)
      → Serves number others s
      → q < length s.instances
      → Apart q best
      → Succeeds (Apart (q + 1)) (rank s.instances q best)
  unfolding rank beats
  rank-Apart s q (none, none) v h a = let (w, e) = attempts_of-some s q v h in rw e (omega arith)
  rank-Apart s q (none, some b) v h a = absurd a
  rank-Apart s q (some x, none) v h a =
      let (w, e) = attempts_of-some s q v h in
      let (y, ey) = attempts_of-some s x v (omega (arith, a, h)) in
      elim (Bool-cases (ltb y w)) [
        | inl t ↦ rw (e, ey, t) (omega arith, omega (arith, a), λ same. omega (arith, a, same))
        | inr f ↦ rw (e, ey, f) (omega (arith, a), omega arith, λ same. omega (arith, a, same))
      ]
  rank-Apart s q (some x, some z) v h (ax, az, ne) =
      let (w, e) = attempts_of-some s q v h in
      let (y, ey) = attempts_of-some s x v (omega (arith, ax, h)) in
      let (u, eu) = attempts_of-some s z v (omega (arith, az, h)) in
      elim (Bool-cases (ltb y w)) [
        | inl t ↦ rw (e, ey, t) (omega arith, omega (arith, ax), λ same. omega (arith, ax, same))
        | inr f ↦ elim (Bool-cases (ltb u w)) [
          | inl t ↦
              rw (e, ey, f, eu, t) (omega (arith, ax), omega arith, λ same. omega (arith, ax, same))
          | inr g ↦ rw (e, ey, f, eu, g) (omega (arith, ax), omega (arith, az), ne)
        ]
      ]

  module _ (c : Config) (few : number ≤ 32) (table : number < length c.n_attempts)
      (some_other : 0 < length others) where
    -- What the loop has after the instances below `q`, of `n`.
    abbrev Ranked : ℕ → ℕ → State × Maxima → Type 0
    Ranked n q (s, best) = ServesBy number others n s × Apart q best

    remove_step-Ranked :
        (s : State) (q : ℕ) (best : Maxima)
        → Serves number others s
        → q < length s.instances
        → Apart q best
        → Succeeds (Ranked (length s.instances) (q + 1)) (remove_step c s q best)
    unfolding remove_step
    remove_step-Ranked s q best v h a =
        let (ffi, e) = fetch_lt s.instances q h in
        let was = Serves-running number others s q ffi v e in
        let n = length s.instances in
        elim (Bool-cases (ltb 1 (clone_number ffi))) [
          | inl many ↦
              let (next, en, w) =
                Succeeds-value (ServesBy number others n) (remove_clone c s q ffi) (
                  remove_clone-Serves number others c s q ffi some_other v e
                    (ground (arith, many))) in
              rw (e, many, en) (w, Apart-later q best a)
          | inr one ↦
              let (weighed, ew, t) = Succeeds-value (Attempted ffi) (weigh c ffi) (
                weigh-Attempted c number ffi few table (Serves-IsIndex number others s q ffi v e)
                  was.attempts) in
              let (next, en, w) = Succeeds-value (ServesBy number others n) (change s q weighed) (
                change-same-Serves number others s q ffi weighed v e t.queues t.clone t.attempts) in
              let (ranked, er, apart) =
                Succeeds-value (Apart (q + 1)) (rank next.instances q best)
                  (rank-Apart next q best w.0 (omega (arith, w.1, h)) a) in
              rw (e, one, ew, en, er) (w, apart)
        ]

    remove_loop-Ranked :
        (left q n : ℕ) (s : State) (best : Maxima)
        → q + left ≡ n
        → ServesBy number others n s
        → Apart q best
        → Succeeds (Ranked n n) (remove_loop c left q s best)
    unfolding remove_loop
    remove_loop-Ranked zero q n s best sum v a =
        let done : q ≡ n = omega (arith, sum) in (v, rw done at a)
    remove_loop-Ranked (suc left) q n s best sum (v, size) a =
        Succeeds-bind (Ranked n n) (Ranked (length s.instances) (q + 1)) (remove_step c s q best) _
          (remove_step-Ranked s q best v (omega (arith, sum, size)) a)
          (λ next r.
            remove_loop-Ranked left (q + 1) n next.0 next.1 (omega (arith, sum))
              (r.0.0, r.0.1 ∙ size) r.1)

    merge_maxima-Serves :
        (s : State) (best : Maxima)
        → Serves number others s
        → Apart (length s.instances) best
        → Succeeds (Serves number others) (merge_maxima c s best)
    unfolding merge_maxima
    merge_maxima-Serves s (none, second) v a = v
    merge_maxima-Serves s (some from, none) v a = v
    merge_maxima-Serves s (some from, some to) v (hf, ht, ne) =
        let (x, ex) = attempts_of-some s from v hf in
        let (y, ey) = attempts_of-some s to v ht in
        elim (Bool-cases (y == 0)) [
          | inl t ↦ rw (ey, t) v
          | inr f ↦ elim (Bool-cases (ltb (wasted_time c) (u64 (x + y)))) [
            | inr g ↦ rw (ey, f, ex, g) v
            | inl g ↦
                let (next, en, w) =
                  Succeeds-value
                    (λ t. Serves number others t × (length t.instances + 1 ≡ length s.instances))
                    (stop_instance s from to)
                    (stop_instance-Serves number others s from to v hf ht ne) in
                let inside : moved from to < length next.instances =
                  let size = w.1 in ground (arith, size, hf, ht, ne) in
                rw (ey, f, ex, g, en)
                  (Succeeds-weaken (Serves number others)
                    (ServesBy number others (length next.instances))
                    (update_pause next (moved from to) 0)
                    (update_pause-Serves number others next (moved from to) 0 w.0 inside)
                    (λ t k. k.0))
          ]
        ]

    pub remove_segments-Serves :
        (s : State) → Serves number others s → Succeeds (Serves number others) (remove_segments c s)
    unfolding remove_segments
    remove_segments-Serves s v =
        let n = length s.instances in
        Succeeds-bind (Serves number others) (Ranked n n) (remove_loop c n 0 s (none, none)) _
          (remove_loop-Ranked n 0 n s (none, none) (omega arith) (v, refl) tt)
          (λ next r. merge_maxima-Serves next.0 next.1 r.0.0 (rw (← r.0.1) at r.1))

  all_idle-some :
      (c : Config) (port : ℕ) (index : List ℕ) (i : IsIndex number index) (left q : ℕ)
      → 0 < q
      → q + left ≤ i.size + 1
      → Succeeds (λ idle. Unit {0}) (all_idle c port index left q)
  unfolding all_idle
  all_idle-some c port index i zero q h k = tt
  all_idle-some c port index i (suc left) q h k =
      let (x, e, _) = i.read q h (omega (arith, k)) in
      elim (Bool-cases (c.rss_above port x 5)) [
        | inl t ↦ rw (e, t) tt
        | inr f ↦
            rw (e, f) (all_idle-some c port index i left (q + 1) (omega arith) (omega (arith, k)))
      ]

  abbrev Before : ℕ → Option ℕ → Type 0
  Before q none = Unit
  Before q (some first) = first < q

  idle-Serves :
      (c : Config) (port left q : ℕ) (s : State)
      → Serves number others s
      → q < length s.instances
      → ((f : Option ℕ)
          → Before (q + 1) f
          → Succeeds (Serves number others) (merge_idle c port left (q + 1) f s))
      → (idle : Bool) (first : Option ℕ) → Before q first
      → Succeeds (Serves number others) (elim idle [
        | false ↦ merge_idle c port left (q + 1) first s
        | true ↦ elim first [
          | none ↦ merge_idle c port left (q + 1) (some q) s
          | some from ↦ stop_instance s from q
        ]
      ])
  idle-Serves c port left q s v h rest false none b = rest none tt
  idle-Serves c port left q s v h rest false (some x) b = rest (some x) (omega (arith, b))
  idle-Serves c port left q s v h rest true none b = rest (some q) (omega arith)
  idle-Serves c port left q s v h rest true (some from) b =
      Succeeds-weaken (Serves number others)
        (λ t. Serves number others t × (length t.instances + 1 ≡ length s.instances))
        (stop_instance s from q)
        (stop_instance-Serves number others s from q v (omega (arith, b, h)) h
          (λ same. omega (arith, b, same)))
        (λ t k. k.0)

  merge_idle-Serves :
      (c : Config) (port left q : ℕ) (first : Option ℕ) (s : State)
      → q + left ≡ length s.instances
      → Serves number others s
      → Before q first
      → Succeeds (Serves number others) (merge_idle c port left q first s)
  unfolding merge_idle
  merge_idle-Serves c port zero q first s sum v b = v
  merge_idle-Serves c port (suc left) q first s sum v b =
      let (ffi, e) = fetch_lt s.instances q (omega (arith, sum)) in
      let i = Serves-IsIndex number others s q ffi v e in
      let (idle, ei, _) =
        Succeeds-value (λ idle. Unit {0}) (all_idle c port ffi.in_index i.size 1)
          (all_idle-some c port ffi.in_index i i.size 1 (omega arith) (omega arith)) in
      let rest = λ (f : Option ℕ) (a : Before (q + 1) f).
        merge_idle-Serves c port left (q + 1) f s (omega (arith, sum)) v a in
      rw (e, i.head, ei) (idle-Serves c port left q s v (omega (arith, sum)) rest idle first b)

  pub remove_receivers-Serves :
      (c : Config) (port : ℕ) (s : State)
      → Serves number others s
      → Succeeds (Serves number others) (remove_receivers c port s)
  unfolding remove_receivers
  remove_receivers-Serves c port s v = elim (Bool-cases (ltb 1 (length s.instances))) [
    | inl t ↦ rw t (merge_idle-Serves c port (length s.instances) 0 none s (omega arith) v tt)
    | inr f ↦ rw f v
  ]
