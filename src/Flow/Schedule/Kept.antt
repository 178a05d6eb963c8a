-- ===== src/Flow/Schedule/Kept.antt =====
-- Starting clones in a round keeps what the scheduler relies on, and no index is out of range.
use nff_go.Base.{
  ℕ, zero, suc, ◌+◌, ◌<◌, ◌≡◌, refl, ap, ◌∙◌, arith, Bool, true, false, List, length, Bool-cases,
  inl, inr, ◌||◌, not, if◌then◌else◌,
}
use nff_go.Common.Errors.{ok, Succeeds, Succeeds-value, Succeeds-bind, Succeeds-weaken}
use nff_go.Common.Slices.{fetch, fetch_lt}
use nff_go.Flow.Schedule.State.{Running, Config, State, Parameters, change}
use nff_go.Flow.Schedule.Adding.{
  split_loop, add_clone_to, wants_clone, clone_step, clone_loop, add_segments,
}
use nff_go.Flow.Schedule.Serving.{Serves, ServesBy, Serves-running, change-same-Serves}
use nff_go.Flow.Schedule.Indexes.{Serves-IsIndex}
use nff_go.Flow.Schedule.Rings.{HasRings}
use nff_go.Flow.Schedule.Starts.{Grown}
use nff_go.Flow.Schedule.Grows.{Cloned, add_clone_to-Cloned}
use nff_go.Flow.Schedule.Splits.{split_loop-Grown, wants_clone-some}

module _ (number : ℕ) (others : List ℕ) (c : Config) (par : Parameters)
    (rings : HasRings number par) where
  module _ (two : 1 < length others) where
    clone_if :
        (wants : Bool) (s : State) (q : ℕ) (ffi : Running)
        → Serves number others s
        → fetch s.instances q ≡ ok ffi
        → Succeeds
            (Cloned number others s)
            (if wants then add_clone_to c s q ffi else ok (s, false))
    clone_if true s q ffi v e = add_clone_to-Cloned number others c s q ffi two v e
    clone_if false s q ffi v e = ((v, refl), λ k. refl)

    -- The speed is forgotten at a tick where no clone was started.
    forget :
        (check_required : Bool) (s : State) (q : ℕ) (ffi : Running) (r : State × Bool)
        → Cloned number others s r
        → fetch s.instances q ≡ ok ffi
        → Succeeds (ServesBy number others (length s.instances)) (
            if r.1 || not check_required
            then ok r.0
            else change r.0 q (record ffi { increased_speed = 0 }))
    forget check_required s q ffi (t, true) k e = k.0
    forget false s q ffi (t, false) k e = k.0
    forget true s q ffi (t, false) k e =
        let here : fetch t.instances q ≡ ok ffi =
          ap (λ (ws : List Running). fetch ws q) (k.1 refl) ∙ e in
        let was = Serves-running number others t q ffi k.0.0 here in
        Succeeds-weaken (ServesBy number others (length s.instances))
          (ServesBy number others (length t.instances))
          (change t q (record ffi { increased_speed = 0 }))
          (change-same-Serves number others t q ffi (record ffi { increased_speed = 0 }) k.0.0 here
            refl refl was.attempts)
          (λ u w. (w.0, w.1 ∙ k.0.1))

    clone_step-Serves :
        (check_required : Bool) (s : State) (q : ℕ)
        → Serves number others s
        → q < length s.instances
        → Succeeds
            (ServesBy number others (length s.instances))
            (clone_step c par check_required s q)
    unfolding clone_step
    clone_step-Serves check_required s q v h =
        let (ffi, e) = fetch_lt s.instances q h in
        let was = Serves-running number others s q ffi v e in
        elim (Bool-cases ffi.base.removed) [
          | inl t ↦
              rw (e, t)
                (change-same-Serves number others s q ffi
                  (record ffi { base = record ffi.base { removed = false } }) v e refl refl
                  was.attempts)
          | inr f ↦
              let (wants, ew, _) =
                Succeeds-value (λ b. Unit {0}) (wants_clone c par ffi)
                  (wants_clone-some number others c par rings ffi
                    (Serves-IsIndex number others s q ffi v e)) in
              let (next, en, k) =
                Succeeds-value (Cloned number others s)
                  (if wants then add_clone_to c s q ffi else ok (s, false))
                  (clone_if wants s q ffi v e) in
              rw (e, f, ew, en) (forget check_required s q ffi next k e)
        ]

    clone_loop-Serves :
        (check_required : Bool) (left q : ℕ) (s : State)
        → q + left ≡ length s.instances
        → Serves number others s
        → Succeeds (Serves number others) (clone_loop c par check_required left q s)
    unfolding clone_loop
    clone_loop-Serves check_required zero q s sum v = v
    clone_loop-Serves check_required (suc left) q s sum v =
        Succeeds-bind (Serves number others) (ServesBy number others (length s.instances))
          (clone_step c par check_required s q) _
          (clone_step-Serves check_required s q v (omega (arith, sum)))
          (λ next w.
            clone_loop-Serves check_required left (q + 1) next (omega (arith, sum, w.1)) w.0)

    clone_unless :
        (check_required : Bool) (n : ℕ) (r : State × Bool)
        → Grown number others n r
        → Succeeds
            (Serves number others)
            (if r.1 then ok r.0 else clone_loop c par check_required n 0 r.0)
    clone_unless check_required n (t, true) g = g.0
    clone_unless check_required n (t, false) g =
        clone_loop-Serves check_required n 0 t (omega (arith, g.2 refl)) g.0

    pub add_segments-Serves :
        (check_required : Bool) (s : State)
        → Serves number others s
        → Succeeds (Serves number others) (add_segments c par check_required s)
    unfolding add_segments
    add_segments-Serves check_required s v =
        let n = length s.instances in
        Succeeds-bind (Serves number others) (Grown number others n) (split_loop c par n 0 s false)
          _
          (split_loop-Grown number others c par rings n 0 n s false (omega arith)
            (v, omega arith, λ k. refl))
          (λ r g. clone_unless check_required n r g)
