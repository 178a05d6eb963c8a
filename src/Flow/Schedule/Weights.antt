-- ===== src/Flow/Schedule/Weights.antt =====
-- Weighing the attempts of an instance with one clone stays within their 32 places.
use nff_go.Base.{
  ℕ, zero, suc, ◌+◌, ◌*◌, ◌≤◌, ◌<◌, ◌≡◌, refl, ◌∙◌, arith, length, ltb, u64, Bool-cases, inl, inr,
  if◌then◌else◌,
}
use nff_go.Common.Errors.{ok, Succeeds, Succeeds-value, Succeeds-bind, Succeeds-weaken}
use nff_go.Common.Slices.{fetch_lt}
use nff_go.Flow.Schedule.State.{Running, Config, set_attempts}
use nff_go.Flow.Schedule.Removing.{least_attempts, weigh}
use nff_go.Flow.Schedule.Serving.{Attempted, set_attempts-Attempted}
use nff_go.Flow.Schedule.Indexes.{IsIndex}

after-Attempted : {a b c : Running} → Attempted a b → Attempted b c → Attempted a c
after-Attempted h k = record {
  queues = k.queues ∙ h.queues;
  clone = k.clone ∙ h.clone;
  attempts = k.attempts;
}

least_attempts-Attempted :
    (left z : ℕ) (old ffi : Running)
    → z + left ≤ 32
    → Attempted old ffi
    → Succeeds (Attempted old) (least_attempts left z ffi)
unfolding least_attempts
least_attempts-Attempted zero z old ffi h t = t
least_attempts-Attempted (suc left) z old ffi h t =
    let (a, ea) = fetch_lt ffi.reported.zero_attempts z (omega (arith, t.attempts, h)) in
    let (b, eb) = fetch_lt ffi.reported.zero_attempts 0 (omega (arith, t.attempts)) in
    let rest = λ (next : Running) (k : Attempted ffi next).
      least_attempts-Attempted left (z + 1) old next (omega (arith, h)) (after-Attempted t k) in
    let same : Attempted ffi ffi = record { queues = refl; clone = refl; attempts = t.attempts } in
    rw (ea, eb)
      (Succeeds-bind (Attempted old) (Attempted ffi)
        (if ltb a b then set_attempts ffi 0 a else ok ffi) _
        (elim (Bool-cases (ltb a b)) [
          | inl less ↦ rw less (set_attempts-Attempted ffi 0 a t.attempts (omega arith))
          | inr more ↦ rw more same
        ])
        rest)

pub weigh-Attempted :
    (c : Config) (number : ℕ) (ffi : Running)
    → number ≤ 32
    → number < length c.n_attempts
    → IsIndex number ffi.in_index
    → length ffi.reported.zero_attempts ≡ 32
    → Succeeds (Attempted ffi) (weigh c ffi)
unfolding weigh
weigh-Attempted c number ffi few table i attempts =
    let (p, ep) = fetch_lt c.n_attempts i.size (omega (arith, i.fits, table)) in
    let same : Attempted ffi ffi = record { queues = refl; clone = refl; attempts = attempts } in
    let (least, el, t) =
      Succeeds-value (Attempted ffi) (least_attempts i.size 0 ffi)
        (least_attempts-Attempted i.size 0 ffi ffi (omega (arith, i.fits, few)) same) in
    let (a, ea) = fetch_lt least.reported.zero_attempts 0 (omega (arith, t.attempts)) in
    rw (i.head, el, ea, ep)
      (Succeeds-weaken (Attempted ffi) (Attempted least) (set_attempts least 0 (u64 (a * p)))
        (set_attempts-Attempted least 0 (u64 (a * p)) t.attempts (omega arith))
        (λ next k. after-Attempted t k))
