-- ===== src/Flow/Schedule/Removing.antt =====
-- The first half of a round of `schedule`, flow/scheduler.go: clones that wait too much are stopped,
-- and instances that do are merged.
use nff_go.Base.{
  ℕ, zero, suc, ◌+◌, ◌-◌, ◌*◌, Bool, true, false, List, length, Option, none, some, if◌then◌else◌,
  ltb, ◌==◌, ◌||◌, u64,
}
use nff_go.Common.Errors.{Result, ok, ◌>>=◌}
use nff_go.Common.Slices.{fetch, put}
use nff_go.Flow.Cores.{stop_clone, stop_clones}
use nff_go.Flow.Queues.{merge_index}
use nff_go.Flow.Instances.{remove}
use nff_go.Flow.Schedule.State.{
  Running, Config, State, clone_number, change, update_pause, set_attempts,
}

-- `uint64(schedTime)*uint64(1000000*1.05)`
abbrev pub wasted_time : Config → ℕ
wasted_time c = u64 (c.sched_time * 1050000)

-- An instance with more than one clone, at `q`.
unfoldable pub remove_clone : Config → State → ℕ → Running → Result State
unfolding fetch set_attempts change stop_clone
remove_clone c s q ffi = do
  zero_attempts ← fetch ffi.reported.zero_attempts 0
  factor ← fetch s.p_attempts (clone_number ffi)
  scaled ← set_attempts ffi 0 (u64 (zero_attempts * factor))
  let waits = ltb (wasted_time c) (u64 (zero_attempts * factor))
  let slower = ltb ffi.reported.packets ffi.decreased_speed
  if waits || slower
      then (do
        stopped ← stop_clone s.base ffi.base
        change (record s { base = stopped.0 }) q
            (record scaled {
              base = stopped.1;
              increased_speed = ffi.reported.packets;
              decreased_speed = 0;
              pause = length stopped.1.clone - 1;
            }))
      else change s q scaled

-- The least number of attempts among the queues from `z` on, put in place 0.
unfoldable pub least_attempts : ℕ → ℕ → Running → Result Running
unfolding fetch set_attempts
least_attempts zero z ffi = ok ffi
least_attempts (suc left) z ffi = do
  a ← fetch ffi.reported.zero_attempts z
  first ← fetch ffi.reported.zero_attempts 0
  next ← (if ltb a first then set_attempts ffi 0 a else ok ffi)
  least_attempts left (z + 1) next

-- The attempts of an instance with one clone.
unfoldable pub weigh : Config → Running → Result Running
unfolding fetch least_attempts set_attempts
weigh c ffi = do
  number ← fetch ffi.in_index 0
  least ← least_attempts number 0 ffi
  first ← fetch least.reported.zero_attempts 0
  factor ← fetch c.n_attempts number
  set_attempts least 0 (u64 (first * factor))

-- `ff.instance[q].reportedState.ZeroAttempts[0]`
unfoldable pub attempts_of : List Running → ℕ → Result ℕ
unfolding fetch
attempts_of instances q = do ffi ← fetch instances q; fetch ffi.reported.zero_attempts 0

-- Whether the attempts `v` are more than those of the instance `best`, which may be none yet.
unfoldable pub beats : List Running → ℕ → Option ℕ → Result Bool
unfolding attempts_of
beats instances v none = ok true
beats instances v (some best) = do w ← attempts_of instances best; ok (ltb w v)

-- `maxZeroAttempts0` and `maxZeroAttempts1`, where -1 is `none`.
abbrev pub Maxima : Type 0
Maxima = Option ℕ × Option ℕ

unfoldable pub rank : List Running → ℕ → Maxima → Result Maxima
unfolding attempts_of beats
rank instances q (first, second) = do
  v ← attempts_of instances q
  over_first ← beats instances v first
  if over_first then ok (some q, first) else (do
    over_second ← beats instances v second
    ok (first, (if over_second then some q else second)))

-- The body of the loop at instance `q`.
unfoldable pub remove_step : Config → State → ℕ → Maxima → Result (State × Maxima)
unfolding fetch remove_clone weigh change rank
remove_step c s q best = do
  ffi ← fetch s.instances q
  if ltb 1 (clone_number ffi) then (do next ← remove_clone c s q ffi; ok (next, best)) else (do
    weighed ← weigh c ffi
    next ← change s q weighed
    ranked ← rank next.instances q best
    ok (next, ranked))

-- The loop over the instances from `q` on.
unfoldable pub remove_loop : Config → ℕ → ℕ → State → Maxima → Result (State × Maxima)
unfolding remove_step
remove_loop c zero q s best = ok (s, best)
remove_loop c (suc left) q s best = do
  next ← remove_step c s q best
  remove_loop c left (q + 1) next.0 next.1

-- `stopInstance` for an instance that hands its queues to another.
unfoldable pub stop_instance : State → ℕ → ℕ → Result State
unfolding fetch put stop_clones merge_index remove
stop_instance s from to = do
  ffi ← fetch s.instances from
  stopped ← stop_clones (clone_number ffi) s.base ffi.base
  target ← fetch s.instances to
  merged ← merge_index ffi.in_index target.in_index
  instances ← put s.instances to (record target { in_index = merged })
  ok (record s { base = stopped.0; instances = remove from instances })

-- Where the instance `to` stands when the instance `from` is gone.
abbrev pub moved : ℕ → ℕ → ℕ
moved from to = if ltb from to then to - 1 else to

-- The two instances that wait most are merged if they wait more than one round.
unfoldable pub merge_maxima : Config → State → Maxima → Result State
unfolding attempts_of stop_instance update_pause
merge_maxima c s (none, second) = ok s
merge_maxima c s (some from, none) = ok s
merge_maxima c s (some from, some to) = do
  second ← attempts_of s.instances to
  if second == 0 then ok s else (do
    first ← attempts_of s.instances from
    (if ltb (wasted_time c) (u64 (first + second))
        then (do next ← stop_instance s from to; update_pause next (moved from to) 0)
        else ok s))

-- The case `segmentCopy`.
unfoldable pub remove_segments : Config → State → Result State
unfolding remove_loop merge_maxima
remove_segments c s = do
  next ← remove_loop c (length s.instances) 0 s (none, none)
  merge_maxima c next.0 next.1

-- Whether no queue of the port from place `q` of the list on has more than 5 packets.
unfoldable pub all_idle : Config → ℕ → List ℕ → ℕ → ℕ → Result Bool
unfolding fetch
all_idle c port in_index zero q = ok true
all_idle c port in_index (suc left) q = do
  queue ← fetch in_index q
  elim (c.rss_above port queue 5) [
    | true ↦ ok false
    | false ↦ all_idle c port in_index left (q + 1)
  ]

-- The loop of the case `receiveRSS` from `q` on: the first two idle instances are merged.
unfoldable pub merge_idle : Config → ℕ → ℕ → ℕ → Option ℕ → State → Result State
unfolding fetch all_idle stop_instance
merge_idle c port zero q first s = ok s
merge_idle c port (suc left) q first s = do
  ffi ← fetch s.instances q
  number ← fetch ffi.in_index 0
  idle ← all_idle c port ffi.in_index number 1
  elim idle [
    | false ↦ merge_idle c port left (q + 1) first s
    | true ↦ elim first [
      | none ↦ merge_idle c port left (q + 1) (some q) s
      | some from ↦ stop_instance s from q
    ]
  ]

-- The case `receiveRSS`.
unfoldable pub remove_receivers : Config → ℕ → State → Result State
unfolding merge_idle
remove_receivers c port s =
    if ltb 1 (length s.instances) then merge_idle c port (length s.instances) 0 none s else ok s
