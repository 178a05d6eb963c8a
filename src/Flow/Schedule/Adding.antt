-- ===== src/Flow/Schedule/Adding.antt =====
-- The second half of a round of `schedule`, flow/scheduler.go: instances that have too many packets
-- are split, or get a clone more.
use nff_go.Base.{
  ℕ, zero, suc, ◌+◌, ◌-◌, Bool, true, false, List, [], ◌∷◌, ◌++◌, length, if◌then◌else◌, ltb, leb,
  ◌==◌, ◌&&◌, ◌||◌, not,
}
use nff_go.Common.Errors.{Result, ok, err, panic, ◌>>=◌}
use nff_go.Common.Slices.{fetch, put}
use nff_go.Flow.Cores.{Scheduler, Instance, get_core, set_core_by_index, start_new_clone}
use nff_go.Flow.Queues.{construct_zero_index, construct_duplicated_index}
use nff_go.Flow.Schedule.State.{
  Running, Config, State, Parameters, segment, copy, receive, generate, clone_number, fresh, change,
  update_pause,
}

-- A test of the ring for each queue of a list, from place `q` of it on, until one holds.
unfoldable pub any_queue : (ℕ → Result Bool) → List ℕ → ℕ → ℕ → Result Bool
unfolding fetch
any_queue test in_index zero q = ok false
any_queue test in_index (suc left) q = do
  queue ← fetch in_index q
  found ← test queue
  elim found [ true ↦ ok true | false ↦ any_queue test in_index left (q + 1) ]

-- The test of the ring that a table of rings has for a queue.
unfoldable pub ring_test : (ℕ → Bool) → List ℕ → ℕ → Result Bool
unfolding fetch
ring_test test rings queue = do ring ← fetch rings queue; ok (test ring)

unfoldable pub check_input_ring_clonable : Config → Parameters → ℕ → List ℕ → Result Bool
unfolding fetch any_queue ring_test
check_input_ring_clonable c (segment ins outs) min in_index = do
  number ← fetch in_index 0
  any_queue (ring_test (λ ring. ltb min (c.count ring)) ins) in_index number 1
check_input_ring_clonable c (copy ins outs copies) min in_index = do
  number ← fetch in_index 0
  any_queue (ring_test (λ ring. ltb min (c.count ring)) ins) in_index number 1
check_input_ring_clonable c (receive port outs) min in_index = do
  number ← fetch in_index 0
  any_queue (λ queue. ok (c.rss_above port queue min)) in_index number 1
check_input_ring_clonable c (generate outs) min in_index = ok false

-- The loop over the outputs of a segment.
unfoldable pub any_output : (ℕ → Bool) → List (List ℕ) → List ℕ → ℕ → Result Bool
unfolding any_queue ring_test
any_output test [] in_index number = ok false
any_output test (out ∷ outs) in_index number = do
  found ← any_queue (ring_test test out) in_index number 1
  elim found [ true ↦ ok true | false ↦ any_output test outs in_index number ]

-- The two rings of a copier: the second is read where the first is too full.
unfoldable pub copy_test : (ℕ → Bool) → List ℕ → List ℕ → ℕ → Result Bool
unfolding ring_test
copy_test test outs copies queue = do
  found ← ring_test test outs queue
  elim found [ true ↦ ok true | false ↦ ring_test test copies queue ]

unfoldable pub check_output_ring_clonable : Config → Parameters → ℕ → List ℕ → Result Bool
unfolding fetch any_queue ring_test any_output copy_test
check_output_ring_clonable c (generate outs) max in_index =
    ring_test (λ ring. leb (c.count ring) max) outs 0
check_output_ring_clonable c (receive port outs) max in_index = do
  number ← fetch in_index 0
  any_queue (ring_test (λ ring. leb (c.count ring) max) outs) in_index number 1
check_output_ring_clonable c (copy ins outs copies) max in_index = do
  number ← fetch in_index 0
  any_queue (copy_test (λ ring. leb (c.count ring) max) outs copies) in_index number 1
check_output_ring_clonable c (segment ins outs) max in_index = do
  number ← fetch in_index 0
  any_output (λ ring. leb (c.count ring) max) outs in_index number

-- `startNewInstance` behind the start of its first clone, with the `constructDuplicatedIndex` that
-- follows it: where no core was free nothing changes.
unfoldable pub add_instance :
    State → ℕ → Running → Scheduler × Instance × Result (Unit {0}) → Result (State × Bool)
unfolding change construct_duplicated_index
add_instance s q ffi (base, first, ok _) = do
  lists ← construct_duplicated_index ffi.in_index (construct_zero_index ffi.in_index)
  next ← change s q (record ffi { in_index = lists.0 })
  let started = record (fresh lists.1) { base = first }
  ok (record next { base = base; instances = next.instances ++ (started ∷ []) }, true)
add_instance s q ffi (base, first, err e) = ok (record s { base = base }, false)
add_instance s q ffi (base, first, panic) = panic

-- A new instance for half of the queues of instance `q`.
unfoldable pub split_running : State → ℕ → Running → Result (State × Bool)
unfolding add_instance start_new_clone
split_running s q ffi =
    add_instance s q ffi (start_new_clone s.base (fresh (construct_zero_index ffi.in_index)).base)

-- The first loop of the case `segmentCopy` from `q` on, and whether it split an instance.
unfoldable pub split_loop : Config → Parameters → ℕ → ℕ → State → Bool → Result (State × Bool)
unfolding fetch check_input_ring_clonable split_running update_pause
split_loop c par zero q s split = ok (s, split)
split_loop c par (suc left) q s split = do
  ffi ← fetch s.instances q
  number ← fetch ffi.in_index 0
  full ←
      (if ltb 1 number
        then check_input_ring_clonable c par c.max_packets_to_clone ffi.in_index
        else ok false)
  next ← (if full then split_running s q ffi else ok (s, false))
  paused ← (if next.1 then update_pause next.0 q 0 else ok next.0)
  split_loop c par left (q + 1) paused (split || next.1)

-- `measure` behind its call of `getCore`; without a core it is 0.
unfoldable pub measure_on : Config → ℕ → ℕ → Scheduler × Result (ℕ × ℕ) → Result (Scheduler × ℕ)
unfolding set_core_by_index
measure_on c number clones (s, ok (id, index)) = do
  released ← set_core_by_index s index
  ok (released, c.measured number clones)
measure_on c number clones (s, err e) = ok (s, 0)
measure_on c number clones (s, panic) = panic

unfoldable pub measure : Config → Scheduler → ℕ → ℕ → Result (Scheduler × ℕ)
unfolding measure_on get_core
measure c s number clones = measure_on c number clones (get_core s)

-- The place of `pAttempts` for so many clones, measured when it is first asked for.
unfoldable pub ensure_attempts : Config → State → ℕ → Result State
unfolding fetch put measure
ensure_attempts c s clones = do
  known ← fetch s.p_attempts clones
  if known == 0
      then (do
        found ← measure c s.base 1 clones
        attempts ← put s.p_attempts clones found.1
        ok (record s { base = found.0; p_attempts = attempts }))
      else ok s

-- `startNewClone` for instance `q`, and what is set when it succeeds.
unfoldable pub clone_started :
    State → ℕ → Running → Scheduler × Instance × Result (Unit {0}) → Result (State × Bool)
unfolding change
clone_started s q ffi (base, first, ok _) = do
  next ←
      change (record s { base = base }) q
        (record ffi {
          base = first;
          decreased_speed = ffi.reported.packets;
          increased_speed = 0;
          pause = length first.clone - 1;
        })
  ok (next, true)
clone_started s q ffi (base, first, err e) = ok (record s { base = base }, false)
clone_started s q ffi (base, first, panic) = panic

unfoldable pub add_clone_to : Config → State → ℕ → Running → Result (State × Bool)
unfolding ensure_attempts clone_started start_new_clone
add_clone_to c s q ffi = do
  ready ← ensure_attempts c s (clone_number ffi + 1)
  clone_started ready q ffi (start_new_clone ready.base ffi.base)

-- The tests before a clone is added, in the order in which they are made.
unfoldable pub wants_clone : Config → Parameters → Running → Result Bool
unfolding fetch check_input_ring_clonable check_output_ring_clonable
wants_clone c par ffi = do
  number ← fetch ffi.in_index 0
  input ←
      (if number == 1 && c.anyway
        then check_input_ring_clonable c par c.max_packets_to_clone ffi.in_index
        else ok false)
  output ←
      (if input
        then check_output_ring_clonable c par c.max_packets_to_clone ffi.in_index
        else ok false)
  ok (output && (ffi.increased_speed == 0 || ltb ffi.reported.packets ffi.increased_speed))

-- The body of the second loop of the case `segmentCopy`, at instance `q`.
unfoldable pub clone_step : Config → Parameters → Bool → State → ℕ → Result State
unfolding fetch change wants_clone add_clone_to
clone_step c par check_required s q = do
  ffi ← fetch s.instances q
  (if ffi.base.removed
      then change s q (record ffi { base = record ffi.base { removed = false } })
      else (do
        wants ← wants_clone c par ffi
        next ← (if wants then add_clone_to c s q ffi else ok (s, false))
        (if next.1 || not check_required
            then ok next.0
            else change next.0 q (record ffi { increased_speed = 0 }))))

unfoldable pub clone_loop : Config → Parameters → Bool → ℕ → ℕ → State → Result State
unfolding clone_step
clone_loop c par check_required zero q s = ok s
clone_loop c par check_required (suc left) q s = do
  next ← clone_step c par check_required s q
  clone_loop c par check_required left (q + 1) next

-- The case `segmentCopy`: clones are added only where no instance was split.
unfoldable pub add_segments : Config → Parameters → Bool → State → Result State
unfolding split_loop clone_loop
add_segments c par check_required s = do
  next ← split_loop c par (length s.instances) 0 s false
  (if next.1 then ok next.0 else clone_loop c par check_required (length s.instances) 0 next.0)

-- The loop of the case `receiveRSS` from `q` on: the first full instance is split.
unfoldable pub split_receiver : Config → Parameters → ℕ → ℕ → State → Result State
unfolding fetch check_input_ring_clonable check_output_ring_clonable split_running
split_receiver c par zero q s = ok s
split_receiver c par (suc left) q s = do
  ffi ← fetch s.instances q
  input ← check_input_ring_clonable c par 39 ffi.in_index
  output ←
      (if input
        then check_output_ring_clonable c par c.max_packets_to_clone ffi.in_index
        else ok false)
  elim output [
    | true ↦ split_running s q ffi >>= λ next. ok next.0
    | false ↦ split_receiver c par left (q + 1) s
  ]

-- The case `receiveRSS` of a flow function with `in_index_number` queues.
unfoldable pub add_receivers : Config → Parameters → ℕ → State → Result State
unfolding split_receiver
add_receivers c par in_index_number s =
    if ltb (length s.instances) c.max_recv && ltb 1 in_index_number
    then split_receiver c par (length s.instances) 0 s
    else ok s
