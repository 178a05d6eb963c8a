-- ===== src/Tests/Rounds.antt =====
-- A segment of four queues on a machine of four cores, and a timer of four variants.
use nff_go.Base.{ℕ, zero, suc, ◌≡◌, ◌<◌, refl, arith, List, [], ◌∷◌, count, true, false, Bool, ltb}
use nff_go.Common.Errors.{Result, ok, panic, Succeeds, ◌>>=◌}
use nff_go.Common.Slices.{fetch}
use nff_go.Flow.Cores.{Scheduler}
use nff_go.Flow.Cores.Table.{free_at}
use nff_go.Flow.Schedule.State.{Config, State, Parameters, fresh, no_report}
use nff_go.Flow.Schedule.Round.{Segments, segment_rounds, receive_rounds}
use nff_go.Flow.Schedule.Serving.{Serves, indexes}
use nff_go.Flow.Schedule.Safe.{segment_rounds-Serves, receive_rounds-Serves}
use nff_go.Flow.Timers.{Timer, check_timer, assign}
use nff_go.Flow.Timers.Expired.{check_timer-panic}
use nff_go.Flow.Timers.Variants.{IsTimer, without}
use nff_go.Flow.Timers.Kept.{Distinct, Cleared, check_timer_seen}
use nff_go.Flow.Queues.{construct_zero_index}
use nff_go.Tests.Scheduling.{one-Partition}

abbrev cores : Scheduler
cores = record {
  cores =
      record { id = 0; is_free = false }
      ∷ record { id = 1; is_free = false }
      ∷ record { id = 2; is_free = false }
      ∷ record { id = 3; is_free = true }
      ∷ [];
  used_cores = 3;
}

abbrev started : State
started = record {
  base = cores;
  p_attempts = 0 ∷ 0 ∷ 0 ∷ 0 ∷ [];
  instances =
      record (fresh (4 ∷ 0 ∷ 1 ∷ 2 ∷ 3 ∷ [])) { base = record { clone = 2 ∷ []; removed = false } }
      ∷ [];
}

cores-inside : (i : ℕ) → 0 < count i (0 ∷ 1 ∷ 2 ∷ []) → i < 4
unfolding count
cores-inside i h = ground (arith, h)

cores-busy : (i : ℕ) → 0 < count i (0 ∷ 1 ∷ 2 ∷ []) → free_at cores.cores i ≡ false
unfolding count free_at
cores-busy zero h = refl
cores-busy (suc zero) h = refl
cores-busy (suc (suc zero)) h = refl
cores-busy (suc (suc (suc i))) h = absurd (ground (arith, h))

cores-idle : (i : ℕ) → i < 4 → count i (0 ∷ 1 ∷ 2 ∷ []) ≡ 0 → free_at cores.cores i ≡ true
unfolding count free_at
cores-idle zero h z = absurd (ground (arith, z))
cores-idle (suc zero) h z = absurd (ground (arith, z))
cores-idle (suc (suc zero)) h z = absurd (ground (arith, z))
cores-idle (suc (suc (suc zero))) h z = refl
cores-idle (suc (suc (suc (suc i)))) h z = absurd (omega (arith, h))

started-Serves : Serves 4 (0 ∷ 1 ∷ []) started
started-Serves = record {
  partition = one-Partition;
  runs = record {
    used = refl;
    single = λ i. unfold count in ground arith;
    inside = cores-inside;
    busy = cores-busy;
    idle = cores-idle;
  };
  running = (record { cloned = omega arith; attempts = refl }, tt);
  table = refl;
}

-- Every ring and queue is full.
abbrev full : Config
full = record {
  off = false;
  off_remove = false;
  anyway = true;
  max_packets_to_clone = 50;
  max_recv = 2;
  sched_time = 1500;
  n_attempts = 0 ∷ 0 ∷ 0 ∷ 0 ∷ 0 ∷ [];
  count = λ ring. 100;
  rss_above = λ port queue min. ltb min 100;
  measured = λ number clones. 7;
}

-- Every queue of the port is full, and the rings behind it are empty.
abbrev drained : Config
drained = record full { count = λ ring. 0 }

abbrev found : Segments
found = record { config = full; check_required = true; reports = λ q. no_report ∷ [] }

abbrev rings : Parameters
rings = Parameters.segment (10 ∷ 11 ∷ 12 ∷ 13 ∷ []) ((20 ∷ 21 ∷ 22 ∷ 23 ∷ []) ∷ [])

-- The queues of the instances after some rounds.
queues_of : Result State → Result (List (List ℕ))
queues_of r = r >>= λ s. ok (indexes s.instances)

-- The first round splits the instance, the second one has no core left.
segment_rounds_split :
    queues_of (segment_rounds rings (found ∷ found ∷ []) started)
    ≡ ok ((2 ∷ 0 ∷ 1 ∷ 2 ∷ 3 ∷ []) ∷ (2 ∷ 2 ∷ 3 ∷ 0 ∷ 0 ∷ []) ∷ [])
unfolding queues_of segment_rounds construct_zero_index
segment_rounds_split = refl

receive_rounds_split :
    queues_of (receive_rounds 0 (20 ∷ 21 ∷ 22 ∷ 23 ∷ []) 4 (drained ∷ drained ∷ []) started)
    ≡ ok ((2 ∷ 0 ∷ 1 ∷ 2 ∷ 3 ∷ []) ∷ (2 ∷ 2 ∷ 3 ∷ 0 ∷ 0 ∷ []) ∷ [])
unfolding queues_of receive_rounds construct_zero_index
receive_rounds_split = refl

segment_rounds-Serves_example :
    Succeeds (Serves 4 (0 ∷ 1 ∷ [])) (segment_rounds rings (found ∷ found ∷ []) started)
segment_rounds-Serves_example =
    segment_rounds-Serves 4 (0 ∷ 1 ∷ []) rings (found ∷ found ∷ []) started (omega arith)
      (omega arith) (omega arith, (omega arith, tt))
      ((omega arith, λ q. (refl, tt)), ((omega arith, λ q. (refl, tt)), tt)) started-Serves

receive_rounds-Serves_example :
    Succeeds
      (Serves 4 (0 ∷ 1 ∷ []))
      (receive_rounds 0 (20 ∷ 21 ∷ 22 ∷ 23 ∷ []) 4 (drained ∷ drained ∷ []) started)
receive_rounds-Serves_example =
    receive_rounds-Serves 4 (0 ∷ 1 ∷ []) 0 (20 ∷ 21 ∷ 22 ∷ 23 ∷ []) (drained ∷ drained ∷ []) started
      (omega arith) started-Serves

-- Flags 5 and 7 are set.
abbrev flags : ℕ → Bool
flags = assign (assign (λ p. false) 5 true) 7 true

abbrev timer : List ℕ → Timer
timer checks = record {
  ident = 1;
  contexts = record { memory = 100 ∷ 101 ∷ 102 ∷ []; len = 3 };
  checks = record { memory = checks; len = 3 };
  flags = flags;
  called = [];
}

timer-IsTimer : (a b c : ℕ) → IsTimer (timer (a ∷ b ∷ c ∷ [])) 3
timer-IsTimer a b c = record {
  checks_len = refl;
  contexts_len = refl;
  checks_room = omega arith;
  contexts_room = omega arith;
}

check_timer-panic_example : check_timer (timer (6 ∷ 5 ∷ 7 ∷ [])) ≡ panic
unfolding fetch
check_timer-panic_example =
    check_timer-panic (timer (6 ∷ 5 ∷ 7 ∷ [])) 3 0 6 (timer-IsTimer 6 5 7) (omega arith) refl refl

timer-Distinct : Distinct (5 ∷ 7 ∷ 6 ∷ []) 3
unfolding fetch
timer-Distinct zero zero c h k e f = refl
timer-Distinct zero (suc zero) c h k e f = cc
timer-Distinct zero (suc (suc zero)) c h k e f = cc
timer-Distinct zero (suc (suc (suc q))) c h k e f = absurd (omega (arith, k))
timer-Distinct (suc zero) zero c h k e f = cc
timer-Distinct (suc zero) (suc zero) c h k e f = refl
timer-Distinct (suc zero) (suc (suc zero)) c h k e f = cc
timer-Distinct (suc zero) (suc (suc (suc q))) c h k e f = absurd (omega (arith, k))
timer-Distinct (suc (suc zero)) zero c h k e f = cc
timer-Distinct (suc (suc zero)) (suc zero) c h k e f = cc
timer-Distinct (suc (suc zero)) (suc (suc zero)) c h k e f = refl
timer-Distinct (suc (suc zero)) (suc (suc (suc q))) c h k e f = absurd (omega (arith, k))
timer-Distinct (suc (suc (suc p))) q c h k e f = absurd (omega (arith, h))

timer-set : (p c : ℕ) → p < 2 → fetch (5 ∷ 7 ∷ 6 ∷ []) p ≡ ok c → flags c ≡ true
unfolding fetch
timer-set zero c h e = ground (arith, e)
timer-set (suc zero) c h e = ground (arith, e)
timer-set (suc (suc p)) c h e = absurd (omega (arith, h))

check_timer_seen_example :
    (cleared : ℕ → Bool) × Cleared (5 ∷ 7 ∷ 6 ∷ []) 0 2 flags cleared
    × (check_timer (timer (5 ∷ 7 ∷ 6 ∷ []))
        ≡ ok (without (record (timer (5 ∷ 7 ∷ 6 ∷ [])) { flags = cleared }) 2 3 102))
unfolding fetch
check_timer_seen_example =
    check_timer_seen (timer (5 ∷ 7 ∷ 6 ∷ [])) 2 6 102 (timer-IsTimer 5 7 6) timer-Distinct timer-set
      refl refl
