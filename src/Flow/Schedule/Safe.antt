-- ===== src/Flow/Schedule/Safe.antt =====
-- However many rounds the scheduler makes, and whatever it finds in them, it keeps every queue
-- served and every clone on a core of its own.
use nff_go.Base.{
  ℕ, zero, suc, ◌+◌, ◌-◌, ◌≤◌, ◌<◌, ◌≡◌, refl, ◌∙◌, arith, Bool, true, false, List, [], ◌∷◌, length,
  All, drop, u64, if◌then◌else◌, length-set,
}
use nff_go.Common.Errors.{Result, ok, Succeeds, Succeeds-value, Succeeds-bind}
use nff_go.Common.Slices.{fetch_lt}
use nff_go.Flow.Schedule.State.{
  Running, Config, State, Parameters, Report, clone_number, change, add_attempts, add_report,
  add_reports, update_reported, no_report,
}
use nff_go.Flow.Schedule.Removing.{remove_segments, remove_receivers}
use nff_go.Flow.Schedule.Adding.{add_segments, add_receivers}
use nff_go.Flow.Schedule.Parts.{put-set}
use nff_go.Flow.Schedule.Round.{
  update_loop, segment_round, receive_round, Segments, segment_rounds, receive_rounds,
}
use nff_go.Flow.Schedule.Serving.{Serves, ServesBy, change-same-Serves, Attempted}
use nff_go.Flow.Schedule.Indexes.{IsIndex, Serves-IsIndex}
use nff_go.Flow.Schedule.Rings.{HasRings}
use nff_go.Flow.Schedule.Merges.{remove_segments-Serves, remove_receivers-Serves}
use nff_go.Flow.Schedule.Kept.{add_segments-Serves}
use nff_go.Flow.Schedule.Splits.{add_receivers-Serves}

-- A report has 32 places, as its type says.
abbrev pub IsReport : Report → Type 0
IsReport r = length r.zero_attempts ≡ 32

add_attempts-length :
    (left z : ℕ) (sum temp : List ℕ)
    → z + left ≤ 32
    → length sum ≡ 32
    → length temp ≡ 32
    → Succeeds (λ out. length out ≡ 32) (add_attempts left z sum temp)
unfolding add_attempts
add_attempts-length zero z sum temp h s t = s
add_attempts-length (suc left) z sum temp h s t =
    let (a, ea) = fetch_lt sum z (omega (arith, s, h)) in
    let (b, eb) = fetch_lt temp z (omega (arith, t, h)) in
    rw (ea, eb, put-set sum z (u64 (a + b)) (omega (arith, s, h)))
      (add_attempts-length left (z + 1) _ temp (omega (arith, h))
        (length-set sum z (u64 (a + b)) ∙ s) t)

module _ (number : ℕ) (few : number ≤ 32) where
  add_reports-Attempted :
      (old : Running) (rs : List Report) (ffi : Running)
      → IsIndex number ffi.in_index
      → Attempted old ffi
      → All IsReport rs
      → Succeeds (Attempted old) (add_reports true ffi rs)
  unfolding add_reports add_report
  add_reports-Attempted old [] ffi i t all = t
  add_reports-Attempted old (r ∷ rs) ffi i t (here, rest) =
      let (out, eo, size) =
        Succeeds-value (λ (out : List ℕ). length out ≡ 32)
          (add_attempts i.size 0 ffi.reported.zero_attempts r.zero_attempts)
          (add_attempts-length i.size 0 ffi.reported.zero_attempts r.zero_attempts
            (omega (arith, i.fits, few)) t.attempts here) in
      rw (i.head, eo)
        (add_reports-Attempted old rs _ i
          (record { queues = t.queues; clone = t.clone; attempts = size }) rest)

  All-drop : (n : ℕ) (rs : List Report) → All IsReport rs → All IsReport (drop n rs)
  All-drop zero rs h = h
  All-drop (suc n) [] h = h
  All-drop (suc n) (r ∷ rs) h = All-drop n rs h.1

  update_reported-Attempted :
      (ffi : Running) (rs : List Report)
      → IsIndex number ffi.in_index
      → All IsReport rs
      → Succeeds (Attempted ffi) (update_reported true ffi rs)
  unfolding update_reported
  update_reported-Attempted ffi rs i all =
      add_reports-Attempted ffi (drop (length rs - clone_number ffi) rs)
        (record ffi { reported = no_report }) i
        (record { queues = refl; clone = refl; attempts = refl })
        (All-drop (length rs - clone_number ffi) rs all)

  module _ (others : List ℕ) (reports : ℕ → List Report)
      (sized : (q : ℕ) → All IsReport (reports q)) where
    update_loop-Serves :
        (left q : ℕ) (s : State)
        → q + left ≡ length s.instances
        → Serves number others s
        → Succeeds (Serves number others) (update_loop reports left q s)
    unfolding update_loop
    update_loop-Serves zero q s sum v = v
    update_loop-Serves (suc left) q s sum v =
        let (ffi, e) = fetch_lt s.instances q (omega (arith, sum)) in
        let i = Serves-IsIndex number others s q ffi v e in
        let (next, en, t) =
          Succeeds-value (Attempted ffi) (update_reported true ffi (reports q))
            (update_reported-Attempted ffi (reports q) i (sized q)) in
        rw (e, en)
          (Succeeds-bind (Serves number others) (ServesBy number others (length s.instances))
            (change s q next) _
            (change-same-Serves number others s q ffi next v e t.queues t.clone t.attempts)
            (λ u w. update_loop-Serves left (q + 1) u (omega (arith, sum, w.1)) w.0))

-- A step that is taken unless it is switched off.
unless :
    (number : ℕ) (others : List ℕ) (off : Bool) (s : State) (step : State → Result State)
    → Serves number others s
    → Succeeds (Serves number others) (step s)
    → Succeeds (Serves number others) (if off then ok s else step s)
unless number others true s step v h = v
unless number others false s step v h = h

-- What a round for a `segmentCopy` finds: reports of 32 places, and a measured time for each number
-- of queues.
abbrev pub IsFound : ℕ → Segments → Type 0
IsFound number r = (number < length r.config.n_attempts) × ((q : ℕ) → All IsReport (r.reports q))

module _ (number : ℕ) (others : List ℕ) (par : Parameters) (few : number ≤ 32)
    (two : 1 < length others) (rings : HasRings number par) where
  segment_round-Serves :
      (r : Segments) (s : State)
      → IsFound number r
      → Serves number others s
      → Succeeds (Serves number others) (segment_round r.config par r.check_required r.reports s)
  unfolding segment_round
  segment_round-Serves r s (table, sized) v =
      let c = r.config in
      Succeeds-bind (Serves number others) (Serves number others)
        (update_loop r.reports (length s.instances) 0 s) _
        (update_loop-Serves number few others r.reports sized (length s.instances) 0 s (omega arith)
          v)
        (λ t w.
          Succeeds-bind (Serves number others) (Serves number others)
            (if c.off_remove then ok t else remove_segments c t) _
            (unless number others c.off_remove t (remove_segments c) w
              (remove_segments-Serves number others c few table (omega (arith, two)) t w))
            (λ u k.
              unless number others c.off u (add_segments c par r.check_required) k
                (add_segments-Serves number others c par rings two r.check_required u k)))

  segment_rounds-All :
      (rs : List Segments) (s : State)
      → All (IsFound number) rs
      → Serves number others s
      → Succeeds (Serves number others) (segment_rounds par rs s)
  unfolding segment_rounds
  segment_rounds-All [] s all v = v
  segment_rounds-All (r ∷ rs) s (here, rest) v =
      Succeeds-bind (Serves number others) (Serves number others)
        (segment_round r.config par r.check_required r.reports s) _
        (segment_round-Serves r s here v) (λ t w. segment_rounds-All rs t rest w)

-- For a segment or a copier with at most 32 queues, a ring and a measured time for each, and two or
-- more clones of other functions, in a state where each queue belongs to exactly one instance, each
-- instance has a clone, and each clone a core of its own: however many rounds the scheduler makes,
-- whatever it reads of rings, speeds and times, no index is out of range and no call fails, and the
-- state afterwards is such a state.
pub segment_rounds-Serves :
    (number : ℕ) (others : List ℕ) (par : Parameters) (rs : List Segments) (s : State)
    → number ≤ 32
    → 1 < length others
    → HasRings number par
    → All (IsFound number) rs
    → Serves number others s
    → Succeeds (Serves number others) (segment_rounds par rs s)
segment_rounds-Serves number others par rs s few two rings all v =
    segment_rounds-All number others par few two rings rs s all v

receive_round-Serves :
    (number : ℕ) (others : List ℕ) (port : ℕ) (outs : List ℕ) (c : Config) (s : State)
    → number ≤ length outs
    → Serves number others s
    → Succeeds (Serves number others) (receive_round c port outs number s)
unfolding receive_round
receive_round-Serves number others port outs c s rings v =
    Succeeds-bind (Serves number others) (Serves number others)
      (if c.off_remove then ok s else remove_receivers c port s) _
      (unless number others c.off_remove s (remove_receivers c port) v
        (remove_receivers-Serves number others c port s v))
      (λ t w.
        unless number others c.off t (add_receivers c (Parameters.receive port outs) number) w
          (add_receivers-Serves number others c (Parameters.receive port outs) rings number t w))

-- For a receiver with a ring for each of its queues, in a state where each queue belongs to exactly
-- one instance, each instance has a clone, and each clone a core of its own: however many rounds
-- the scheduler makes, whatever it reads of rings and of the network card, no index is out of range
-- and no call fails, and the state afterwards is such a state.
pub receive_rounds-Serves :
    (number : ℕ) (others : List ℕ) (port : ℕ) (outs : List ℕ) (cs : List Config) (s : State)
    → number ≤ length outs
    → Serves number others s
    → Succeeds (Serves number others) (receive_rounds port outs number cs s)
unfolding receive_rounds
receive_rounds-Serves number others port outs [] s rings v = v
receive_rounds-Serves number others port outs (c ∷ cs) s rings v =
    Succeeds-bind (Serves number others) (Serves number others) (receive_round c port outs number s)
      _ (receive_round-Serves number others port outs c s rings v)
      (λ t w. receive_rounds-Serves number others port outs cs t rings w)
