-- ===== src/Flow/Graph/Session.antt =====
-- A program that builds its graph: the flows it holds, and its calls one after the other.
use nff_go.Base.{
  ℕ, zero, suc, ◌≡◌, ◌≤◌, ◌<◌, refl, sym, ◌∙◌, arith, true, Option, some, inl, inr, List, [], ◌∷◌,
  ◌++◌, length, if◌then◌else◌, u32, ◌^◌, ◌==◌, All, Bool-cases, ℕ_discrete,
}
use nff_go.Common.Errors.{Result, ok, err, panic, opened_flow_at_the_end, ◌>>=◌}
use nff_go.Common.Slices.{
  fetch, put, fetch-ok_lt, put-Written, Written, fetch-append-cases, total, total-append,
}
use nff_go.Flow.Graph.{Net, Flow}
use nff_go.Flow.Graph.Setters.{
  set_splitter, set_vector_splitter, set_handler, set_vector_handler, set_separator,
  set_vector_separator, set_partitioner, set_sender_file, set_sender_kni, set_sender, set_copier,
}
use nff_go.Flow.Graph.Merge.{set_stopper, set_handler_drop, set_vector_handler_drop}
use nff_go.Flow.Graph.Placement.{Placed}
use nff_go.Flow.Graph.Insertion.{true-ne-false}
use mathlib.Core.Path.{subst}
use nff_go.Flow.Graph.Ending.{is_open, Placed-open}
use nff_go.Flow.Graph.Outcomes.{Stands, Stands-Extends, opened, Built, Builds}
use nff_go.Flow.Graph.Copies.{
  set_copier-Builds, set_handler_drop-Builds, set_vector_handler_drop-Builds,
}
use nff_go.Flow.Graph.Closings.{IsMergeable}
use nff_go.Flow.Graph.Calls.{
  alone, with_one, set_handler-Builds, set_vector_handler-Builds, set_partitioner-Builds,
  set_separator-Builds, set_vector_separator-Builds, set_stopper-Builds, set_sender_file-Builds,
  set_sender_kni-Builds, set_splitter-Builds, set_vector_splitter-Builds, set_sender-Builds,
}

-- The first check of SystemInitPortsAndMemory.
unfoldable pub check_open_flows : Net → Result {0} Unit
check_open_flows net = if net.open_flows_number == 0 then ok tt else err opened_flow_at_the_end

pub record Session : Type 0 where
  pub net : Net
  pub flows : List Flow

-- A call on one flow.
pub data Call : Type 0 where
  handler : ℕ → Option ℕ → Call
  vector_handler : ℕ → Option ℕ → Call
  partitioner : ℕ → Call
  separator : ℕ → Option ℕ → Call
  vector_separator : ℕ → Option ℕ → Call
  splitter : ℕ → ℕ → Option ℕ → Call
  vector_splitter : ℕ → ℕ → Option ℕ → Call
  stopper : Call
  sender : ℕ → Call
  sender_kni : ℕ → Call
  sender_file : Call
  copier : Call
  handler_drop : ℕ → Option ℕ → Call
  vector_handler_drop : ℕ → Option ℕ → Call

abbrev pub run_call : Net → Flow → Call → Result (Net × Flow × List Flow)
run_call net flow (handler f context) = alone (set_handler net (some flow) f context)
run_call net flow (vector_handler f context) = alone (set_vector_handler net (some flow) f context)
run_call net flow (partitioner context) = with_one (set_partitioner net (some flow) context)
run_call net flow (separator f context) = with_one (set_separator net (some flow) f context)
run_call net flow (vector_separator f context) =
    with_one (set_vector_separator net (some flow) f context)
run_call net flow (splitter f n context) = set_splitter net (some flow) f n context
run_call net flow (vector_splitter f n context) = set_vector_splitter net (some flow) f n context
run_call net flow stopper = alone (set_stopper net (some flow))
run_call net flow (sender port) = alone (set_sender net (some flow) port)
run_call net flow (sender_kni port) = alone (set_sender_kni net (some flow) port)
run_call net flow sender_file = alone (set_sender_file net (some flow))
run_call net flow copier = with_one (set_copier net (some flow))
run_call net flow (handler_drop f context) = alone (set_handler_drop net (some flow) f context)
run_call net flow (vector_handler_drop f context) =
    alone (set_vector_handler_drop net (some flow) f context)

-- A splitter has fewer than 256 flows, a sender one of the ports, and where the flow to stop has no
-- segment, every receiver and copier has a ring, and the flow too.
abbrev pub IsCall : Net → Flow → Call → Type 0
IsCall net flow (splitter f n context) = n < 2 ^ 8
IsCall net flow (vector_splitter f n context) = n < 2 ^ 8
IsCall net flow (sender port) =
    (port < length net.created_ports) × (length net.created_ports < 2 ^ 16)
IsCall net flow stopper = IsMergeable net flow flow.segment
IsCall net flow other = Unit

-- The call on the flow `i`: it is written back, and the new flows stand behind the others.
abbrev pub session_call : Session → ℕ → Call → Result Session
session_call s i call = do
  flow ← fetch s.flows i
  (next, out, news) ← run_call s.net flow call
  flows ← put s.flows i out
  ok record { net = next; flows = flows ++ news }

-- Every flow is closed or in its place, and the open ones are counted.
pub record Valid (s : Session) : Type 0 where
  pub stands : (i : ℕ) (flow : Flow) → fetch s.flows i ≡ ok flow → Stands s.net flow
  pub number : u32 s.net.open_flows_number ≡ u32 (total opened s.flows)

run_call-Builds :
    (net : Net) (flow : Flow) (call : Call)
    → Placed net flow flow.segment
    → IsCall net flow call
    → Builds net (run_call net flow call)
run_call-Builds net flow (handler f context) p h = set_handler-Builds net flow p f context
run_call-Builds net flow (vector_handler f context) p h =
    set_vector_handler-Builds net flow p f context
run_call-Builds net flow (partitioner context) p h = set_partitioner-Builds net flow p context
run_call-Builds net flow (separator f context) p h = set_separator-Builds net flow p f context
run_call-Builds net flow (vector_separator f context) p h =
    set_vector_separator-Builds net flow p f context
run_call-Builds net flow (splitter f n context) p h = set_splitter-Builds net flow p f n context h
run_call-Builds net flow (vector_splitter f n context) p h =
    set_vector_splitter-Builds net flow p f n context h
run_call-Builds net flow stopper p h = set_stopper-Builds net flow p h
run_call-Builds net flow (sender port) p h = set_sender-Builds net flow p port h.0 h.1
run_call-Builds net flow (sender_kni port) p h = set_sender_kni-Builds net flow p port
run_call-Builds net flow sender_file p h = set_sender_file-Builds net flow p
run_call-Builds net flow copier p h = set_copier-Builds net flow p
run_call-Builds net flow (handler_drop f context) p h = set_handler_drop-Builds net flow f context p
run_call-Builds net flow (vector_handler_drop f context) p h =
    set_vector_handler_drop-Builds net flow f context p

panic-ne-ok {ℓ} : {A : Type ℓ} {a : A} → panic ≡ ok a → ⊥
panic-ne-ok e = cc

pub All-fetch {ℓ κ} :
    {A : Type ℓ} (P : A → Type κ) (xs : List A) (i : ℕ) (x : A) → All P xs → fetch xs i ≡ ok x → P x
unfolding fetch
All-fetch P [] i x h e = absurd (panic-ne-ok e)
All-fetch P (y ∷ xs) zero x h e = let same : y ≡ x = cc in subst P same h.0
All-fetch P (y ∷ xs) (suc i) x h e = All-fetch P xs i x h.1 e

total-Placed :
    (net : Net) (flows : List Flow)
    → All (λ g. Placed net g g.segment) flows
    → total opened flows ≡ length flows
total-Placed net [] h = refl
total-Placed net (g ∷ flows) h =
    rw (Placed-open net g g.segment h.0, total-Placed net flows h.1) (omega arith)

pub open_flow-Placed :
    (net : Net) (flow : Flow) → is_open flow ≡ true → Stands net flow → Placed net flow flow.segment
open_flow-Placed net flow o (inl c) = absurd (true-ne-false (sym o ∙ c))
open_flow-Placed net flow o (inr p) = p

-- The flows after a call.
pub Built-Valid :
    (s : Session) (next : Net) (out : Flow) (news flows : List Flow) (i : ℕ) (flow : Flow)
    → Valid s
    → fetch s.flows i ≡ ok flow
    → is_open flow ≡ true
    → Built s.net next out news
    → (w : Written s.flows i out) → Valid (record { net = next; flows = w.slice ++ news })
Built-Valid s next out news flows i flow v e o b w = record {
  stands = λ j g h. elim (fetch-append-cases w.slice news j g h) [
    | inl old ↦ elim (ℕ_discrete j i) [
      | yes same ↦
          let there : out ≡ g = cc (w.here, old, same) in
          subst (λ t. Stands next t) there b.out_stands
      | no other ↦
          Stands-Extends s.net next g b.extends (v.stands j g (sym (w.others j other) ∙ old))
    ]
    | inr (k, new) ↦ inr (All-fetch (λ t. Placed next t t.segment) news k g b.news_placed new)
  ];
  number =
      let one : opened flow ≡ 1 = rw o refl in
      omega (
        arith,
        b.number,
        v.number,
        w.totals opened flow e,
        total-append opened w.slice news,
        total-Placed next news b.news_placed,
        one,
      );
}

opened-most : (f : Flow) → opened f ≤ 1
opened-most f = elim (Bool-cases (is_open f)) [
  | inl e ↦ rw e (omega arith)
  | inr e ↦ rw e (omega arith)
]

total-most : (flows : List Flow) → total opened flows ≤ length flows
total-most [] = omega arith
total-most (f ∷ flows) = omega (arith, opened-most f, total-most flows)

-- In a valid session each of these calls on an open flow succeeds, and leaves the session valid: no
-- pointer that it follows is nil and no index out of range, every open flow is still at rings or at
-- a branch that is there, and the counter of open flows counts them, modulo 2 ^ 32.
pub session_call-Valid :
    (s : Session) (i : ℕ) (flow : Flow) (call : Call)
    → Valid s
    → fetch s.flows i ≡ ok flow
    → is_open flow ≡ true
    → IsCall s.net flow call
    → (next : Session) × (session_call s i call ≡ ok next) × Valid next
session_call-Valid s i flow call v e o h =
    let p = open_flow-Placed s.net flow o (v.stands i flow e) in
    let (next, out, news, done, b) = run_call-Builds s.net flow call p h in
    let w = put-Written s.flows i out (fetch-ok_lt s.flows i flow e) in
    (
      record { net = next; flows = w.slice ++ news },
      (rw (e, done, w.done) refl),
      Built-Valid s next out news w.slice i flow v e o b w,
    )

pub check_open_flows-Valid :
    (s : Session)
    → Valid s
    → s.net.open_flows_number < 2 ^ 32
    → length s.flows < 2 ^ 32
    → check_open_flows s.net
      ≡ (if total opened s.flows == 0 then ok tt else err opened_flow_at_the_end)
unfolding check_open_flows
check_open_flows-Valid s v word few =
    let small : total opened s.flows ≤ length s.flows = total-most s.flows in
    let exact : s.net.open_flows_number ≡ total opened s.flows = omega (arith, v.number) in
    rw exact refl
