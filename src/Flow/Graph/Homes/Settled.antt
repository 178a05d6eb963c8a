-- ===== src/Flow/Graph/Homes/Settled.antt =====
-- The calls of a program keep the functions in their segments, flow/flow.go.
use nff_go.Base.{
  ℕ, ◌+◌, ◌≡◌, refl, sym, ◌∙◌, true, Option, none, some, List, [], ◌∷◌, ◌++◌, inl, inr, Bool-cases,
  ℕ_discrete, append_nil,
}
use mathlib.Core.Path.{subst}
use nff_go.Common.Errors.{ok, err, ErrorCode, Returns, Returns-of, Returns-bind}
use nff_go.Common.Slices.{fetch, put, Written, put-Written, fetch-ok_lt, fetch-append-cases}
use nff_go.Flow.Graph.{Net, Flow, Port, create_rings, new_flow, add_ff}
use nff_go.Flow.Graph.Insert.{deref}
use nff_go.Flow.Graph.Setters.{
  set_generator, set_receiver, set_receiver_kni, set_receiver_file, port_of, set_splitter,
  set_vector_splitter,
}
use nff_go.Flow.Graph.Merge.{merge_one, merge_flows, max_index, set_merger}
use nff_go.Flow.Graph.Session.{
  Session, Call, run_call, session_call, All-fetch, handler, vector_handler, partitioner, separator,
  vector_separator, splitter, vector_splitter, stopper, sender, sender_kni, sender_file, copier,
  handler_drop, vector_handler_drop,
}
use nff_go.Flow.Graph.Sources.{
  Source, run_source, session_source, generator, receiver, receiver_kni, receiver_file,
}
use nff_go.Flow.Graph.Merging.{merged_session, session_of, check_flow-closed}
use nff_go.Flow.Graph.Ending.{is_open, check_flow-open}
use nff_go.Flow.Graph.Homes.{Homed, AtHome}
use nff_go.Flow.Graph.Homes.Inserted.{same-Homed, AtHome-Keeps}
use nff_go.Flow.Graph.Homes.Called.{
  Settles, SettlesOne, alone-Settles, with_one-Settles, set_handler-Settles,
  set_vector_handler-Settles, set_partitioner-Settles, set_separator-Settles,
  set_vector_separator-Settles, split_by-Settles,
}
use nff_go.Flow.Graph.Homes.Closed.{
  merge_in-Settles, set_stopper-Settles, set_sender_file-Settles, set_sender_kni-Settles,
  set_sender-Settles, set_copier-Settles, set_handler_drop-Settles, set_vector_handler_drop-Settles,
}

-- Each function belongs to a segment, and each flow leaves a function of its own segment.
pub record Settled (s : Session) : Type 0 where
  pub homes : List ℕ
  pub homed : Homed s.net homes
  pub flows_home : (i : ℕ) (flow : Flow) → fetch s.flows i ≡ ok flow → AtHome homes flow

run_call-Settles :
    (net : Net) (homes : List ℕ) (flow : Flow) (call : Call)
    → Homed net homes
    → AtHome homes flow
    → Returns (Settles homes) (run_call net flow call)
unfolding set_splitter set_vector_splitter
run_call-Settles net homes flow (handler f context) h a =
    alone-Settles homes _ (set_handler-Settles net homes h flow a f context)
run_call-Settles net homes flow (vector_handler f context) h a =
    alone-Settles homes _ (set_vector_handler-Settles net homes h flow a f context)
run_call-Settles net homes flow (partitioner context) h a =
    with_one-Settles homes _ (set_partitioner-Settles net homes h flow a context)
run_call-Settles net homes flow (separator f context) h a =
    with_one-Settles homes _ (set_separator-Settles net homes h flow a f context)
run_call-Settles net homes flow (vector_separator f context) h a =
    with_one-Settles homes _ (set_vector_separator-Settles net homes h flow a f context)
run_call-Settles net homes flow (splitter f n context) h a =
    split_by-Settles net homes h flow a (some f) none n context 1
run_call-Settles net homes flow (vector_splitter f n context) h a =
    split_by-Settles net homes h flow a none (some f) n context 2
run_call-Settles net homes flow stopper h a =
    alone-Settles homes _ (set_stopper-Settles homes flow a net h)
run_call-Settles net homes flow (sender port) h a =
    alone-Settles homes _ (set_sender-Settles homes flow a net port h)
run_call-Settles net homes flow (sender_kni port) h a =
    alone-Settles homes _ (set_sender_kni-Settles homes flow a net port h)
run_call-Settles net homes flow sender_file h a =
    alone-Settles homes _ (set_sender_file-Settles homes flow a net h)
run_call-Settles net homes flow copier h a =
    with_one-Settles homes _ (set_copier-Settles homes flow a net h)
run_call-Settles net homes flow (handler_drop f context) h a =
    alone-Settles homes _ (set_handler_drop-Settles net homes h flow a f context)
run_call-Settles net homes flow (vector_handler_drop f context) h a =
    alone-Settles homes _ (set_vector_handler_drop-Settles net homes h flow a f context)

-- The flows of a session behind a call on the flow `i`.
Settles-Settled :
    (s : Session) (i : ℕ) (next : Net) (out : Flow) (news : List Flow)
    → (v : Settled s) → Settles v.homes (next, out, news)
    → (w : Written s.flows i out) → Settled (record { net = next; flows = w.slice ++ news })
Settles-Settled s i next out news v k w = record {
  homes = k.later;
  homed = k.homed;
  flows_home = λ j g e. elim (fetch-append-cases w.slice news j g e) [
    | inl old ↦ elim (ℕ_discrete j i) [
      | yes same ↦
          let there : out ≡ g = cc (w.here, old, same) in subst (AtHome k.later) there k.out_home
      | no other ↦
          AtHome-Keeps v.homes k.later g k.keeps (v.flows_home j g (sym (w.others j other) ∙ old))
    ]
    | inr (n, new) ↦ All-fetch (AtHome k.later) news n g k.news_home new
  ];
}

pub session_call-Settled :
    (s : Session) (i : ℕ) (call : Call) → Settled s → Returns Settled (session_call s i call)
session_call-Settled s i call v =
    Returns-bind Settled (λ flow. fetch s.flows i ≡ ok flow) (fetch s.flows i) _
      (Returns-of _ (fetch s.flows i) (λ flow e. e))
      (λ flow e.
        Returns-bind Settled (Settles v.homes) _ _
          (run_call-Settles s.net v.homes flow call v.homed (v.flows_home i flow e))
          (λ r k.
            let w = put-Written s.flows i r.1 (fetch-ok_lt s.flows i flow e) in
            rw w.done (Settles-Settled s i r.0 r.1 r.2 v k w)))

-- A call that opens a flow.
abbrev IsOpened : List ℕ → Net × Flow → Type 0
IsOpened homes r = Homed r.0 homes × (r.1.segment ≡ none)

run_source-IsOpened :
    (net : Net) (homes : List ℕ) (source : Source)
    → Homed net homes
    → Returns (IsOpened homes) (run_source net source)
unfolding set_generator set_receiver set_receiver_kni set_receiver_file create_rings new_flow add_ff
run_source-IsOpened net homes generator h = (same-Homed net _ homes refl refl h, refl)
run_source-IsOpened net homes (receiver_kni port) h = (same-Homed net _ homes refl refl h, refl)
run_source-IsOpened net homes receiver_file h = (same-Homed net _ homes refl refl h, refl)
run_source-IsOpened net homes (receiver port) h =
    Returns-bind (IsOpened homes) (λ (p : Port). Unit {0}) (port_of net port) _
      (Returns-of _ (port_of net port) (λ p e. tt))
      (λ p u. elim (Bool-cases p.will_receive) [
        | inl t ↦ rw t tt
        | inr f ↦
            let ports =
              put net.created_ports port (record p { was_requested = true; will_receive = true }) in
            rw f (
              Returns-bind (IsOpened homes) (λ (qs : List Port). Unit {0}) ports _
                (Returns-of _ ports (λ qs e. tt))
                (λ qs w. (same-Homed net _ homes refl refl h, refl)))
      ])

opened-Settled :
    (s : Session) (next : Net) (flow : Flow)
    → (v : Settled s) → IsOpened v.homes (next, flow)
    → Settled (record { net = next; flows = s.flows ++ (flow ∷ []) })
opened-Settled s next flow v o = record {
  homes = v.homes;
  homed = o.0;
  flows_home = λ j g e. elim (fetch-append-cases s.flows (flow ∷ []) j g e) [
    | inl old ↦ v.flows_home j g old
    | inr (n, new) ↦
        All-fetch (AtHome v.homes) (flow ∷ []) n g ((λ seg b c k m. let none_is = o.1 in cc), tt)
          new
  ];
}

pub session_source-Settled :
    (s : Session) (source : Source) → Settled s → Returns Settled (session_source s source)
session_source-Settled s source v =
    Returns-bind Settled (IsOpened v.homes) (run_source s.net source) _
      (run_source-IsOpened s.net v.homes source v.homed) (λ r o. opened-Settled s r.0 r.1 v o)

merge_one-Settled :
    (s : Session) (i : ℕ) (flow : Flow) (rings : ℕ)
    → Settled s
    → fetch s.flows i ≡ ok flow
    → Returns
        (λ r. Settled (record { net = r.0; flows = r.1 }))
        (merge_one s.net s.flows i flow rings)
unfolding merge_one
merge_one-Settled s i flow rings v e =
    Returns-bind (λ r. Settled (record { net = r.0; flows = r.1 })) (SettlesOne v.homes) _ _
      (merge_in-Settles v.homes flow (v.flows_home i flow e) s.net flow.segment rings v.homed refl)
      (λ r k.
        let w = put-Written s.flows i r.1 (fetch-ok_lt s.flows i flow e) in
        let kept = Settles-Settled s i r.0 r.1 [] v k w in
        rw w.done (rw (append_nil w.slice) at kept))

merge_flows-Settled :
    (ptrs : List (Option ℕ)) (s : Session) (rings : ℕ)
    → Settled s
    → Returns (λ r. Settled (session_of r)) (merge_flows s.net s.flows ptrs rings)
unfolding merge_flows deref
merge_flows-Settled [] s rings v = v
merge_flows-Settled (none ∷ ptrs) s rings v = tt
merge_flows-Settled (some number ∷ ptrs) s rings v =
    Returns-bind (λ r. Settled (session_of r)) (λ flow. fetch s.flows number ≡ ok flow)
      (fetch s.flows number) _ (Returns-of _ (fetch s.flows number) (λ flow e. e))
      (λ flow e. elim (Bool-cases (is_open flow)) [
        | inl o ↦
            let checked = check_flow-open flow o in
            rw checked (
              Returns-bind (λ r. Settled (session_of r))
                (λ r. Settled (record { net = r.0; flows = r.1 })) _ _
                (merge_one-Settled s number flow rings v e)
                (λ r w. merge_flows-Settled ptrs (record { net = r.0; flows = r.1 }) rings w))
        | inr c ↦ let refused = check_flow-closed flow c in rw refused v
      ])

end-Settled :
    (net : Net) (flows : List Flow) (error : Option ErrorCode) (rings max : ℕ)
    → Settled (record { net = net; flows = flows })
    → Returns
        (λ r. Settled (merged_session r))
        (elim error [
          | some e ↦ ok (net, flows, err e)
          | none ↦ let (opened, out) = new_flow net rings max in ok (opened, flows, ok out)
        ])
unfolding new_flow
end-Settled net flows (some e) rings max v = v
end-Settled net flows none rings max v =
    let opened = new_flow net rings max in
    opened-Settled (record { net = net; flows = flows }) opened.0 opened.1 v
      (same-Homed net opened.0 v.homes refl refl v.homed, refl)

pub set_merger-Settled :
    (s : Session) (ptrs : List (Option ℕ))
    → Settled s
    → Returns (λ r. Settled (merged_session r)) (set_merger s.net s.flows ptrs)
unfolding set_merger create_rings
set_merger-Settled s ptrs v =
    let made = record s.net { rings = s.net.rings + 1 } in
    let ready : Settled (record { net = made; flows = s.flows }) = record {
      homes = v.homes;
      homed = same-Homed s.net made v.homes refl refl v.homed;
      flows_home = v.flows_home;
    } in
    Returns-bind (λ r. Settled (merged_session r)) (λ (max : ℕ). Unit {0})
      (max_index s.flows ptrs 0) _ (Returns-of _ (max_index s.flows ptrs 0) (λ max e. tt))
      (λ max u.
        Returns-bind (λ r. Settled (merged_session r)) (λ r. Settled (session_of r)) _ _
          (merge_flows-Settled ptrs (record { net = made; flows = s.flows }) s.net.rings ready)
          (λ r w. end-Settled r.0 r.1 r.2 s.net.rings max w))
