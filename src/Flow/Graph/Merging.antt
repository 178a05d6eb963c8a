-- ===== src/Flow/Graph/Merging.antt =====
-- What SetMerger leaves behind, wherever its loop stops, flow/flow.go.
use nff_go.Base.{
  ℕ, ◌+◌, ◌≡◌, refl, arith, Bool, true, false, not, ◌&&◌, Option, none, some, inl, inr, List, [],
  ◌∷◌, ◌++◌, append_nil, Bool-cases,
}
use nff_go.Common.Errors.{
  Result, ok, err, panic, ErrorCode, use_closed_flow_err, Returns, Returns-of, Returns-bind,
}
use nff_go.Common.Slices.{fetch, put-Written, fetch-ok_lt}
use nff_go.Flow.Graph.{Net, Flow, check_flow, create_rings, new_flow, is_nil}
use nff_go.Flow.Graph.Insert.{deref}
use nff_go.Flow.Graph.Merge.{merge_one, merge_flows, max_index, set_merger}
use nff_go.Flow.Graph.Ending.{is_open, check_flow-Placed}
use nff_go.Flow.Graph.Outcomes.{Extends-same, Stands-Extends}
use nff_go.Flow.Graph.Closings.{merge_in-Returns, Closes-Built}
use nff_go.Flow.Graph.Outcomes.{Closes}
use nff_go.Flow.Graph.Session.{Session, Valid, open_flow-Placed, Built-Valid}
use nff_go.Flow.Graph.Sources.{Opens-Valid}

-- The flows of the program behind a call of the merger.
abbrev pub merged_flows : List Flow → Result Flow → List Flow
merged_flows flows (ok flow) = flows ++ (flow ∷ [])
merged_flows flows (err e) = flows
merged_flows flows panic = flows

abbrev pub merged_session : Net × List Flow × Result Flow → Session
merged_session (net, flows, r) = record { net = net; flows = merged_flows flows r }

abbrev pub session_of {ℓ} : {A : Type ℓ} → Net × List Flow × A → Session
session_of (net, flows, a) = record { net = net; flows = flows }

merge_one-Returns :
    (s : Session) (i : ℕ) (flow : Flow) (rings : ℕ)
    → Valid s
    → fetch s.flows i ≡ ok flow
    → is_open flow ≡ true
    → Returns
        (λ r. Valid (record { net = r.0; flows = r.1 }))
        (merge_one s.net s.flows i flow rings)
unfolding merge_one
merge_one-Returns s i flow rings v e o =
    Returns-bind (λ r. Valid (record { net = r.0; flows = r.1 })) (λ r. Closes s.net r.0 r.1) _ _
      (merge_in-Returns s.net flow flow.segment rings refl
        (open_flow-Placed s.net flow o (v.stands i flow e)))
      (λ r c.
        let w = put-Written s.flows i r.1 (fetch-ok_lt s.flows i flow e) in
        let kept = Built-Valid s r.0 r.1 [] s.flows i flow v e o (Closes-Built s.net r.0 r.1 c) w in
        rw w.done (rw (append_nil w.slice) at kept))

negated_is_true : (b : Bool) → not b ≡ false → b ≡ true
negated_is_true true e = refl
negated_is_true false e = cc

pub check_flow-closed :
    (flow : Flow) → is_open flow ≡ false → check_flow (some flow) ≡ err use_closed_flow_err
unfolding check_flow
check_flow-closed flow c =
    let closed = negated_is_true (is_nil flow.current && is_nil flow.previous) c in rw closed refl

merge_flows-Returns :
    (ptrs : List (Option ℕ)) (s : Session) (rings : ℕ)
    → Valid s
    → Returns (λ r. Valid (session_of r)) (merge_flows s.net s.flows ptrs rings)
unfolding merge_flows deref
merge_flows-Returns [] s rings v = v
merge_flows-Returns (none ∷ ptrs) s rings v = tt
merge_flows-Returns (some number ∷ ptrs) s rings v =
    Returns-bind (λ r. Valid (session_of r)) (λ flow. fetch s.flows number ≡ ok flow)
      (fetch s.flows number) _ (Returns-of _ (fetch s.flows number) (λ flow e. e))
      (λ flow e. elim (Bool-cases (is_open flow)) [
        | inl o ↦
            let checked =
              check_flow-Placed s.net flow
                (open_flow-Placed s.net flow o (v.stands number flow e)) in
            rw checked (
              Returns-bind (λ r. Valid (session_of r))
                (λ r. Valid (record { net = r.0; flows = r.1 })) _ _
                (merge_one-Returns s number flow rings v e o)
                (λ r w. merge_flows-Returns ptrs (record { net = r.0; flows = r.1 }) rings w))
        | inr c ↦ let refused = check_flow-closed flow c in rw refused v
      ])

-- The new flow, where the loop has reached the end.
end-Valid :
    (net : Net) (flows : List Flow) (error : Option ErrorCode) (rings max : ℕ)
    → Valid (record { net = net; flows = flows })
    → Returns
        (λ r. Valid (merged_session r))
        (elim error [
          | some e ↦ ok (net, flows, err e)
          | none ↦ let (opened, out) = new_flow net rings max in ok (opened, flows, ok out)
        ])
unfolding new_flow
end-Valid net flows (some e) rings max v = v
end-Valid net flows none rings max v =
    let opened = new_flow net rings max in
    Opens-Valid (record { net = net; flows = flows }) opened.0 opened.1 v
      record {
        extends = record { segments_kept = omega arith; branches_kept = λ o b k. k };
        placed = (rings, refl);
        counted_one = refl;
        number = refl;
      }

-- A merger that returns, with a flow or with an error, keeps a session valid.
pub set_merger-Returns :
    (s : Session) (ptrs : List (Option ℕ))
    → Valid s
    → Returns (λ r. Valid (merged_session r)) (set_merger s.net s.flows ptrs)
unfolding set_merger create_rings
set_merger-Returns s ptrs v =
    let made = record s.net { rings = s.net.rings + 1 } in
    let ready : Valid (record { net = made; flows = s.flows }) = record {
      stands = λ i flow e.
          Stands-Extends s.net made flow (Extends-same s.net made refl refl) (v.stands i flow e);
      number = v.number;
    } in
    Returns-bind (λ r. Valid (merged_session r)) (λ (max : ℕ). Unit {0}) (max_index s.flows ptrs 0)
      _ (Returns-of _ (max_index s.flows ptrs 0) (λ max e. tt))
      (λ max u.
        Returns-bind (λ r. Valid (merged_session r)) (λ r. Valid (session_of r)) _ _
          (merge_flows-Returns ptrs (record { net = made; flows = s.flows }) s.net.rings ready)
          (λ r w. end-Valid r.0 r.1 r.2 s.net.rings max w))
