-- ===== src/Flow/Graph/Ending.antt =====
-- An insertion that ends a segment first, and the one that the calls make, succeed likewise.
use nff_go.Base.{
  ℕ, ◌≡◌, refl, sym, ◌∙◌, arith, Bool, true, false, ◌&&◌, not, Option, none, some, Bool-cases, inl,
  inr,
}
use mathlib.Core.Path.{subst}
use nff_go.Common.Errors.{Result, ok}
use nff_go.Common.Slices.{fetch_lt}
use nff_go.Flow.Graph.{Func, Net, Flow, create_rings, is_nil, check_flow}
use nff_go.Flow.Graph.Insert.{end_segment, conflict, insert_in, segment_insert}
use nff_go.Flow.Graph.Growth.{Grows, Grows-trans, make_slice-Sliced}
use nff_go.Flow.Graph.Placement.{Placed, Placed-Grows}
use nff_go.Flow.Graph.Insertion.{Inserted, counted, counted-Grows, insert_here-Inserted}

pub Placed-at :
    (net : Net) (flow : Flow) (seg : Option ℕ)
    → flow.segment ≡ seg
    → Placed net flow seg
    → Placed net flow flow.segment
Placed-at net flow seg e p = subst (λ t. Placed net flow t) (sym e) p

negated_is_false : (b : Bool) → not b ≡ true → b ≡ false
negated_is_false true e = cc
negated_is_false false e = refl

record Ended (net : Net) (flow : Flow) (m : Result (Net × Flow)) : Type 0 where
  next : Net
  out : Flow
  done : m ≡ ok (next, out)
  placed : Placed next out out.segment
  same_index : out.in_index_number ≡ flow.in_index_number
  grows : Grows net next

pub create_rings-Grows : (net : Net) → Grows net ((create_rings net).0)
unfolding create_rings
create_rings-Grows net = record {
  segments_kept = omega arith;
  funcs_kept = omega arith;
  branches_kept = λ o b h. h;
  number_kept = refl;
  ports_kept = refl;
}

end_segment-Ended :
    (net : Net) (flow : Flow) (seg : ℕ)
    → flow.segment ≡ some seg
    → Placed net flow (some seg)
    → Ended net flow (end_segment net flow seg)
unfolding end_segment
end_segment-Ended net flow seg e p =
    let made = (create_rings net).0 in
    let ring = (create_rings net).1 in
    let makes = create_rings-Grows net in
    let sliced =
      make_slice-Sliced made ring seg (omega (arith, p.seg_there, makes.segments_kept)) in
    let slices = Grows-trans net made sliced.next makes sliced.grows in
    let here : Placed sliced.next flow flow.segment =
      Placed-at sliced.next flow (some seg) e
        (Placed-Grows net sliced.next flow (some seg) slices p) in
    let last = insert_here-Inserted sliced.next flow sliced.func false none 0 0 here in
    record {
      next = last.next;
      out = record last.out { segment = none; current = some ring };
      done = rw (sliced.done, last.done) refl;
      placed = (ring, refl);
      same_index = last.same_index;
      grows = Grows-trans net sliced.next last.next slices last.grows;
    }

insert_in-Inserted :
    (net : Net) (flow : Flow) (seg : Option ℕ) (f : Func) (will_close : Bool) (context : Option ℕ)
    (set_type branch : ℕ)
    → flow.segment ≡ seg
    → Placed net flow seg
    → Inserted net flow f will_close branch
        (insert_in net flow seg f will_close context set_type branch)
unfolding insert_in
insert_in-Inserted net flow none f will_close context set_type branch e p =
    insert_here-Inserted net flow f will_close context set_type branch (rw e p)
insert_in-Inserted net flow (some seg) f will_close context set_type branch e p =
    let (old, there) = fetch_lt net.segments seg p.seg_there in
    elim (Bool-cases (conflict set_type old.stype)) [
      | inr no_conflict ↦
          rw (there, no_conflict)
            (insert_here-Inserted net flow f will_close context set_type branch
              (Placed-at net flow (some seg) e p))
      | inl different ↦
          let ended = end_segment-Ended net flow seg e p in
          let last =
            insert_here-Inserted ended.next ended.out f will_close context set_type branch
              ended.placed in
          rw (there, different, ended.done)
            record {
              next = last.next;
              out = last.out;
              number = last.number;
              seg = last.seg;
              done = last.done;
              segment_of = last.segment_of;
              seg_there = last.seg_there;
              same_index = last.same_index ∙ ended.same_index;
              closes = last.closes;
              goes_on = last.goes_on;
              branches = last.branches;
              grows =
                  Grows-trans (counted will_close net) (counted will_close ended.next) last.next
                    (counted-Grows will_close net ended.next ended.grows) last.grows;
            }
    ]

-- The flow is open.
abbrev pub is_open : Flow → Bool
is_open f = not (is_nil f.current && is_nil f.previous)

pub Placed-open :
    (net : Net) (flow : Flow) (seg : Option ℕ) → Placed net flow seg → is_open flow ≡ true
Placed-open net flow none p = rw p.1 refl
Placed-open net flow (some seg) p =
    rw p.points (elim (Bool-cases (is_nil flow.current)) [ inl e ↦ rw e refl | inr e ↦ rw e refl ])

pub check_flow-open : (flow : Flow) → is_open flow ≡ true → check_flow (some flow) ≡ ok flow
unfolding check_flow
check_flow-open flow o =
    let opened = negated_is_false (is_nil flow.current && is_nil flow.previous) o in rw opened refl

pub check_flow-Placed :
    (net : Net) (flow : Flow) → Placed net flow flow.segment → check_flow (some flow) ≡ ok flow
check_flow-Placed net flow p = check_flow-open flow (Placed-open net flow flow.segment p)

pub segment_insert-Inserted :
    (net : Net) (flow : Flow) (f : Func) (will_close : Bool) (context : Option ℕ)
    (set_type branch : ℕ)
    → Placed net flow flow.segment
    → Inserted net flow f will_close branch
        (segment_insert net (some flow) f will_close context set_type branch)
unfolding segment_insert
segment_insert-Inserted net flow f will_close context set_type branch p =
    rw (check_flow-Placed net flow p)
      (insert_in-Inserted net flow flow.segment f will_close context set_type branch refl p)
