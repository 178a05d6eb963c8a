-- ===== src/Flow/Graph/Placement.antt =====
-- Where a flow is in the graph, and that the first step of an insertion succeeds there.
use nff_go.Base.{
  ℕ, ◌≡◌, ◌<◌, refl, arith, Bool, true, false, ◌&&◌, Option, none, some, [], ◌∷◌, length,
  length-append, if◌then◌else◌, ltb, ◌==◌,
}
use nff_go.Common.Errors.{Result, ok}
use nff_go.Common.Slices.{fetch_lt}
use nff_go.Flow.Graph.{Net, Flow, add_segment, add_ff}
use nff_go.Flow.Graph.Insert.{set_stype, attach}
use nff_go.Flow.Graph.Growth.{
  HasBranch, Grows, Grows-trans, Steps, set_stype-Steps, set_previous-Steps,
}

-- The flow leaves a branch of a function, in a segment.
pub record Leaves (net : Net) (flow : Flow) (seg : ℕ) : Type 0 where
  pub owner : ℕ
  pub branch : ℕ
  pub seg_there : seg < length net.segments
  pub points : flow.previous ≡ some (owner, branch)
  pub has : HasBranch net.funcs owner branch

-- The flow is at rings, or in a segment.
abbrev pub Placed : Net → Flow → Option ℕ → Type 0
Placed net flow none = (ring : ℕ) × (flow.current ≡ some ring)
Placed net flow (some seg) = Leaves net flow seg

pub Placed-Grows :
    (net next : Net) (flow : Flow) (seg : Option ℕ)
    → Grows net next
    → Placed net flow seg
    → Placed next flow seg
Placed-Grows net next flow none g p = p
Placed-Grows net next flow (some seg) g p = record {
  owner = p.owner;
  branch = p.branch;
  seg_there = omega (arith, p.seg_there, g.segments_kept);
  points = p.points;
  has = g.branches_kept p.owner p.branch p.has;
}

pub record Attached (net : Net) (flow : Flow) (m : Result (Net × Flow)) : Type 0 where
  pub next : Net
  pub out : Flow
  pub seg : ℕ
  pub done : m ≡ ok (next, out)
  pub segment_of : out.segment ≡ some seg
  pub seg_there : seg < length next.segments
  pub same_current : out.current ≡ flow.current
  pub same_previous : out.previous ≡ flow.previous
  pub same_index : out.in_index_number ≡ flow.in_index_number
  pub grows : Grows net next

add_segment-Grows :
    (net : Net) (ring : Option ℕ) (first index : ℕ)
    → Grows net ((add_segment net ring first index).0)
unfolding add_segment add_ff
add_segment-Grows net ring first index = record {
  segments_kept = omega (
    arith,
    length-append net.segments
        (record { out = []; contexts = []; stype = 0; first_func = first } ∷ []),
  );
  funcs_kept = omega arith;
  branches_kept = λ o b h. h;
  number_kept = refl;
  ports_kept = refl;
}

added_there :
    (net : Net) (ring : Option ℕ) (first index : ℕ)
    → length net.segments < length ((add_segment net ring first index).0.segments)
unfolding add_segment add_ff
added_there net ring first index = omega (
  arith,
  length-append net.segments
      (record { out = []; contexts = []; stype = 0; first_func = first } ∷ []),
)

added_number :
    (net : Net) (ring : Option ℕ) (first index : ℕ)
    → (add_segment net ring first index).1 ≡ length net.segments
unfolding add_segment
added_number net ring first index = refl

typed-Steps :
    (net : Net) (seg set_type : ℕ) (test : Bool)
    → seg < length net.segments
    → Steps net (if test then set_stype net seg set_type else ok net)
typed-Steps net seg set_type true h = set_stype-Steps net seg set_type h
typed-Steps net seg set_type false h = record {
  next = net;
  done = refl;
  grows = record {
    segments_kept = omega arith;
    funcs_kept = omega arith;
    branches_kept = λ o b h. h;
    number_kept = refl;
    ports_kept = refl;
  };
}

pub attach-Attached :
    (net : Net) (flow : Flow) (seg : Option ℕ) (number set_type : ℕ)
    → flow.segment ≡ seg
    → Placed net flow seg
    → Attached net flow (attach net flow seg number set_type)
unfolding attach
attach-Attached net flow none number set_type e p =
    let opened = (add_segment net flow.current number flow.in_index_number).0 in
    let typed =
      set_stype-Steps opened (length net.segments) set_type
        (added_there net flow.current number flow.in_index_number) in
    record {
      next = typed.next;
      out = record flow { segment = some (length net.segments) };
      seg = length net.segments;
      done = rw (added_number net flow.current number flow.in_index_number, typed.done) refl;
      segment_of = refl;
      seg_there = omega (
        arith,
        added_there net flow.current number flow.in_index_number,
        typed.grows.segments_kept,
      );
      same_current = refl;
      same_previous = refl;
      same_index = refl;
      grows =
          Grows-trans net opened typed.next
            (add_segment-Grows net flow.current number flow.in_index_number) typed.grows;
    }
attach-Attached net flow (some seg) number set_type e p =
    let (old, there) = fetch_lt net.segments seg p.seg_there in
    let typed = typed-Steps net seg set_type (ltb 0 set_type && (old.stype == 0)) p.seg_there in
    let linked =
      set_previous-Steps typed.next p.owner p.branch number
        (typed.grows.branches_kept p.owner p.branch p.has) in
    record {
      next = linked.next;
      out = flow;
      seg = seg;
      done = rw (there, typed.done, p.points, linked.done) refl;
      segment_of = e;
      seg_there = omega (arith, p.seg_there, typed.grows.segments_kept, linked.grows.segments_kept);
      same_current = refl;
      same_previous = refl;
      same_index = refl;
      grows = Grows-trans net typed.next linked.next typed.grows linked.grows;
    }
