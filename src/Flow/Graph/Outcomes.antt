-- ===== src/Flow/Graph/Outcomes.antt =====
-- What every call on a flow leaves behind: it succeeds, the graph keeps what other flows point to,
-- the flow and the new ones are in their places, and the open flows are counted.
use nff_go.Base.{
  ℕ, ◌+◌, ◌≡◌, ◌≤◌, ◌<◌, refl, ap, ◌∙◌, arith, Bool, true, false, Option, none, some, ◌⊎◌, inl, inr,
  List, length, if◌then◌else◌, u32, sub32, All,
}
use nff_go.Common.Errors.{Result, ok}
use nff_go.Flow.Graph.{Func, Net, Flow, make_slice}
use nff_go.Flow.Graph.Insert.{segment_insert}
use nff_go.Flow.Graph.Growth.{HasBranch, make_slice-Sliced}
use nff_go.Flow.Graph.Placement.{Placed}
use nff_go.Flow.Graph.Insertion.{Inserted}
use nff_go.Flow.Graph.Ending.{is_open, Placed-at, segment_insert-Inserted}

pub record Extends (net next : Net) : Type 0 where
  pub segments_kept : length net.segments ≤ length next.segments
  pub branches_kept :
      (owner branch : ℕ) → HasBranch net.funcs owner branch → HasBranch next.funcs owner branch

pub Extends-trans : (a b c : Net) → Extends a b → Extends b c → Extends a c
Extends-trans a b c g h = record {
  segments_kept = omega (arith, g.segments_kept, h.segments_kept);
  branches_kept = λ o k e. h.branches_kept o k (g.branches_kept o k e);
}

-- The two graphs have the same segments and functions.
pub Extends-same :
    (net next : Net) → next.segments ≡ net.segments → next.funcs ≡ net.funcs → Extends net next
Extends-same net next s f = record {
  segments_kept = omega (arith, ap length s);
  branches_kept = λ o k e. rw f e;
}

pub Placed-Extends :
    (net next : Net) (flow : Flow) (seg : Option ℕ)
    → Extends net next
    → Placed net flow seg
    → Placed next flow seg
Placed-Extends net next flow none g p = p
Placed-Extends net next flow (some seg) g p = record {
  owner = p.owner;
  branch = p.branch;
  seg_there = omega (arith, p.seg_there, g.segments_kept);
  points = p.points;
  has = g.branches_kept p.owner p.branch p.has;
}

-- The flow is closed, or where it should be.
abbrev pub Stands : Net → Flow → Type 0
Stands net flow = (is_open flow ≡ false) ⊎ Placed net flow flow.segment

pub Stands-Extends :
    (net next : Net) (flow : Flow) → Extends net next → Stands net flow → Stands next flow
Stands-Extends net next flow g (inl c) = inl c
Stands-Extends net next flow g (inr p) = inr (Placed-Extends net next flow flow.segment g p)

abbrev pub opened : Flow → ℕ
opened flow = if is_open flow then 1 else 0

pub record Built (net next : Net) (out : Flow) (news : List Flow) : Type 0 where
  pub extends : Extends net next
  pub out_stands : Stands next out
  pub news_placed : All (λ g. Placed next g g.segment) news
  pub number :
      u32 (next.open_flows_number + 1) ≡ u32 (net.open_flows_number + opened out + length news)
  pub same_ports : length next.created_ports ≡ length net.created_ports

abbrev pub Builds : Net → Result (Net × Flow × List Flow) → Type 0
Builds net m =
    (next : Net) × (out : Flow) × (news : List Flow) × (m ≡ ok (next, out, news))
    × Built net next out news

module _ (net : Net) (flow : Flow) (f : Func) (branch : ℕ) where
  pub Inserted-Placed :
      (m : Result (Net × Flow × ℕ)) (w : Inserted net flow f false branch m)
      → (entries : List (Option ℕ)) → f.next ≡ some entries
      → branch < length entries
      → Placed w.next w.out w.out.segment
  Inserted-Placed m w entries e h = Placed-at w.next w.out (some w.seg) w.segment_of (record {
    owner = w.number;
    branch = branch;
    seg_there = w.seg_there;
    points = w.goes_on refl entries e;
    has = w.branches branch entries e h;
  })

  pub Inserted-Extends :
      (will_close : Bool) (m : Result (Net × Flow × ℕ))
      (w : Inserted net flow f will_close branch m)
      → Extends net w.next
  Inserted-Extends will_close m w = record {
    segments_kept = w.grows.segments_kept;
    branches_kept = w.grows.branches_kept;
  }

-- The flow is closed, and counted so.
pub record Closes (net next : Net) (out : Flow) : Type 0 where
  pub extends : Extends net next
  pub is_closed : is_open out ≡ false
  pub number : u32 (next.open_flows_number + 1) ≡ u32 net.open_flows_number
  pub same_ports : length next.created_ports ≡ length net.created_ports

pub sub32-number : (n : ℕ) → u32 (sub32 n 1 + 1) ≡ u32 n
sub32-number n = omega arith

pub closed_flow : (f : Flow) → f.current ≡ none → f.previous ≡ none → is_open f ≡ false
closed_flow f c p = rw (c, p) refl

-- A segment ends in rings, and the flow with it.
pub slice-Closes :
    (net : Net) (flow : Flow) (rings seg : ℕ)
    → flow.segment ≡ some seg
    → Placed net flow (some seg)
    → (sliced : Net) × (ms : Func) × (next : Net) × (out : Flow) × (number : ℕ) × (make_slice net
          rings seg
        ≡ ok (sliced, ms))
      × (segment_insert sliced (some flow) ms true none 0 0 ≡ ok (next, out, number))
      × Closes net next out
slice-Closes net flow rings seg e p =
    let s = make_slice-Sliced net rings seg p.seg_there in
    let slices : Extends net s.next = record {
      segments_kept = s.grows.segments_kept;
      branches_kept = s.grows.branches_kept;
    } in
    let here =
      Placed-at s.next flow (some seg) e (Placed-Extends net s.next flow (some seg) slices p) in
    let w = segment_insert-Inserted s.next flow s.func true none 0 0 here in
    let m = segment_insert s.next (some flow) s.func true none 0 0 in
    let gone = w.closes refl in
    (
      s.next,
      s.func,
      w.next,
      w.out,
      w.number,
      s.done,
      w.done,
      record {
        extends =
            Extends-trans net s.next w.next slices (Inserted-Extends s.next flow s.func 0 true m w);
        is_closed = closed_flow w.out gone.0 gone.1;
        number = rw (w.grows.number_kept, s.grows.number_kept) (sub32-number net.open_flows_number);
        same_ports = ap length (w.grows.ports_kept ∙ s.grows.ports_kept);
      },
    )
