-- ===== src/Flow/Graph/Insertion.antt =====
-- An insertion into the graph succeeds behind every flow that is where it should be.
use nff_go.Base.{
  ℕ, ◌≡◌, ◌<◌, refl, sym, ap, ◌∙◌, arith, Bool, true, false, Option, none, some, Option-cases, inl,
  inr, List, [], ◌∷◌, ◌++◌, length, length-append, if◌then◌else◌, sub32,
}
use nff_go.Common.Errors.{Result, ok}
use nff_go.Common.Slices.{fetch-append}
use nff_go.Flow.Graph.{Func, Net, Flow, close_flow}
use nff_go.Flow.Graph.Insert.{move_flow, insert_here}
use nff_go.Flow.Graph.Growth.{HasBranch, Grows, Grows-trans, add_context-Steps, keep_func-Grows}
use nff_go.Flow.Graph.Placement.{Placed, Placed-Grows, attach-Attached}

abbrev counted_number : Bool → ℕ → ℕ
counted_number will_close n = if will_close then sub32 n 1 else n

-- The graph with a flow fewer counted, where that was closed.
abbrev pub counted : Bool → Net → Net
counted will_close net = record net {
  open_flows_number = counted_number will_close net.open_flows_number;
}

pub counted-Grows :
    (will_close : Bool) (net next : Net)
    → Grows net next
    → Grows (counted will_close net) (counted will_close next)
counted-Grows will_close net next g = record {
  segments_kept = g.segments_kept;
  funcs_kept = g.funcs_kept;
  branches_kept = g.branches_kept;
  number_kept = ap (counted_number will_close) g.number_kept;
  ports_kept = g.ports_kept;
}

pub true-ne-false : true ≡ false → ⊥
true-ne-false e = cc

none-ne-some {ℓ} : {A : Type ℓ} {a : A} → none ≡ some a → ⊥
none-ne-some e = cc

-- Where a flow is behind the function that was put there.
pub record Moved (flow : Flow) (number : ℕ) (f : Func) (will_close : Bool) (branch : ℕ) (out : Flow)
    : Type 0 where
  pub same_segment : out.segment ≡ flow.segment
  pub same_index : out.in_index_number ≡ flow.in_index_number
  pub closes : will_close ≡ true → (out.current ≡ none) × (out.previous ≡ none)
  pub goes_on :
      will_close ≡ false
      → (entries : List (Option ℕ)) → f.next ≡ some entries
      → out.previous ≡ some (number, branch)

move_flow-Moved :
    (net : Net) (flow : Flow) (number : ℕ) (f : Func) (will_close : Bool) (branch : ℕ)
    → (out : Flow) × (move_flow net flow number f will_close branch ≡ (counted will_close net, out))
      × Moved flow number f will_close branch out
unfolding move_flow close_flow
move_flow-Moved net flow number f true branch = (
  record flow { current = none; previous = none },
  refl,
  record {
    same_segment = refl;
    same_index = refl;
    closes = λ e. (refl, refl);
    goes_on = λ e xs h. absurd (true-ne-false e);
  },
)
move_flow-Moved net flow number f false branch = elim (Option-cases f.next) [
  | inl e ↦ rw e (
    flow,
    refl,
    record {
      same_segment = refl;
      same_index = refl;
      closes = λ h. absurd (true-ne-false (sym h));
      goes_on = λ h xs k. absurd (none-ne-some k);
    },
  )
  | inr h ↦ rw h.1 (
    record flow { previous = some (number, branch) },
    refl,
    record {
      same_segment = refl;
      same_index = refl;
      closes = λ h. absurd (true-ne-false (sym h));
      goes_on = λ h xs k. refl;
    },
  )
]

-- The outcome of an insertion: it succeeds, the graph grows, and the new function has its branches.
pub record Inserted (net : Net) (flow : Flow) (f : Func) (will_close : Bool) (branch : ℕ)
    (m : Result (Net × Flow × ℕ)) : Type 0 where
  pub next : Net
  pub out : Flow
  pub number : ℕ
  pub seg : ℕ
  pub done : m ≡ ok (next, out, number)
  pub segment_of : out.segment ≡ some seg
  pub seg_there : seg < length next.segments
  pub same_index : out.in_index_number ≡ flow.in_index_number
  pub closes : will_close ≡ true → (out.current ≡ none) × (out.previous ≡ none)
  pub goes_on :
      will_close ≡ false
      → (entries : List (Option ℕ)) → f.next ≡ some entries
      → out.previous ≡ some (number, branch)
  pub branches :
      (b : ℕ) (entries : List (Option ℕ))
      → f.next ≡ some entries
      → b < length entries
      → HasBranch next.funcs number b
  pub grows : Grows (counted will_close net) next

pub insert_here-Inserted :
    (net : Net) (flow : Flow) (f : Func) (will_close : Bool) (context : Option ℕ)
    (set_type branch : ℕ)
    → Placed net flow flow.segment
    → Inserted net flow f will_close branch
        (insert_here net flow f will_close context set_type branch)
unfolding insert_here
insert_here-Inserted net flow f will_close context set_type branch p =
    let number = length net.funcs in
    let kept = record net { funcs = net.funcs ++ (f ∷ []) } in
    let keeps = keep_func-Grows net f in
    let a =
      attach-Attached kept flow flow.segment number set_type refl
        (Placed-Grows net kept flow flow.segment keeps p) in
    let (out, moves, moved) = move_flow-Moved a.next a.out number f will_close branch in
    let mid = counted will_close a.next in
    let room : number < length a.next.funcs =
      omega (arith, length-append net.funcs (f ∷ []), a.grows.funcs_kept) in
    let last = add_context-Steps mid a.seg number context a.seg_there room in
    record {
      next = last.next;
      out = out;
      number = number;
      seg = a.seg;
      done = rw (a.done, moves, a.segment_of, last.done) refl;
      segment_of = moved.same_segment ∙ a.segment_of;
      seg_there = omega (arith, a.seg_there, last.grows.segments_kept);
      same_index = moved.same_index ∙ a.same_index;
      closes = moved.closes;
      goes_on = moved.goes_on;
      branches = λ b xs e h. last.grows.branches_kept number b (
          a.grows.branches_kept number b (record {
            func = f;
            entries = xs;
            there = fetch-append net.funcs f [];
            has_next = e;
            below = h;
          }));
      grows =
          Grows-trans (counted will_close net) mid last.next
            (counted-Grows will_close net a.next (Grows-trans net kept a.next keeps a.grows))
            last.grows;
    }
