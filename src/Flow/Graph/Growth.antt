-- ===== src/Flow/Graph/Growth.antt =====
-- The graph only grows: no call takes a segment, a function or a branch of one away, so that what a
-- flow points to stays there. The steps of an insertion, each with what it needs and leaves.
use nff_go.Base.{
  ℕ, ◌≡◌, ◌≤◌, ◌<◌, refl, sym, ap, ◌∙◌, arith, Option, none, some, List, [], ◌∷◌, ◌++◌, length,
  length-append, ℕ_discrete,
}
use nff_go.Common.Errors.{Result, ok}
use nff_go.Common.Slices.{fetch, Written, put-Written, fetch_lt, fetch-ok_lt, fetch-front}
use nff_go.Flow.Graph.{Func, Segment, Net, make_slice, construct_slice}
use nff_go.Flow.Graph.Insert.{deref, set_previous, set_stype, add_context}

-- The function `owner` has a branch of that number.
pub record HasBranch (funcs : List Func) (owner branch : ℕ) : Type 0 where
  pub func : Func
  pub entries : List (Option ℕ)
  pub there : fetch funcs owner ≡ ok func
  pub has_next : func.next ≡ some entries
  pub below : branch < length entries

pub record Grows (net next : Net) : Type 0 where
  pub segments_kept : length net.segments ≤ length next.segments
  pub funcs_kept : length net.funcs ≤ length next.funcs
  pub branches_kept :
      (owner branch : ℕ) → HasBranch net.funcs owner branch → HasBranch next.funcs owner branch
  pub number_kept : next.open_flows_number ≡ net.open_flows_number
  pub ports_kept : next.created_ports ≡ net.created_ports

pub Grows-trans : (a b c : Net) → Grows a b → Grows b c → Grows a c
Grows-trans a b c g h = record {
  segments_kept = omega (arith, g.segments_kept, h.segments_kept);
  funcs_kept = omega (arith, g.funcs_kept, h.funcs_kept);
  branches_kept = λ o b k. h.branches_kept o b (g.branches_kept o b k);
  number_kept = h.number_kept ∙ g.number_kept;
  ports_kept = h.ports_kept ∙ g.ports_kept;
}

-- A function replaced by one with as many branches.
branches-put :
    (funcs : List Func) (i : ℕ) (old new : Func)
    → fetch funcs i ≡ ok old
    → ((b : ℕ) (xs : List (Option ℕ))
        → old.next ≡ some xs
        → b < length xs
        → (ys : List (Option ℕ)) × (new.next ≡ some ys) × (b < length ys))
    → (w : Written funcs i new) → (o b : ℕ) → HasBranch funcs o b
    → HasBranch w.slice o b
branches-put funcs i old new e keep w o b h = elim (ℕ_discrete o i) [
  | yes s ↦
      let same : h.func ≡ old = cc (h.there, s, e) in
      let (ys, next, below) = keep b h.entries (ap (λ f. f.next) (sym same) ∙ h.has_next) h.below in
      record {
        func = new;
        entries = ys;
        there = ap (fetch w.slice) s ∙ w.here;
        has_next = next;
        below = below;
      }
  | no s ↦ record {
    func = h.func;
    entries = h.entries;
    there = w.others o s ∙ h.there;
    has_next = h.has_next;
    below = h.below;
  }
]

-- A step that succeeds, and only makes the graph grow.
pub record Steps (net : Net) (m : Result Net) : Type 0 where
  pub next : Net
  pub done : m ≡ ok next
  pub grows : Grows net next

-- Steps that change the segments only, and not their number.
segments-Grows :
    (net : Net) (segments : List Segment)
    → length segments ≡ length net.segments
    → Grows net (record net { segments = segments })
segments-Grows net segments e = record {
  segments_kept = omega (arith, e);
  funcs_kept = omega arith;
  branches_kept = λ o b h. h;
  number_kept = refl;
  ports_kept = refl;
}

pub record Sliced (net : Net) (m : Result (Net × Func)) : Type 0 where
  pub next : Net
  pub func : Func
  pub done : m ≡ ok (next, func)
  pub no_next : func.next ≡ none
  pub same_funcs : next.funcs ≡ net.funcs
  pub grows : Grows net next

pub make_slice-Sliced :
    (net : Net) (out number : ℕ)
    → number < length net.segments
    → Sliced net (make_slice net out number)
unfolding make_slice
make_slice-Sliced net out number h =
    let (seg, e) = fetch_lt net.segments number h in
    let w = put-Written net.segments number (record seg { out = seg.out ++ (out ∷ []) }) h in
    record {
      next = record net { segments = w.slice };
      func = record {
        operation = construct_slice;
        s_function = none;
        v_function = none;
        next = none;
        buf_index = length seg.out;
        context_index = 0;
        following_number = 0;
      };
      done = rw (e, w.done) refl;
      no_next = refl;
      same_funcs = refl;
      grows = segments-Grows net w.slice w.same_length;
    }

pub set_stype-Steps :
    (net : Net) (number set_type : ℕ)
    → number < length net.segments
    → Steps net (set_stype net number set_type)
unfolding set_stype
set_stype-Steps net number set_type h =
    let (seg, e) = fetch_lt net.segments number h in
    let w = put-Written net.segments number (record seg { stype = set_type }) h in
    record {
      next = record net { segments = w.slice };
      done = rw (e, w.done) refl;
      grows = segments-Grows net w.slice w.same_length;
    }

-- Steps that replace one function by one with as many branches.
funcs-Grows :
    (net : Net) (i : ℕ) (old new : Func)
    → fetch net.funcs i ≡ ok old
    → ((b : ℕ) (xs : List (Option ℕ))
        → old.next ≡ some xs
        → b < length xs
        → (ys : List (Option ℕ)) × (new.next ≡ some ys) × (b < length ys))
    → (w : Written net.funcs i new) → Grows net (record net { funcs = w.slice })
funcs-Grows net i old new e keep w = record {
  segments_kept = omega arith;
  funcs_kept = omega (arith, w.same_length);
  branches_kept = branches-put net.funcs i old new e keep w;
  number_kept = refl;
  ports_kept = refl;
}

pub set_previous-Steps :
    (net : Net) (owner branch number : ℕ)
    → HasBranch net.funcs owner branch
    → Steps net (set_previous net (some (owner, branch)) number)
unfolding set_previous deref
set_previous-Steps net owner branch number h =
    let inner = put-Written h.entries branch (some number) h.below in
    let new = record h.func { next = some inner.slice } in
    let w = put-Written net.funcs owner new (fetch-ok_lt net.funcs owner h.func h.there) in
    record {
      next = record net { funcs = w.slice };
      done = rw (h.there, h.has_next, inner.done, w.done) refl;
      grows =
          funcs-Grows net owner h.func new h.there
            (λ b xs e below. (
              inner.slice,
              refl,
              (let same : xs ≡ h.entries = cc (e, h.has_next) in
                  omega (arith, inner.same_length, ap length same, below)),
            ))
            w;
    }

pub add_context-Steps :
    (net : Net) (seg_number number : ℕ) (context : Option ℕ)
    → seg_number < length net.segments
    → number < length net.funcs
    → Steps net (add_context net (some seg_number) number context)
unfolding add_context deref
add_context-Steps net seg_number number context h k =
    let (seg, e) = fetch_lt net.segments seg_number h in
    let (f, e') = fetch_lt net.funcs number k in
    let ws =
      put-Written net.segments seg_number (record seg { contexts = seg.contexts ++ (context ∷ []) })
        h in
    let wf = put-Written net.funcs number (record f { context_index = length seg.contexts }) k in
    let mid = record net { segments = ws.slice } in
    record {
      next = record mid { funcs = wf.slice };
      done = rw (e, ws.done, e', wf.done) refl;
      grows =
          Grows-trans net mid (record mid { funcs = wf.slice })
            (segments-Grows net ws.slice ws.same_length)
            (funcs-Grows mid number f (record f { context_index = length seg.contexts }) e'
              (λ b xs e below. (xs, e, below)) wf);
    }

-- A new function behind the others.
pub keep_func-Grows :
    (net : Net) (f : Func) → Grows net (record net { funcs = net.funcs ++ (f ∷ []) })
keep_func-Grows net f = record {
  segments_kept = omega arith;
  funcs_kept = omega (arith, length-append net.funcs (f ∷ []));
  branches_kept = λ o b h. record {
    func = h.func;
    entries = h.entries;
    there = fetch-front net.funcs (f ∷ []) o h.func h.there;
    has_next = h.has_next;
    below = h.below;
  };
  number_kept = refl;
  ports_kept = refl;
}
