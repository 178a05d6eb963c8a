-- ===== src/Flow/Graph/Homes/Inserted.antt =====
-- An insertion keeps every function in its segment, and the flow leaves a function of its own.
use nff_go.Base.{
  ℕ, ◌&&◌, ◌+◌, ◌≡◌, refl, sym, ap, ◌∙◌, arith, Bool, true, false, Option, none, some, Option-cases,
  List, [], ◌∷◌, ◌++◌, length, length-append, inl, inr, Bool-cases, if◌then◌else◌,
}
use nff_go.Common.Errors.{Result, ok, Returns, Returns-weaken, Returns-of, Returns-bind, ◌>>=◌}
use nff_go.Common.Slices.{fetch, put-Written, fetch-ok_lt, fetch-front, fetch-append}
use nff_go.Flow.Graph.{
  Segment, Func, Net, Flow, check_flow, create_rings, close_flow, make_slice, is_nil,
}
use nff_go.Flow.Graph.Insert.{
  move_flow, insert_here, end_segment, conflict, insert_in, segment_insert,
}
use nff_go.Flow.Graph.Homes.{Homed, AtHome, Keeps}
use nff_go.Flow.Graph.Homes.Kept.{
  fetch-last_cases, the_one, segment-Homed, add_context-Returns, home_of, IsAttached, attach-Homed,
}

-- A function as it is made has no links.
abbrev pub IsFresh : Func → Type 0
IsFresh f =
    (entries : List (Option ℕ)) (b g : ℕ)
    → f.next ≡ some entries
    → fetch entries b ≡ ok (some g)
    → ⊥

pub no_next-IsFresh : (f : Func) → f.next ≡ none → IsFresh f
no_next-IsFresh f e entries b g k h = cc

-- The graph with the same functions and segments.
pub same-Homed :
    (net next : Net) (homes : List ℕ)
    → next.funcs ≡ net.funcs
    → next.segments ≡ net.segments
    → Homed net homes
    → Homed next homes
same-Homed net next homes f s h = record {
  sizes = h.sizes ∙ ap length (sym f);
  firsts = λ seg g e. h.firsts seg g (ap (λ t. fetch t seg) (sym s) ∙ e);
  links = λ i func entries b g home e.
      h.links i func entries b g home (ap (λ t. fetch t i) (sym f) ∙ e);
}

new-Homed :
    (net : Net) (homes : List ℕ) (f : Func) (home : ℕ)
    → Homed net homes
    → IsFresh f
    → Homed (record net { funcs = net.funcs ++ (f ∷ []) }) (homes ++ (home ∷ []))
new-Homed net homes f home h fresh = record {
  sizes = omega (arith, h.sizes, length-append homes (home ∷ []), length-append net.funcs (f ∷ []));
  firsts = λ seg s e. fetch-front homes (home ∷ []) s.first_func seg (h.firsts seg s e);
  links = λ i func entries b g at there next entry placed.
      elim (fetch-last_cases net.funcs f i func there) [
        | inl old ↦ elim (fetch-last_cases homes home i at placed) [
          | inl was ↦
              fetch-front homes (home ∷ []) g at (h.links i func entries b g at old next entry was)
          | inr (same, k) ↦
              absurd (let l = fetch-ok_lt net.funcs i func old in omega (arith, same, h.sizes, l))
        ]
        | inr (same, k) ↦ absurd (
            let it = the_one f func k in
            fresh entries b g (ap (λ (t : Func). t.next) it ∙ next) entry)
      ];
}

move_flow-Homed :
    (net : Net) (homes : List ℕ) (flow : Flow) (number : ℕ) (f : Func) (will_close : Bool)
    (branch seg : ℕ)
    → Homed net homes
    → flow.segment ≡ some seg
    → fetch homes number ≡ ok seg
    → (will_close ≡ false → f.next ≡ none → AtHome homes flow)
    → Homed (move_flow net flow number f will_close branch).0 homes
      × AtHome homes (move_flow net flow number f will_close branch).1
      × ((move_flow net flow number f will_close branch).1.segment ≡ some seg)
unfolding move_flow close_flow
move_flow-Homed net homes flow number f true branch seg h e here stays =
    (same-Homed net (close_flow net flow).0 homes refl refl h, (λ s o b k m. cc), e)
move_flow-Homed net homes flow number f false branch seg h e here stays =
    elim (Option-cases f.next) [
      | inl nil ↦ rw nil (h, stays refl nil, e)
      | inr has ↦ rw has.1 (
        h,
        (λ s o b k m.
            let same : number ≡ o = cc in
            let segs : seg ≡ s = cc (e, k) in rw (← same, ← segs) here),
        e,
      )
    ]

-- What an insertion leaves behind.
pub record Inserts (homes : List ℕ) (r : Net × Flow × ℕ) : Type 0 where
  pub later : List ℕ
  pub keeps : Keeps homes later
  pub homed : Homed r.0 later
  pub at_home : AtHome later r.1
  pub inside : (seg : ℕ) → r.1.segment ≡ some seg → fetch later r.2 ≡ ok seg

pub AtHome-Keeps :
    (homes later : List ℕ) (flow : Flow) → Keeps homes later → AtHome homes flow → AtHome later flow
AtHome-Keeps homes later flow k h seg o b e m = k o seg (h seg o b e m)

pub insert_here-Inserts :
    (net : Net) (homes : List ℕ) (flow : Flow) (f : Func) (will_close : Bool) (context : Option ℕ)
    (set_type branch : ℕ)
    → Homed net homes
    → AtHome homes flow
    → IsFresh f
    → (will_close ≡ false → f.next ≡ none → (seg : ℕ) × (flow.segment ≡ some seg))
    → Returns (Inserts homes) (insert_here net flow f will_close context set_type branch)
unfolding insert_here
insert_here-Inserts net homes flow f will_close context set_type branch h at_home fresh stays =
    let home = home_of (length net.segments) flow.segment in
    let later = homes ++ (home ∷ []) in
    let number = length net.funcs in
    let kept = record net { funcs = net.funcs ++ (f ∷ []) } in
    let keeps : Keeps homes later = λ g seg e. fetch-front homes (home ∷ []) g seg e in
    let here : fetch later number ≡ ok home = rw h.sizes at (fetch-append homes home []) in
    Returns-bind (Inserts homes) (IsAttached later flow home) _ _
      (attach-Homed kept later flow flow.segment number set_type
        (new-Homed net homes f home h fresh) refl (AtHome-Keeps homes later flow keeps at_home)
        here)
      (λ r w.
        let moves = move_flow r.0 r.1 number f will_close branch in
        let moved =
          move_flow-Homed r.0 later r.1 number f will_close branch home w.0 w.1 here (λ goes nil.
            let (seg, e) = stays goes nil in
            let same : home ≡ seg = ap (home_of (length net.segments)) e in
            λ s o b k m.
              let s_is : s ≡ seg = cc (k, w.1, same) in
              keeps o s (at_home s o b (rw s_is e) (sym w.2 ∙ m))) in
        Returns-bind (Inserts homes) (λ t. Homed t later) _ _
          (add_context-Returns moves.0 later r.1.segment number context moved.0)
          (λ done v. record {
            later = later;
            keeps = keeps;
            homed = v;
            at_home = moved.1;
            inside = λ seg e. let same : home ≡ seg = cc (e, moved.2) in rw (← same) here;
          }))

-- Rings that a segment ends in.
pub make_slice-Homed :
    (net : Net) (homes : List ℕ) (out number : ℕ)
    → Homed net homes
    → Returns (λ r. Homed r.0 homes × (r.1.next ≡ none)) (make_slice net out number)
unfolding make_slice
make_slice-Homed net homes out number h =
    Returns-bind (λ r. Homed r.0 homes × (r.1.next ≡ none)) (λ s. fetch net.segments number ≡ ok s)
      (fetch net.segments number) _ (Returns-of _ (fetch net.segments number) (λ s e. e))
      (λ s e.
        let new = record s { out = s.out ++ (out ∷ []) } in
        let w = put-Written net.segments number new (fetch-ok_lt net.segments number s e) in
        rw w.done (segment-Homed net homes number s new h e refl w, refl))

record Ends (homes : List ℕ) (r : Net × Flow) : Type 0 where
  later : List ℕ
  keeps : Keeps homes later
  homed : Homed r.0 later
  no_segment : r.1.segment ≡ none

end_segment-Ends :
    (net : Net) (homes : List ℕ) (flow : Flow) (seg : ℕ)
    → Homed net homes
    → AtHome homes flow
    → flow.segment ≡ some seg
    → Returns (Ends homes) (end_segment net flow seg)
unfolding end_segment create_rings
end_segment-Ends net homes flow seg h at_home e =
    let made = record net { rings = net.rings + 1 } in
    Returns-bind (Ends homes) (λ r. Homed r.0 homes × (r.1.next ≡ none)) _ _
      (make_slice-Homed made homes net.rings seg (same-Homed net made homes refl refl h))
      (λ r w.
        Returns-bind (Ends homes) (Inserts homes) _ _
          (insert_here-Inserts r.0 homes flow r.1 false none 0 0 w.0 at_home
            (no_next-IsFresh r.1 w.1) (λ goes nil. (seg, e)))
          (λ d v. record { later = v.later; keeps = v.keeps; homed = v.homed; no_segment = refl }))

-- A flow without a segment is nowhere else.
pub none-AtHome : (homes : List ℕ) (flow : Flow) → flow.segment ≡ none → AtHome homes flow
none-AtHome homes flow e seg o b k m = cc

pub Inserts-Keeps :
    (homes mid : List ℕ) (r : Net × Flow × ℕ) → Keeps homes mid → Inserts mid r → Inserts homes r
Inserts-Keeps homes mid r k v = record {
  later = v.later;
  keeps = λ f seg e. v.keeps f seg (k f seg e);
  homed = v.homed;
  at_home = v.at_home;
  inside = v.inside;
}

-- A function that the flow goes on with has branches.
abbrev pub GoesOn : Func → Bool → Type 0
GoesOn f will_close = will_close ≡ false → f.next ≡ none → ⊥

fresh_start :
    (net : Net) (homes : List ℕ) (flow : Flow) (seg : ℕ) (test : Bool)
    → Homed net homes
    → AtHome homes flow
    → flow.segment ≡ some seg
    → Returns
        (λ r. (later : List ℕ) × Keeps homes later × Homed r.0 later × AtHome later r.1)
        (if test then end_segment net flow seg else ok (net, flow))
fresh_start net homes flow seg true h at_home e =
    Returns-weaken (λ r. (later : List ℕ) × Keeps homes later × Homed r.0 later × AtHome later r.1)
      (Ends homes) (end_segment net flow seg) (end_segment-Ends net homes flow seg h at_home e)
      (λ r w. (w.later, w.keeps, w.homed, none-AtHome w.later r.1 w.no_segment))
fresh_start net homes flow seg false h at_home e = (homes, (λ f s k. k), h, at_home)

insert_in-Inserts :
    (net : Net) (homes : List ℕ) (flow : Flow) (seg : Option ℕ) (f : Func) (will_close : Bool)
    (context : Option ℕ) (set_type branch : ℕ)
    → Homed net homes
    → AtHome homes flow
    → flow.segment ≡ seg
    → IsFresh f
    → GoesOn f will_close
    → Returns (Inserts homes) (insert_in net flow seg f will_close context set_type branch)
unfolding insert_in
insert_in-Inserts net homes flow none f will_close context set_type branch h at_home e fresh on =
    insert_here-Inserts net homes flow f will_close context set_type branch h at_home fresh
      (λ goes nil. absurd (on goes nil))
insert_in-Inserts net homes flow (some seg) f will_close context set_type branch h at_home e fresh
      on =
    Returns-bind (Inserts homes) (λ (s : Segment). Unit {0}) (fetch net.segments seg) _
      (Returns-of _ (fetch net.segments seg) (λ s k. tt))
      (λ s u.
        Returns-bind (Inserts homes)
          (λ r. (later : List ℕ) × Keeps homes later × Homed r.0 later × AtHome later r.1) _ _
          (fresh_start net homes flow seg (conflict set_type s.stype) h at_home e)
          (λ r (later, keeps, homed, at).
            Returns-weaken (Inserts homes) (Inserts later) _
              (insert_here-Inserts r.0 later r.1 f will_close context set_type branch homed at fresh
                (λ goes nil. absurd (on goes nil)))
              (λ d v. Inserts-Keeps homes later d keeps v)))

module _ {A : Type 0} (P : A → Type 0) where
  -- What follows the check of a flow.
  pub checked-Returns :
      (flow : Flow) (g : Flow → Result A)
      → Returns P (g flow)
      → Returns P (check_flow (some flow) >>= g)
  unfolding check_flow
  checked-Returns flow g p = elim (Bool-cases (is_nil flow.current && is_nil flow.previous)) [
    | inl t ↦ rw t tt
    | inr f ↦ rw f p
  ]

pub segment_insert-Inserts :
    (net : Net) (homes : List ℕ) (flow : Flow) (f : Func) (will_close : Bool) (context : Option ℕ)
    (set_type branch : ℕ)
    → Homed net homes
    → AtHome homes flow
    → IsFresh f
    → GoesOn f will_close
    → Returns (Inserts homes) (segment_insert net (some flow) f will_close context set_type branch)
unfolding segment_insert
segment_insert-Inserts net homes flow f will_close context set_type branch h at_home fresh on =
    checked-Returns (Inserts homes) flow _ (
      insert_in-Inserts net homes flow flow.segment f will_close context set_type branch h at_home
        refl fresh on)

slice_in-Inserts :
    (net : Net) (homes : List ℕ) (flow : Flow) (seg : Option ℕ) (number : ℕ) (f : Func)
    (will_close : Bool)
    → Homed net homes
    → AtHome homes flow
    → flow.segment ≡ some number
    → seg ≡ some number
    → f.next ≡ none
    → Returns (Inserts homes) (insert_in net flow seg f will_close none 0 0)
unfolding insert_in conflict
slice_in-Inserts net homes flow none number f will_close h at_home e k nil = cc
slice_in-Inserts net homes flow (some seg) number f will_close h at_home e k nil =
    Returns-bind (Inserts homes) (λ (s : Segment). Unit {0}) (fetch net.segments seg) _
      (Returns-of _ (fetch net.segments seg) (λ s k. tt))
      (λ s u.
        insert_here-Inserts net homes flow f will_close none 0 0 h at_home (no_next-IsFresh f nil)
          (λ goes nil. (number, e)))

-- The function that ends a segment in rings is put behind the flow.
pub slice-Inserts :
    (net : Net) (homes : List ℕ) (flow : Flow) (number : ℕ) (f : Func) (will_close : Bool)
    → Homed net homes
    → AtHome homes flow
    → flow.segment ≡ some number
    → f.next ≡ none
    → Returns (Inserts homes) (segment_insert net (some flow) f will_close none 0 0)
unfolding segment_insert
slice-Inserts net homes flow number f will_close h at_home e nil =
    checked-Returns (Inserts homes) flow _
      (slice_in-Inserts net homes flow flow.segment number f will_close h at_home e e nil)
