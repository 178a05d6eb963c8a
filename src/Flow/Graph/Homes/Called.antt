-- ===== src/Flow/Graph/Homes/Called.antt =====
-- Every call on a flow keeps the functions in their segments, flow/flow.go.
use nff_go.Base.{
  ℕ, ◌∙◌, zero, suc, ◌+◌, ◌≡◌, refl, ap, Bool, true, false, Option, none, some, List, [], ◌∷◌, All,
  ltb, Bool-cases, inl, inr, replicate, u8,
}
use nff_go.Common.Errors.{Result, ok, Returns, Returns-bind, ◌>>=◌}
use nff_go.Common.Slices.{fetch}
use nff_go.Flow.Graph.{
  Func, Net, Flow, new_flow_segment, make_handler, make_separator, make_partitioner, make_splitter,
  make_func,
}
use nff_go.Flow.Graph.Insert.{segment_insert}
use nff_go.Flow.Graph.Setters.{
  set_partitioner, set_separator, set_vector_separator, branch_off, split_flows, split_by,
  set_handler, set_vector_handler,
}
use nff_go.Flow.Graph.Calls.{alone, with_one}
use nff_go.Flow.Graph.Homes.{Homed, AtHome, Keeps}
use nff_go.Flow.Graph.Homes.Inserted.{
  IsFresh, same-Homed, Inserts, segment_insert-Inserts, checked-Returns, GoesOn,
}

-- What a call leaves behind: the graph, the flow and the new flows.
pub record Settles (homes : List ℕ) (r : Net × Flow × List Flow) : Type 0 where
  pub later : List ℕ
  pub keeps : Keeps homes later
  pub homed : Homed r.0 later
  pub out_home : AtHome later r.1
  pub news_home : All (AtHome later) r.2

abbrev pub SettlesOne : List ℕ → Net × Flow → Type 0
SettlesOne homes r = Settles homes (r.0, r.1, [])

abbrev pub SettlesTwo : List ℕ → Net × Flow × Flow → Type 0
SettlesTwo homes r = Settles homes (r.0, r.1, r.2 ∷ [])

pub alone-Settles :
    (homes : List ℕ) (m : Result (Net × Flow))
    → Returns (SettlesOne homes) m
    → Returns (Settles homes) (alone m)
alone-Settles homes m h = Returns-bind (Settles homes) (SettlesOne homes) m _ h (λ r s. s)

pub with_one-Settles :
    (homes : List ℕ) (m : Result (Net × Flow × Flow))
    → Returns (SettlesTwo homes) m
    → Returns (Settles homes) (with_one m)
with_one-Settles homes m h = Returns-bind (Settles homes) (SettlesTwo homes) m _ h (λ r s. s)

replicate-none : (n b g : ℕ) → fetch (replicate n none) b ≡ ok (some g) → ⊥
unfolding fetch
replicate-none zero b g e = cc
replicate-none (suc n) zero g e = cc
replicate-none (suc n) (suc b) g e = replicate-none n b g e

-- A function with `n` branches, all nil.
pub record IsMade (f : Func) (n : ℕ) : Type 0 where
  pub made : f.next ≡ some (replicate n none)

IsMade-IsFresh : (f : Func) (n : ℕ) → IsMade f n → IsFresh f
IsMade-IsFresh f n m entries b g e k =
    let same : replicate n none ≡ entries = cc (m.made, e) in
    replicate-none n b g (ap (λ (t : List (Option ℕ)). fetch t b) same ∙ k)

IsMade-GoesOn : (f : Func) (n : ℕ) (will_close : Bool) → IsMade f n → GoesOn f will_close
IsMade-GoesOn f n will_close m goes nil = let made = m.made in cc

module _ (net : Net) (homes : List ℕ) (h : Homed net homes) (flow : Flow)
    (at_home : AtHome homes flow) where
  inserted :
      (f : Func) (n : ℕ) (will_close : Bool) (context : Option ℕ) (set_type branch : ℕ)
      → IsMade f n
      → Returns
          (Inserts homes)
          (segment_insert net (some flow) f will_close context set_type branch)
  inserted f n will_close context set_type branch m =
      segment_insert-Inserts net homes flow f will_close context set_type branch h at_home
        (IsMade-IsFresh f n m) (IsMade-GoesOn f n will_close m)

  handler_by :
      (f : Func) (context : Option ℕ) (set_type : ℕ)
      → IsMade f 1
      → Returns
          (SettlesOne homes)
          (segment_insert net (some flow) f false context set_type 0 >>= (λ r. ok (r.0, r.1)))
  handler_by f context set_type m =
      Returns-bind (SettlesOne homes) (Inserts homes) _ _ (inserted f 1 false context set_type 0 m)
        (λ r v. record {
          later = v.later;
          keeps = v.keeps;
          homed = v.homed;
          out_home = v.at_home;
          news_home = tt;
        })

  pub set_handler-Settles :
      (f : ℕ) (context : Option ℕ)
      → Returns (SettlesOne homes) (set_handler net (some flow) f context)
  unfolding set_handler make_handler make_func
  set_handler-Settles f context =
      handler_by (make_handler (some f) none) context 1 (record { made = refl })

  pub set_vector_handler-Settles :
      (f : ℕ) (context : Option ℕ)
      → Returns (SettlesOne homes) (set_vector_handler net (some flow) f context)
  unfolding set_vector_handler make_handler make_func
  set_vector_handler-Settles f context =
      handler_by (make_handler none (some f)) context 2 (record { made = refl })

  pub branch_off-SettlesTwo :
      (f : Func) (n : ℕ) (context : Option ℕ) (set_type branch other : ℕ)
      → IsMade f n
      → Returns (SettlesTwo homes) (branch_off net (some flow) f context set_type branch other)
  unfolding branch_off new_flow_segment
  branch_off-SettlesTwo f n context set_type branch other m =
      Returns-bind (SettlesTwo homes) (Inserts homes) _ _
        (inserted f n false context set_type branch m)
        (λ r v. record {
          later = v.later;
          keeps = v.keeps;
          homed = same-Homed r.0 _ v.later refl refl v.homed;
          out_home = v.at_home;
          news_home =
              ((λ seg o b e k. let same : r.2 ≡ o = cc in rw (← same) (v.inside seg e)), tt);
        })

  pub set_partitioner-Settles :
      (context : ℕ) → Returns (SettlesTwo homes) (set_partitioner net (some flow) context)
  unfolding set_partitioner make_partitioner make_func
  set_partitioner-Settles context =
      branch_off-SettlesTwo make_partitioner 2 (some context) 0 0 1 (record { made = refl })

  pub set_separator-Settles :
      (f : ℕ) (context : Option ℕ)
      → Returns (SettlesTwo homes) (set_separator net (some flow) f context)
  unfolding set_separator make_separator make_func
  set_separator-Settles f context =
      branch_off-SettlesTwo (make_separator (some f) none) 2 context 1 1 0 (record { made = refl })

  pub set_vector_separator-Settles :
      (f : ℕ) (context : Option ℕ)
      → Returns (SettlesTwo homes) (set_vector_separator net (some flow) f context)
  unfolding set_vector_separator make_separator make_func
  set_vector_separator-Settles f context =
      branch_off-SettlesTwo (make_separator none (some f)) 2 context 2 1 0 (record { made = refl })

-- The new flows of a splitter are at branches of its function.
split_flows-Homed :
    (net : Net) (homes : List ℕ) (flow : Flow) (number branches i left : ℕ)
    → Homed net homes
    → ((seg : ℕ) → flow.segment ≡ some seg → fetch homes number ≡ ok seg)
    → Returns
        (λ r. Homed r.0 homes × All (AtHome homes) r.1)
        (split_flows net flow number branches i left)
unfolding split_flows new_flow_segment
split_flows-Homed net homes flow number branches i zero h inside = (h, tt)
split_flows-Homed net homes flow number branches i (suc left) h inside =
    elim (Bool-cases (ltb i branches)) [
      | inl t ↦
          let opened = (new_flow_segment net flow.segment (number, i) flow.in_index_number).0 in
          rw t (
            Returns-bind (λ r. Homed r.0 homes × All (AtHome homes) r.1)
              (λ r. Homed r.0 homes × All (AtHome homes) r.1) _ _
              (split_flows-Homed opened homes flow number branches (i + 1) left
                (same-Homed net opened homes refl refl h) inside)
              (λ r w. (
                w.0,
                ((λ seg o b e k. let same : number ≡ o = cc in rw (← same) (inside seg e)), w.1),
              )))
      | inr f ↦ rw f tt
    ]

pub closed-AtHome : (homes : List ℕ) (flow : Flow) → flow.previous ≡ none → AtHome homes flow
closed-AtHome homes flow e seg o b k m = cc

module _ (net : Net) (homes : List ℕ) (h : Homed net homes) (flow : Flow)
    (at_home : AtHome homes flow) where
  pub split_by-Settles :
      (s v : Option ℕ) (n : ℕ) (context : Option ℕ) (set_type : ℕ)
      → Returns (Settles homes) (split_by net (some flow) s v n context set_type)
  unfolding split_by make_splitter make_func
  split_by-Settles s v n context set_type = checked-Returns (Settles homes) flow _ (
      Returns-bind (Settles homes) (Inserts homes) _ _
        (inserted net homes h flow at_home (make_splitter s v (u8 n)) (u8 n) true context set_type 0
          (record { made = refl }))
        (λ r w.
          Returns-bind (Settles homes) (λ t. Homed t.0 w.later × All (AtHome w.later) t.1) _ _
            (split_flows-Homed r.0 w.later r.1 r.2 (u8 n) 0 n w.homed w.inside)
            (λ t k. record {
              later = w.later;
              keeps = w.keeps;
              homed = k.0;
              out_home = w.at_home;
              news_home = k.1;
            })))
