-- ===== src/Flow/Graph/Homes/Kept.antt =====
-- The steps of an insertion keep every function in its segment.
use nff_go.Base.{
  ℕ, ◌⊎◌, zero, suc, ◌≤◌, dec_lt, ◌≡◌, refl, sym, ap, ◌∙◌, arith, Bool, true, false, ◌&&◌, Option,
  none, some, List, [], ◌∷◌, ◌++◌, length, ltb, ◌==◌, if◌then◌else◌, ℕ_discrete, inl, inr,
}
use nff_go.Common.Errors.{ok, panic, Returns, Returns-of, Returns-bind}
use nff_go.Common.Slices.{fetch, put, Written, put-Written, fetch-ok_lt}
use nff_go.Flow.Graph.{Func, Segment, Net, Flow, add_segment, add_ff}
use nff_go.Flow.Graph.Insert.{deref, set_previous, set_stype, add_context, attach}
use nff_go.Flow.Graph.Homes.{Homed, AtHome}

-- The last element of a slice, or one before it.
pub fetch-last_cases {ℓ} :
    {A : Type ℓ} (xs : List A) (y : A) (i : ℕ) (x : A)
    → fetch (xs ++ (y ∷ [])) i ≡ ok x
    → (fetch xs i ≡ ok x) ⊎ ((i ≡ length xs) × (fetch (y ∷ []) 0 ≡ ok x))
unfolding fetch
fetch-last_cases [] y zero x e = inr (refl, e)
fetch-last_cases [] y (suc i) x e = cc
fetch-last_cases (z ∷ xs) y zero x e = inl e
fetch-last_cases (z ∷ xs) y (suc i) x e = elim (fetch-last_cases xs y i x e) [
  | inl old ↦ inl old
  | inr (same, new) ↦ inr (ap suc same, new)
]

pub the_one {ℓ} : {A : Type ℓ} (y x : A) → fetch (y ∷ []) 0 ≡ ok x → y ≡ x
unfolding fetch
the_one y x e = cc

-- A segment replaced by one that begins with the same function.
pub segment-Homed :
    (net : Net) (homes : List ℕ) (i : ℕ) (old new : Segment)
    → Homed net homes
    → fetch net.segments i ≡ ok old
    → new.first_func ≡ old.first_func
    → (w : Written net.segments i new) → Homed (record net { segments = w.slice }) homes
segment-Homed net homes i old new h e same w = record {
  sizes = h.sizes;
  firsts = λ seg s there. elim (ℕ_discrete seg i) [
    | yes here ↦
        let it : s ≡ new = cc (there, here, w.here) in rw (it, same, here) (h.firsts i old e)
    | no other ↦ h.firsts seg s (sym (w.others seg other) ∙ there)
  ];
  links = h.links;
}

-- A function replaced by one with the same links.
pub func-Homed :
    (net : Net) (homes : List ℕ) (i : ℕ) (old new : Func)
    → Homed net homes
    → fetch net.funcs i ≡ ok old
    → new.next ≡ old.next
    → (w : Written net.funcs i new) → Homed (record net { funcs = w.slice }) homes
func-Homed net homes i old new h e same w = record {
  sizes = omega (arith, h.sizes, w.same_length);
  firsts = h.firsts;
  links = λ f func entries b g home there next entry at_home. elim (ℕ_discrete f i) [
    | yes here ↦
        let it : func ≡ new = cc (there, here, w.here) in
        let was : old.next ≡ some entries = sym same ∙ ap (λ t. t.next) (sym it) ∙ next in
        h.links f old entries b g home (ap (fetch net.funcs) here ∙ e) was entry at_home
    | no other ↦ h.links f func entries b g home (sym (w.others f other) ∙ there) next entry at_home
  ];
}

pub set_stype-Homed :
    (net : Net) (homes : List ℕ) (number set_type : ℕ)
    → Homed net homes
    → Returns (λ t. Homed t homes) (set_stype net number set_type)
unfolding set_stype
set_stype-Homed net homes number set_type h =
    Returns-bind (λ t. Homed t homes) (λ s. fetch net.segments number ≡ ok s)
      (fetch net.segments number) _ (Returns-of _ (fetch net.segments number) (λ s e. e))
      (λ s e.
        let new = record s { stype = set_type } in
        let w = put-Written net.segments number new (fetch-ok_lt net.segments number s e) in
        rw w.done (segment-Homed net homes number s new h e refl w))

add_context-Homed :
    (net : Net) (homes : List ℕ) (owner number : ℕ) (context : Option ℕ)
    → Homed net homes
    → Returns (λ t. Homed t homes) (add_context net (some owner) number context)
unfolding add_context deref
add_context-Homed net homes owner number context h =
    Returns-bind (λ t. Homed t homes) (λ s. fetch net.segments owner ≡ ok s)
      (fetch net.segments owner) _ (Returns-of _ (fetch net.segments owner) (λ s e. e))
      (λ s e.
        let new = record s { contexts = s.contexts ++ (context ∷ []) } in
        let w = put-Written net.segments owner new (fetch-ok_lt net.segments owner s e) in
        let mid = record net { segments = w.slice } in
        let here = segment-Homed net homes owner s new h e refl w in
        rw w.done (
          Returns-bind (λ t. Homed t homes) (λ f. fetch net.funcs number ≡ ok f)
            (fetch net.funcs number) _ (Returns-of _ (fetch net.funcs number) (λ f k. k))
            (λ f k.
              let changed = record f { context_index = length s.contexts } in
              let wf = put-Written net.funcs number changed (fetch-ok_lt net.funcs number f k) in
              rw wf.done (func-Homed mid homes number f changed here k refl wf))))

put-panic {ℓ} : {A : Type ℓ} (xs : List A) (i : ℕ) (v : A) → length xs ≤ i → put xs i v ≡ panic
unfolding put
put-panic [] i v h = refl
put-panic (x ∷ xs) zero v h = absurd (omega (arith, h))
put-panic (x ∷ xs) (suc i) v h = rw (put-panic xs i v (omega (arith, h))) refl

pub add_context-Returns :
    (net : Net) (homes : List ℕ) (ptr : Option ℕ) (number : ℕ) (context : Option ℕ)
    → Homed net homes
    → Returns (λ t. Homed t homes) (add_context net ptr number context)
add_context-Returns net homes none number context h = unfold add_context deref in tt
add_context-Returns net homes (some owner) number context h =
    add_context-Homed net homes owner number context h

deref-some {ℓ} : {A : Type ℓ} (o : Option A) (a : A) → deref o ≡ ok a → o ≡ some a
unfolding deref
deref-some none a e = cc
deref-some (some b) a e = cc

linked-Homed :
    (net : Net) (homes : List ℕ) (owner branch number seg : ℕ) (f : Func) (next : List (Option ℕ))
    → Homed net homes
    → fetch homes owner ≡ ok seg
    → fetch homes number ≡ ok seg
    → fetch net.funcs owner ≡ ok f
    → f.next ≡ some next
    → (inner : Written next branch (some number))
    → (w : Written net.funcs owner (record f { next = some inner.slice }))
    → Homed (record net { funcs = w.slice }) homes
linked-Homed net homes owner branch number seg f next h from to e k inner w = record {
  sizes = omega (arith, h.sizes, w.same_length);
  firsts = h.firsts;
  links = λ i func entries b g home there links entry at_home. elim (ℕ_discrete i owner) [
    | yes here ↦
        let it : func ≡ record f { next = some inner.slice } = cc (there, here, w.here) in
        let all : some inner.slice ≡ some entries = ap (λ t. t.next) (sym it) ∙ links in
        let it_has : fetch inner.slice b ≡ ok (some g) = cc (all, entry) in
        elim (ℕ_discrete b branch) [
          | yes same ↦
              let new : some number ≡ some g = cc (it_has, same, inner.here) in
              cc (new, to, from, at_home, here)
          | no other ↦
              h.links owner f next b g home e k (sym (inner.others b other) ∙ it_has)
                (ap (fetch homes) (sym here) ∙ at_home)
        ]
    | no other ↦
        h.links i func entries b g home (sym (w.others i other) ∙ there) links entry at_home
  ];
}

-- A link within one segment.
pub set_previous-Homed :
    (net : Net) (homes : List ℕ) (owner branch number seg : ℕ)
    → Homed net homes
    → fetch homes owner ≡ ok seg
    → fetch homes number ≡ ok seg
    → Returns (λ t. Homed t homes) (set_previous net (some (owner, branch)) number)
unfolding set_previous deref
set_previous-Homed net homes owner branch number seg h from to =
    Returns-bind (λ t. Homed t homes) (λ f. fetch net.funcs owner ≡ ok f) (fetch net.funcs owner) _
      (Returns-of _ (fetch net.funcs owner) (λ f e. e))
      (λ f e.
        Returns-bind (λ t. Homed t homes) (λ next. f.next ≡ some next) (deref f.next) _
          (Returns-of _ (deref f.next) (λ next k. deref-some f.next next k))
          (λ next k. elim (dec_lt branch (length next)) [
            | yes below ↦
                let inner = put-Written next branch (some number) below in
                let new = record f { next = some inner.slice } in
                let w = put-Written net.funcs owner new (fetch-ok_lt net.funcs owner f e) in
                rw (inner.done, w.done)
                  (linked-Homed net homes owner branch number seg f next h from to e k inner w)
            | no above ↦
                let out = put-panic next branch (some number) (omega (arith, above)) in rw out tt
          ]))

-- The segment of a function that is put behind a flow, where there are `n` segments.
abbrev pub home_of : ℕ → Option ℕ → ℕ
home_of n none = n
home_of n (some seg) = seg

added-number :
    (net : Net) (ring : Option ℕ) (number index : ℕ)
    → (add_segment net ring number index).1 ≡ length net.segments
unfolding add_segment
added-number net ring number index = refl

added-Homed :
    (net : Net) (homes : List ℕ) (ring : Option ℕ) (number index : ℕ)
    → Homed net homes
    → fetch homes number ≡ ok (length net.segments)
    → Homed ((add_segment net ring number index).0) homes
unfolding add_segment add_ff
added-Homed net homes ring number index h e =
    let new : Segment = record { out = []; contexts = []; stype = 0; first_func = number } in
    record {
      sizes = h.sizes;
      firsts = λ seg s there. elim (fetch-last_cases net.segments new seg s there) [
        | inl old ↦ h.firsts seg s old
        | inr (same, k) ↦ let it = the_one new s k in rw (same, ← it) e
      ];
      links = h.links;
    }

typed-Homed :
    (net : Net) (homes : List ℕ) (seg set_type : ℕ) (test : Bool)
    → Homed net homes
    → Returns (λ t. Homed t homes) (if test then set_stype net seg set_type else ok net)
typed-Homed net homes seg set_type true h = set_stype-Homed net homes seg set_type h
typed-Homed net homes seg set_type false h = h

linked-Returns :
    (net : Net) (homes : List ℕ) (previous : Option (ℕ × ℕ)) (number seg : ℕ)
    → Homed net homes
    → ((owner branch : ℕ) → previous ≡ some (owner, branch) → fetch homes owner ≡ ok seg)
    → fetch homes number ≡ ok seg
    → Returns (λ t. Homed t homes) (set_previous net previous number)
linked-Returns net homes none number seg h from to = unfold set_previous deref in tt
linked-Returns net homes (some (owner, branch)) number seg h from to =
    set_previous-Homed net homes owner branch number seg h (from owner branch refl) to

-- What an attached function leaves.
abbrev pub IsAttached : List ℕ → Flow → ℕ → Net × Flow → Type 0
IsAttached homes flow seg r =
    Homed r.0 homes × (r.1.segment ≡ some seg) × (r.1.previous ≡ flow.previous)

pub attach-Homed :
    (net : Net) (homes : List ℕ) (flow : Flow) (seg : Option ℕ) (number set_type : ℕ)
    → Homed net homes
    → flow.segment ≡ seg
    → AtHome homes flow
    → fetch homes number ≡ ok (home_of (length net.segments) seg)
    → Returns
        (IsAttached homes flow (home_of (length net.segments) seg))
        (attach net flow seg number set_type)
unfolding attach
attach-Homed net homes flow none number set_type h e at_home here =
    let opened = (add_segment net flow.current number flow.in_index_number).0 in
    let number-eq = added-number net flow.current number flow.in_index_number in
    Returns-bind (IsAttached homes flow (length net.segments)) (λ t. Homed t homes) _ _
      (set_stype-Homed opened homes ((add_segment net flow.current number flow.in_index_number).1)
        set_type (added-Homed net homes flow.current number flow.in_index_number h here))
      (λ t w. (w, ap some number-eq, refl))
attach-Homed net homes flow (some seg) number set_type h e at_home here =
    Returns-bind (IsAttached homes flow seg) (λ (s : Segment). Unit {0}) (fetch net.segments seg) _
      (Returns-of _ (fetch net.segments seg) (λ s k. tt))
      (λ old u.
        Returns-bind (IsAttached homes flow seg) (λ t. Homed t homes) _ _
          (typed-Homed net homes seg set_type (ltb 0 set_type && (old.stype == 0)) h)
          (λ typed w.
            Returns-bind (IsAttached homes flow seg) (λ t. Homed t homes) _ _
              (linked-Returns typed homes flow.previous number seg w
                (λ owner branch k. at_home seg owner branch e k) here)
              (λ linked v. (v, e, refl))))
