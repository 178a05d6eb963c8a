-- ===== src/Flow/Graph/Insert.antt =====
-- How a function is put into the graph behind a flow, flow/flow.go.
use nff_go.Base.{
  ℕ, Bool, false, not, ◌&&◌, Option, none, some, [], ◌∷◌, ◌++◌, length, ltb, ◌==◌, if◌then◌else◌,
}
use nff_go.Common.Errors.{Result, ok, panic, ◌>>=◌}
use nff_go.Common.Slices.{fetch, put}
use nff_go.Flow.Graph.{
  Func, Net, Flow, check_flow, create_rings, close_flow, make_slice, add_segment, is_nil,
}

-- A pointer read; that of nil panics.
unfoldable pub deref {ℓ} : {A : Type ℓ} → Option A → Result A
deref none = panic
deref (some a) = ok a

-- `*IN.previous = f`
unfoldable pub set_previous : Net → Option (ℕ × ℕ) → ℕ → Result Net
set_previous net previous number = do
  (owner, branch) ← deref previous
  func ← fetch net.funcs owner
  next ← deref func.next
  changed ← put next branch (some number)
  funcs ← put net.funcs owner (record func { next = some changed })
  ok (record net { funcs = funcs })

unfoldable pub set_stype : Net → ℕ → ℕ → Result Net
set_stype net number set_type = do
  seg ← fetch net.segments number
  segments ← put net.segments number (record seg { stype = set_type })
  ok (record net { segments = segments })

-- Where the flow goes on: it is closed, or it leaves `f` by the branch.
unfoldable pub move_flow : Net → Flow → ℕ → Func → Bool → ℕ → Net × Flow
move_flow net flow number f will_close next_branch =
    if will_close
    then close_flow net flow
    else if is_nil f.next
    then (net, flow)
    else (net, record flow { previous = some (number, next_branch) })

-- The end of the function: the context goes to the segment, and its index to `f`.
unfoldable pub add_context : Net → Option ℕ → ℕ → Option ℕ → Result Net
add_context net seg_number number context = do
  owner ← deref seg_number
  seg ← fetch net.segments owner
  segments ← put net.segments owner (record seg { contexts = seg.contexts ++ (context ∷ []) })
  f ← fetch net.funcs number
  funcs ← put net.funcs number (record f { context_index = length seg.contexts })
  ok (record net { segments = segments; funcs = funcs })

-- The function enters the graph: as the first one of a new segment, or behind the last one of the
-- flow's segment, whose type it may set.
unfoldable pub attach : Net → Flow → Option ℕ → ℕ → ℕ → Result (Net × Flow)
attach net flow none number set_type =
    let (opened, seg) = add_segment net flow.current number flow.in_index_number in
    do typed ← set_stype opened seg set_type; ok (typed, record flow { segment = some seg })
attach net flow (some seg) number set_type = do
  old ← fetch net.segments seg
  typed ← if ltb 0 set_type && (old.stype == 0) then set_stype net seg set_type else ok net
  linked ← set_previous typed flow.previous number
  ok (linked, flow)

-- The function without the branch that starts a new segment, which is all that a call does whose
-- type is that of the segment, or 0, or whose flow has no segment.
unfoldable pub insert_here : Net → Flow → Func → Bool → Option ℕ → ℕ → ℕ → Result (Net × Flow × ℕ)
insert_here net flow f will_close context set_type next_branch =
    let number = length net.funcs in
    let kept = record net { funcs = net.funcs ++ (f ∷ []) } in
    do
      (attached, owner) ← attach kept flow flow.segment number set_type
      let (moved, out) = move_flow attached owner number f will_close next_branch
      done ← add_context moved owner.segment number context
      ok (done, out, number)

-- The segment ends in rings, and the flow starts again from these.
unfoldable pub end_segment : Net → Flow → ℕ → Result (Net × Flow)
end_segment net flow seg =
    let (made, ring) = create_rings net in
    do
      (sliced, ms) ← make_slice made ring seg
      (ended, out, number) ← insert_here sliced flow ms false none 0 0
      ok (ended, record out { segment = none; current = some ring })

-- Scalar and vector functions do not stand in one segment.
unfoldable pub conflict : ℕ → ℕ → Bool
conflict set_type stype = ltb 0 set_type && (ltb 0 stype && not (set_type == stype))

-- Each gives back the number of the function that it put into the graph. The rest of the
-- function at the flow's segment.
unfoldable pub insert_in :
    Net → Flow → Option ℕ → Func → Bool → Option ℕ → ℕ → ℕ → Result (Net × Flow × ℕ)
insert_in net flow none f will_close context set_type next_branch =
    insert_here net flow f will_close context set_type next_branch
insert_in net flow (some number) f will_close context set_type next_branch = do
  seg ← fetch net.segments number
  (ended, fresh) ←
      if conflict set_type seg.stype then end_segment net flow number else ok (net, flow)
  insert_here ended fresh f will_close context set_type next_branch

unfoldable pub segment_insert :
    Net → Option Flow → Func → Bool → Option ℕ → ℕ → ℕ → Result (Net × Flow × ℕ)
segment_insert net ptr f will_close context set_type next_branch = do
  flow ← check_flow ptr
  insert_in net flow flow.segment f will_close context set_type next_branch
