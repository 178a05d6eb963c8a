-- ===== src/Flow/Cores/Clones.antt =====
-- Starting and stopping clones keeps the table of cores in step with them.
use nff_go.Base.{
  ℕ, zero, suc, ◌+◌, ◌≡◌, refl, ap, ◌∙◌, arith, Bool, true, false, List, [], ◌∷◌, ◌++◌, length,
  Option, none, some, u8,
}
use nff_go.Common.Errors.{Result, ok, err, ◌>>=◌, not_enough_cores}
use nff_go.Flow.Cores.{
  Core, Scheduler, take_core, get_core, set_core_by_index, Instance, start_new_clone, add_clone,
  found_core, split_last, stop_clone, stop_clones,
}
use nff_go.Base.{append_nil}
use nff_go.Flow.Cores.Table.{free_at, Taken, take_core-Taken, free_core-Flagged}
use nff_go.Flow.Cores.Running.{Runs, taken-Runs, released-Runs, count-after_self}

-- What `startNewClone` leaves, beside the clones `others` of the other instances: one clone more, or
-- an error where no core is free, and then nothing has changed.
pub data Started (s : Scheduler) (ffi : Instance) (others : List ℕ)
    : Scheduler × Instance × Result (Unit {0}) → Type 0 where
  on_core :
      {t : Scheduler} (i : ℕ)
      → free_at s.cores i ≡ true
      → Runs t (others ++ (ffi.clone ++ (i ∷ [])))
      → Started s ffi others (t, record ffi { clone = ffi.clone ++ (i ∷ []) }, ok tt)
  no_core :
      ((i : ℕ) → free_at s.cores i ≡ false) → Started s ffi others (s, ffi, err not_enough_cores)

module _ (s : Scheduler) (ffi : Instance) (others : List ℕ) (r : Runs s (others ++ ffi.clone)) where
  Started-found :
      (o : Option (List Core × ℕ × ℕ))
      → Taken s.cores o
      → Started s ffi others (add_clone ffi (found_core s o))
  unfolding add_clone found_core
  Started-found none h = no_core h
  Started-found (some (cores, id, i)) (free, f) =
      on_core i free (taken-Runs s others ffi.clone i cores r free f)

-- `startNewClone` gives the new clone a core of its own, or fails where every core is taken.
pub start_new_clone-Started :
    (s : Scheduler) (ffi : Instance) (others : List ℕ)
    → Runs s (others ++ ffi.clone)
    → Started s ffi others (start_new_clone s ffi)
unfolding start_new_clone get_core
start_new_clone-Started s ffi others r =
    Started-found s ffi others r (take_core s.cores) (take_core-Taken s.cores)

split_last-append : (xs : List ℕ) (x : ℕ) → split_last (xs ++ (x ∷ [])) ≡ ok (xs, x)
unfolding split_last
split_last-append [] x = refl
split_last-append (y ∷ []) x = refl
split_last-append (y ∷ z ∷ xs) x = rw (split_last-append (z ∷ xs) x) refl

-- A list that is not empty has a last element.
last_of :
    (n : ℕ) (xs : List ℕ)
    → length xs ≡ suc n
    → (ys : List ℕ) × (y : ℕ) × (xs ≡ ys ++ (y ∷ [])) × (length ys ≡ n)
last_of n [] e = absurd (omega (arith, e))
last_of zero (x ∷ []) e = ([], x, refl, refl)
last_of (suc n) (x ∷ []) e = absurd (omega (arith, e))
last_of zero (x ∷ y ∷ xs) e = absurd (omega (arith, e))
last_of (suc n) (x ∷ y ∷ xs) e =
    let (ys, z, same, size) = last_of n (y ∷ xs) (omega (arith, e)) in
    (x ∷ ys, z, ap (λ t. x ∷ t) same, ap suc size)

-- `stopClone` gives back the core of the last clone.
stop_clone-Runs :
    (s : Scheduler) (others own : List ℕ) (i : ℕ) (removed : Bool)
    → Runs s (others ++ (own ++ (i ∷ [])))
    → (t : Scheduler) × (stop_clone s (record { clone = own ++ (i ∷ []); removed = removed })
        ≡ ok (t, record { clone = own; removed = true }))
      × Runs t (others ++ own)
unfolding stop_clone set_core_by_index
stop_clone-Runs s others own i removed r =
    let (cores, e, f) =
      free_core-Flagged s.cores i (r.inside i (omega (arith, count-after_self s others own i))) in
    (
      record s { cores = cores; used_cores = u8 (s.used_cores + 255) },
      (rw (split_last-append own i, e) refl),
      released-Runs s others own i cores r f,
    )

empty : (xs : List ℕ) → length xs ≡ 0 → xs ≡ []
empty [] e = refl
empty (x ∷ xs) e = absurd (omega (arith, e))

record_with :
    (ffi : Instance) {clone : List ℕ}
    → ffi.clone ≡ clone
    → ffi ≡ record { clone = clone; removed = ffi.removed }
record_with ffi same = ap (λ (c : List ℕ). record { clone = c; removed = ffi.removed }) same

-- `stopClone` for an instance that has a clone.
pub stop_clone-one :
    (n : ℕ) (s : Scheduler) (ffi : Instance) (others : List ℕ)
    → length ffi.clone ≡ suc n
    → Runs s (others ++ ffi.clone)
    → (t : Scheduler) × (out : Instance) × (stop_clone s ffi ≡ ok (t, out))
      × (length out.clone ≡ n)
      × Runs t (others ++ out.clone)
stop_clone-one n s ffi others e r =
    let (own, i, same, size) = last_of n ffi.clone e in
    let (t, stopped, rest) = stop_clone-Runs s others own i ffi.removed (rw same at r) in
    let out : Instance = record { clone = own; removed = true } in
    (t, out, ap (λ (x : Instance). stop_clone s x) (record_with ffi same) ∙ stopped, size, rest)

all_stopped :
    (n : ℕ) (s : Scheduler) (ffi : Instance) {own : List ℕ} {next last : Scheduler × Instance}
    → ffi.clone ≡ own
    → stop_clone s (record { clone = own; removed = ffi.removed }) ≡ ok next
    → stop_clones n next.0 next.1 ≡ ok last
    → stop_clones (suc n) s ffi ≡ ok last
unfolding stop_clones
all_stopped n s ffi same stopped done =
    let loop : Result (Scheduler × Instance) → Result (Scheduler × Instance) =
      λ r. r >>= λ next. stop_clones n next.0 next.1 in
    ap (λ (x : Instance). loop (stop_clone s x)) (record_with ffi same) ∙ ap loop stopped ∙ done

-- The loop of `stopInstance` stops every clone of the instance, does not panic, and gives back exactly
-- their cores: those of the clones `others` stay taken.
pub stop_clones-Runs :
    (n : ℕ) (s : Scheduler) (ffi : Instance) (others : List ℕ)
    → length ffi.clone ≡ n
    → Runs s (others ++ ffi.clone)
    → (t : Scheduler) × (out : Instance) × (stop_clones n s ffi ≡ ok (t, out))
      × (out.clone ≡ [])
      × Runs t others
unfolding stop_clones
stop_clones-Runs zero s ffi others e r =
    let nothing = empty ffi.clone e in
    let left : Runs s (others ++ []) = rw nothing at r in
    (s, ffi, refl, nothing, rw (append_nil others) at left)
stop_clones-Runs (suc n) s ffi others e r =
    let (own, i, same, size) = last_of n ffi.clone e in
    let (t, stopped, rest) = stop_clone-Runs s others own i ffi.removed (rw same at r) in
    let (u, out, done, none_left, left) =
      stop_clones-Runs n t (record { clone = own; removed = true }) others size rest in
    (u, out, all_stopped n s ffi same stopped done, none_left, left)
