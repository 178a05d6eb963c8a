-- ===== src/Flow/Schedule/Sizes.antt =====
-- Starting and stopping clones keeps the number of cores.
use nff_go.Base.{ℕ, zero, suc, ◌≡◌, refl, ap, ◌∙◌, List, [], ◌∷◌, length, Option, none, some}
use nff_go.Common.Errors.{Result, ok, err, panic, Returns, Returns-bind, Returns-weaken}
use nff_go.Flow.Cores.{
  Core, Scheduler, Instance, take_core, found_core, get_core, free_core, set_core_by_index,
  start_new_clone, add_clone, split_last, stop_clone, stop_clones,
}
use nff_go.Flow.Cores.Table.{Taken, take_core-Taken}

-- A table with as many cores.
abbrev pub SameSize : Scheduler → Scheduler → Type 0
SameSize s t = length t.cores ≡ length s.cores

free_core-length :
    (cs : List Core) (i : ℕ) → Returns (λ out. length out ≡ length cs) (free_core cs i)
unfolding free_core
free_core-length [] i = tt
free_core-length (c ∷ cs) zero = refl
free_core-length (c ∷ cs) (suc i) =
    Returns-bind _ (λ (rest : List Core). length rest ≡ length cs) (free_core cs i) _
      (free_core-length cs i) (λ rest e. ap suc e)

pub set_core_by_index-SameSize :
    (s : Scheduler) (i : ℕ) → Returns (SameSize s) (set_core_by_index s i)
unfolding set_core_by_index
set_core_by_index-SameSize s i =
    Returns-bind _ (λ (rest : List Core). length rest ≡ length s.cores) (free_core s.cores i) _
      (free_core-length s.cores i) (λ cores e. e)

any-Returns {ℓ} : {A : Type ℓ} (m : Result A) → Returns (λ a. Unit {0}) m
any-Returns (ok a) = tt
any-Returns (err e) = tt
any-Returns panic = tt

pub stop_clone-SameSize :
    (s : Scheduler) (ffi : Instance) → Returns (λ next. SameSize s next.0) (stop_clone s ffi)
unfolding stop_clone
stop_clone-SameSize s ffi =
    Returns-bind _ (λ last. Unit {0}) (split_last ffi.clone) _ (any-Returns (split_last ffi.clone))
      (λ last u.
        Returns-bind _ (SameSize s) (set_core_by_index s last.1) _
          (set_core_by_index-SameSize s last.1) (λ t e. e))

pub stop_clones-SameSize :
    (n : ℕ) (s : Scheduler) (ffi : Instance)
    → Returns (λ next. SameSize s next.0) (stop_clones n s ffi)
unfolding stop_clones
stop_clones-SameSize zero s ffi = refl
stop_clones-SameSize (suc n) s ffi =
    Returns-bind _ (λ (next : Scheduler × Instance). SameSize s next.0) (stop_clone s ffi) _
      (stop_clone-SameSize s ffi)
      (λ next e.
        Returns-weaken (λ last. SameSize s last.0) (λ last. SameSize next.0 last.0)
          (stop_clones n next.0 next.1) (stop_clones-SameSize n next.0 next.1) (λ last f. f ∙ e))

found_core-SameSize :
    (s : Scheduler) (o : Option (List Core × ℕ × ℕ))
    → Taken s.cores o
    → SameSize s (found_core s o).0
unfolding found_core
found_core-SameSize s none t = refl
found_core-SameSize s (some (cores, id, i)) (free, f) = f.size

pub get_core-SameSize : (s : Scheduler) → SameSize s (get_core s).0
unfolding get_core
get_core-SameSize s = found_core-SameSize s (take_core s.cores) (take_core-Taken s.cores)

add_clone-SameSize :
    (s : Scheduler) (ffi : Instance) (r : Scheduler × Result (ℕ × ℕ))
    → SameSize s r.0
    → SameSize s (add_clone ffi r).0
unfolding add_clone
add_clone-SameSize s ffi (t, ok (id, i)) e = e
add_clone-SameSize s ffi (t, err c) e = e
add_clone-SameSize s ffi (t, panic) e = e

pub start_new_clone-SameSize :
    (s : Scheduler) (ffi : Instance) → SameSize s (start_new_clone s ffi).0
unfolding start_new_clone
start_new_clone-SameSize s ffi = add_clone-SameSize s ffi (get_core s) (get_core-SameSize s)
