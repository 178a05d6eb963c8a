-- ===== src/Flow/Cores.antt =====
-- The table of cores of flow/scheduler.go and the clones that run on them. Of the scheduler's fields
-- the two that these functions use are kept; a clone is the index of its core, and the channels and
-- flags by which it is told to stop are left out.
pub mod Table
pub mod Running
pub mod Clones
use nff_go.Base.{
  ℕ, zero, suc, ◌+◌, ◌-◌, Bool, true, false, List, [], ◌∷◌, ◌++◌, Option, none, some, u8,
  if◌then◌else◌,
}
use nff_go.Common.Errors.{Result, ok, err, panic, ◌>>=◌, ErrorCode, not_enough_cores}
use nff_go.Flow.Queues.{fetch}

pub record Core : Type 0 where
  pub id : ℕ
  pub is_free : Bool

-- `used_cores` is a uint8.
pub record Scheduler : Type 0 where
  pub cores : List Core
  pub used_cores : ℕ

-- The loop of `getCore`: the table with the first free core taken, its id and its index.
unfoldable pub take_core : List Core → Option (List Core × ℕ × ℕ)
take_core [] = none
take_core (c ∷ cs) =
    let rest = take_core cs in
    if c.is_free
    then some (record c { is_free = false } ∷ cs, c.id, 0)
    else elim rest [ none ↦ none | some (out, id, i) ↦ some (c ∷ out, id, suc i) ]

-- What `getCore` returns, by what its loop found.
unfoldable pub found_core : Scheduler → Option (List Core × ℕ × ℕ) → Scheduler × Result (ℕ × ℕ)
found_core s none = (s, err not_enough_cores)
found_core s (some (cores, id, i)) =
    (record s { cores = cores; used_cores = u8 (s.used_cores + 1) }, ok (id, i))

unfoldable pub get_core : Scheduler → Scheduler × Result (ℕ × ℕ)
unfolding take_core found_core
get_core s = found_core s (take_core s.cores)

-- `cores[i].isfree = true`
unfoldable pub free_core : List Core → ℕ → Result (List Core)
free_core [] i = panic
free_core (c ∷ cs) zero = ok (record c { is_free = true } ∷ cs)
free_core (c ∷ cs) (suc i) = do rest ← free_core cs i; ok (c ∷ rest)

-- The decrement wraps.
unfoldable pub set_core_by_index : Scheduler → ℕ → Result Scheduler
unfolding free_core
set_core_by_index s i = do
  cores ← free_core s.cores i
  ok (record s { cores = cores; used_cores = u8 (s.used_cores + 255) })

-- The clones of an instance, by the indexes of their cores; `cloneNumber` is the length.
pub record Instance : Type 0 where
  pub clone : List ℕ
  pub removed : Bool

-- `startNewClone` behind its call of `getCore`.
unfoldable pub add_clone :
    Instance → Scheduler × Result (ℕ × ℕ) → Scheduler × Instance × Result (Unit {0})
add_clone ffi (s, ok (id, index)) = (s, record ffi { clone = ffi.clone ++ (index ∷ []) }, ok tt)
add_clone ffi (s, err e) = (s, ffi, err e)
add_clone ffi (s, panic) = (s, ffi, panic)

unfoldable pub start_new_clone : Scheduler → Instance → Scheduler × Instance × Result (Unit {0})
unfolding get_core add_clone
start_new_clone s ffi = add_clone ffi (get_core s)

-- The last element of a slice and what stands before it.
unfoldable pub split_last : List ℕ → Result (List ℕ × ℕ)
split_last [] = panic
split_last (x ∷ []) = ok ([], x)
split_last (x ∷ y ∷ ys) = do rest ← split_last (y ∷ ys); ok (x ∷ rest.0, rest.1)

unfoldable pub stop_clone : Scheduler → Instance → Result (Scheduler × Instance)
unfolding split_last set_core_by_index
stop_clone s ffi = do
  last ← split_last ffi.clone
  t ← set_core_by_index s last.1
  ok (t, record ffi { clone = last.0; removed = true })

-- The loop of `stopInstance`, with as many rounds to go as there are clones.
unfoldable pub stop_clones : ℕ → Scheduler → Instance → Result (Scheduler × Instance)
unfolding stop_clone
stop_clones zero s ffi = ok (s, ffi)
stop_clones (suc n) s ffi = do next ← stop_clone s ffi; stop_clones n next.0 next.1
