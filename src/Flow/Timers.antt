-- ===== src/Flow/Timers.antt =====
-- The timers of flow/flow.go and the part of the loop of `schedule`, flow/scheduler.go, that looks
-- after them. A slice is its memory and its length, since a loop that ranges over a slice goes on
-- reading the memory while elements are removed. A check is a pointer to a flag; a handler is
-- user code, of which the calls are recorded; the ticker decides when `check_timer` runs.
pub mod Gaps
pub mod Variants
pub mod Expired
pub mod Kept
use nff_go.Base.{
  ℕ, zero, suc, ◌+◌, ◌-◌, Bool, true, false, List, [], ◌∷◌, ◌++◌, take, drop, if◌then◌else◌, ltb,
  leb, ◌==◌,
}
use nff_go.Common.Errors.{Result, ok, err, panic, ◌>>=◌}
use nff_go.Common.Slices.{fetch}

-- The memory behind the length is what the slice may grow into.
pub record Slice : Type 0 where
  pub memory : List ℕ
  pub len : ℕ

unfoldable pub index : Slice → ℕ → Result ℕ
unfolding fetch
index s i = if ltb i s.len then fetch s.memory i else panic

-- `append(s, v)`, in place or in new memory.
unfoldable pub append : Slice → ℕ → Slice
append s v = record {
  memory = take s.len s.memory ++ (v ∷ drop (s.len + 1) s.memory);
  len = s.len + 1;
}

-- The elements of the first `m` but the first one move one place down; the last of them stays.
unfoldable pub shift : ℕ → List ℕ → List ℕ
shift zero xs = xs
shift (suc zero) xs = xs
shift (suc (suc m)) [] = []
shift (suc (suc m)) (x ∷ []) = x ∷ []
shift (suc (suc m)) (x ∷ y ∷ ys) = y ∷ shift (suc m) (y ∷ ys)

-- The memory of `s[:i]` after the elements of `s[i+1:m]` were copied behind it.
unfoldable pub close_gap : ℕ → ℕ → List ℕ → List ℕ
unfolding shift
close_gap zero m xs = shift m xs
close_gap (suc i) m [] = []
close_gap (suc i) zero (x ∷ xs) = x ∷ xs
close_gap (suc i) (suc m) (x ∷ xs) = x ∷ close_gap i m xs

-- `append(s[:i], s[i+1:]...)`
unfoldable pub remove_at : Slice → ℕ → Result Slice
unfolding close_gap
remove_at s i =
    if leb (i + 1) s.len
    then ok (record { memory = close_gap i s.len s.memory; len = s.len - 1 })
    else panic

-- A timer, and what it shares with the user: the flags, and the contexts its handler was called with.
pub record Timer : Type 0 where
  pub ident : ℕ
  pub contexts : Slice
  pub checks : Slice
  pub flags : ℕ → Bool
  pub called : List ℕ

abbrev pub assign : (ℕ → Bool) → ℕ → Bool → (ℕ → Bool)
assign flags c b = λ (p : ℕ). if p == c then b else flags p

-- The flags and the calls before the timer was made are given.
unfoldable pub add_timer : ℕ → (ℕ → Bool) → List Timer → List Timer × Timer
add_timer ident flags timers =
    let t : Timer = record {
      ident = ident;
      contexts = record { memory = []; len = 0 };
      checks = record { memory = []; len = 0 };
      flags = flags;
      called = [];
    } in
    (timers ++ (t ∷ []), t)

-- The pointer `check` is the one that the allocation gives.
unfoldable pub add_variant : Timer → ℕ → ℕ → Timer × ℕ
unfolding append
add_variant t context check = (
  record t {
    contexts = append t.contexts context;
    checks = append t.checks check;
    flags = assign t.flags check false;
  },
  check,
)

-- The scheduler's list of timers without the first that is this timer.
unfoldable pub stop : Timer → List Timer → List Timer
stop timer [] = []
stop timer (t ∷ ts) = if t.ident == timer.ident then ts else t ∷ stop timer ts

-- What the loop does with the check `c` at `i`.
unfoldable pub check_variant : Timer → ℕ → ℕ → Result Timer
unfolding index remove_at
check_variant t i c = if t.flags c then ok (record t { flags = assign t.flags c false }) else do
  context ← index t.contexts i
  contexts ← remove_at t.contexts i
  checks ← remove_at t.checks i
  ok (record t { contexts = contexts; checks = checks; called = t.called ++ (context ∷ []) })

-- The loop over the checks at `i`, with `left` rounds to go.
unfoldable pub check_loop : ℕ → ℕ → Timer → Result Timer
unfolding check_variant fetch
check_loop zero i t = ok t
check_loop (suc left) i t = do
  c ← fetch t.checks.memory i
  next ← check_variant t i c
  check_loop left (i + 1) next

-- The number of rounds is the length that the slice has at the start.
unfoldable pub check_timer : Timer → Result Timer
unfolding check_loop
check_timer t = check_loop t.checks.len 0 t
