-- ===== src/Flow/Timers/Variants.antt =====
-- A variant of a timer at its turn in the loop of `check_loop`: what is done with it.
use nff_go.Base.{
  Bool, ℕ, suc, ◌+◌, ◌-◌, ◌≤◌, ◌<◌, ◌≡◌, refl, ◌∙◌, arith, true, false, [], ◌∷◌, length, ◌++◌,
}
use nff_go.Common.Errors.{Result, ok, panic}
use nff_go.Common.Slices.{fetch, fetch_lt}
use nff_go.Flow.Timers.Gaps.{length-close_gap}
use nff_go.Flow.Timers.{
  Slice, index, close_gap, remove_at, Timer, assign, check_variant, check_loop,
}

-- A timer whose two slices have `m` elements each.
pub record IsTimer (t : Timer) (m : ℕ) : Type 0 where
  pub checks_len : t.checks.len ≡ m
  pub contexts_len : t.contexts.len ≡ m
  pub checks_room : m ≤ length t.checks.memory
  pub contexts_room : m ≤ length t.contexts.memory

pub flags-IsTimer :
    (t : Timer) (m : ℕ) (flags : ℕ → Bool) → IsTimer t m → IsTimer (record t { flags = flags }) m
flags-IsTimer t m flags w = record {
  checks_len = w.checks_len;
  contexts_len = w.contexts_len;
  checks_room = w.checks_room;
  contexts_room = w.contexts_room;
}

-- The timer without its variant `i`, of which the handler was called.
abbrev pub without : Timer → ℕ → ℕ → ℕ → Timer
without t i m context = record t {
  contexts = record { memory = close_gap i m t.contexts.memory; len = m - 1 };
  checks = record { memory = close_gap i m t.checks.memory; len = m - 1 };
  called = t.called ++ (context ∷ []);
}

index-in : (s : Slice) (i : ℕ) → i < s.len → index s i ≡ fetch s.memory i
unfolding index
index-in s i h = ground arith

remove_at-in :
    (s : Slice) (i m : ℕ)
    → s.len ≡ m
    → i < m
    → remove_at s i ≡ ok (record { memory = close_gap i m s.memory; len = m - 1 })
unfolding remove_at
remove_at-in s i m e h = ground arith

index-out : (s : Slice) (i : ℕ) → s.len ≤ i → index s i ≡ panic
unfolding index
index-out s i h = ground arith

pub without-IsTimer :
    (t : Timer) (i m context : ℕ) → IsTimer t m → IsTimer (without t i m context) (m - 1)
without-IsTimer t i m context w = record {
  checks_len = refl;
  contexts_len = refl;
  checks_room = omega (arith, w.checks_room, length-close_gap i m t.checks.memory);
  contexts_room = omega (arith, w.contexts_room, length-close_gap i m t.contexts.memory);
}

-- A check that is not set removes its variant, and one that is set is cleared.
pub check_variant-unset :
    (t : Timer) (i m c : ℕ)
    → IsTimer t m
    → i < m
    → t.flags c ≡ false
    → (context : ℕ) × (fetch t.contexts.memory i ≡ ok context)
      × (check_variant t i c ≡ ok (without t i m context))
unfolding check_variant
check_variant-unset t i m c w h e =
    let (context, k) = fetch_lt t.contexts.memory i (omega (arith, w.contexts_room)) in
    let read = index-in t.contexts i (omega (arith, w.contexts_len)) ∙ k in
    let contexts = remove_at-in t.contexts i m w.contexts_len h in
    let checks = remove_at-in t.checks i m w.checks_len h in
    (context, k, rw (e, read, contexts, checks) refl)

pub check_variant-set :
    (t : Timer) (i c : ℕ)
    → t.flags c ≡ true
    → check_variant t i c ≡ ok (record t { flags = assign t.flags c false })
unfolding check_variant
check_variant-set t i c e = rw e refl

pub check_variant-panic :
    (t : Timer) (i m c : ℕ) → IsTimer t m → m ≤ i → t.flags c ≡ false → check_variant t i c ≡ panic
unfolding check_variant
check_variant-panic t i m c w h e =
    let out = index-out t.contexts i (omega (arith, w.contexts_len)) in rw (e, out) refl

pub check_loop-step :
    (left i : ℕ) (t next : Timer) (c : ℕ)
    → fetch t.checks.memory i ≡ ok c
    → check_variant t i c ≡ ok next
    → check_loop (suc left) i t ≡ check_loop left (i + 1) next
unfolding check_loop
check_loop-step left i t next c e k = rw (e, k) refl

pub check_loop-panic :
    (left i : ℕ) (t : Timer) (c : ℕ)
    → fetch t.checks.memory i ≡ ok c
    → check_variant t i c ≡ panic
    → check_loop (suc left) i t ≡ panic
unfolding check_loop
check_loop-panic left i t c e k = rw (e, k) refl

pub true-ne-false : true ≡ false → ⊥
true-ne-false e = cc

-- The same check from two reads of one place.
pub same_check : {r : Result ℕ} {x c : ℕ} → r ≡ ok x → r ≡ ok c → x ≡ c
same_check e k = cc
