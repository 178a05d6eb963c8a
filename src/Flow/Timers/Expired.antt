-- ===== src/Flow/Timers/Expired.antt =====
-- A timer with a variant that ran out, and is not one of the last two, stops the scheduler.
use nff_go.Base.{
  ℕ, zero, suc, ◌+◌, ◌-◌, ◌≤◌, ◌<◌, ◌≡◌, sym, ◌∙◌, ap, arith, true, false, Bool-cases, inl, inr,
  ◌⊎◌, dec_lt,
}
use nff_go.Common.Errors.{ok, panic}
use nff_go.Common.Slices.{fetch, fetch_lt}
use nff_go.Flow.Timers.Gaps.{close_gap-inside, close_gap-behind}
use nff_go.Flow.Timers.{Timer, assign, check_loop, check_timer}
use nff_go.Flow.Timers.Variants.{
  IsTimer, flags-IsTimer, without, without-IsTimer, check_variant-unset, check_variant-set,
  check_variant-panic, check_loop-step, check_loop-panic, true-ne-false, same_check,
}

-- Behind the `m` elements left of `n`, the memory holds the check `c` again.
record IsStale (t : Timer) (m n c : ℕ) : Type 0 where
  timer : IsTimer t m
  fewer : m < n
  behind : (p : ℕ) → m ≤ p → p < n → fetch t.checks.memory p ≡ ok c

cleared-IsStale :
    (t : Timer) (m n c x : ℕ)
    → IsStale t m n c
    → IsStale (record t { flags = assign t.flags x false }) m n c
cleared-IsStale t m n c x s = record {
  timer = flags-IsTimer t m (assign t.flags x false) s.timer;
  fewer = s.fewer;
  behind = s.behind;
}

-- The loop has read every variant that is left: the check `c` is read once more than it was set.
behind-panic :
    (left i : ℕ) (t : Timer) (m n c : ℕ)
    → i + left ≡ n
    → IsStale t m n c
    → m ≤ i
    → i < n
    → (t.flags c ≡ false) ⊎ (i + 1 < n)
    → check_loop left i t ≡ panic
behind-panic zero i t m n c sum s h k more = absurd (omega arith)
behind-panic (suc left) i t m n c sum s h k more = elim (Bool-cases (t.flags c)) [
  | inr e ↦ check_loop-panic left i t c (s.behind i h k) (check_variant-panic t i m c s.timer h e)
  | inl e ↦
      let next = record t { flags = assign t.flags c false } in
      let again : i + 1 < n = elim more [
        | inl f ↦ absurd (let g : true ≡ false = sym e ∙ f in cc)
        | inr f ↦ f
      ] in
      check_loop-step left i t next c (s.behind i h k) (check_variant-set t i c e)
      ∙ behind-panic left (i + 1) next m n c (omega arith) (cleared-IsStale t m n c c s)
          (omega arith) again (inl (ground arith))
]

without-IsStale :
    (t : Timer) (i m n c context : ℕ)
    → IsTimer t m
    → m ≤ n
    → 0 < m
    → ((p : ℕ) → m ≤ suc p → p < n → fetch t.checks.memory p ≡ ok c)
    → IsStale (without t i m context) (m - 1) n c
without-IsStale t i m n c context w fewer some behind = record {
  timer = without-IsTimer t i m context w;
  fewer = omega (arith, fewer, some);
  behind = λ p h k.
      close_gap-behind i m t.checks.memory p (omega (arith, h)) ∙ behind p (omega (arith, h)) k;
}

-- The place below the last of `m`, after a gap before it was closed.
without-last :
    (t : Timer) (i m c context : ℕ)
    → IsTimer t m
    → i + 2 ≤ m
    → fetch t.checks.memory (m - 1) ≡ ok c
    → fetch (without t i m context).checks.memory (m - 1 - 1) ≡ ok c
without-last t i m c context w h e =
    let next : suc (m - 1 - 1) ≡ m - 1 = omega (arith, h) in
    close_gap-inside i m t.checks.memory (m - 1 - 1) (omega (arith, h)) (omega (arith, h))
      w.checks_room
    ∙ (rw next e)

-- Wherever the loop stands among the variants that are left.
inside-panic :
    (left i : ℕ) (t : Timer) (m n c : ℕ)
    → i + left ≡ n
    → IsStale t m n c
    → fetch t.checks.memory (m - 1) ≡ ok c
    → i < m
    → check_loop left i t ≡ panic
inside-panic zero i t m n c sum s last h = absurd (omega (arith, s.fewer))
inside-panic (suc left) i t m n c sum s last h =
    let (x, read) = fetch_lt t.checks.memory i (omega (arith, s.timer.checks_room)) in
    let at_last : i + 1 ≡ m → x ≡ c =
      λ e. let same : m - 1 ≡ i = omega (arith, e) in same_check read (rw same at last) in
    let behind : (p : ℕ) → m ≤ suc p → p < n → fetch t.checks.memory p ≡ ok c = λ p g k.
      elim (dec_lt p m) [
        | yes below ↦ let same : p ≡ m - 1 = omega (arith, below, g) in rw same last
        | no above ↦ s.behind p (omega (arith, above)) k
      ] in
    elim (Bool-cases (t.flags x)) [
      | inl e ↦
          let next = record t { flags = assign t.flags x false } in
          let stale = cleared-IsStale t m n c x s in
          check_loop-step left i t next x read (check_variant-set t i x e)
          ∙ elim (dec_lt (i + 1) m) [
            | yes below ↦ inside-panic left (i + 1) next m n c (omega arith) stale last below
            | no above ↦
                let same = at_last (omega (arith, h, above)) in
                behind-panic left (i + 1) next m n c (omega arith) stale (omega (arith, above))
                  (omega (arith, h, s.fewer)) (inl (ground (arith, same)))
          ]
      | inr e ↦
          let (context, k, removes) = check_variant-unset t i m x s.timer h e in
          let next = without t i m context in
          let stale =
            without-IsStale t i m n c context s.timer (omega (arith, s.fewer)) (omega (arith, h))
              behind in
          check_loop-step left i t next x read removes ∙ elim (dec_lt (i + 2) m) [
            | yes below ↦
                inside-panic left (i + 1) next (m - 1) n c (omega arith) stale
                  (without-last t i m c context s.timer (omega (arith, below)) last)
                  (omega (arith, below))
            | no above ↦
                behind-panic left (i + 1) next (m - 1) n c (omega arith) stale
                  (omega (arith, above)) (omega (arith, h, s.fewer))
                  (elim (dec_lt (i + 1) m) [
                    | yes two ↦ inr (omega (arith, two, s.fewer))
                    | no one ↦ inl (rw (← at_last (omega (arith, h, one))) e)
                  ])
          ]
    ]

before-panic :
    (left i : ℕ) (t : Timer) (n k c : ℕ)
    → i + left ≡ n
    → IsTimer t n
    → i ≤ k
    → k + 2 < n
    → fetch t.checks.memory k ≡ ok c
    → t.flags c ≡ false
    → check_loop left i t ≡ panic
before-panic zero i t n k c sum w h room there unset = absurd (omega (arith, sum, h, room))
before-panic (suc left) i t n k c sum w h room there unset =
    let (x, read) = fetch_lt t.checks.memory i (omega (arith, w.checks_room, h, room)) in
    elim (Bool-cases (t.flags x)) [
      | inl e ↦
          let next = record t { flags = assign t.flags x false } in
          check_loop-step left i t next x read (check_variant-set t i x e) ∙ elim (dec_lt i k) [
            | yes below ↦
                before-panic left (i + 1) next n k c (omega (arith, sum))
                  (flags-IsTimer t n (assign t.flags x false) w) (omega (arith, below)) room there
                  (ground (arith, unset))
            | no above ↦
                let here : i ≡ k = omega (arith, above, h) in
                let same = same_check read (rw (← here) at there) in
                absurd (true-ne-false (sym e ∙ (rw same unset)))
          ]
      | inr e ↦
          let (context, _, removes) = check_variant-unset t i n x w (omega (arith, h, room)) e in
          let (last, at_last) =
            fetch_lt t.checks.memory (n - 1) (omega (arith, w.checks_room, room)) in
          let behind : (p : ℕ) → n ≤ suc p → p < n → fetch t.checks.memory p ≡ ok last =
            λ p g f. let same : p ≡ n - 1 = omega (arith, g, f) in rw same at_last in
          let next = without t i n context in
          check_loop-step left i t next x read removes
          ∙ inside-panic left (i + 1) next (n - 1) n last (omega (arith, sum))
              (without-IsStale t i n n last context w (omega arith) (omega (arith, room)) behind)
              (without-last t i n last context w (omega (arith, h, room)) at_last)
              (omega (arith, h, room))
    ]

-- For a timer of `n` variants, one of which, that is not one of the last two, was not seen since
-- the last tick: the scheduler panics, whatever the other checks are.
pub check_timer-panic :
    (t : Timer) (n k c : ℕ)
    → IsTimer t n
    → k + 2 < n
    → fetch t.checks.memory k ≡ ok c
    → t.flags c ≡ false
    → check_timer t ≡ panic
unfolding check_timer
check_timer-panic t n k c w room there unset =
    ap (λ (m : ℕ). check_loop m 0 t) w.checks_len
    ∙ before-panic n 0 t n k c (omega arith) w (omega arith) room there unset
