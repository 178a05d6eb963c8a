-- ===== src/Flow/Timers/Kept.antt =====
-- A timer of which every variant but the last was seen.
use nff_go.Base.{
  ℕ, zero, suc, ◌+◌, ◌≤◌, ◌<◌, ◌≡◌, ◌≢◌, refl, sym, ◌∙◌, ap, arith, Bool, true, false, List,
  Bool-cases, inl, inr, if◌then◌else◌, ℕ_discrete,
}
use nff_go.Common.Errors.{ok}
use nff_go.Common.Slices.{fetch, fetch_lt}
use nff_go.Flow.Timers.Variants.{
  IsTimer, flags-IsTimer, without, check_variant-unset, check_variant-set, check_loop-step,
  same_check,
}
use nff_go.Flow.Timers.{Timer, assign, check_loop, check_timer}

-- Each of the first `n` checks is a flag of its own.
abbrev pub Distinct : List ℕ → ℕ → Type 0
Distinct memory n =
    (p q c : ℕ) → p < n → q < n → fetch memory p ≡ ok c → fetch memory q ≡ ok c → p ≡ q

-- Of the flags, `cleared` has the checks from `from` to below `to` cleared, and keeps the others.
pub record Cleared (memory : List ℕ) (from to : ℕ) (flags cleared : ℕ → Bool) : Type 0 where
  pub inside : (p c : ℕ) → from ≤ p → p < to → fetch memory p ≡ ok c → cleared c ≡ false
  pub others : (c : ℕ) → ((p : ℕ) → from ≤ p → p < to → fetch memory p ≢ ok c) → cleared c ≡ flags c

-- The loop over checks that are all set clears them.
set-Cleared :
    (j left i n : ℕ) (t : Timer)
    → IsTimer t n
    → i + j ≤ n
    → Distinct t.checks.memory n
    → ((p c : ℕ) → i ≤ p → p < i + j → fetch t.checks.memory p ≡ ok c → t.flags c ≡ true)
    → (flags : ℕ → Bool) × (check_loop (j + left) i t
        ≡ check_loop left (i + j) (record t { flags = flags }))
      × Cleared t.checks.memory i (i + j) t.flags flags
set-Cleared zero left i n t w fits distinct all_set =
    let none_left : i + 0 ≡ i = omega arith in
    (
      t.flags,
      ap (λ (k : ℕ). check_loop k i t) (omega arith)
          ∙ ap (λ (k : ℕ). check_loop left k t) (sym none_left),
      record { inside = λ p c h k e. absurd (omega (arith, h, k)); others = λ c f. refl },
    )
set-Cleared (suc j) left i n t w fits distinct all_set =
    let (x, read) = fetch_lt t.checks.memory i (omega (arith, w.checks_room, fits)) in
    let next = record t { flags = assign t.flags x false } in
    let next_set : (p c : ℕ)
        → i + 1 ≤ p
        → p < i + 1 + j
        → fetch t.checks.memory p ≡ ok c
        → next.flags c ≡ true =
      λ p c h k e.
        let other : c ≢ x = λ same. absurd (
          let here : i ≡ p =
            distinct i p c (omega (arith, fits)) (omega (arith, k, fits)) (rw (← same) at read) e in
          omega (arith, here, h)) in
        let was = all_set p c (omega (arith, h)) (omega (arith, k)) e in
        ground (arith, other, was) in
    let (flags, rest, cleared) =
      set-Cleared j left (i + 1) n next (flags-IsTimer t n (assign t.flags x false) w)
        (omega (arith, fits)) distinct next_set in
    let now = all_set i x (omega arith) (omega arith) read in
    let count : i + 1 + j ≡ i + suc j = omega arith in
    let rounds : suc j + left ≡ suc (j + left) = omega arith in
    (
      flags,
      ap (λ (k : ℕ). check_loop k i t) rounds
          ∙ check_loop-step (j + left) i t next x read (check_variant-set t i x now)
          ∙ rest
          ∙ ap (λ (k : ℕ). check_loop left k (record t { flags = flags })) count,
      record {
        inside = λ p c h k e. elim (ℕ_discrete p i) [
          | yes same ↦
              let here : c ≡ x = same_check (rw same at e) read in
              let kept : flags c ≡ next.flags c = cleared.others c (λ q g f r.
                let again : q ≡ i =
                  distinct q i c (omega (arith, f, fits)) (omega (arith, fits)) r
                    (rw (← here) at read) in
                omega (arith, again, g)) in
              kept ∙ (ground (arith, here))
          | no other ↦ cleared.inside p c (omega (arith, h, other)) (omega (arith, k)) e
        ];
        others = λ c f.
            let kept = cleared.others c (λ p g k. f p (omega (arith, g)) (omega (arith, k))) in
            let other : c ≢ x = λ same. f i (omega arith) (omega arith) (rw (← same) at read) in
            kept ∙ (ground (arith, other));
      },
    )

-- For a timer of `n + 1` variants with flags of their own, of which all but the last were seen
-- since the last tick: their flags are cleared and no other. Where the last one was seen, so is
-- its flag, and no handler is called; else its handler is called, and it alone is removed.
pub check_timer_seen :
    (t : Timer) (n last context : ℕ)
    → IsTimer t (suc n)
    → Distinct t.checks.memory (suc n)
    → ((p c : ℕ) → p < n → fetch t.checks.memory p ≡ ok c → t.flags c ≡ true)
    → fetch t.checks.memory n ≡ ok last
    → fetch t.contexts.memory n ≡ ok context
    → (flags : ℕ → Bool) × Cleared t.checks.memory 0 n t.flags flags
      × (check_timer t ≡ (
          if t.flags last
          then ok (record t { flags = assign flags last false })
          else ok (without (record t { flags = flags }) n (suc n) context)))
unfolding check_timer check_loop
check_timer_seen t n last context w distinct all_set at_last at_context =
    let from_zero : 0 + n ≡ n = omega arith in
    let (flags, front, cleared) = rw from_zero at (
      set-Cleared n 1 0 (suc n) t w (omega arith) distinct
        (λ p c h k e. all_set p c (omega (arith, k)) e)) in
    let seen = record t { flags = flags } in
    let kept : flags last ≡ t.flags last = cleared.others last (λ p h k e. absurd (
      let same : p ≡ n = distinct p n last (omega (arith, k)) (omega arith) e at_last in
      omega (arith, same, k))) in
    let valid : IsTimer seen (suc n) = flags-IsTimer t (suc n) flags w in
    let size : t.checks.len ≡ n + 1 = w.checks_len ∙ (omega arith) in
    let start : check_timer t ≡ check_loop 1 n seen =
      ap (λ (m : ℕ). check_loop m 0 t) size ∙ front in
    (
      flags,
      cleared,
      start ∙ elim (Bool-cases (t.flags last)) [
        | inl e ↦
            check_loop-step 0 n seen (record t { flags = assign flags last false }) last at_last
              (check_variant-set seen n last (kept ∙ e))
            ∙ (rw e refl)
        | inr e ↦
            let (found, k, removes) =
              check_variant-unset seen n (suc n) last valid (omega arith) (kept ∙ e) in
            check_loop-step 0 n seen (without seen n (suc n) found) last at_last removes
            ∙ ap (λ (x : ℕ). ok (without seen n (suc n) x)) (same_check k at_context)
            ∙ (rw e refl)
      ],
    )
