-- ===== src/Flow/Cores/Running.antt =====
-- The table of cores agrees with the clones that run: a core is busy exactly when one clone has it.
use nff_go.Base.{
  count, count-append, ℕ, ◌+◌, ◌%◌, ◌≡◌, ◌≢◌, ◌≤◌, ◌<◌, sym, ◌∙◌, arith, true, false, List, [], ◌∷◌,
  ◌++◌, length, length-append, u8, if◌then◌else◌, ◌==◌, ℕ_discrete, dec_lt,
}
use nff_go.Flow.Cores.{Core, Scheduler}
use nff_go.Flow.Cores.Table.{free_at, Flagged}

-- The clones of all instances, by the indexes of their cores, are those for which cores are taken:
-- each has a core of its own, every other core is free, and `usedCores` is their number as a uint8.
pub record Runs (s : Scheduler) (clones : List ℕ) : Type 0 where
  pub used : s.used_cores ≡ length clones % 256
  pub single : (i : ℕ) → count i clones ≤ 1
  pub inside : (i : ℕ) → 0 < count i clones → i < length s.cores
  pub busy : (i : ℕ) → 0 < count i clones → free_at s.cores i ≡ false
  pub idle : (i : ℕ) → i < length s.cores → count i clones ≡ 0 → free_at s.cores i ≡ true

module _ (s : Scheduler) (others own : List ℕ) (i : ℕ) where
  abbrev before : List ℕ
  before = others ++ own

  abbrev after : List ℕ
  after = others ++ (own ++ (i ∷ []))

  count-after : (j : ℕ) → count j after ≡ count j before + (if i == j then 1 else 0)
  unfolding count
  count-after j = omega (
    arith,
    count-append j others (own ++ (i ∷ [])),
    count-append j own (i ∷ []),
    count-append j others own,
  )

  pub count-after_self : count i after ≡ count i before + 1
  count-after_self = ground (arith, count-after i)

  count-after_ne : (j : ℕ) → j ≢ i → count j after ≡ count j before
  count-after_ne j h = ground (arith, count-after j, h)

  length-after : length after ≡ length before + 1
  length-after = omega (
    arith,
    length-append others (own ++ (i ∷ [])),
    length-append own (i ∷ []),
    length-append others own,
  )

  -- A free core goes to a new clone.
  pub taken-Runs :
      (cores : List Core)
      → Runs s before
      → free_at s.cores i ≡ true
      → Flagged s.cores i false cores
      → Runs (record s { cores = cores; used_cores = u8 (s.used_cores + 1) }) after
  taken-Runs cores r free f =
      let unused : count i before ≡ 0 = elim (dec_lt 0 (count i before)) [
        | yes h ↦ cc (sym free ∙ r.busy i h)
        | no h ↦ omega (arith, h)
      ] in
      record {
        used = omega (arith, r.used, length-after);
        single = λ j. elim (ℕ_discrete j i) [
          | yes e ↦ rw e (omega (arith, count-after_self, unused))
          | no h ↦ omega (arith, count-after_ne j h, r.single j)
        ];
        inside = λ j k. elim (ℕ_discrete j i) [
          | yes e ↦ omega (arith, e, f.inside, f.size)
          | no h ↦ omega (arith, r.inside j (omega (arith, count-after_ne j h, k)), f.size)
        ];
        busy = λ j k. elim (ℕ_discrete j i) [
          | yes e ↦ rw e f.at_index
          | no h ↦ f.elsewhere j h ∙ r.busy j (omega (arith, count-after_ne j h, k))
        ];
        idle = λ j k z. elim (ℕ_discrete j i) [
          | yes e ↦ absurd (omega (arith, rw e at z, count-after_self))
          | no h ↦
              f.elsewhere j h
              ∙ r.idle j (omega (arith, k, f.size)) (omega (arith, count-after_ne j h, z))
        ];
      }

  -- The core of the last clone is given back.
  pub released-Runs :
      (cores : List Core)
      → Runs s after
      → Flagged s.cores i true cores
      → Runs (record s { cores = cores; used_cores = u8 (s.used_cores + 255) }) before
  released-Runs cores r f =
      let unused : count i before ≡ 0 = omega (arith, r.single i, count-after_self) in
      record {
        used = omega (arith, r.used, length-after);
        single = λ j. omega (arith, r.single j, count-after j);
        inside = λ j k. omega (arith, r.inside j (omega (arith, count-after j, k)), f.size);
        busy = λ j k. elim (ℕ_discrete j i) [
          | yes e ↦ absurd (omega (arith, rw e at k, unused))
          | no h ↦ f.elsewhere j h ∙ r.busy j (omega (arith, count-after_ne j h, k))
        ];
        idle = λ j k z. elim (ℕ_discrete j i) [
          | yes e ↦ rw e f.at_index
          | no h ↦
              f.elsewhere j h
              ∙ r.idle j (omega (arith, k, f.size)) (omega (arith, count-after_ne j h, z))
        ];
      }
