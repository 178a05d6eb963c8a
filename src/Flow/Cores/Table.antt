-- ===== src/Flow/Cores/Table.antt =====
-- The table of cores of flow/scheduler.go: taking a core and giving it back.
use nff_go.Base.{
  ℕ, zero, suc, ◌≡◌, ◌≢◌, ◌<◌, refl, ap, arith, Bool, true, false, List, [], ◌∷◌, length, Option,
  none, some, if◌then◌else◌,
}
use nff_go.Common.Errors.{ok}
use nff_go.Flow.Cores.{Core, take_core, free_core}

-- Whether a core is there and free.
unfoldable pub free_at : List Core → ℕ → Bool
free_at [] i = false
free_at (c ∷ cs) zero = c.is_free
free_at (c ∷ cs) (suc i) = free_at cs i

-- The table `out` is `cs` but for the flag of core `i`.
pub record Flagged (cs : List Core) (i : ℕ) (b : Bool) (out : List Core) : Type 0 where
  pub inside : i < length cs
  pub size : length out ≡ length cs
  pub at_index : free_at out i ≡ b
  pub elsewhere : (j : ℕ) → j ≢ i → free_at out j ≡ free_at cs j

elsewhere-here :
    (c : Core) (cs : List Core) (b : Bool) (j : ℕ)
    → j ≢ 0
    → free_at (record c { is_free = b } ∷ cs) j ≡ free_at (c ∷ cs) j
unfolding free_at
elsewhere-here c cs b zero h = absurd (h refl)
elsewhere-here c cs b (suc j) h = refl

elsewhere-next :
    (c : Core) (cs out : List Core) (i : ℕ)
    → ((j : ℕ) → j ≢ i → free_at out j ≡ free_at cs j)
    → (j : ℕ) → j ≢ suc i
    → free_at (c ∷ out) j ≡ free_at (c ∷ cs) j
unfolding free_at
elsewhere-next c cs out i f zero h = refl
elsewhere-next c cs out i f (suc j) h = f j (λ e. h (ap suc e))

Flagged-here :
    (c : Core) (cs : List Core) (b : Bool) → Flagged (c ∷ cs) 0 b (record c { is_free = b } ∷ cs)
unfolding free_at
Flagged-here c cs b = record {
  inside = omega arith;
  size = refl;
  at_index = refl;
  elsewhere = elsewhere-here c cs b;
}

Flagged-next :
    (c : Core) (cs : List Core) (i : ℕ) (b : Bool) (out : List Core)
    → Flagged cs i b out
    → Flagged (c ∷ cs) (suc i) b (c ∷ out)
unfolding free_at
Flagged-next c cs i b out f = record {
  inside = omega (arith, f.inside);
  size = ap suc f.size;
  at_index = f.at_index;
  elsewhere = elsewhere-next c cs out i f.elsewhere;
}

-- What the loop of `getCore` finds.
abbrev pub Taken : List Core → Option (List Core × ℕ × ℕ) → Type 0
Taken cs none = (i : ℕ) → free_at cs i ≡ false
Taken cs (some (out, id, i)) = (free_at cs i ≡ true) × Flagged cs i false out

later_free :
    (c : Core) (cs : List Core)
    → c.is_free ≡ false
    → ((i : ℕ) → free_at cs i ≡ false)
    → (i : ℕ) → free_at (c ∷ cs) i ≡ false
unfolding free_at
later_free c cs e t zero = e
later_free c cs e t (suc i) = t i

take_later :
    (c : Core) (cs : List Core) (o : Option (List Core × ℕ × ℕ))
    → c.is_free ≡ false
    → Taken cs o
    → Taken (c ∷ cs) (elim o [ none ↦ none | some (out, id, i) ↦ some (c ∷ out, id, suc i) ])
take_later c cs none e t = later_free c cs e t
take_later c cs (some (out, id, i)) e (free, f) =
    (unfold free_at in free, Flagged-next c cs i false out f)

take_first :
    (c : Core) (cs : List Core) (b : Bool)
    → c.is_free ≡ b
    → Taken cs (take_core cs)
    → Taken (c ∷ cs) (
        if b
        then some (record c { is_free = false } ∷ cs, c.id, 0)
        else elim (take_core cs) [ none ↦ none | some (out, id, i) ↦ some (c ∷ out, id, suc i) ])
take_first c cs true e t = (unfold free_at in e, Flagged-here c cs false)
take_first c cs false e t = take_later c cs (take_core cs) e t

pub take_core-Taken : (cs : List Core) → Taken cs (take_core cs)
unfolding take_core
take_core-Taken [] = λ i. unfold free_at in refl
take_core-Taken (c ∷ cs) = take_first c cs c.is_free refl (take_core-Taken cs)

pub free_core-Flagged :
    (cs : List Core) (i : ℕ)
    → i < length cs
    → (out : List Core) × (free_core cs i ≡ ok out) × Flagged cs i true out
unfolding free_core
free_core-Flagged [] i h = absurd (omega arith)
free_core-Flagged (c ∷ cs) zero h = (record c { is_free = true } ∷ cs, refl, Flagged-here c cs true)
free_core-Flagged (c ∷ cs) (suc i) h =
    let (out, e, f) = free_core-Flagged cs i (omega (arith, h)) in
    (c ∷ out, rw e refl, Flagged-next c cs i true out f)
