-- ===== src/Low/Ring/Copies.antt =====
-- What the copying loops of the ring do: the unrolled ones do what the simple one does, and that
-- writes the entries at consecutive positions, or reads them there.
use nff_go.Base.{
  ℕ, zero, suc, ◌+◌, ◌*◌, ◌^◌, ◌≡◌, ◌≤◌, ◌<◌, refl, sym, ap, arith, List, [], ◌∷◌, ◌++◌, length,
  drop, u32, append_one, length-append_one,
}
use nff_go.Common.Errors.{Result, ok, err, panic, ◌>>=◌}
use nff_go.Common.Slices.{put-append, fetch-drop}
use nff_go.Low.Ring.{cell, write_entry, read_entry, copy_loop, copy_rest, copy_fours, store}
use nff_go.Low.Ring.Slots.{wrap, window, fill}

bind-ok {ℓ} : {A : Type ℓ} (m : Result A) → (m >>= (λ a. ok a)) ≡ m
bind-ok (ok a) = refl
bind-ok (err e) = refl
bind-ok panic = refl

module _ {ℓ} {S : Type ℓ} (copy : ℕ → ℕ → S → Result S) where
  copy_rest-loop :
      (tail i idx : ℕ) (s : S)
      → tail < 4
      → copy_rest copy tail i idx s ≡ copy_loop copy tail i idx s
  unfolding copy_rest copy_loop
  copy_rest-loop zero i idx s h = refl
  copy_rest-loop (suc zero) i idx s h = sym (bind-ok (copy i idx s))
  copy_rest-loop (suc (suc zero)) i idx s h =
      ap (λ f. copy i idx s >>= f) (λ k a. sym (bind-ok (copy (i + 1) (u32 (idx + 1)) a)) k)
  copy_rest-loop (suc (suc (suc zero))) i idx s h =
      let ei : i + 1 + 1 ≡ i + 2 = omega arith in
      let ex : u32 (u32 (idx + 1) + 1) ≡ u32 (idx + 2) = omega arith in
      rw (ei, ex)
        (ap (λ f. copy i idx s >>= (λ a. copy (i + 1) (u32 (idx + 1)) a >>= f))
          (λ k a. sym (bind-ok (copy (i + 2) (u32 (idx + 2)) a)) k))
  copy_rest-loop (suc (suc (suc (suc t)))) i idx s h = absurd (omega arith)

  -- Four rounds, and then what `f` does.
  abbrev four_and : (ℕ → ℕ → S → Result S) → ℕ → ℕ → S → Result S
  four_and f i idx s = do
    one ← copy i idx s
    two ← copy (i + 1) (u32 (idx + 1)) one
    three ← copy (i + 2) (u32 (idx + 2)) two
    four ← copy (i + 3) (u32 (idx + 3)) three
    f (i + 4) (u32 (idx + 4)) four

  copy_loop-four_and :
      (m i idx : ℕ) (s : S)
      → copy_loop copy (suc (suc (suc (suc m)))) i idx s ≡ four_and (copy_loop copy m) i idx s
  unfolding copy_loop
  copy_loop-four_and m i idx s =
      let i2 : i + 1 + 1 ≡ i + 2 = omega arith in
      let i3 : i + 2 + 1 ≡ i + 3 = omega arith in
      let i4 : i + 3 + 1 ≡ i + 4 = omega arith in
      let x2 : u32 (u32 (idx + 1) + 1) ≡ u32 (idx + 2) = omega arith in
      let x3 : u32 (u32 (idx + 2) + 1) ≡ u32 (idx + 3) = omega arith in
      let x4 : u32 (u32 (idx + 3) + 1) ≡ u32 (idx + 4) = omega arith in
      rw (i2, i3, i4, x2, x3, x4) refl

  pub copy_fours-loop :
      (tail left i idx : ℕ) (s : S)
      → tail < 4
      → copy_fours copy tail left i idx s ≡ copy_loop copy (4 * left + tail) i idx s
  unfolding copy_fours
  copy_fours-loop tail zero i idx s h =
      let e : 4 * 0 + tail ≡ tail = omega arith in rw e (copy_rest-loop tail i idx s h)
  copy_fours-loop tail (suc left) i idx s h =
      let e : 4 * suc left + tail ≡ suc (suc (suc (suc (4 * left + tail)))) = omega arith in
      rw (e, copy_loop-four_and (4 * left + tail) i idx s)
        (ap (λ f. four_and f i idx s) (λ k i idx s. copy_fours-loop tail left i idx s h k))

cell-eq : (idx : ℕ) → idx < 2 ^ 29 → cell idx ≡ idx
unfolding cell
cell-eq idx h = omega arith

module _ (size : ℕ) (small : size ≤ 2 ^ 29) where
  pub write_entries :
      (obj : List ℕ) (i idx : ℕ) (cells : ℕ → ℕ) (vs rest : List ℕ)
      → drop i obj ≡ vs ++ rest
      → idx + length vs ≤ size
      → copy_loop (write_entry obj) (length vs) i idx cells ≡ ok (fill size cells idx vs)
  unfolding copy_loop write_entry
  write_entries obj i idx cells [] rest e h = refl
  write_entries obj i idx cells (v ∷ vs) rest e h =
      let here = fetch-drop obj i v (vs ++ rest) e in
      let slot : wrap size idx ≡ idx = ground arith in
      let place : cell idx ≡ idx = cell-eq idx (omega (arith, small)) in
      let next : u32 (idx + 1) ≡ idx + 1 = omega (arith, small) in
      rw (here.0, place, slot, next)
        (write_entries obj (i + 1) (idx + 1) (store cells idx v) vs rest here.1 (omega arith))

  pub read_entries :
      (cells : ℕ → ℕ) (front : List ℕ) (idx n : ℕ) (old rest : List ℕ)
      → length old ≡ n
      → idx + n ≤ size
      → copy_loop (read_entry cells) n (length front) idx (front ++ (old ++ rest))
        ≡ ok (front ++ (window size cells idx n ++ rest))
  unfolding copy_loop read_entry
  read_entries cells front idx zero [] rest e h = refl
  read_entries cells front idx zero (o ∷ old) rest e h = absurd (omega (arith, e))
  read_entries cells front idx (suc n) [] rest e h = absurd (omega (arith, e))
  read_entries cells front idx (suc n) (o ∷ old) rest e h =
      let slot : wrap size idx ≡ idx = ground arith in
      let place : cell idx ≡ idx = cell-eq idx (omega (arith, small)) in
      let next : u32 (idx + 1) ≡ idx + 1 = omega (arith, small) in
      rw (place, put-append front o (cells idx) (old ++ rest), slot, next)
        (rw
          (
            length-append_one front (cells idx),
            append_one front (cells idx) (old ++ rest),
            append_one front (cells idx) (window size cells (idx + 1) n ++ rest),
          )
          at
          (read_entries cells (front ++ (cells idx ∷ [])) (idx + 1) n old rest (omega (arith, e))
            (omega arith)))
