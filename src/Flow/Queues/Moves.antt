-- ===== src/Flow/Queues/Moves.antt =====
-- Queues are neither lost nor doubled when the scheduler splits a list or merges two, and no index
-- is out of range.
use nff_go.Base.{
  ℕ, zero, suc, ◌+◌, ◌-◌, ◌/◌, ◌%◌, ◌≡◌, ◌≤◌, refl, sym, ap, ap₂, ◌∙◌, arith, List, [], ◌∷◌, ◌++◌,
  length, take, drop, replicate, length-append, length-replicate,
}
use nff_go.Common.Errors.{ok}
use nff_go.Flow.Queues.Layout.{Holds, copy_queues-append}
use nff_go.Base.{append_assoc, take-drop, length-take, length-drop}
use nff_go.Flow.Queues.{fetch, put, construct_duplicated_index, construct_zero_index, merge_index}

module _ (a b room : List ℕ) (even : length b ≡ (length a + length b) / 2) (ys zs : List ℕ)
    (same : length ys ≡ length b) where
  abbrev n : ℕ
  n = length a + length b

  duplicated :
      construct_duplicated_index (n ∷ (a ++ (b ++ room))) (0 ∷ (ys ++ zs))
      ≡ ok (length a ∷ (a ++ (b ++ room)), length b ∷ (b ++ zs))
  unfolding construct_duplicated_index fetch put
  duplicated =
      let half : n / 2 ≡ length b = omega (arith, even) in
      let rest : length b + n % 2 ≡ length a = omega (arith, even) in
      let next : suc (length a) ≡ length a + 1 = omega arith in
      rw (half, rest, (rw next at (copy_queues-append (n ∷ a) b room (0 ∷ []) ys zs same))) refl

replicate-split :
    (m j k : ℕ) → k ≡ m + j → replicate {A = ℕ} k 0 ≡ replicate {A = ℕ} m 0 ++ replicate {A = ℕ} j 0
replicate-split zero j k h =
    let same : k ≡ j = omega (arith, h) in ap (λ (t : ℕ). replicate {A = ℕ} t 0) same
replicate-split (suc m) j zero h = absurd (omega (arith, h))
replicate-split (suc m) j (suc k) h =
    ap (λ (t : List ℕ). 0 ∷ t) (replicate-split m j k (omega (arith, h)))

construct_zero_index-eq :
    (old queues : List ℕ) (capacity : ℕ)
    → Holds old queues capacity
    → construct_zero_index old ≡ 0 ∷ replicate capacity 0
unfolding construct_zero_index
construct_zero_index-eq old queues capacity h =
    let size : length (queues ++ h.room) ≡ capacity =
      omega (arith, length-append queues h.room, h.fits) in
    rw (h.layout, size) refl

-- The number of queues that an instance keeps when another takes the rest.
abbrev pub kept : List ℕ → ℕ
kept queues = length queues / 2 + length queues % 2

pub construct_duplicated_index-Holds :
    (old queues : List ℕ) (capacity : ℕ)
    → Holds old queues capacity
    → (old_out new_out : List ℕ) × (construct_duplicated_index old (construct_zero_index old)
        ≡ ok (old_out, new_out))
      × Holds old_out (take (kept queues) queues) capacity
      × Holds new_out (drop (kept queues) queues) capacity
construct_duplicated_index-Holds old queues capacity h =
    let a = take (kept queues) queues in
    let b = drop (kept queues) queues in
    let la : length a ≡ kept queues = length-take (kept queues) queues (omega arith) in
    let lb : length b ≡ length queues - kept queues =
      length-drop (kept queues) queues (omega arith) in
    let whole : length a + length b ≡ length queues = omega (arith, la, lb) in
    let zeros : List ℕ = replicate (length b) 0 in
    let spare : List ℕ = replicate (capacity - length b) 0 in
    let lz : length zeros ≡ length b = length-replicate (length b) 0 in
    let ls : length spare ≡ capacity - length b = length-replicate (capacity - length b) 0 in
    let old-eq : old ≡ (length a + length b) ∷ (a ++ (b ++ h.room)) =
      h.layout
      ∙ ap₂ (λ n t. n ∷ t) (sym whole)
          (ap (λ t. t ++ h.room) (sym (take-drop (kept queues) queues))
            ∙ append_assoc a b h.room) in
    let new-eq : construct_zero_index old ≡ 0 ∷ (zeros ++ spare) =
      construct_zero_index-eq old queues capacity h
      ∙ ap (λ (t : List ℕ). 0 ∷ t)
          (replicate-split (length b) (capacity - length b) capacity (omega (arith, lb, h.fits))) in
    (
      length a ∷ (a ++ (b ++ h.room)),
      length b ∷ (b ++ spare),
      (rw (new-eq, old-eq) (duplicated a b h.room (omega (arith, la, lb)) zeros spare lz)),
      record {
        room = b ++ h.room;
        layout = refl;
        fits = omega (arith, h.fits, whole, length-append b h.room);
      },
      record { room = spare; layout = refl; fits = omega (arith, ls, whole, h.fits) },
    )

merged :
    (src_queues src_room dst_queues ys zs : List ℕ)
    → length ys ≡ length src_queues
    → merge_index
        (length src_queues ∷ (src_queues ++ src_room))
        (length dst_queues ∷ (dst_queues ++ (ys ++ zs)))
      ≡ ok ((length dst_queues + length src_queues) ∷ (dst_queues ++ (src_queues ++ zs)))
unfolding merge_index fetch put
merged qs room ps ys zs same =
    let next : suc (length ps) ≡ length ps + 1 = omega arith in
    rw (rw next at (copy_queues-append (length qs ∷ []) qs room (length ps ∷ ps) ys zs same)) refl

-- Queues that fit into the other list go behind its own.
pub merge_index-Holds :
    (src src_queues dst dst_queues : List ℕ) (src_capacity dst_capacity : ℕ)
    → Holds src src_queues src_capacity
    → Holds dst dst_queues dst_capacity
    → length dst_queues + length src_queues ≤ dst_capacity
    → (dst_out : List ℕ) × (merge_index src dst ≡ ok dst_out)
      × Holds dst_out (dst_queues ++ src_queues) dst_capacity
merge_index-Holds src qs dst ps c d h k room =
    let ys = take (length qs) k.room in
    let zs = drop (length qs) k.room in
    let ly : length ys ≡ length qs = length-take (length qs) k.room (omega (arith, k.fits, room)) in
    let lz : length zs ≡ length k.room - length qs =
      length-drop (length qs) k.room (omega (arith, k.fits, room)) in
    let dst-eq : dst ≡ length ps ∷ (ps ++ (ys ++ zs)) =
      k.layout ∙ ap (λ t. length ps ∷ (ps ++ t)) (sym (take-drop (length qs) k.room)) in
    (
      (length ps + length qs) ∷ (ps ++ (qs ++ zs)),
      (rw (dst-eq, h.layout) (merged qs h.room ps ys zs ly)),
      record {
        room = zs;
        layout = ap₂ (λ n t. n ∷ t) (sym (length-append ps qs)) (sym (append_assoc ps qs zs));
        fits = omega (arith, length-append ps qs, lz, k.fits, room);
      },
    )
