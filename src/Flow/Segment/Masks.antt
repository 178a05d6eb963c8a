-- ===== src/Flow/Segment/Masks.antt =====
-- The vector functions of a segment against the scalar ones: a mask picks lanes.
use nff_go.Base.{
  ℕ, suc, ◌+◌, ◌≡◌, ◌≤◌, ◌<◌, refl, ap, arith, Bool, true, false, not, List, [], ◌∷◌, ◌++◌, length,
  take, drop, take-drop, length-take, map, append_one, length-append_one, u8, ◌^◌,
}
use nff_go.Common.Errors.{ok}
use nff_go.Common.Slices.{put-append, fetch-drop}
use nff_go.Flow.Segment.{
  PartitionCtx, count_packet, partition, v_partition, fill_from, fill_slice_from_mask,
}

-- The entries of the lanes that the mask has.
abbrev pub select {ℓ} : {A : Type ℓ} → List Bool → List A → List A
select (true ∷ mask) (x ∷ xs) = x ∷ select mask xs
select (false ∷ mask) (x ∷ xs) = select mask xs
select mask xs = []

-- The scalar function on one packet after the other.
abbrev pub partition_all {ℓ} : {A : Type ℓ} → PartitionCtx → List A → PartitionCtx × List ℕ
partition_all c [] = (c, [])
partition_all c (x ∷ xs) =
    let one = partition c in let rest = partition_all (one.0) xs in (rest.0, one.1 ∷ rest.1)

-- For a mask and answers of the same length: the vector function answers the packets of the mask as
-- the scalar function answers them one after the other, leaves the context that this leaves, and
-- keeps the answers of the other lanes.
pub v_partition-scalar :
    (mask : List Bool) (answers : List ℕ) (c : PartitionCtx)
    → length mask ≡ length answers
    → ((v_partition c mask answers).0 ≡ (partition_all c (select mask answers)).0)
      × (select mask ((v_partition c mask answers).1) ≡ (partition_all c (select mask answers)).1)
      × (select (map not mask) ((v_partition c mask answers).1) ≡ select (map not mask) answers)
unfolding v_partition partition
v_partition-scalar [] [] c e = (refl, refl, refl)
v_partition-scalar [] (a ∷ answers) c e = absurd (omega (arith, e))
v_partition-scalar (b ∷ mask) [] c e = absurd (omega (arith, e))
v_partition-scalar (true ∷ mask) (a ∷ answers) c e =
    let (context, chosen, others) =
      v_partition-scalar mask answers (count_packet c) (omega (arith, e)) in
    (context, ap (λ (t : List ℕ). (count_packet c).current_answer ∷ t) chosen, others)
v_partition-scalar (false ∷ mask) (a ∷ answers) c e =
    let (context, chosen, others) = v_partition-scalar mask answers c (omega (arith, e)) in
    (context, chosen, ap (λ (t : List ℕ). a ∷ t) others)

length-select : (mask : List Bool) (xs : List ℕ) → length (select mask xs) ≤ length xs
length-select [] [] = omega arith
length-select [] (x ∷ xs) = omega arith
length-select (true ∷ mask) [] = omega arith
length-select (false ∷ mask) [] = omega arith
length-select (true ∷ mask) (x ∷ xs) = omega (arith, length-select mask xs)
length-select (false ∷ mask) (x ∷ xs) = omega (arith, length-select mask xs)

fill_from-select :
    (mask : List Bool) (xs input : List ℕ) (i : ℕ) (front old rest : List ℕ)
    → drop i input ≡ xs
    → length mask ≡ length xs
    → length old ≡ length (select mask xs)
    → fill_from input mask i (length front) (front ++ (old ++ rest))
      ≡ ok (front ++ (select mask xs ++ rest), length front + length (select mask xs))
unfolding fill_from
fill_from-select [] [] input i front [] rest d e f =
    let none : length front + 0 ≡ length front = omega arith in rw none refl
fill_from-select [] [] input i front (o ∷ old) rest d e f = absurd (omega (arith, f))
fill_from-select [] (x ∷ xs) input i front old rest d e f = absurd (omega (arith, e))
fill_from-select (b ∷ mask) [] input i front old rest d e f = absurd (omega (arith, e))
fill_from-select (false ∷ mask) (x ∷ xs) input i front old rest d e f =
    fill_from-select mask xs input (i + 1) front old rest (fetch-drop input i x xs d).1
      (omega (arith, e)) f
fill_from-select (true ∷ mask) (x ∷ xs) input i front [] rest d e f = absurd (omega (arith, f))
fill_from-select (true ∷ mask) (x ∷ xs) input i front (o ∷ old) rest d e f =
    let here = fetch-drop input i x xs d in
    let count : length front + 1 + length (select mask xs)
        ≡ length front + suc (length (select mask xs)) =
      omega arith in
    rw (here.0, put-append front o x (old ++ rest))
      (rw
        (
          length-append_one front x,
          append_one front x (old ++ rest),
          append_one front x (select mask xs ++ rest),
          count,
        )
        at
        (fill_from-select mask xs input (i + 1) (front ++ (x ∷ [])) old rest here.1
          (omega (arith, e)) (omega (arith, f))))

-- For a mask with a lane for each of at most 255 packets and an output with room for those it has:
-- the output begins with the packets of the mask, in order, keeps the rest of its entries, and the
-- number of these packets is given back. No index is out of range.
pub fill_slice_from_mask-select :
    (mask : List Bool) (input output : List ℕ)
    → length mask ≡ length input
    → length input < 2 ^ 8
    → length (select mask input) ≤ length output
    → fill_slice_from_mask input mask output
      ≡ ok (
        select mask input ++ drop (length (select mask input)) output,
        length (select mask input),
      )
unfolding fill_slice_from_mask
fill_slice_from_mask-select mask input output e word room =
    let count = length (select mask input) in
    let len = length-take count output room in
    let filled =
      fill_from-select mask input input 0 [] (take count output) (drop count output) refl e len in
    let small : u8 (0 + count) ≡ count = omega (arith, length-select mask input, word) in
    rw (rw (take-drop count output) at filled, small) refl
