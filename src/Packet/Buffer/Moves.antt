-- ===== src/Packet/Buffer/Moves.antt =====
-- What the loops of `EncapsulateHead` and `DecapsulateHead` do to the memory.
use nff_go.Base.{
  ℕ, zero, suc, ◌+◌, ◌-◌, ◌^◌, ◌≡◌, ◌<◌, ap, ◌∙◌, arith, Bool, ◌&&◌, leb, ltb, if◌then◌else◌,
  ℕ_discrete,
}
use nff_go.Packet.Buffer.{move_down, move_up}
use nff_go.Packet.Checksum.Bytes.{IsMemory}
use nff_go.Packet.State.{ptr_add, store_8}

-- Between two addresses, the second excluded.
abbrev pub between : ℕ → ℕ → ℕ → Bool
between a b x = leb a x && ltb x b

pub store_8-IsMemory : (mem : ℕ → ℕ) (a v : ℕ) → IsMemory mem → IsMemory (store_8 mem a v)
store_8-IsMemory mem a v h x = ground (arith, h x)

pub move_down-eq :
    (left i ether length : ℕ) (mem : ℕ → ℕ) (x : ℕ)
    → IsMemory mem
    → ether + i + left + length < 2 ^ 64
    → 0 < length
    → move_down mem ether length i left x
      ≡ (if between (ether + i) (ether + i + left) x then mem (x + length) else mem x)
unfolding move_down
move_down-eq zero i ether length mem x h fits pos = ground arith
move_down-eq (suc left) i ether length mem x h fits pos =
    let here : ptr_add ether i ≡ ether + i = omega (arith, fits) in
    let there : ptr_add ether (i + length) ≡ ether + i + length = omega (arith, fits) in
    let v = mem (ether + i + length) in
    let rest =
      move_down-eq left (i + 1) ether length (store_8 mem (ether + i) v) x
        (store_8-IsMemory mem (ether + i) v h) (omega (arith, fits)) pos in
    let step : (if between (ether + (i + 1)) (ether + (i + 1) + left) x
          then store_8 mem (ether + i) v (x + length)
          else store_8 mem (ether + i) v x)
        ≡ (if between (ether + i) (ether + i + suc left) x then mem (x + length) else mem x) =
      elim (ℕ_discrete x (ether + i)) [
        | yes e ↦ ground (arith, e, h (ether + i + length), ap (λ (t : ℕ). mem (t + length)) e)
        | no ne ↦ ground (arith, ne, pos)
      ] in
    rw (here, there) (rest ∙ step)

pub move_up-eq :
    (start ether length : ℕ) (mem : ℕ → ℕ) (x : ℕ)
    → IsMemory mem
    → ether + start + length < 2 ^ 64
    → 0 < length
    → move_up mem ether length start x
      ≡ (if between (ether + length) (ether + length + start) x then mem (x - length) else mem x)
unfolding move_up
move_up-eq zero ether length mem x h fits pos = ground arith
move_up-eq (suc i) ether length mem x h fits pos =
    let here : ptr_add ether i ≡ ether + i = omega (arith, fits) in
    let there : ptr_add ether (i + length) ≡ ether + i + length = omega (arith, fits) in
    let v = mem (ether + i) in
    let a = ether + i + length in
    let rest =
      move_up-eq i ether length (store_8 mem a v) x (store_8-IsMemory mem a v h)
        (omega (arith, fits)) pos in
    let step : (if between (ether + length) (ether + length + i) x
          then store_8 mem (ether + i + length) v (x - length)
          else store_8 mem (ether + i + length) v x)
        ≡ (if between (ether + length) (ether + length + suc i) x
            then mem (x - length)
            else mem x) =
      elim (ℕ_discrete x (ether + i + length)) [
        | yes e ↦
            let back : x - length ≡ ether + i = omega (arith, e) in
            ground (arith, e, h (ether + i), ap mem back)
        | no ne ↦ ground (arith, ne, pos)
      ] in
    rw (here, there) (rest ∙ step)
