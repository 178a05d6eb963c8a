-- ===== src/Packet/Checksum/Bytes.antt =====
-- What the checksums mean: the sum of 16-bit words of a byte string in network order.
use nff_go.Base.{
  ℕ, zero, suc, ◌+◌, ◌-◌, ◌*◌, ◌/◌, ◌%◌, ◌≤◌, ◌<◌, ◌^◌, ◌≡◌, refl, ap, List, [], ◌∷◌, arith,
  bit_and, u32, u64, ◌==◌, Bool-cases, inl, inr, dec_lt,
}
use nff_go.Base.Bits.{bit_and-low}
use nff_go.Packet.ByteOrder.Laws.{swap_bytes_uint16-eq}
use nff_go.Packet.ByteOrder.{swap_bytes_uint16}
use nff_go.Packet.Checksum.{load_uint16, sum_slice, calculate_data_checksum}

-- Words in network order; a last odd byte is the high byte of a word.
unfoldable pub sum_words : List ℕ → ℕ
sum_words [] = 0
sum_words (a ∷ []) = a * 256
sum_words (a ∷ b ∷ rest) = a * 256 + b + sum_words rest

-- The `n` bytes of the memory from an address on.
unfoldable pub load : (ℕ → ℕ) → ℕ → ℕ → List ℕ
load mem a zero = []
load mem a (suc n) = mem a ∷ load mem (a + 1) n

abbrev pub IsMemory : (ℕ → ℕ) → Type 0
IsMemory mem = (a : ℕ) → mem a < 256

sum_words-load-suc :
    (mem : ℕ → ℕ) (n a : ℕ)
    → sum_words (load mem a (2 * suc n))
      ≡ mem a * 256 + mem (a + 1) + sum_words (load mem (a + 2) (2 * n))
unfolding sum_words load
sum_words-load-suc mem n a =
    let two : 2 * suc n ≡ suc (suc (2 * n)) = omega arith in
    let next : a + 1 + 1 ≡ a + 2 = omega arith in rw (two, next) refl

pub sum_words-load-le :
    (mem : ℕ → ℕ) (n a : ℕ) → IsMemory mem → sum_words (load mem a (2 * n)) ≤ 65535 * n
sum_words-load-le mem zero a h = unfold sum_words load in omega arith
sum_words-load-le mem (suc n) a h =
    omega (arith, sum_words-load-suc mem n a, sum_words-load-le mem n (a + 2) h, h a, h (a + 1))

-- An odd byte at the end.
sum_words-load_odd :
    (mem : ℕ → ℕ) (n a : ℕ)
    → sum_words (load mem a (2 * n + 1)) ≡ sum_words (load mem a (2 * n)) + mem (a + 2 * n) * 256
sum_words-load_odd mem zero a =
    let same : a + 0 ≡ a = omega arith in unfold sum_words load in rw same (omega arith)
sum_words-load_odd mem (suc n) a =
    let two : 2 * suc n + 1 ≡ suc (suc (2 * n + 1)) = omega arith in
    let last : a + 2 + 2 * n ≡ a + 2 * suc n = omega arith in
    let next : a + 1 + 1 ≡ a + 2 = omega arith in
    let step : sum_words (load mem a (suc (suc (2 * n + 1))))
        ≡ mem a * 256 + mem (a + 1) + sum_words (load mem (a + 2) (2 * n + 1)) =
      unfold sum_words load in rw next refl in
    let rest = rw last at (sum_words-load_odd mem n (a + 2)) in
    rw two (omega (arith, step, rest, sum_words-load-suc mem n a))

-- A packet's worth of bytes is far below the uint32.
pub sum_words-load-lt :
    (mem : ℕ → ℕ) (n a : ℕ)
    → IsMemory mem
    → n < 2 ^ 17
    → sum_words (load mem a n) ≤ 65535 * (n / 2 + 1)
sum_words-load-lt mem n a h k = elim (dec_lt 0 (n % 2)) [
  | yes odd ↦
      let spec =
        ap (λ n. sum_words (load mem a n)) (let e : n ≡ 2 * (n / 2) + 1 = omega arith in e) in
      omega (
        arith,
        spec,
        sum_words-load_odd mem (n / 2) a,
        sum_words-load-le mem (n / 2) a h,
        h (a + 2 * (n / 2)),
      )
  | no even ↦
      let spec = ap (λ n. sum_words (load mem a n)) (let e : n ≡ 2 * (n / 2) = omega arith in e) in
      omega (arith, spec, sum_words-load-le mem (n / 2) a h)
]

sum_slice-sum_words :
    (mem : ℕ → ℕ) (uptr left i sum : ℕ)
    → IsMemory mem
    → sum < 2 ^ 32
    → sum_slice mem uptr left i sum ≡ u32 (sum + sum_words (load mem (uptr + 2 * i) (2 * left)))
unfolding sum_slice
sum_slice-sum_words mem uptr zero i sum h k = unfold sum_words load in omega arith
sum_slice-sum_words mem uptr (suc left) i sum h k =
    let word = load_uint16 mem (uptr + 2 * i) in
    let next : uptr + 2 * (i + 1) ≡ uptr + 2 * i + 2 = omega arith in
    let rest = rw next at (
      sum_slice-sum_words mem uptr left (i + 1) (u32 (sum + swap_bytes_uint16 word)) h
        (omega arith)) in
    omega (
      arith,
      rest,
      sum_words-load-suc mem left (uptr + 2 * i),
      swap_bytes_uint16-eq word (omega (arith, h (uptr + 2 * i), h (uptr + 2 * i + 1))),
      h (uptr + 2 * i),
      h (uptr + 2 * i + 1),
    )

-- `calculateDataChecksum` sums the words of the bytes at `ptr`, also where their number is odd;
-- below 2 ^ 17 bytes the uint32 does not wrap.
pub calculate_data_checksum-sum_words :
    (mem : ℕ → ℕ) (ptr len : ℕ)
    → IsMemory mem
    → ptr + len < 2 ^ 64
    → len < 2 ^ 17
    → calculate_data_checksum mem ptr len 0 ≡ sum_words (load mem ptr len)
unfolding calculate_data_checksum
calculate_data_checksum-sum_words mem ptr len h fits short =
    let here : u64 (ptr + 0) ≡ ptr = omega arith in
    let start : ptr + 2 * 0 ≡ ptr = omega arith in
    let body = rw start at (sum_slice-sum_words mem ptr (len / 2) 0 0 h (omega arith)) in
    let bound = sum_words-load-le mem (len / 2) ptr h in
    elim (Bool-cases (bit_and len 1 == 0)) [
      | inl even ↦
          let whole : len ≡ 2 * (len / 2) = ground (arith, bit_and-low 1 len) in
          let spec = ap (λ n. sum_words (load mem ptr n)) whole in
          rw (here, even) (omega (arith, body, bound, spec))
      | inr odd ↦
          let whole : len ≡ 2 * (len / 2) + 1 = ground (arith, bit_and-low 1 len) in
          let spec = ap (λ n. sum_words (load mem ptr n)) whole in
          let last : u64 (ptr + (len - 1)) ≡ ptr + 2 * (len / 2) = omega arith in
          rw (here, odd, last)
            (omega (
              arith,
              body,
              bound,
              spec,
              sum_words-load_odd mem (len / 2) ptr,
              h (ptr + 2 * (len / 2)),
            ))
    ]
