-- ===== src/Packet/ByteOrder/Laws.antt =====
-- The byte swaps are involutions that read the bytes in the other order.
use nff_go.Base.{
  ℕ, ◌+◌, ◌*◌, ◌/◌, ◌%◌, ◌^◌, ◌<◌, ◌≡◌, ap, ◌∙◌, List, [], ◌∷◌, arith, bit_and, bit_or, u16, u32,
  ◌<<<◌, ◌>>>◌,
}
use nff_go.Base.Bits.{bit_or-add, bit_and-low, bit_and-high}
use nff_go.Packet.ByteOrder.{swap_bytes_uint16, swap_bytes_uint32, bytes_to_ipv4, ipv4_to_bytes}

-- The swap in arithmetic: the two bytes change places.
pub swap_bytes_uint16-eq : (x : ℕ) → x < 2 ^ 16 → swap_bytes_uint16 x ≡ x % 256 * 256 + x / 256
unfolding swap_bytes_uint16
swap_bytes_uint16-eq x h =
    let cut : u16 (x <<< 8) ≡ x % 256 * 2 ^ 8 = omega arith in
    rw cut (bit_or-add 8 (x % 256) (x / 256) (omega arith))

pub swap_bytes_uint16-lt : (x : ℕ) → x < 2 ^ 16 → swap_bytes_uint16 x < 2 ^ 16
swap_bytes_uint16-lt x h = omega (arith, swap_bytes_uint16-eq x h)

pub swap_bytes_uint16_self : (x : ℕ) → x < 2 ^ 16 → swap_bytes_uint16 (swap_bytes_uint16 x) ≡ x
swap_bytes_uint16_self x h = omega (
  arith,
  swap_bytes_uint16-eq x h,
  swap_bytes_uint16-eq (swap_bytes_uint16 x) (swap_bytes_uint16-lt x h),
)

-- The mask of one byte of a word.
mask_byte : (k x : ℕ) → bit_and x (255 * 2 ^ k) ≡ x / 2 ^ k % 256 * 2 ^ k
mask_byte k x = bit_and-high k x 255 ∙ ap (λ (t : ℕ). t * 2 ^ k) (bit_and-low 8 (x / 2 ^ k))

-- Four bytes joined by `|`.
join_bytes :
    (a b c d : ℕ)
    → b < 256
    → c < 256
    → d < 256
    → bit_or (bit_or (bit_or (a * 2 ^ 24) (b * 2 ^ 16)) (c * 2 ^ 8)) d
      ≡ a * 2 ^ 24 + b * 2 ^ 16 + c * 2 ^ 8 + d
join_bytes a b c d hb hc hd =
    let two = bit_or-add 24 a (b * 2 ^ 16) (omega arith) in
    let pair : a * 2 ^ 24 + b * 2 ^ 16 ≡ (a * 2 ^ 8 + b) * 2 ^ 16 = omega arith in
    let three = bit_or-add 16 (a * 2 ^ 8 + b) (c * 2 ^ 8) (omega arith) in
    let triple : (a * 2 ^ 8 + b) * 2 ^ 16 + c * 2 ^ 8 ≡ (a * 2 ^ 16 + b * 2 ^ 8 + c) * 2 ^ 8 =
      omega arith in
    let four = bit_or-add 8 (a * 2 ^ 16 + b * 2 ^ 8 + c) d (omega arith) in
    rw (two, pair, three, triple, four) (omega arith)

pub swap_bytes_uint32-eq :
    (x : ℕ)
    → x < 2 ^ 32
    → swap_bytes_uint32 x
      ≡ x % 256 * 2 ^ 24 + x / 2 ^ 8 % 256 * 2 ^ 16 + x / 2 ^ 16 % 256 * 2 ^ 8 + x / 2 ^ 24
unfolding swap_bytes_uint32
swap_bytes_uint32-eq x h =
    let b0 : u32 (bit_and x 0x000000ff <<< 24) ≡ x % 256 * 2 ^ 24 =
      omega (arith, bit_and-low 8 x) in
    let b1 : u32 (bit_and x 0x0000ff00 <<< 8) ≡ x / 2 ^ 8 % 256 * 2 ^ 16 =
      omega (arith, mask_byte 8 x) in
    let b2 : bit_and x 0x00ff0000 >>> 8 ≡ x / 2 ^ 16 % 256 * 2 ^ 8 =
      omega (arith, mask_byte 16 x) in
    let b3 : bit_and x 0xff000000 >>> 24 ≡ x / 2 ^ 24 = omega (arith, mask_byte 24 x) in
    rw (b0, b1, b2, b3)
      (join_bytes (x % 256) (x / 2 ^ 8 % 256) (x / 2 ^ 16 % 256) (x / 2 ^ 24) (omega arith)
        (omega arith) (omega arith))

pub swap_bytes_uint32-lt : (x : ℕ) → x < 2 ^ 32 → swap_bytes_uint32 x < 2 ^ 32
swap_bytes_uint32-lt x h = omega (arith, swap_bytes_uint32-eq x h)

-- Both swaps undo themselves on the values of their type.
pub swap_bytes_self :
    (x y : ℕ)
    → x < 2 ^ 16
    → y < 2 ^ 32
    → (swap_bytes_uint16 (swap_bytes_uint16 x) ≡ x) × (swap_bytes_uint32 (swap_bytes_uint32 y) ≡ y)
swap_bytes_self x y h k = (
  swap_bytes_uint16_self x h,
  omega (
    arith,
    swap_bytes_uint32-eq y k,
    swap_bytes_uint32-eq (swap_bytes_uint32 y) (swap_bytes_uint32-lt y k),
  ),
)

pub bytes_to_ipv4-eq :
    (a b c d : ℕ)
    → a < 256
    → b < 256
    → c < 256
    → d < 256
    → bytes_to_ipv4 a b c d ≡ d * 2 ^ 24 + c * 2 ^ 16 + b * 2 ^ 8 + a
unfolding bytes_to_ipv4
bytes_to_ipv4-eq a b c d ha hb hc hd =
    let top : u32 (d <<< 24) ≡ d * 2 ^ 24 = omega arith in
    let mid : u32 (c <<< 16) ≡ c * 2 ^ 16 = omega arith in
    let low : u32 (b <<< 8) ≡ b * 2 ^ 8 = omega arith in
    rw (top, mid, low) (join_bytes d c b a hc hb ha)

cons₄_path :
    {a b c d a' b' c' d' : ℕ}
    → a ≡ a'
    → b ≡ b'
    → c ≡ c'
    → d ≡ d'
    → ◌≡◌ {A = List ℕ} (a ∷ b ∷ c ∷ d ∷ []) (a' ∷ b' ∷ c' ∷ d' ∷ [])
cons₄_path p q r s = cc

-- An IPv4 address as a number and as four bytes: `IPv4ToBytes` gives back the four bytes that
-- `BytesToIPv4` packed, and their swap is the address read in network order.
pub ipv4_to_bytes-bytes_to_ipv4 :
    (a b c d : ℕ)
    → a < 256
    → b < 256
    → c < 256
    → d < 256
    → (ipv4_to_bytes (bytes_to_ipv4 a b c d) ≡ a ∷ b ∷ c ∷ d ∷ [])
      × (swap_bytes_uint32 (bytes_to_ipv4 a b c d) ≡ a * 2 ^ 24 + b * 2 ^ 16 + c * 2 ^ 8 + d)
unfolding ipv4_to_bytes
ipv4_to_bytes-bytes_to_ipv4 a b c d ha hb hc hd =
    let e = bytes_to_ipv4-eq a b c d ha hb hc hd in
    (
      rw e (cons₄_path (omega arith) (omega arith) (omega arith) (omega arith)),
      omega (arith, e, swap_bytes_uint32-eq (bytes_to_ipv4 a b c d) (omega arith)),
    )
