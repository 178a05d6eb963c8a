-- ===== src/Packet/State.antt =====
-- A packet: pointers into a memory of bytes, and its buffer. Pointers are addresses below 2 ^ 64,
-- and 0 is nil. Of the Go struct the field `Next`, which no function here reads, is left out.
use nff_go.Base.{ℕ, zero, suc, ◌+◌, ◌*◌, ◌%◌, ◌/◌, ◌^◌, List, [], ◌∷◌, ◌==◌, if◌then◌else◌, u64}
use nff_go.Low.Mbuf.{Mbuf}

pub record Packet : Type 0 where
  pub mem : ℕ → ℕ
  pub l3 : ℕ
  pub l4 : ℕ
  pub data_ptr : ℕ
  pub ether : ℕ
  pub c_mbuf : Mbuf

-- Pointer arithmetic on `uintptr`.
abbrev pub ptr_add : ℕ → ℕ → ℕ
ptr_add p n = u64 (p + n)

abbrev pub load_16 : (ℕ → ℕ) → ℕ → ℕ
load_16 mem a = mem a + mem (a + 1) * 256

abbrev pub load_32 : (ℕ → ℕ) → ℕ → ℕ
load_32 mem a = mem a + mem (a + 1) * 2 ^ 8 + mem (a + 2) * 2 ^ 16 + mem (a + 3) * 2 ^ 24

-- An array of `n` bytes at an address.
abbrev pub load_bytes : (ℕ → ℕ) → ℕ → ℕ → List ℕ
load_bytes mem a zero = []
load_bytes mem a (suc n) = mem a ∷ load_bytes mem (a + 1) n

abbrev pub store_8 : (ℕ → ℕ) → ℕ → ℕ → ℕ → ℕ
store_8 mem a v b = if b == a then v % 256 else mem b

abbrev pub store_16 : (ℕ → ℕ) → ℕ → ℕ → ℕ → ℕ
store_16 mem a v = store_8 (store_8 mem a v) (a + 1) (v / 256)

abbrev pub store_32 : (ℕ → ℕ) → ℕ → ℕ → ℕ → ℕ
store_32 mem a v = store_16 (store_16 mem a v) (a + 2) (v / 2 ^ 16)

-- The fields that the code reads through a pointer to a header.
abbrev pub ether_d_addr : Packet → List ℕ
ether_d_addr p = load_bytes p.mem p.ether 6

abbrev pub ether_s_addr : Packet → List ℕ
ether_s_addr p = load_bytes p.mem (p.ether + 6) 6

abbrev pub ether_type : Packet → ℕ
ether_type p = load_16 p.mem (p.ether + 12)
