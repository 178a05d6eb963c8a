-- ===== src/Packet/Acl/Match/Covers.antt =====
-- When a rule of packet/acl.go covers a packet, and which rule of a list is the first that does.
use nff_go.Base.{ℕ, ◌+◌, ◌≤◌, ◌<◌, ◌≡◌, bit_and, true, List, [], ◌∷◌, get_or}
use nff_go.Packet.Acl.Rules.{L2Rule, L4Rule, L3Rule4, L3Rule6}
use nff_go.Packet.ByteOrder.{swap_bytes_uint16}
use nff_go.Packet.Parse.{parse_l4_for_ipv4, parse_l4_for_ipv6}
use nff_go.Packet.State.{Packet, load_16, load_32, ether_type, ether_s_addr, ether_d_addr}

-- The output of the first of some rules that has a property, or 0 where none has it.
pub data FirstMatch {A : Type 0} (P : A → Type 0) (output : A → ℕ) : List A → ℕ → Type 0 where
  no_rule : FirstMatch P output [] 0
  here : {a : A} {rest : List A} → P a → FirstMatch P output (a ∷ rest) (output a)
  there :
      {a : A} {rest : List A} {n : ℕ}
      → ¬ P a
      → FirstMatch P output rest n
      → FirstMatch P output (a ∷ rest) n

-- Two values agree on the bits of a mask.
abbrev pub Agree : ℕ → ℕ → ℕ → Type 0
Agree mask a b = bit_and a mask ≡ bit_and b mask

-- The ports of the fourth layer at `l4`, in network order, lie in a rule's ranges.
pub record HasPorts (mem : ℕ → ℕ) (l4 : ℕ) (r : L4Rule) : Type 0 where
  pub src_low : r.src_port_min ≤ swap_bytes_uint16 (load_16 mem l4)
  pub src_high : swap_bytes_uint16 (load_16 mem l4) ≤ r.src_port_max
  pub dst_low : r.dst_port_min ≤ swap_bytes_uint16 (load_16 mem (l4 + 2))
  pub dst_high : swap_bytes_uint16 (load_16 mem (l4 + 2)) ≤ r.dst_port_max

pub record Covers2 (p : Packet) (r : L2Rule) : Type 0 where
  pub source : r.s_addr_not_any ≡ true → r.s_addr ≡ ether_s_addr p
  pub destination : r.d_addr_not_any ≡ true → r.d_addr ≡ ether_d_addr p
  pub protocol : Agree r.id_mask r.id (swap_bytes_uint16 (ether_type p))

-- A rule covers the IPv4 packet whose third layer is at `L3`.
pub record Covers4 (p : Packet) (r : L3Rule4) : Type 0 where
  pub source : Agree r.src_mask r.src_addr (load_32 p.mem (p.l3 + 12))
  pub destination : Agree r.dst_mask r.dst_addr (load_32 p.mem (p.l3 + 16))
  pub protocol : Agree r.l4.id_mask r.l4.id (p.mem (p.l3 + 9))
  pub ports : r.l4.valid ≡ true → HasPorts p.mem (parse_l4_for_ipv4 p).l4 r.l4

pub record Covers6 (p : Packet) (r : L3Rule6) : Type 0 where
  pub source :
      (i : ℕ)
      → i < 16
      → Agree (get_or r.src_mask i 0) (get_or r.src_addr i 0) (p.mem (p.l3 + 8 + i))
  pub destination :
      (i : ℕ)
      → i < 16
      → Agree (get_or r.dst_mask i 0) (get_or r.dst_addr i 0) (p.mem (p.l3 + 24 + i))
  pub protocol : Agree r.l4.id_mask r.l4.id (p.mem (p.l3 + 6))
  pub ports : HasPorts p.mem (parse_l4_for_ipv6 p).l4 r.l4
