-- ===== src/Packet/Init/Reparsed.antt =====
-- A packet that was made is one that parsing takes apart into the same pointers.
use nff_go.Base.{
  ℕ, ◌+◌, ◌^◌, ◌<◌, ◌≡◌, ◌≢◌, refl, ap, ◌∙◌, arith, Bool, true, false, u64, u16, Bool-cases, inl,
  inr,
}
use nff_go.Low.Mbuf.{append_mbuf}
use nff_go.Packet.ByteOrder.{swap_bytes_uint16}
use nff_go.Packet.Parse.{unparsed, parse_l3, parse_l4_for_ipv4, tcp_data, parse_data}
use nff_go.Packet.Parse.Layers.{IsPlaced, parsed, finish, l4_data, parse_data-parsed}
use nff_go.Packet.Init.{
  append_then, fill_ipv4_default, set_ether_type, set_tcp_data, clear_checksum,
  init_empty_ipv4_tcp_packet,
}
use nff_go.Packet.State.{Packet, store_8, store_16}

store_8-same : (mem : ℕ → ℕ) (a v : ℕ) → v < 256 → store_8 mem a v a ≡ v
store_8-same mem a v h = ground arith

store_8-other : (mem : ℕ → ℕ) (a v b : ℕ) → b ≢ a → store_8 mem a v b ≡ mem b
store_8-other mem a v b h = ground arith

-- The bytes of an IPv4 header and what follows it, as the writes leave them.
module _ (mem : ℕ → ℕ) (e total : ℕ) where
  abbrev typed : ℕ → ℕ
  typed = store_16 mem (e + 12) 8

  abbrev headed : ℕ → (ℕ → ℕ)
  headed proto =
      store_8
        (store_8 (store_16 (store_8 typed (e + 14) 0x45) (e + 14 + 2) total) (e + 14 + 9) proto)
        (e + 14 + 8) 64

  headed-type_0 : (proto : ℕ) → headed proto (e + 12) ≡ 8
  headed-type_0 proto = ground arith

  headed-type_1 : (proto : ℕ) → headed proto (e + 13) ≡ 0
  headed-type_1 proto = ground arith

  headed-version : (proto : ℕ) → headed proto (e + 14) ≡ 0x45
  headed-version proto = ground arith

  headed-proto : (proto : ℕ) → proto < 256 → headed proto (e + 14 + 9) ≡ proto
  headed-proto proto h = ground arith

-- The packet with the header of the third layer written, and where the fourth one begins.
module _ (q : Packet) (fits : q.ether + 1024 < 2 ^ 64) (total proto : ℕ) where
  abbrev layer3 : Packet
  layer3 = record q {
    l3 = q.ether + 14;
    mem = headed q.mem q.ether (swap_bytes_uint16 total) proto;
  }

  abbrev layer4 : Packet
  layer4 = record layer3 { l4 = q.ether + 34 }

  filled-eq : fill_ipv4_default (parse_l3 (set_ether_type q 0x0800)) total proto ≡ layer3
  unfolding fill_ipv4_default parse_l3 unparsed set_ether_type swap_bytes_uint16
  filled-eq = let there : u64 (q.ether + 14) ≡ q.ether + 14 = omega arith in rw there refl

  layer4-eq : parse_l4_for_ipv4 layer3 ≡ layer4
  unfolding parse_l4_for_ipv4
  layer4-eq =
      let version = headed-version q.mem q.ether (swap_bytes_uint16 total) proto in
      let there : u64 (q.ether + 14 + 20) ≡ q.ether + 34 = omega arith in rw (version, there) refl

  abbrev tcp_made : Packet
  tcp_made = record layer4 {
    mem = store_8 layer4.mem (q.ether + 34 + 12) 0x50;
    data_ptr = q.ether + 54;
  }

  tcp_made-eq : set_tcp_data layer4 ≡ tcp_made
  unfolding set_tcp_data tcp_data
  tcp_made-eq =
      let offset : store_8 layer4.mem (q.ether + 34 + 12) 0x50 (q.ether + 34 + 12) ≡ 0x50 =
        store_8-same layer4.mem (q.ether + 34 + 12) 0x50 (omega arith) in
      let there : u64 (q.ether + 34 + 20) ≡ q.ether + 54 = omega arith in rw (offset, there) refl

-- Parsing a packet with the pointers and bytes of an IPv4 and a TCP header finds them.
tcp-reparsed :
    (q : Packet)
    → IsPlaced q
    → q.mem (q.ether + 12) ≡ 8
    → q.mem (q.ether + 13) ≡ 0
    → q.mem (q.ether + 14) ≡ 0x45
    → q.mem (q.ether + 14 + 9) ≡ 6
    → q.mem (q.ether + 34 + 12) ≡ 0x50
    → q.l3 ≡ q.ether + 14
    → q.l4 ≡ q.ether + 34
    → q.data_ptr ≡ q.ether + 54
    → parse_data q ≡ (q, true)
unfolding parsed finish l4_data
tcp-reparsed q w t0 t1 version proto offset l3 l4 d =
    let high : q.ether + 12 + 1 ≡ q.ether + 13 = omega arith in
    let four : q.ether + 14 + 20 ≡ q.ether + 34 = omega arith in
    let behind : q.ether + 34 + 20 ≡ q.ether + 54 = omega arith in
    parse_data-parsed q w
    ∙ (rw (t0, high, t1, version, four, proto, offset, behind, ← l3, ← l4, ← d) refl)

false-ne-true : false ≡ true → ⊥
false-ne-true e = cc

pub append_then-room :
    (p : Packet) (size : ℕ) (fill : Packet → Packet)
    → (append_then p size fill).1 ≡ true
    → append_then p size fill ≡ (fill (record p { c_mbuf = (append_mbuf p.c_mbuf size).0 }), true)
unfolding append_then
append_then-room p size fill h = elim (Bool-cases (append_mbuf p.c_mbuf size).1) [
  | inl e ↦ rw e refl
  | inr e ↦ absurd (false-ne-true (rw e at h))
]

cleared-reparsed :
    (hw : Bool) (q : Packet) (total : ℕ)
    → (w : IsPlaced q)
    → parse_data (clear_checksum hw (tcp_made q w.below total 6))
      ≡ (clear_checksum hw (tcp_made q w.below total 6), true)
unfolding clear_checksum
cleared-reparsed true q total w =
    tcp-reparsed (clear_checksum true (tcp_made q w.below total 6))
      (record { bytes = λ a. ground (arith, w.bytes a); below = w.below }) (ground arith)
      (ground arith) (ground arith) (ground arith) (ground arith) refl refl refl
cleared-reparsed false q total w =
    tcp-reparsed (clear_checksum false (tcp_made q w.below total 6))
      (record { bytes = λ a. ground (arith, w.bytes a); below = w.below }) (ground arith)
      (ground arith) (ground arith) (ground arith) (ground arith) refl refl refl

-- A TCP packet over IPv4 that was made, with any payload for which the buffer has room and with or
-- without the checksums left to the network card, parses: `ParseData` finds TCP in it, and changes
-- none of its pointers and bytes.
pub parse_data-init_empty_ipv4_tcp_packet :
    (hw : Bool) (p : Packet) (pl_size : ℕ)
    → IsPlaced p
    → (init_empty_ipv4_tcp_packet hw p pl_size).1 ≡ true
    → parse_data ((init_empty_ipv4_tcp_packet hw p pl_size).0)
      ≡ ((init_empty_ipv4_tcp_packet hw p pl_size).0, true)
unfolding init_empty_ipv4_tcp_packet
parse_data-init_empty_ipv4_tcp_packet hw p pl_size w h =
    let size = u64 (pl_size + 14 + 20 + 20) in
    let total = u16 (20 + 20 + pl_size) in
    let q = record p { c_mbuf = (append_mbuf p.c_mbuf size).0 } in
    let placed : IsPlaced q = record { bytes = w.bytes; below = w.below } in
    let fill = λ (t : Packet). clear_checksum hw (
      set_tcp_data
        (parse_l4_for_ipv4 (fill_ipv4_default (parse_l3 (set_ether_type t 0x0800)) total 6))) in
    let made = append_then-room p size fill h in
    let filled : fill q ≡ clear_checksum hw (tcp_made q w.below total 6) = ap (clear_checksum hw) (
      ap (λ t. set_tcp_data (parse_l4_for_ipv4 t)) (filled-eq q w.below total 6)
      ∙ ap set_tcp_data (layer4-eq q w.below total 6)
      ∙ tcp_made-eq q w.below total 6) in
    rw (made, filled) (cleared-reparsed hw q total placed)
