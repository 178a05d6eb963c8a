-- ===== src/Packet/Buffer.antt =====
-- The functions that make room in a packet or close it: `EncapsulateHead` to
-- `PacketBytesChange` of packet/packet.go, and the VLAN and MPLS tags of packet/vlan.go and
-- packet/mpls.go.
pub mod Moves
pub mod RoundTrip
pub mod Tags
use nff_go.Base.{
  ℕ, zero, suc, ◌+◌, ◌-◌, ◌^◌, Bool, true, false, not, List, [], ◌∷◌, length, ltb, if◌then◌else◌,
  u64, sub64,
}
use nff_go.Common.Constants.{ether_len, vlan_len, mpls_len, vlan_number, mpls_number}
use nff_go.Low.Mbuf.{prepend_mbuf, append_mbuf, adj_mbuf, trim_mbuf}
use nff_go.Packet.ByteOrder.{swap_bytes_uint16, swap_bytes_uint32}
use nff_go.Packet.Parse.{unparsed}
use nff_go.Packet.State.{Packet, ptr_add, store_8, store_16, store_32}

-- The loop of `EncapsulateHead` at `i`, with `left` rounds to go.
unfoldable pub move_down : (ℕ → ℕ) → ℕ → ℕ → ℕ → ℕ → ℕ → ℕ
move_down mem ether length i zero = mem
move_down mem ether length i (suc left) =
    move_down (store_8 mem (ptr_add ether i) (mem (ptr_add ether (i + length)))) ether length
      (i + 1) left

unfoldable pub encapsulate_head : ℕ → Packet → ℕ → ℕ → Packet × Bool
unfolding prepend_mbuf move_down
encapsulate_head packet_struct_size p start length =
    let (mb, done) = prepend_mbuf packet_struct_size p.c_mbuf length in
    if not done
    then (record p { c_mbuf = mb }, false)
    else let ether = sub64 p.ether length in
      (record p { c_mbuf = mb; ether = ether; mem = move_down p.mem ether length 0 start }, true)

-- The loop of `DecapsulateHead`, from `start - 1` down to 0.
unfoldable pub move_up : (ℕ → ℕ) → ℕ → ℕ → ℕ → ℕ → ℕ
move_up mem ether length zero = mem
move_up mem ether length (suc i) =
    move_up (store_8 mem (ptr_add ether (i + length)) (mem (ptr_add ether i))) ether length i

unfoldable pub decapsulate_head : Packet → ℕ → ℕ → Packet × Bool
unfolding adj_mbuf move_up
decapsulate_head p start length =
    let (mb, done) = adj_mbuf p.c_mbuf length in
    if not done then (record p { c_mbuf = mb }, false) else (
      record p {
        c_mbuf = mb;
        ether = ptr_add p.ether length;
        mem = move_up p.mem p.ether length start;
      },
      true,
    )

-- The loop of `EncapsulateTail`, from the last byte down to `start + length`.
unfoldable pub move_tail : (ℕ → ℕ) → ℕ → ℕ → ℕ → ℕ → ℕ → ℕ
move_tail mem ether start length zero = mem
move_tail mem ether start length (suc left) =
    move_tail
      (store_8 mem (ptr_add ether (start + length + left)) (mem (ptr_add ether (start + left))))
      ether start length left

unfoldable pub encapsulate_tail : Packet → ℕ → ℕ → Packet × Bool
unfolding append_mbuf move_tail
encapsulate_tail p start length =
    let (mb, done) = append_mbuf p.c_mbuf length in
    if not done then (record p { c_mbuf = mb }, false) else (
      record p {
        c_mbuf = mb;
        mem = move_tail p.mem p.ether start length (mb.pkt_len - (start + length));
      },
      true,
    )

-- The loop runs up to the length before the bytes were taken off.
unfoldable pub decapsulate_tail : Packet → ℕ → ℕ → Packet × Bool
unfolding trim_mbuf move_down
decapsulate_tail p start length =
    let (mb, done) = trim_mbuf p.c_mbuf length in
    if not done then (record p { c_mbuf = mb }, false) else (
      record p {
        c_mbuf = mb;
        mem = move_down p.mem p.ether length start (p.c_mbuf.pkt_len - start);
      },
      true,
    )

-- The loop of `PacketBytesChange`.
unfoldable pub write_bytes : (ℕ → ℕ) → ℕ → ℕ → List ℕ → ℕ → ℕ
write_bytes mem ether at_offset [] = mem
write_bytes mem ether at_offset (b ∷ bs) =
    write_bytes (store_8 mem (ptr_add ether at_offset) b) ether (at_offset + 1) bs

unfoldable pub packet_bytes_change : Packet → ℕ → List ℕ → Packet × Bool
unfolding write_bytes
packet_bytes_change p start bytes =
    if ltb p.c_mbuf.pkt_len (u64 (start + length bytes))
    then (p, false)
    else (record p { mem = write_bytes p.mem p.ether start bytes }, true)

-- The tag goes in front of the type.
unfoldable pub add_vlan_tag : ℕ → Packet → ℕ → Packet × Bool
unfolding encapsulate_head unparsed swap_bytes_uint16
add_vlan_tag packet_struct_size p tag =
    let (q, done) = encapsulate_head packet_struct_size p (ether_len - 2) vlan_len in
    if not done then (q, false) else (
      record q {
        mem =
            store_16 (store_16 q.mem (q.ether + 12) (swap_bytes_uint16 vlan_number)) (unparsed q)
              (swap_bytes_uint16 tag);
      },
      true,
    )

unfoldable pub remove_vlan_tag : Packet → Packet × Bool
unfolding decapsulate_head
remove_vlan_tag p = decapsulate_head p (ether_len - 2) vlan_len

unfoldable pub add_mpls : ℕ → Packet → ℕ → Packet × Bool
unfolding encapsulate_head unparsed swap_bytes_uint16 swap_bytes_uint32
add_mpls packet_struct_size p mpls =
    let (q, done) = encapsulate_head packet_struct_size p ether_len mpls_len in
    if not done then (q, false) else (
      record q {
        mem =
            store_32 (store_16 q.mem (q.ether + 12) (swap_bytes_uint16 mpls_number)) (unparsed q)
              (swap_bytes_uint32 mpls);
      },
      true,
    )

unfoldable pub remove_mpls : Packet → Packet × Bool
unfolding decapsulate_head
remove_mpls p = decapsulate_head p ether_len mpls_len
