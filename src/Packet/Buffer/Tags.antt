-- ===== src/Packet/Buffer/Tags.antt =====
-- A VLAN tag that is added to a packet is removed again with nothing lost.
use nff_go.Base.{ℕ, ◌+◌, ◌-◌, ◌^◌, ◌≡◌, ◌≤◌, ◌<◌, refl, arith, Bool, true}
use nff_go.Packet.Buffer.{move_down, add_vlan_tag, remove_vlan_tag}
use nff_go.Packet.Buffer.Moves.{store_8-IsMemory}
use nff_go.Packet.Checksum.Bytes.{IsMemory}
use nff_go.Packet.State.{Packet, ptr_add, store_16}
use nff_go.Packet.Parse.{unparsed}
use nff_go.Packet.ByteOrder.{swap_bytes_uint16}
use nff_go.Packet.Buffer.RoundTrip.{
  HasRoom, Restored, encapsulate_head-grown, moved-IsMemory, moved-front, moved-behind,
  shrunk-Restored, grown,
}
use nff_go.Packet.State.{load_16, ether_type}
use nff_go.Packet.ByteOrder.Laws.{swap_bytes_uint16-lt}

module _ (reserved : ℕ) (p : Packet) (tag : ℕ) (room : HasRoom reserved p 12 4) where
  open room use {bytes, below, above}

  abbrev low : ℕ
  low = p.ether - 4

  abbrev before : ℕ → ℕ
  before = move_down p.mem low 4 0 12

  abbrev tagged : ℕ → ℕ
  tagged =
      store_16 (store_16 before (low + 12) (swap_bytes_uint16 0x8100)) (low + 14)
        (swap_bytes_uint16 tag)

  add_vlan_tag-eq :
      add_vlan_tag reserved p tag
      ≡ (record p { c_mbuf = grown reserved p 12 4 room; ether = low; mem = tagged }, true)
  unfolding add_vlan_tag unparsed
  add_vlan_tag-eq =
      let place : ptr_add low 14 ≡ low + 14 = omega (arith, below, above) in
      rw (encapsulate_head-grown reserved p 12 4 room, place) refl

  tagged-IsMemory : IsMemory tagged
  tagged-IsMemory = store_8-IsMemory _ _ _ (
      store_8-IsMemory _ _ _
        (store_8-IsMemory _ _ _ (store_8-IsMemory _ _ _ (moved-IsMemory reserved p 12 4 room))))

  tagged-front : (j : ℕ) → j < 12 → tagged (low + j) ≡ p.mem (p.ether + j)
  tagged-front j h = ground (arith, h, moved-front reserved p 12 4 room j h)

  tagged-behind : (x : ℕ) → p.ether + 12 ≤ x → tagged x ≡ p.mem x
  tagged-behind x h = ground (arith, h, below, moved-behind reserved p 12 4 room x h)

  tagged-type : load_16 tagged (low + 12) ≡ swap_bytes_uint16 0x8100
  tagged-type = ground (arith, swap_bytes_uint16-lt 0x8100 (omega arith))

  tagged-tag : tag < 2 ^ 16 → load_16 tagged (low + 14) ≡ swap_bytes_uint16 tag
  tagged-tag h = ground (arith, swap_bytes_uint16-lt tag h)

-- What `AddVLANTag` leaves: it succeeds, the type is 0x8100 and behind it stands the tag.
pub record IsTagged (tag : ℕ) (r : Packet × Bool) : Type 0 where
  pub done : r.1 ≡ true
  pub type_is_vlan : ether_type r.0 ≡ swap_bytes_uint16 0x8100
  pub tci : load_16 r.0.mem (r.0.ether + 14) ≡ swap_bytes_uint16 tag

-- With enough headroom `AddVLANTag` succeeds and writes the type 0x8100 and the 16-bit tag, and
-- `RemoveVLANTag` then gives the packet back: its place, its buffer and its bytes.
pub remove_vlan_tag-add_vlan_tag :
    (reserved : ℕ) (p : Packet) (tag : ℕ)
    → HasRoom reserved p 12 4
    → tag < 2 ^ 16
    → IsTagged tag (add_vlan_tag reserved p tag)
      × Restored p (remove_vlan_tag (add_vlan_tag reserved p tag).0)
unfolding remove_vlan_tag
remove_vlan_tag-add_vlan_tag reserved p tag room fits = rw (add_vlan_tag-eq reserved p tag room) (
  record {
    done = refl;
    type_is_vlan = tagged-type reserved p tag room;
    tci = tagged-tag reserved p tag room fits;
  },
  shrunk-Restored reserved p 12 4 room _ (tagged-IsMemory reserved p tag room)
      (tagged-front reserved p tag room) (tagged-behind reserved p tag room),
)
