-- ===== src/Packet/Gtp/Tunnel.antt =====
-- A packet that goes into a GTP tunnel comes out again with nothing lost.
use nff_go.Base.{ℕ, ◌+◌, ◌-◌, ◌^◌, ◌≡◌, ◌≤◌, ◌<◌, refl, arith, Bool, true, u16, sub64}
use nff_go.Packet.Buffer.{move_down}
use nff_go.Packet.Buffer.RoundTrip.{
  HasRoom, Restored, encapsulate_head-grown, moved-IsMemory, moved-front, moved-behind,
  shrunk-Restored, grown,
}
use nff_go.Packet.ByteOrder.{swap_bytes_uint16, swap_bytes_uint32}
use nff_go.Packet.ByteOrder.Laws.{swap_bytes_uint16-lt, swap_bytes_uint32-lt}
use nff_go.Packet.Checksum.Bytes.{IsMemory}
use nff_go.Packet.Gtp.{gtp_ipv4_fast_parsing, encapsulate_ipv4_gtp, decapsulate_ipv4_gtp}
use nff_go.Packet.Parse.{unparsed}
use nff_go.Packet.State.{Packet, ptr_add, load_16, load_32, store_8, store_16, store_32}

-- What `EncapsulateIPv4GTP` leaves: it succeeds, `GTPIPv4FastParsing` finds the header of a user
-- message with the identifier and the length of what stood behind the Ethernet header, the
-- addresses of that header are kept, and what stood behind it now stands behind the GTP header.
pub record IsTunneled (p : Packet) (teid : ℕ) (r : Packet × Bool) : Type 0 where
  pub done : r.1 ≡ true
  pub header_type : r.0.mem (gtp_ipv4_fast_parsing r.0) ≡ 0x30
  pub message_type : r.0.mem (gtp_ipv4_fast_parsing r.0 + 1) ≡ 255
  pub message_length :
      load_16 r.0.mem (gtp_ipv4_fast_parsing r.0 + 2) ≡ swap_bytes_uint16 (p.c_mbuf.pkt_len - 14)
  pub identifier : load_32 r.0.mem (gtp_ipv4_fast_parsing r.0 + 4) ≡ swap_bytes_uint32 teid
  pub payload : gtp_ipv4_fast_parsing r.0 + 8 ≡ p.ether + 14
  pub front : (j : ℕ) → j < 14 → r.0.mem (r.0.ether + j) ≡ p.mem (p.ether + j)
  pub behind : (x : ℕ) → p.ether + 14 ≤ x → r.0.mem x ≡ p.mem x

module _ (reserved : ℕ) (p : Packet) (teid : ℕ) (room : HasRoom reserved p 14 36)
    (addressed : 14 ≤ p.c_mbuf.pkt_len) (short : p.c_mbuf.pkt_len < 2 ^ 16) where
  open room use {bytes, below, above}

  abbrev low : ℕ
  low = p.ether - 36

  abbrev before : ℕ → ℕ
  before = move_down p.mem low 36 0 14

  abbrev tunneled : ℕ → ℕ
  tunneled =
      store_32
        (store_16 (store_8 (store_8 before (low + 42) 0x30) (low + 42 + 1) 255) (low + 42 + 2)
          (swap_bytes_uint16 (p.c_mbuf.pkt_len - 14)))
        (low + 42 + 4) (swap_bytes_uint32 teid)

  abbrev inside : Packet
  inside = record p { c_mbuf = grown reserved p 14 36 room; ether = low; mem = tunneled }

  encapsulate_ipv4_gtp-eq : encapsulate_ipv4_gtp reserved p teid ≡ (inside, true)
  unfolding encapsulate_ipv4_gtp unparsed
  encapsulate_ipv4_gtp-eq =
      let place : ptr_add (ptr_add (ptr_add low 14) 20) 8 ≡ low + 42 =
        omega (arith, below, above) in
      let size : u16 (sub64 p.c_mbuf.pkt_len 14) ≡ p.c_mbuf.pkt_len - 14 = omega arith in
      rw (encapsulate_head-grown reserved p 14 36 room, place, size) refl

  gtp-eq : gtp_ipv4_fast_parsing inside ≡ low + 42
  unfolding gtp_ipv4_fast_parsing unparsed
  gtp-eq = omega (arith, below, above)

  tunneled-IsMemory : IsMemory tunneled
  tunneled-IsMemory x = ground (arith, moved-IsMemory reserved p 14 36 room x)

  tunneled-front : (j : ℕ) → j < 14 → tunneled (low + j) ≡ p.mem (p.ether + j)
  tunneled-front j h = ground (arith, h, moved-front reserved p 14 36 room j h)

  tunneled-behind : (x : ℕ) → p.ether + 14 ≤ x → tunneled x ≡ p.mem x
  tunneled-behind x h = ground (arith, h, below, moved-behind reserved p 14 36 room x h)

  tunneled-length : load_16 tunneled (low + 42 + 2) ≡ swap_bytes_uint16 (p.c_mbuf.pkt_len - 14)
  tunneled-length =
      ground (arith, swap_bytes_uint16-lt (p.c_mbuf.pkt_len - 14) (omega (arith, short)))

  tunneled-identifier : teid < 2 ^ 32 → load_32 tunneled (low + 42 + 4) ≡ swap_bytes_uint32 teid
  tunneled-identifier h = ground (arith, swap_bytes_uint32-lt teid h)

  inside-IsTunneled : teid < 2 ^ 32 → IsTunneled p teid (inside, true)
  inside-IsTunneled h = record {
    done = refl;
    header_type = rw gtp-eq (ground arith);
    message_type = rw gtp-eq (ground arith);
    message_length = rw gtp-eq tunneled-length;
    identifier = rw gtp-eq (tunneled-identifier h);
    payload = gtp-eq-behind;
    front = tunneled-front;
    behind = tunneled-behind;
  }
    where
      gtp-eq-behind : gtp_ipv4_fast_parsing inside + 8 ≡ p.ether + 14
      gtp-eq-behind = omega (arith, gtp-eq, below)

  restored : Restored p (decapsulate_ipv4_gtp inside)
  unfolding decapsulate_ipv4_gtp
  restored =
      let r =
        shrunk-Restored reserved p 14 36 room tunneled tunneled-IsMemory tunneled-front
          tunneled-behind in
      rw r.done
        (record { done = refl; place = r.place; buffer = r.buffer; same_bytes = r.same_bytes })

-- With enough headroom, a packet of at least 14 and fewer than 2 ^ 16 bytes and an identifier of 32
-- bits: `EncapsulateIPv4GTP` succeeds, `GTPIPv4FastParsing` finds the header that it wrote, with the
-- identifier and the length of the payload, and `DecapsulateIPv4GTP` gives the packet back: its
-- place, its buffer and its bytes.
pub decapsulate_ipv4_gtp-encapsulate_ipv4_gtp :
    (reserved : ℕ) (p : Packet) (teid : ℕ)
    → HasRoom reserved p 14 36
    → 14 ≤ p.c_mbuf.pkt_len
    → p.c_mbuf.pkt_len < 2 ^ 16
    → teid < 2 ^ 32
    → IsTunneled p teid (encapsulate_ipv4_gtp reserved p teid)
      × Restored p (decapsulate_ipv4_gtp (encapsulate_ipv4_gtp reserved p teid).0)
decapsulate_ipv4_gtp-encapsulate_ipv4_gtp reserved p teid room addressed short h =
    rw (encapsulate_ipv4_gtp-eq reserved p teid room addressed short) (
      inside-IsTunneled reserved p teid room addressed short h,
      restored reserved p teid room addressed short,
    )
