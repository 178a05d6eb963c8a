-- ===== src/Packet/Buffer/RoundTrip.antt =====
-- Bytes inserted at the head of a packet are taken out again with nothing lost.
use nff_go.Base.{
  ℕ, ◌+◌, ◌-◌, ◌^◌, ◌≡◌, ◌≤◌, ◌<◌, refl, ap, ◌∙◌, arith, Bool, true, false, ltb, if◌then◌else◌, u16,
  u32, dec_lt, sub16, sub32, sub64,
}
use nff_go.Low.Mbuf.{Mbuf, prepend_mbuf, adj_mbuf}
use nff_go.Packet.Buffer.{move_down, move_up, encapsulate_head, decapsulate_head}
use nff_go.Packet.Buffer.Moves.{between, move_down-eq, move_up-eq}
use nff_go.Packet.Checksum.Bytes.{IsMemory}
use nff_go.Packet.State.{Packet, ptr_add}

-- The result is the packet `p` with `length` bytes more behind the first `start`.
pub record Inserted (p : Packet) (start length : ℕ) (r : Packet × Bool) : Type 0 where
  pub done : r.1 ≡ true
  pub begins : r.0.ether + length ≡ p.ether
  pub longer : r.0.c_mbuf.data_len ≡ p.c_mbuf.data_len + length
  pub front : (j : ℕ) → j < start → r.0.mem (r.0.ether + j) ≡ p.mem (p.ether + j)
  pub behind : (x : ℕ) → p.ether + start ≤ x → r.0.mem x ≡ p.mem x

-- The result is the packet `p` again: its place, its buffer and its bytes.
pub record Restored (p : Packet) (r : Packet × Bool) : Type 0 where
  pub done : r.1 ≡ true
  pub place : r.0.ether ≡ p.ether
  pub buffer : r.0.c_mbuf ≡ p.c_mbuf
  pub same_bytes : (x : ℕ) → p.ether ≤ x → r.0.mem x ≡ p.mem x

-- The buffer has room for `length` bytes in front, nothing overflows, and the memory holds bytes.
pub record HasRoom (reserved : ℕ) (p : Packet) (start length : ℕ) : Type 0 where
  pub bytes : IsMemory p.mem
  pub some_bytes : 0 < length
  pub below : length ≤ p.ether
  pub above : p.ether + start + length < 2 ^ 64
  pub headroom : reserved + length ≤ p.c_mbuf.data_off
  pub data_off_fits : p.c_mbuf.data_off < 2 ^ 16
  pub data_len_fits : p.c_mbuf.data_len + length < 2 ^ 16
  pub pkt_len_fits : p.c_mbuf.pkt_len + length < 2 ^ 32

module _ (reserved : ℕ) (p : Packet) (start length : ℕ)
    (room : HasRoom reserved p start length) where
  open room use {
    bytes, some_bytes, below, above, headroom, data_off_fits, data_len_fits, pkt_len_fits,
  }

  -- The buffer and the place of the packet with the bytes inserted.
  abbrev pub grown : Mbuf
  grown = record p.c_mbuf {
    data_off = p.c_mbuf.data_off - length;
    data_len = p.c_mbuf.data_len + length;
    pkt_len = p.c_mbuf.pkt_len + length;
  }

  prepend_mbuf-grown : prepend_mbuf reserved p.c_mbuf length ≡ (grown, true)
  unfolding prepend_mbuf
  prepend_mbuf-grown =
      let small : ltb (sub16 p.c_mbuf.data_off (u16 reserved)) (u16 length) ≡ false =
        ground arith in
      let off : sub16 p.c_mbuf.data_off (u16 length) ≡ p.c_mbuf.data_off - length = omega arith in
      let len : u16 (p.c_mbuf.data_len + u16 length) ≡ p.c_mbuf.data_len + length = omega arith in
      let pkt : u32 (p.c_mbuf.pkt_len + u32 length) ≡ p.c_mbuf.pkt_len + length = omega arith in
      rw (small, off, len, pkt) refl

  adj_mbuf-grown : adj_mbuf grown length ≡ (p.c_mbuf, true)
  unfolding adj_mbuf
  adj_mbuf-grown =
      let small : ltb (p.c_mbuf.data_len + length) (u16 length) ≡ false = ground arith in
      let off : u16 (p.c_mbuf.data_off - length + u16 length) ≡ p.c_mbuf.data_off = omega arith in
      let len : sub16 (p.c_mbuf.data_len + length) (u16 length) ≡ p.c_mbuf.data_len = omega arith in
      let pkt : sub32 (p.c_mbuf.pkt_len + length) (u32 length) ≡ p.c_mbuf.pkt_len = omega arith in
      rw (small, off, len, pkt) refl

  abbrev pub lower : ℕ
  lower = p.ether - length

  pub encapsulate_head-grown : encapsulate_head reserved p start length ≡ (
    record p { c_mbuf = grown; ether = lower; mem = move_down p.mem lower length 0 start },
    true,
  )
  unfolding encapsulate_head
  encapsulate_head-grown =
      let place : sub64 p.ether length ≡ lower = omega arith in rw (prepend_mbuf-grown, place) refl

  abbrev pub moved : ℕ → ℕ
  moved = move_down p.mem lower length 0 start

  moved-eq :
      (x : ℕ) → moved x ≡ (if between lower (lower + start) x then p.mem (x + length) else p.mem x)
  moved-eq x =
      let from : lower + 0 ≡ lower = omega arith in
      rw from at
        (move_down-eq start 0 lower length p.mem x bytes (omega (arith, below, above)) some_bytes)

  pub moved-IsMemory : IsMemory moved
  moved-IsMemory x = ground (arith, moved-eq x, bytes x, bytes (x + length))

  pub moved-front : (j : ℕ) → j < start → moved (lower + j) ≡ p.mem (p.ether + j)
  moved-front j h =
      let there : lower + j + length ≡ p.ether + j = omega (arith, below) in
      ground (arith, moved-eq (lower + j), ap p.mem there, h)

  pub moved-behind : (x : ℕ) → p.ether + start ≤ x → moved x ≡ p.mem x
  moved-behind x h = ground (arith, moved-eq x, h, some_bytes, below)

  encapsulated-Inserted : Inserted p start length (encapsulate_head reserved p start length)
  encapsulated-Inserted = rw encapsulate_head-grown (record {
    done = refl;
    begins = omega (arith, below);
    longer = refl;
    front = moved-front;
    behind = moved-behind;
  })

  -- Whatever was written to the inserted bytes, taking them out restores the packet.
  module _ (mem : ℕ → ℕ) (mem_bytes : IsMemory mem)
      (front : (j : ℕ) → j < start → mem (lower + j) ≡ p.mem (p.ether + j))
      (behind : (x : ℕ) → p.ether + start ≤ x → mem x ≡ p.mem x) where
    shrunk :
        decapsulate_head (record p { c_mbuf = grown; ether = lower; mem = mem }) start length
        ≡ (record p { mem = move_up mem lower length start }, true)
    unfolding decapsulate_head
    shrunk =
        let place : ptr_add lower length ≡ p.ether = omega (arith, below, above) in
        rw (adj_mbuf-grown, place) refl

    up-eq : (x : ℕ) → p.ether ≤ x → move_up mem lower length start x ≡ p.mem x
    up-eq x h =
        let place : lower + length ≡ p.ether = omega (arith, below) in
        let up =
          rw place at
            (move_up-eq start lower length mem x mem_bytes (omega (arith, above)) some_bytes) in
        elim (dec_lt x (p.ether + start)) [
          | yes inner ↦
              let back : x - length ≡ lower + (x - p.ether) = omega (arith, h, below) in
              let same : p.ether + (x - p.ether) ≡ x = omega (arith, h) in
              let moved_byte =
                ap mem back ∙ front (x - p.ether) (omega (arith, inner, h)) ∙ ap p.mem same in
              ground (arith, up, inner, h, moved_byte)
          | no outer ↦ ground (arith, up, outer, behind x (omega (arith, outer)))
        ]

    pub shrunk-Restored :
        Restored p
          (decapsulate_head (record p { c_mbuf = grown; ether = lower; mem = mem }) start length)
    shrunk-Restored =
        rw shrunk (record { done = refl; place = refl; buffer = refl; same_bytes = up-eq })

-- With enough headroom `EncapsulateHead` succeeds and inserts bytes behind the first `start` ones, and
-- `DecapsulateHead` takes them out again: the packet has its old place, lengths and bytes.
pub decapsulate_head-encapsulate_head :
    (reserved : ℕ) (p : Packet) (start length : ℕ)
    → HasRoom reserved p start length
    → Inserted p start length (encapsulate_head reserved p start length)
      × Restored p (decapsulate_head (encapsulate_head reserved p start length).0 start length)
decapsulate_head-encapsulate_head reserved p start length room = (
  encapsulated-Inserted reserved p start length room,
  (rw (encapsulate_head-grown reserved p start length room) (
      shrunk-Restored reserved p start length room _ (moved-IsMemory reserved p start length room)
        (moved-front reserved p start length room) (moved-behind reserved p start length room))),
)
