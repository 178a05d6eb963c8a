-- ===== src/Packet/Arp/Made.antt =====
-- The ARP packets that are made say what they were made from.
use nff_go.Base.{
  ℕ, ◌+◌, ◌*◌, ◌^◌, ◌≤◌, ◌<◌, ◌≡◌, refl, sym, ap, ap₂, ◌∙◌, arith, true, List, length, inl, inr,
  u64,
}
use nff_go.Low.Mbuf.{append_mbuf}
use nff_go.Packet.Arp.{init_arp}
use nff_go.Packet.ByteOrder.{swap_bytes_uint16, ipv4_to_bytes}
use nff_go.Packet.ByteOrder.Laws.{swap_bytes_uint16-lt}
use nff_go.Packet.Init.{append_then, write_data}
use nff_go.Packet.Init.Writes.{
  IsBytes, write_data-other, load_bytes-same, load_bytes-write_data_other, load_bytes-write_data,
}
use nff_go.Packet.Parse.{unparsed, parse_l3, get_arp}
use nff_go.Packet.Parse.Layers.{IsPlaced}
use nff_go.Packet.State.{
  Packet, load_16, load_bytes, store_8, store_16, ether_d_addr, ether_s_addr, ether_type,
}

-- An Ethernet address.
pub record IsAddress (bs : List ℕ) : Type 0 where
  pub bytes : IsBytes bs
  pub size : length bs ≡ 6

-- What an ARP packet says. `GetARP` finds its header.
pub record IsArp (d_addr : List ℕ) (operation : ℕ) (sha : List ℕ) (spa : ℕ) (tha : List ℕ) (tpa : ℕ)
    (p : Packet) : Type 0 where
  pub header : get_arp p ≡ p.ether + 14
  pub place : p.l3 ≡ p.ether + 14
  pub hardware : load_16 p.mem p.l3 ≡ swap_bytes_uint16 1
  pub protocol : load_16 p.mem (p.l3 + 2) ≡ swap_bytes_uint16 0x0800
  pub lengths : (p.mem (p.l3 + 4) ≡ 6) × (p.mem (p.l3 + 5) ≡ 4)
  pub operates : load_16 p.mem (p.l3 + 6) ≡ swap_bytes_uint16 operation
  pub sender : load_bytes p.mem (p.l3 + 8) 6 ≡ sha
  pub sender_ip : load_bytes p.mem (p.l3 + 14) 4 ≡ ipv4_to_bytes spa
  pub target : load_bytes p.mem (p.l3 + 18) 6 ≡ tha
  pub target_ip : load_bytes p.mem (p.l3 + 24) 4 ≡ ipv4_to_bytes tpa
  pub source : ether_s_addr p ≡ sha
  pub dest : ether_d_addr p ≡ d_addr

ipv4_to_bytes-IsBytes : (v : ℕ) → IsBytes (ipv4_to_bytes v)
unfolding ipv4_to_bytes
ipv4_to_bytes-IsBytes v = (omega arith, (omega arith, (omega arith, (omega arith, tt))))

length-ipv4_to_bytes : (v : ℕ) → length (ipv4_to_bytes v) ≡ 4
unfolding ipv4_to_bytes
length-ipv4_to_bytes v = refl

-- A read of exactly the bytes that were written.
read_back :
    (mem : ℕ → ℕ) (a n : ℕ) (bs : List ℕ)
    → IsBytes bs
    → length bs ≡ n
    → load_bytes (write_data mem a bs) a n ≡ bs
read_back mem a n bs h size =
    ap (λ (k : ℕ). load_bytes (write_data mem a bs) a k) (sym size)
    ∙ load_bytes-write_data mem a bs h

module _ (mem : ℕ → ℕ) (e operation : ℕ) (d_addr sha tha : List ℕ) (spa tpa : ℕ)
    (to : IsAddress d_addr) (from : IsAddress sha) (target : IsAddress tha) where
  abbrev l3 : ℕ
  l3 = e + 14

  -- The memory after the types of the header were written, and after each field that follows.
  abbrev typed : ℕ → ℕ
  typed =
      store_8
        (store_8
          (store_16
            (store_16 (store_16 mem (e + 12) (swap_bytes_uint16 0x0806)) l3 (swap_bytes_uint16 1))
            (l3 + 2) (swap_bytes_uint16 0x0800))
          (l3 + 4) 6)
        (l3 + 5) 4

  abbrev addressed : ℕ → ℕ
  addressed = write_data (write_data typed (e + 6) sha) e d_addr

  abbrev operated : ℕ → ℕ
  operated = store_16 addressed (l3 + 6) (swap_bytes_uint16 operation)

  abbrev sent : ℕ → ℕ
  sent = write_data (write_data operated (l3 + 8) sha) (l3 + 14) (ipv4_to_bytes spa)

  abbrev finished : ℕ → ℕ
  finished = write_data (write_data sent (l3 + 18) tha) (l3 + 24) (ipv4_to_bytes tpa)

  finished-front : (x : ℕ) → x < l3 + 8 → finished x ≡ operated x
  finished-front x h =
      write_data-other _ (l3 + 24) (ipv4_to_bytes tpa) x (inl (omega (arith, h)))
      ∙ write_data-other sent (l3 + 18) tha x (inl (omega (arith, h)))
      ∙ write_data-other _ (l3 + 14) (ipv4_to_bytes spa) x (inl (omega (arith, h)))
      ∙ write_data-other operated (l3 + 8) sha x (inl (omega (arith, h)))

  addressed-behind : (x : ℕ) → e + 12 ≤ x → addressed x ≡ typed x
  addressed-behind x h =
      write_data-other _ e d_addr x (inr (omega (arith, h, to.size)))
      ∙ write_data-other typed (e + 6) sha x (inr (omega (arith, h, from.size)))

  -- The types that the header has, and the type before it.
  finished-typed : (x : ℕ) → e + 12 ≤ x → x < l3 + 6 → finished x ≡ typed x
  finished-typed x h k =
      finished-front x (omega (arith, k)) ∙ (ground (arith, addressed-behind x h, k))

  finished-operation : operation < 2 ^ 16 → load_16 finished (l3 + 6) ≡ swap_bytes_uint16 operation
  finished-operation h =
      let first = finished-front (l3 + 6) (omega arith) in
      let second = finished-front (l3 + 6 + 1) (omega arith) in
      ground (arith, first, second, swap_bytes_uint16-lt operation h)

  finished-sender : load_bytes finished (l3 + 8) 6 ≡ sha
  finished-sender =
      load_bytes-write_data_other _ (l3 + 24) (ipv4_to_bytes tpa) (l3 + 8) 6 (inl (omega arith))
      ∙ load_bytes-write_data_other sent (l3 + 18) tha (l3 + 8) 6 (inl (omega arith))
      ∙ load_bytes-write_data_other _ (l3 + 14) (ipv4_to_bytes spa) (l3 + 8) 6 (inl (omega arith))
      ∙ read_back operated (l3 + 8) 6 sha from.bytes from.size

  finished-sender_ip : load_bytes finished (l3 + 14) 4 ≡ ipv4_to_bytes spa
  finished-sender_ip =
      load_bytes-write_data_other _ (l3 + 24) (ipv4_to_bytes tpa) (l3 + 14) 4 (inl (omega arith))
      ∙ load_bytes-write_data_other sent (l3 + 18) tha (l3 + 14) 4 (inl (omega arith))
      ∙ read_back _ (l3 + 14) 4 (ipv4_to_bytes spa) (ipv4_to_bytes-IsBytes spa)
          (length-ipv4_to_bytes spa)

  finished-target : load_bytes finished (l3 + 18) 6 ≡ tha
  finished-target =
      load_bytes-write_data_other _ (l3 + 24) (ipv4_to_bytes tpa) (l3 + 18) 6 (inl (omega arith))
      ∙ read_back sent (l3 + 18) 6 tha target.bytes target.size

  finished-target_ip : load_bytes finished (l3 + 24) 4 ≡ ipv4_to_bytes tpa
  finished-target_ip =
      read_back _ (l3 + 24) 4 (ipv4_to_bytes tpa) (ipv4_to_bytes-IsBytes tpa)
        (length-ipv4_to_bytes tpa)

  -- The addresses of the Ethernet header.
  finished-ether : (a n : ℕ) → a + n ≤ e + 12 → load_bytes finished a n ≡ load_bytes addressed a n
  finished-ether a n h =
      load_bytes-same finished addressed a n
        (λ x f g. finished-front x (omega (arith, g, h)) ∙ (ground (arith, g, h)))

  finished-source : load_bytes finished (e + 6) 6 ≡ sha
  finished-source =
      finished-ether (e + 6) 6 (omega arith)
      ∙ load_bytes-write_data_other _ e d_addr (e + 6) 6 (inr (omega (arith, to.size)))
      ∙ read_back typed (e + 6) 6 sha from.bytes from.size

  finished-dest : load_bytes finished e 6 ≡ d_addr
  finished-dest = finished-ether e 6 (omega arith) ∙ read_back _ e 6 d_addr to.bytes to.size

-- The packet that `init_arp` makes of a packet whose buffer has room.
module _ (p : Packet) (placed : IsPlaced p) (operation : ℕ) (d_addr sha tha : List ℕ) (spa tpa : ℕ)
    (to : IsAddress d_addr) (from : IsAddress sha) (target : IsAddress tha) where
  open placed use {below}

  abbrev pub made : Packet
  made = record p {
    c_mbuf = (append_mbuf p.c_mbuf 42).0;
    l3 = p.ether + 14;
    mem = finished p.mem p.ether operation d_addr sha tha spa tpa to from target;
  }

  pub init_arp-made :
      (append_mbuf p.c_mbuf 42).1 ≡ true
      → init_arp p d_addr operation sha spa tha tpa ≡ (made, true)
  unfolding init_arp append_then parse_l3 unparsed
  init_arp-made h =
      let there : u64 (p.ether + 14) ≡ p.ether + 14 = omega (arith, below) in rw (h, there) refl

  made-typed :
      (x : ℕ)
      → p.ether + 12 ≤ x
      → x < p.ether + 14 + 6
      → made.mem x ≡ typed p.mem p.ether operation d_addr sha tha spa tpa to from target x
  made-typed = finished-typed p.mem p.ether operation d_addr sha tha spa tpa to from target

  made-word :
      (a : ℕ)
      → p.ether + 12 ≤ a
      → a + 1 < p.ether + 14 + 6
      → load_16 made.mem a
        ≡ load_16 (typed p.mem p.ether operation d_addr sha tha spa tpa to from target) a
  made-word a h k =
      ap₂ (λ (x y : ℕ). x + y * 256) (made-typed a h (omega (arith, k)))
        (made-typed (a + 1) (omega (arith, h)) (omega (arith, k)))

  made-type : ether_type made ≡ swap_bytes_uint16 0x0806
  made-type =
      made-word (p.ether + 12) (omega arith) (omega arith)
      ∙ (ground (arith, swap_bytes_uint16-lt 0x0806 (omega arith)))

  made-hardware : load_16 made.mem (p.ether + 14) ≡ swap_bytes_uint16 1
  made-hardware =
      made-word (p.ether + 14) (omega arith) (omega arith)
      ∙ (ground (arith, swap_bytes_uint16-lt 1 (omega arith)))

  made-protocol : load_16 made.mem (p.ether + 14 + 2) ≡ swap_bytes_uint16 0x0800
  made-protocol =
      made-word (p.ether + 14 + 2) (omega arith) (omega arith)
      ∙ (ground (arith, swap_bytes_uint16-lt 0x0800 (omega arith)))

  pub made-IsArp : operation < 2 ^ 16 → IsArp d_addr operation sha spa tha tpa made
  unfolding get_arp swap_bytes_uint16
  made-IsArp h = record {
    header = rw made-type refl;
    place = refl;
    hardware = made-hardware;
    protocol = made-protocol;
    lengths = (
      made-typed (p.ether + 14 + 4) (omega arith) (omega arith) ∙ (ground arith),
      made-typed (p.ether + 14 + 5) (omega arith) (omega arith) ∙ (ground arith),
    );
    operates = finished-operation p.mem p.ether operation d_addr sha tha spa tpa to from target h;
    sender = finished-sender p.mem p.ether operation d_addr sha tha spa tpa to from target;
    sender_ip = finished-sender_ip p.mem p.ether operation d_addr sha tha spa tpa to from target;
    target = finished-target p.mem p.ether operation d_addr sha tha spa tpa to from target;
    target_ip = finished-target_ip p.mem p.ether operation d_addr sha tha spa tpa to from target;
    source = finished-source p.mem p.ether operation d_addr sha tha spa tpa to from target;
    dest = finished-dest p.mem p.ether operation d_addr sha tha spa tpa to from target;
  }
