-- ===== src/Tests/Samples.antt =====
-- Packets in a memory.
use nff_go.Base.{ℕ, ◌-◌, ◌%◌, ◌<◌, List, [], ◌∷◌, ◌++◌, get_or, arith}
use nff_go.Low.Mbuf.{Mbuf}
use nff_go.Packet.State.{Packet}
use nff_go.Packet.Parse.Layers.{IsPlaced}

-- The bytes stand from address 64 on.
abbrev pub memory : List ℕ → ℕ → ℕ
memory bytes a = get_or bytes (a - 64) 0 % 256

pub memory-lt : (bytes : List ℕ) (a : ℕ) → memory bytes a < 256
memory-lt bytes a = omega arith

abbrev pub buffer : Mbuf
buffer = record { buf_addr = 0; buf_len = 2176; data_off = 64; data_len = 60; pkt_len = 60 }

abbrev pub packet : List ℕ → Packet
packet bytes = record {
  mem = memory bytes;
  l3 = 0;
  l4 = 0;
  data_ptr = 0;
  ether = 64;
  c_mbuf = buffer;
}

pub packet-IsPlaced : (bytes : List ℕ) → IsPlaced (packet bytes)
packet-IsPlaced bytes = record { bytes = memory-lt bytes; below = omega arith }

abbrev pub addresses : List ℕ
addresses = 1 ∷ 2 ∷ 3 ∷ 4 ∷ 5 ∷ 6 ∷ 7 ∷ 8 ∷ 9 ∷ 10 ∷ 11 ∷ 12 ∷ []

-- 10.0.0.1:4660 to 10.0.0.2:80 over TCP.
abbrev pub ipv4_tcp : List ℕ
ipv4_tcp =
    0x45 ∷ 0 ∷ 0 ∷ 40 ∷ 0 ∷ 1 ∷ 0 ∷ 0 ∷ 64 ∷ 6 ∷ 0 ∷ 0 ∷ 10 ∷ 0 ∷ 0 ∷ 1 ∷ 10 ∷ 0 ∷ 0 ∷ 2 ∷ 0x12
    ∷ 0x34 ∷ 0 ∷ 80 ∷ 0 ∷ 0 ∷ 0 ∷ 1 ∷ 0 ∷ 0 ∷ 0 ∷ 0 ∷ 0x50 ∷ 2 ∷ 0 ∷ 0 ∷ 0 ∷ 0 ∷ 0 ∷ 0 ∷ []

abbrev pub tcp_frame : List ℕ
tcp_frame = addresses ++ (8 ∷ 0 ∷ ipv4_tcp)

abbrev pub tcp_packet : Packet
tcp_packet = packet tcp_frame

-- The same behind a VLAN tag.
abbrev pub tagged_frame : List ℕ
tagged_frame = addresses ++ (0x81 ∷ 0 ∷ 0 ∷ 7 ∷ 8 ∷ 0 ∷ ipv4_tcp)

abbrev pub tagged_packet : Packet
tagged_packet = packet tagged_frame
