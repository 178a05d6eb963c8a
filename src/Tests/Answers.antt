-- ===== src/Tests/Answers.antt =====
-- A packet in a tunnel, and requests that are answered.
use nff_go.Base.{
  ℕ, ◌+◌, ◌≡◌, refl, arith, true, false, List, [], ◌∷◌, ◌++◌, Option, none, some, ◌==◌,
  if◌then◌else◌,
}
use nff_go.Flow.Predefined.{Port, array_to_ipv4, handle_arp_icmp_requests}
use nff_go.Flow.Predefined.Resolved.{IsRequest, IsAnswer, handle_arp_icmp_requests-resolved}
use nff_go.Flow.Predefined.Echoed.{IsEcho, handle_arp_icmp_requests_stale}
use nff_go.Flow.Predefined.Copied.{IsBuffered, header_length}
use nff_go.Low.Mbuf.{append_mbuf}
use nff_go.Packet.Arp.Made.{IsAddress}
use nff_go.Packet.Buffer.RoundTrip.{HasRoom, Restored}
use nff_go.Packet.ByteOrder.{swap_bytes_uint16}
use nff_go.Packet.Gtp.{encapsulate_ipv4_gtp, decapsulate_ipv4_gtp}
use nff_go.Packet.Gtp.Tunnel.{IsTunneled, decapsulate_ipv4_gtp-encapsulate_ipv4_gtp}
use nff_go.Packet.State.{Packet, load_16, load_32}
use nff_go.Tests.Samples.{memory-lt, tcp_frame, tcp_packet, packet, packet-IsPlaced, addresses}

tcp_packet-HasRoom : HasRoom 16 tcp_packet 14 36
tcp_packet-HasRoom = record {
  bytes = memory-lt tcp_frame;
  some_bytes = omega arith;
  below = omega arith;
  above = omega arith;
  headroom = omega arith;
  data_off_fits = omega arith;
  data_len_fits = omega arith;
  pkt_len_fits = omega arith;
}

decapsulate_ipv4_gtp-encapsulate_ipv4_gtp_example :
    IsTunneled tcp_packet 77 (encapsulate_ipv4_gtp 16 tcp_packet 77)
    × Restored tcp_packet (decapsulate_ipv4_gtp (encapsulate_ipv4_gtp 16 tcp_packet 77).0)
decapsulate_ipv4_gtp-encapsulate_ipv4_gtp_example =
    decapsulate_ipv4_gtp-encapsulate_ipv4_gtp 16 tcp_packet 77 tcp_packet-HasRoom (omega arith)
      (omega arith) (omega arith)

-- 10.0.0.1 asks for 10.0.0.2.
abbrev request_bytes : List ℕ
request_bytes =
    addresses
    ++ (8 ∷ 6 ∷ 0 ∷ 1 ∷ 8 ∷ 0 ∷ 6 ∷ 4 ∷ 0 ∷ 1 ∷ 7 ∷ 8 ∷ 9 ∷ 10 ∷ 11 ∷ 12 ∷ 10 ∷ 0 ∷ 0 ∷ 1 ∷ 0 ∷ 0
        ∷ 0 ∷ 0 ∷ 0 ∷ 0 ∷ 10 ∷ 0 ∷ 0 ∷ 2 ∷ [])

abbrev request : Packet
request = packet request_bytes

-- The number of 10.0.0.2, as its bytes are read.
abbrev address : ℕ
address = 0x0200000a

abbrev own_port : Port
own_port = record { port = 3; mac = 0x5c ∷ 1 ∷ 2 ∷ 3 ∷ 4 ∷ 5 ∷ [] }

abbrev ports : ℕ → Option Port
ports ip = if ip == address then some own_port else none

request-IsRequest : IsRequest request
unfolding swap_bytes_uint16
request-IsRequest = record {
  placed = packet-IsPlaced request_bytes;
  types = refl;
  operates = refl;
  unknown = refl;
}

request-found : ports (array_to_ipv4 request.mem (request.ether + 14 + 24)) ≡ some own_port
unfolding array_to_ipv4
request-found = refl

own_port-IsAddress : IsAddress own_port.mac
own_port-IsAddress = record { bytes = omega arith; size = refl }

arp_room : (append_mbuf (packet []).c_mbuf 42).1 ≡ true
unfolding append_mbuf
arp_room = refl

handle_arp_icmp_requests-resolved_example :
    (answer : Packet) × (handle_arp_icmp_requests ports (packet []) request ≡ record {
      stays = false;
      current = record request { l3 = 64 + 14 };
      sent = some (answer, 3);
    })
    × IsAnswer request own_port answer
handle_arp_icmp_requests-resolved_example =
    handle_arp_icmp_requests-resolved ports (packet []) request own_port request-IsRequest
      request-found own_port-IsAddress (packet-IsPlaced []) arp_room

-- 10.0.0.1 sends an echo request to 10.0.0.2.
abbrev echo_bytes : List ℕ
echo_bytes =
    addresses
    ++ (8 ∷ 0 ∷ 0x45 ∷ 0 ∷ 0 ∷ 28 ∷ 0 ∷ 1 ∷ 0 ∷ 0 ∷ 64 ∷ 1 ∷ 0 ∷ 0 ∷ 10 ∷ 0 ∷ 0 ∷ 1 ∷ 10 ∷ 0 ∷ 0 ∷ 2
        ∷ 8 ∷ 0 ∷ 0xf7 ∷ 0xf7 ∷ 0 ∷ 7 ∷ 0 ∷ 1 ∷ [])

abbrev echo : Packet
echo = packet echo_bytes

packet-IsBuffered : (bytes : List ℕ) → IsBuffered (packet bytes)
packet-IsBuffered bytes = record { placed = packet-IsPlaced bytes; start = refl }

echo-IsEcho : IsEcho echo
unfolding swap_bytes_uint16
echo-IsEcho = record {
  buffered = packet-IsBuffered echo_bytes;
  types = refl;
  protocol = refl;
  header = omega arith;
  asks = refl;
  code = refl;
  whole = omega arith;
}

echo-found : ports (load_32 echo.mem (echo.ether + 14 + 16)) ≡ some own_port
echo-found = refl

echo_room : (append_mbuf (packet []).c_mbuf 60).1 ≡ true
unfolding append_mbuf
echo_room = refl

handle_arp_icmp_requests_stale_example :
    (answer : Packet) × ((handle_arp_icmp_requests ports (packet []) echo).sent ≡ some (answer, 3))
    × (answer.mem answer.l4 ≡ 0)
    × (load_16 answer.mem (answer.l4 + 2)
        ≡ load_16 echo.mem (echo.ether + 14 + header_length echo + 2))
handle_arp_icmp_requests_stale_example =
    handle_arp_icmp_requests_stale ports (packet []) echo own_port echo-IsEcho echo-found
      (packet-IsBuffered []) echo_room
