-- ===== src/Flow/Predefined/Echoed.antt =====
-- The answer to an echo request of ICMP carries the checksum of the request, although its type is
-- another: the checksum that is computed goes to the packet that came in.
use nff_go.Base.{
  ℕ, ◌+◌, ◌≤◌, ◌<◌, ◌≡◌, refl, ap, ◌∙◌, arith, true, false, Option, none, some, u64, ◌==◌,
  if◌then◌else◌,
}
use nff_go.Flow.Predefined.{
  Port, Handled, echo_reply, answer_icmp, handle_parsed, handle_arp_icmp_requests,
}
use nff_go.Low.Mbuf.{append_mbuf}
use nff_go.Packet.ByteOrder.{swap_bytes_uint16}
use nff_go.Packet.Parse.{
  parse_l3, get_arp_check_vlan, get_ether_type, get_ipv4, parse_l4_for_ipv4, get_icmp_for_ipv4,
  unparsed,
}
use nff_go.Packet.State.{Packet, load_16, load_32, ether_type}
use nff_go.Flow.Predefined.Copied.{header_length, IsBuffered, reply, echo_reply-eq, reply-checksum}

-- An echo request over IPv4, without a tag.
pub record IsEcho (p : Packet) : Type 0 where
  pub buffered : IsBuffered p
  pub types : ether_type p ≡ swap_bytes_uint16 0x0800
  pub protocol : p.mem (p.ether + 14 + 9) ≡ 1
  pub header : 20 ≤ header_length p
  pub asks : p.mem (p.ether + 14 + header_length p) ≡ 8
  pub code : p.mem (p.ether + 14 + header_length p + 1) ≡ 0
  pub whole : 14 + header_length p + 8 ≤ p.c_mbuf.data_len

module _ (p : Packet) (echo : IsEcho p) (port_pair : ℕ → Option Port) (allocated : Packet)
    (port : Port) (found : port_pair (load_32 p.mem (p.ether + 14 + 16)) ≡ some port) where
  abbrev third : Packet
  third = record p { l3 = p.ether + 14 }

  abbrev fourth : Packet
  fourth = record third { l4 = p.ether + 14 + header_length p }

  parse_l3-third : parse_l3 p ≡ third
  unfolding parse_l3 unparsed
  parse_l3-third =
      let there : u64 (p.ether + 14) ≡ p.ether + 14 = omega (arith, echo.buffered.placed.below) in
      rw there refl

  no_arp : get_arp_check_vlan third ≡ 0
  unfolding get_arp_check_vlan get_ether_type swap_bytes_uint16
  no_arp = rw echo.types refl

  some_ipv4 : get_ipv4 third ≡ p.ether + 14
  unfolding get_ipv4 swap_bytes_uint16
  some_ipv4 = rw echo.types refl

  parse_l4-fourth : parse_l4_for_ipv4 third ≡ fourth
  unfolding parse_l4_for_ipv4
  parse_l4-fourth =
      let small : header_length p < 256 = omega arith in
      let there : u64 (p.ether + 14 + header_length p) ≡ p.ether + 14 + header_length p =
        omega (arith, echo.buffered.placed.below, small) in
      rw there refl

  some_icmp : get_icmp_for_ipv4 fourth ≡ p.ether + 14 + header_length p
  unfolding get_icmp_for_ipv4
  some_icmp = rw echo.protocol refl

  answer_icmp-sent :
      (answer_icmp port_pair allocated fourth).sent ≡ some (echo_reply allocated fourth, port.port)
  unfolding answer_icmp
  answer_icmp-sent = let asks = echo.asks in let code = echo.code in rw (asks, code, found) refl

  -- What is done with the fourth layer.
  abbrev by_layer : Packet → Handled
  by_layer q =
      if get_icmp_for_ipv4 q == 0
      then record { stays = true; current = q; sent = none }
      else answer_icmp port_pair allocated q

  handle_parsed-sent :
      (handle_parsed port_pair allocated third 0).sent
      ≡ some (echo_reply allocated fourth, port.port)
  unfolding handle_parsed
  handle_parsed-sent =
      let there : (p.ether + 14 == 0) ≡ false = ground arith in
      let behind : (p.ether + 14 + header_length p == 0) ≡ false = ground arith in
      rw (some_ipv4, there)
        (ap (λ (q : Packet). (by_layer q).sent) parse_l4-fourth
          ∙ (rw (some_icmp, behind) answer_icmp-sent))

  handled-sent :
      (handle_arp_icmp_requests port_pair allocated p).sent
      ≡ some (echo_reply allocated fourth, port.port)
  unfolding handle_arp_icmp_requests
  handled-sent =
      ap (λ (q : Packet). (handle_parsed port_pair allocated q (get_arp_check_vlan q)).sent)
        parse_l3-third
      ∙ ap (λ (a : ℕ). (handle_parsed port_pair allocated third a).sent) no_arp
      ∙ handle_parsed-sent

-- For an echo request with a header of 20 bytes or more, for an address that a port has, and an
-- allocated packet with room for a copy: the port sends an answer whose ICMP type is 0, with the
-- checksum bytes of the request, whose type is 8.
pub handle_arp_icmp_requests_stale :
    (port_pair : ℕ → Option Port) (allocated p : Packet) (port : Port)
    → IsEcho p
    → port_pair (load_32 p.mem (p.ether + 14 + 16)) ≡ some port
    → IsBuffered allocated
    → (append_mbuf allocated.c_mbuf p.c_mbuf.data_len).1 ≡ true
    → (answer : Packet) × ((handle_arp_icmp_requests port_pair allocated p).sent
        ≡ some (answer, port.port))
      × (answer.mem answer.l4 ≡ 0)
      × (load_16 answer.mem (answer.l4 + 2) ≡ load_16 p.mem (p.ether + 14 + header_length p + 2))
handle_arp_icmp_requests_stale port_pair allocated p port echo found b room =
    let a = echo.buffered in
    (
      reply p allocated a b echo.header echo.whole room,
      handled-sent p echo port_pair allocated port found
          ∙ ap (λ (q : Packet). some (q, port.port))
              (echo_reply-eq p allocated a b echo.header echo.whole room),
      (ground arith),
      reply-checksum p allocated a b echo.header echo.whole room,
    )
