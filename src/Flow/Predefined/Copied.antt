-- ===== src/Flow/Predefined/Copied.antt =====
-- The answer that `handleARPICMPRequests` makes of an echo request, as a copy of the packet with
-- its addresses turned.
use nff_go.Base.{
  ℕ, ◌+◌, ◌*◌, ◌≤◌, ◌<◌, ◌≡◌, ◌≢◌, refl, sym, ap, ap₂, ◌∙◌, arith, Bool, true, List, length, u8,
  u64, bit_and, ◌<<<◌, inl, inr, ◌⊎◌,
}
use nff_go.Flow.Predefined.{echo_reply}
use nff_go.Low.Mbuf.{Mbuf, append_mbuf}
use nff_go.Packet.Init.{append_then, generate_packet_from_byte, write_data}
use nff_go.Packet.Init.Reparsed.{append_then-room}
use nff_go.Packet.Init.Writes.{write_data-other, write_data-load_bytes, length-load_bytes}
use nff_go.Packet.Parse.{parse_l3, parse_l4_for_ipv4, parse_l7, unparsed}
use nff_go.Packet.Parse.Layers.{IsPlaced}
use nff_go.Packet.State.{
  Packet, ptr_add, load_16, load_32, load_bytes, store_8, store_32, ether_d_addr, ether_s_addr,
}

-- The length of the IPv4 header.
abbrev pub header_length : Packet → ℕ
header_length p = u8 (bit_and (p.mem (p.ether + 14)) 0x0f <<< 2)

-- A packet that stands at the start of its buffer's bytes.
pub record IsBuffered (p : Packet) : Type 0 where
  pub placed : IsPlaced p
  pub start : ptr_add p.c_mbuf.buf_addr p.c_mbuf.data_off ≡ p.ether

append_mbuf-start :
    (mb : Mbuf) (n : ℕ)
    → ptr_add (append_mbuf mb n).0.buf_addr (append_mbuf mb n).0.data_off
      ≡ ptr_add mb.buf_addr mb.data_off
unfolding append_mbuf
append_mbuf-start mb n = ground arith

module _ (p allocated : Packet) (b : IsBuffered p) (f : IsBuffered allocated)
    (header : 20 ≤ header_length p) (whole : 14 + header_length p + 8 ≤ p.c_mbuf.data_len)
    (room : (append_mbuf allocated.c_mbuf p.c_mbuf.data_len).1 ≡ true) where
  abbrev e : ℕ
  e = allocated.ether

  abbrev o : ℕ
  o = header_length p

  -- The packet with its third and fourth layers parsed.
  abbrev pub parsed : Packet
  parsed = record p { l3 = p.ether + 14; l4 = p.ether + 14 + o }

  abbrev copied : ℕ → ℕ
  copied = write_data allocated.mem e (load_bytes p.mem p.ether p.c_mbuf.data_len)

  abbrev turned : ℕ → ℕ
  turned =
      store_32
        (store_32 (write_data (write_data copied e (ether_s_addr p)) (e + 6) (ether_d_addr p))
          (e + 14 + 16) (load_32 p.mem (p.ether + 14 + 12)))
        (e + 14 + 12) (load_32 p.mem (p.ether + 14 + 16))

  -- What is neither an address of Ethernet nor of IPv4 is as in the request.
  turned-eq :
      (x : ℕ)
      → x < p.c_mbuf.data_len
      → (12 ≤ x)
      → (x < 26) ⊎ (34 ≤ x)
      → turned (e + x) ≡ p.mem (p.ether + x)
  turned-eq x inside h apart =
      let two =
        write_data-other (write_data copied e (ether_s_addr p)) (e + 6) (ether_d_addr p) (e + x)
          (inr (omega (arith, h))) in
      let one = write_data-other copied e (ether_s_addr p) (e + x) (inr (omega (arith, h))) in
      let raw =
        write_data-load_bytes allocated.mem p.mem e p.ether p.c_mbuf.data_len x b.placed.bytes
          inside in
      ground (arith, two, one, raw, apart)

  turned-version : turned (e + 14) ≡ p.mem (p.ether + 14)
  turned-version = turned-eq 14 (omega (arith, whole)) (omega arith) (inl (omega arith))

  abbrev grown : Packet
  grown = record allocated { c_mbuf = (append_mbuf allocated.c_mbuf p.c_mbuf.data_len).0 }

  abbrev raw : List ℕ
  raw = load_bytes p.mem p.ether p.c_mbuf.data_len

  generated-eq : generate_packet_from_byte allocated raw ≡ (record grown { mem = copied }, true)
  unfolding generate_packet_from_byte
  generated-eq =
      let size : length raw ≡ p.c_mbuf.data_len =
        length-load_bytes p.mem p.ether p.c_mbuf.data_len in
      let fill = λ (q : Packet). record q {
        mem = write_data q.mem (ptr_add q.c_mbuf.buf_addr q.c_mbuf.data_off) raw;
      } in
      let start = append_mbuf-start allocated.c_mbuf p.c_mbuf.data_len ∙ f.start in
      let has_room : (append_then allocated p.c_mbuf.data_len fill).1 ≡ true =
        unfold append_then in rw room refl in
      ap (λ (n : ℕ). append_then allocated n fill) size
      ∙ append_then-room allocated p.c_mbuf.data_len fill has_room
      ∙ ap (λ (a : ℕ). (record grown { mem = write_data allocated.mem a raw }, true)) start

  -- The packet that is sent.
  abbrev pub reply : Packet
  reply = record grown {
    l3 = e + 14;
    l4 = e + 14 + o;
    data_ptr = e + 14 + o + 8;
    mem = store_8 turned (e + 14 + o) 0;
  }

  o-small : o < 256
  o-small = omega arith

  -- What follows the copy.
  abbrev after : Packet → Packet
  after generated =
      let dest = write_data generated.mem generated.ether (ether_s_addr p) in
      let source = write_data dest (generated.ether + 6) (ether_d_addr p) in
      let third = parse_l3 (record generated { mem = source }) in
      let dst = store_32 third.mem (third.l3 + 16) (load_32 p.mem (p.ether + 14 + 12)) in
      let src = store_32 dst (third.l3 + 12) (load_32 p.mem (p.ether + 14 + 16)) in
      let fourth = parse_l4_for_ipv4 (record third { mem = src }) in
      parse_l7 (record fourth { mem = store_8 fourth.mem fourth.l4 0 }) 1

  after-eq : after (record grown { mem = copied }) ≡ reply
  unfolding parse_l3 unparsed parse_l4_for_ipv4 parse_l7
  after-eq =
      let third : u64 (e + 14) ≡ e + 14 = omega (arith, f.placed.below) in
      let fourth : u64 (e + 14 + o) ≡ e + 14 + o = omega (arith, f.placed.below, o-small) in
      let behind : u64 (e + 14 + o + 8) ≡ e + 14 + o + 8 = omega (arith, f.placed.below, o-small) in
      rw (third, turned-version, fourth, behind) refl

  pub echo_reply-eq : echo_reply allocated parsed ≡ reply
  unfolding echo_reply
  echo_reply-eq =
      ap
        (λ (a : ℕ).
          after (generate_packet_from_byte allocated (load_bytes p.mem a p.c_mbuf.data_len)).0)
        b.start
      ∙ ap (λ (r : Packet × Bool). after r.0) generated-eq
      ∙ after-eq

  -- The checksum of the reply is where the one of the request was.
  pub reply-checksum : load_16 reply.mem (reply.l4 + 2) ≡ load_16 p.mem (p.ether + 14 + o + 2)
  reply-checksum =
      let at_first : e + 14 + o + 2 ≡ e + (16 + o) = omega arith in
      let at_second : e + 14 + o + 2 + 1 ≡ e + (17 + o) = omega arith in
      let from_first : p.ether + 14 + o + 2 ≡ p.ether + (16 + o) = omega arith in
      let from_second : p.ether + 14 + o + 2 + 1 ≡ p.ether + (17 + o) = omega arith in
      let first =
        turned-eq (16 + o) (omega (arith, whole)) (omega arith) (inr (omega (arith, header))) in
      let second =
        turned-eq (17 + o) (omega (arith, whole)) (omega arith) (inr (omega (arith, header))) in
      let kept : (x : ℕ) → x ≢ e + 14 + o → reply.mem x ≡ turned x = λ x h. ground (arith, h) in
      ap₂ (λ (x y : ℕ). x + y * 256)
        (kept (e + 14 + o + 2) (λ h. omega (arith, h))
          ∙ ap turned at_first
          ∙ first
          ∙ ap p.mem (sym from_first))
        (kept (e + 14 + o + 2 + 1) (λ h. omega (arith, h))
          ∙ ap turned at_second
          ∙ second
          ∙ ap p.mem (sym from_second))
