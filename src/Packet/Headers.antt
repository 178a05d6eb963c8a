-- ===== src/Packet/Headers.antt =====
-- The header structures of packet/packet.go. A field of several bytes holds the value that a
-- little-endian machine reads, so network fields are byte-swapped; arrays are lists of bytes.
use nff_go.Base.{ℕ, List, ◌<◌, ◌^◌}

pub record EtherHdr : Type 0 where
  pub d_addr : List ℕ
  pub s_addr : List ℕ
  pub ether_type : ℕ

pub record IPv4Hdr : Type 0 where
  pub version_ihl : ℕ
  pub type_of_service : ℕ
  pub total_length : ℕ
  pub packet_id : ℕ
  pub fragment_offset : ℕ
  pub time_to_live : ℕ
  pub next_proto_id : ℕ
  pub hdr_checksum : ℕ
  pub src_addr : ℕ
  pub dst_addr : ℕ

pub record IPv6Hdr : Type 0 where
  pub vtc_flow : ℕ
  pub payload_len : ℕ
  pub proto : ℕ
  pub hop_limits : ℕ
  pub src_addr : List ℕ
  pub dst_addr : List ℕ

pub record TcpHdr : Type 0 where
  pub src_port : ℕ
  pub dst_port : ℕ
  pub sent_seq : ℕ
  pub recv_ack : ℕ
  pub data_off : ℕ
  pub tcp_flags : ℕ
  pub rx_win : ℕ
  pub cksum : ℕ
  pub tcp_urp : ℕ

pub record UdpHdr : Type 0 where
  pub src_port : ℕ
  pub dst_port : ℕ
  pub dgram_len : ℕ
  pub dgram_cksum : ℕ

pub record IcmpHdr : Type 0 where
  pub type : ℕ
  pub code : ℕ
  pub cksum : ℕ
  pub identifier : ℕ
  pub seq_num : ℕ

-- Every field fits its Go type.
pub record IsIPv4Hdr (h : IPv4Hdr) : Type 0 where
  pub version_ihl_fits : h.version_ihl < 2 ^ 8
  pub type_of_service_fits : h.type_of_service < 2 ^ 8
  pub total_length_fits : h.total_length < 2 ^ 16
  pub packet_id_fits : h.packet_id < 2 ^ 16
  pub fragment_offset_fits : h.fragment_offset < 2 ^ 16
  pub time_to_live_fits : h.time_to_live < 2 ^ 8
  pub next_proto_id_fits : h.next_proto_id < 2 ^ 8
  pub hdr_checksum_fits : h.hdr_checksum < 2 ^ 16
  pub src_addr_fits : h.src_addr < 2 ^ 32
  pub dst_addr_fits : h.dst_addr < 2 ^ 32

pub record IsTcpHdr (h : TcpHdr) : Type 0 where
  pub src_port_fits : h.src_port < 2 ^ 16
  pub dst_port_fits : h.dst_port < 2 ^ 16
  pub sent_seq_fits : h.sent_seq < 2 ^ 32
  pub recv_ack_fits : h.recv_ack < 2 ^ 32
  pub data_off_fits : h.data_off < 2 ^ 8
  pub tcp_flags_fits : h.tcp_flags < 2 ^ 8
  pub rx_win_fits : h.rx_win < 2 ^ 16
  pub cksum_fits : h.cksum < 2 ^ 16
  pub tcp_urp_fits : h.tcp_urp < 2 ^ 16

pub record IsUdpHdr (h : UdpHdr) : Type 0 where
  pub src_port_fits : h.src_port < 2 ^ 16
  pub dst_port_fits : h.dst_port < 2 ^ 16
  pub dgram_len_fits : h.dgram_len < 2 ^ 16
  pub dgram_cksum_fits : h.dgram_cksum < 2 ^ 16
