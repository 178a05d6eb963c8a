-- ===== src/Common/Constants.antt =====
-- The numbers of common/common.go.
use nff_go.Base.{ℕ}

-- EtherType values, in host order.
abbrev pub ipv4_number : ℕ
ipv4_number = 0x0800

abbrev pub arp_number : ℕ
arp_number = 0x0806

abbrev pub vlan_number : ℕ
vlan_number = 0x8100

abbrev pub mpls_number : ℕ
mpls_number = 0x8847

abbrev pub ipv6_number : ℕ
ipv6_number = 0x86dd

-- Protocol numbers of the fourth layer.
abbrev pub icmp_number : ℕ
icmp_number = 0x01

abbrev pub tcp_number : ℕ
tcp_number = 0x06

abbrev pub udp_number : ℕ
udp_number = 0x11

abbrev pub icmpv6_number : ℕ
icmpv6_number = 0x3a

abbrev pub no_next_header : ℕ
no_next_header = 0x3b

-- Lengths of headers in bytes.
abbrev pub ether_len : ℕ
ether_len = 14

abbrev pub vlan_len : ℕ
vlan_len = 4

abbrev pub mpls_len : ℕ
mpls_len = 4

abbrev pub ipv4_min_len : ℕ
ipv4_min_len = 20

abbrev pub ipv6_len : ℕ
ipv6_len = 40

abbrev pub icmp_len : ℕ
icmp_len = 8

abbrev pub tcp_min_len : ℕ
tcp_min_len = 20

abbrev pub udp_len : ℕ
udp_len = 8

abbrev pub arp_len : ℕ
arp_len = 28

abbrev pub gtp_min_len : ℕ
gtp_min_len = 8

-- What new headers begin with.
abbrev pub tcp_min_data_offset : ℕ
tcp_min_data_offset = 0x50

abbrev pub ipv4_version_ihl : ℕ
ipv4_version_ihl = 0x45

abbrev pub ipv6_vtc_flow : ℕ
ipv6_vtc_flow = 0x60
