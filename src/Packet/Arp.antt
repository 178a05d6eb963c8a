-- ===== src/Packet/Arp.antt =====
-- The ARP packets of packet/arp.go. An address is the list of its bytes; the header stands at
-- `l3`, with its fields behind one another.
pub mod Made
use nff_go.Base.{ℕ, ◌+◌, Bool, true, false, not, List, [], ◌∷◌, if◌then◌else◌}
use nff_go.Common.Constants.{ipv4_number}
use nff_go.Packet.ByteOrder.{swap_bytes_uint16, ipv4_to_bytes}
use nff_go.Packet.Init.{init_empty_arp_packet, write_data}
use nff_go.Packet.State.{Packet, store_8, store_16}

abbrev pub arp_request : ℕ
arp_request = 1

abbrev pub arp_reply : ℕ
arp_reply = 2

-- `HType`, `PType`, `HLen` and `PLen`.
unfoldable pub set_arp_types : Packet → Packet
set_arp_types p =
    let h_type = store_16 p.mem p.l3 (swap_bytes_uint16 1) in
    let p_type = store_16 h_type (p.l3 + 2) (swap_bytes_uint16 ipv4_number) in
    let h_len = store_8 p_type (p.l3 + 4) 6 in record p { mem = store_8 h_len (p.l3 + 5) 4 }

unfoldable pub init_arp_common_data : Packet → Packet × Bool
unfolding init_empty_arp_packet set_arp_types
init_arp_common_data p =
    let (q, done) = init_empty_arp_packet p in
    if not done then (q, false) else (set_arp_types q, true)

-- `SAddr` and `DAddr` of the Ethernet header, and `Operation`, `SHA`, `SPA`, `THA` and `TPA`.
unfoldable pub set_arp : Packet → List ℕ → ℕ → List ℕ → ℕ → List ℕ → ℕ → Packet
unfolding write_data
set_arp p d_addr operation sha spa tha tpa =
    let source = write_data p.mem (p.ether + 6) sha in
    let dest = write_data source p.ether d_addr in
    let op = store_16 dest (p.l3 + 6) (swap_bytes_uint16 operation) in
    let sender = write_data op (p.l3 + 8) sha in
    let sender_ip = write_data sender (p.l3 + 14) (ipv4_to_bytes spa) in
    let target = write_data sender_ip (p.l3 + 18) tha in
    record p { mem = write_data target (p.l3 + 24) (ipv4_to_bytes tpa) }

-- What follows `initARPCommonData`, if it did its work.
unfoldable pub init_arp : Packet → List ℕ → ℕ → List ℕ → ℕ → List ℕ → ℕ → Packet × Bool
unfolding init_arp_common_data set_arp
init_arp p d_addr operation sha spa tha tpa =
    let (q, done) = init_arp_common_data p in
    if not done then (q, false) else (set_arp q d_addr operation sha spa tha tpa, true)

abbrev pub broadcast : List ℕ
broadcast = 0xff ∷ 0xff ∷ 0xff ∷ 0xff ∷ 0xff ∷ 0xff ∷ []

abbrev pub no_address : List ℕ
no_address = 0 ∷ 0 ∷ 0 ∷ 0 ∷ 0 ∷ 0 ∷ []

unfoldable pub init_arp_request_packet : Packet → List ℕ → ℕ → ℕ → Packet × Bool
unfolding init_arp
init_arp_request_packet p sha spa tpa = init_arp p broadcast arp_request sha spa no_address tpa

unfoldable pub init_arp_reply_packet : Packet → List ℕ → List ℕ → ℕ → ℕ → Packet × Bool
unfolding init_arp
init_arp_reply_packet p sha tha spa tpa = init_arp p tha arp_reply sha spa tha tpa

unfoldable pub init_garp_announcement_request_packet : Packet → List ℕ → ℕ → Packet × Bool
unfolding init_arp
init_garp_announcement_request_packet p sha spa =
    init_arp p broadcast arp_request sha spa no_address spa

unfoldable pub init_garp_announcement_reply_packet : Packet → List ℕ → ℕ → Packet × Bool
unfolding init_arp
init_garp_announcement_reply_packet p sha spa =
    init_arp p broadcast arp_reply sha spa no_address spa
