-- ===== src/Low/Mbuf.antt =====
-- The buffer of a packet, low/low.go. The fields are those of DPDK's `rte_mbuf` that the code
-- reads or writes; `packet_struct_size` is the package variable, the room kept in front.
use nff_go.Base.{ℕ, ◌+◌, Bool, true, false, ltb, if◌then◌else◌, u16, u32, sub16, sub32}

pub record Mbuf : Type 0 where
  pub buf_addr : ℕ
  pub buf_len : ℕ
  pub data_off : ℕ
  pub data_len : ℕ
  pub pkt_len : ℕ

-- Each returns the buffer and whether it did the work.
unfoldable pub prepend_mbuf : ℕ → Mbuf → ℕ → Mbuf × Bool
prepend_mbuf packet_struct_size mb length =
    if ltb (sub16 mb.data_off (u16 packet_struct_size)) (u16 length) then (mb, false) else (
      record mb {
        data_off = sub16 mb.data_off (u16 length);
        data_len = u16 (mb.data_len + u16 length);
        pkt_len = u32 (mb.pkt_len + u32 length);
      },
      true,
    )

unfoldable pub append_mbuf : Mbuf → ℕ → Mbuf × Bool
append_mbuf mb length =
    if ltb (sub16 (sub16 mb.buf_len mb.data_off) mb.data_len) (u16 length) then (mb, false) else (
      record mb {
        data_len = u16 (mb.data_len + u16 length);
        pkt_len = u32 (mb.pkt_len + u32 length);
      },
      true,
    )

unfoldable pub adj_mbuf : Mbuf → ℕ → Mbuf × Bool
adj_mbuf m length = if ltb m.data_len (u16 length) then (m, false) else (
  record m {
    data_off = u16 (m.data_off + u16 length);
    data_len = sub16 m.data_len (u16 length);
    pkt_len = sub32 m.pkt_len (u32 length);
  },
  true,
)

unfoldable pub trim_mbuf : Mbuf → ℕ → Mbuf × Bool
trim_mbuf m length = if ltb m.data_len (u16 length) then (m, false) else (
  record m { data_len = sub16 m.data_len (u16 length); pkt_len = sub32 m.pkt_len (u32 length) },
  true,
)
