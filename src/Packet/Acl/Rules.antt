-- ===== src/Packet/Acl/Rules.antt =====
-- The data of packet/acl.go: rules as read from a file, and the rules that are tried on packets.
use nff_go.Base.{ℕ, Bool, List, Bytes}

pub record RawL2Rule : Type 0 where
  pub rule : Bytes
  pub source : Bytes
  pub destination : Bytes
  pub id : Bytes

pub record RawL3Rule : Type 0 where
  pub src_addr : Bytes
  pub dst_addr : Bytes
  pub id : Bytes
  pub src_port : Bytes
  pub dst_port : Bytes
  pub output_number : Bytes

pub record L2Rule : Type 0 where
  pub output_number : ℕ
  pub d_addr_not_any : Bool
  pub s_addr_not_any : Bool
  pub d_addr : List ℕ
  pub s_addr : List ℕ
  pub id_mask : ℕ
  pub id : ℕ

pub record L4Rule : Type 0 where
  pub id : ℕ
  pub id_mask : ℕ
  pub valid : Bool
  pub src_port_min : ℕ
  pub src_port_max : ℕ
  pub dst_port_min : ℕ
  pub dst_port_max : ℕ

pub record L3Rule4 : Type 0 where
  pub output_number : ℕ
  pub src_addr : ℕ
  pub dst_addr : ℕ
  pub src_mask : ℕ
  pub dst_mask : ℕ
  pub l4 : L4Rule

pub record L3Rule6 : Type 0 where
  pub output_number : ℕ
  pub src_addr : List ℕ
  pub dst_addr : List ℕ
  pub src_mask : List ℕ
  pub dst_mask : List ℕ
  pub l4 : L4Rule

pub record L3Rules : Type 0 where
  pub ip4 : List L3Rule4
  pub ip6 : List L3Rule6

-- A network of the library `net`: an address with its mask.
pub record IpNet : Type 0 where
  pub ip : Bytes
  pub mask : Bytes
