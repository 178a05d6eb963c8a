-- ===== src/Lib.antt =====
-- NFF-Go, a framework for network functions on top of DPDK: a model of its own logic in Go.
--
-- The program's parts. Package `packet` (packet/*.go) reads and writes the headers of a packet in
-- a DPDK buffer, computes checksums and decides by access lists. Package `flow` (flow/*.go) builds
-- a graph of flow functions and runs them: its scheduler gives cores to instances and clones of a
-- function, and moves input queues between instances. Package `low` (low/low.go) wraps DPDK.
-- Package `common` (common/common.go) has constants, errors and the list of cores. User code calls
-- `packet` from handlers that `flow` runs on the packets that `low` receives.
--
-- Which file models which part:
--   Base              shared names: numbers, tests, words, lists, text, bits.
--   Common/Constants  the constants of common/common.go that the models use.
--   Common/Errors     error values and panics, and the `>>=` on them, for do blocks.
--   Common/Slices     slices that Go checks at run time.
--   Common/CpuList    `HandleCPUList` of common/common.go and what it calls.
--   Low/Mbuf          `PrependMbuf`, `AppendMbuf`, `AdjMbuf`, `TrimMbuf` of low/low.go.
--   Low/Ring          the rings of low/low.go: `enqueuePtrs` to `GetRingCount`. Low/Ring/Slots, Copies,
--                     Pointers and State are about its cells, loops and counters, Low/Ring/Fifo about
--                     the ring as a queue.
--   Packet/Headers    the structs of packet/packet.go; Packet/State a packet in a memory of bytes.
--   Packet/ByteOrder  the byte swaps and the conversions of IPv4 addresses.
--   Packet/Parse      the parsing functions of packet/packet.go, packet/vlan.go, packet/mpls.go.
--   Packet/Checksum   the software checksums of packet/checksum.go, Checksum/Ipv6 those of IPv6 and ICMP.
--   Packet/Buffer     `EncapsulateHead` to `PacketBytesChange` of packet/packet.go,
--                     and adding and removing VLAN and MPLS tags.
--   Packet/Init       `GeneratePacketFromByte` to `InitEmptyIPv6ICMPPacket` of packet/packet.go.
--   Packet/Arp        packet/arp.go, and Packet/Gtp the tunnels of packet/gtp.go.
--   Packet/Fields     the fields of VLAN and MPLS headers.
--   Packet/Acl        packet/acl.go: Rules and Fields the data and its fields, Layer2 and Layer3
--                     the parsers of a file's lines, Match the search of a packet's rule.
--   Flow/Queues       the lists of input queues of flow/scheduler.go and how they split and merge.
--   Flow/Instances    the instances of a flow function, by these lists.
--   Flow/Cores        the table of cores and the clones that run on them.
--   Flow/Graph        the state of the graph of flow functions, flow/flow.go: `Flow`, `Func`, the
--                     segments and what was added to the scheduler. Flow/Graph/Insert `segmentInsert`,
--                     Flow/Graph/Setters and Flow/Graph/Merge the calls `SetReceiver` to `SetIPForPort`,
--                     Flow/Graph/Session, Flow/Graph/Sources, Flow/Graph/Merging and
--                     Flow/Graph/Reached programs that make these calls, and
--                     Flow/Graph/Homes the segment that each function belongs to.
--   Flow/Schedule     the rounds of `schedule`, flow/scheduler.go, for the functions that have
--                     instances: State what the scheduler knows and reads, Removing and Adding the
--                     two halves of a round, Round the rounds. The other files below it are about
--                     parts of that state, and Safe puts them together.
--   Flow/Timers       `AddTimer`, `AddVariant` and `Stop` of flow/flow.go, and the loop of `schedule`
--                     over the variants of a timer.
--   Flow/Predefined   `handleARPICMPRequests` of flow/predefined.go.
--   Flow/Segment      `partition`, `vPartition`, `FillSliceFromMask`, `safeEnqueue` of flow/flow.go.
--   Tests             the theorems applied to concrete packets, rules and states.
-- The files below these prove what their names say.
--
-- Conventions. Go's unsigned integers are natural numbers with the wrap-around written out, and
-- pointers are addresses in a memory of bytes, 0 being nil. A method on a packet is a function from
-- packet to packet. The machine is little-endian, as `packet.SwapBytesUint16` assumes. The loop of
-- `reduceChecksum` recurs on the accessibility of its sum, every other loop on the structure of
-- what is left of its list or count, so no fuel is needed.
--
-- The rings are those that a thread sees that no other disturbs: its compare-and-swap succeeds at
-- once. The graph is built by one thread. There a pointer is a number in the order of creation, the
-- rings of one call of `CreateRings` are one number, and a user's function or context is a number
-- that stands for it. A call that gives back an error has not written the graph, but for
-- `SetMerger`, which may have closed some of its flows before.
--
-- A round of the scheduler is given what it reads from outside: the reports of the clones, the time
-- that `measure` finds, the packets that wait in the rings and in the network card, and whether a
-- tick has passed. A slice over which a loop ranges while it is changed is its memory and its
-- length. The handler of a timer is user code, of which the calls are recorded. The packet that
-- `handleARPICMPRequests` allocates is given, with a memory of its own.
--
-- Parameters: `net.ParseCIDR` and `net.ParseMAC` are arguments of the parsers of rules.
--
-- Bounds. The theorems on checksums at a receiver are about IPv4 headers without options, which the
-- code takes for granted. The theorems on packets ask that the memory holds bytes and that the
-- headers end below 2 ^ 64; those on inserted bytes ask for headroom in the buffer and lengths that
-- fit their fields. Those on rounds of the scheduler ask for at most 32 queues of a flow function,
-- the places of `reportPair`. A ring has 2 ^ k cells with k at most 29, so that the address of a
-- cell, a product of 32-bit words, does not wrap around, and the counts of entries are 32-bit words.
-- The int32 indexes of queues are taken as natural numbers, since none is negative.
--
-- Not modelled: the loop of `segmentProcess`, the fast generators (their test is in floating point)
-- and the names of flow functions in package `flow`, the start and stop of the system, threads that
-- interleave on a ring, the calls of DPDK and the C code of package `low`, logging, the chains of
-- `NFError`, reading files and JSON, formatting of headers as text, network drivers' flags, ICMPv6
-- neighbour discovery (packet/icmp6.go), longest prefix match, the traffic generator among the
-- examples, and the channels by which the scheduler talks to running clones.

pub mod Base
pub mod Common
pub mod Low
pub mod Packet
pub mod Flow
pub mod Tests
