-- ===== src/Bpf.antt =====
-- bpf/ and src/bpf: the kernel program, and the objects of user space that own kernel resources.
pub mod Shared
pub mod Maps
pub mod Packet
pub mod Xdp
pub mod UserMap
pub mod PinState
pub mod Attach
pub mod RingBuf
pub mod Host
pub mod Cleanup
pub mod Skeleton
