-- ===== src/Demo.antt =====
-- demo/: the traffic scenarios. The sockets, the clock and `inet_pton` are parameters. What a scenario
-- returns is a value of `Ran`, and the packets that it gave to `sendto` are kept in order.
pub mod Checksum
pub mod Packets
pub mod Scenarios
pub mod Kernel
pub mod Loop
pub mod Sums
mod Tests
