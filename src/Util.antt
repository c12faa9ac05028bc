-- ===== src/Util.antt =====
-- The modules of src/util: results, the standard library's number conversions, IPv4 addresses.
pub mod Result
pub mod Numbers
pub mod Ipv4
pub mod UniqueFd
pub mod Signals
