-- ===== src/Core.antt =====
-- src/core: the state that the dashboard shows and the detector of SYN floods.
pub mod PpsWindow
pub mod FlowTracker
pub mod Event
pub mod Tick
pub mod FlowSnapshot
