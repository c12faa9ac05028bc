-- ===== src/Tui.antt =====
-- src/tui: what the dashboard draws, and what its keys do.
pub mod Sparkline
pub mod App
