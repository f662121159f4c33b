-- ===== src/Notify.antt =====
-- src/costanza/notify: routing, limits, rendering and the send pipeline.
pub mod Router
pub mod Limits
pub mod Render
pub mod Weekly
pub mod Pipeline
