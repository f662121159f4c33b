-- ===== src/Normalize.antt =====
-- src/costanza/normalize: payloads of the sources to events. A payload that the code cannot read
-- raises.
pub mod Common
pub mod Seerr
pub mod Radarr
pub mod Sonarr
pub mod Tautulli
pub mod Dispatch
