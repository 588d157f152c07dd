-- ===== src/Tests.antt =====
-- Runs of the model on small inputs.
pub mod Sample
pub mod Commands
pub mod Readings
pub mod Transports
pub mod Disks
pub mod Histories
pub mod Tools
pub mod Images
pub mod Doors
pub mod Desktops
