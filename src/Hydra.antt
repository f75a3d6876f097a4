-- ===== src/Hydra.antt =====
-- usr/lib/smd/lib/modules/hydra.py: the virtual machines of the daemon, `VM` and `HydraServer`.
pub mod State
pub mod Pages
pub mod Machine
pub mod Devices
pub mod Stop
pub mod Start
pub mod Server
pub mod Requests
pub mod Alias
