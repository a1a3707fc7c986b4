-- ===== src/Dummy.antt =====
-- linux-netdevice-driver-test: the dummy ethernet device and its simulated hardware.
pub mod Hardware
pub mod Ethernet
pub mod Link
pub mod Module
mod Tests
