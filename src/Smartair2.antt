-- ===== src/Smartair2.antt =====
-- tools/utils/smartair2_packet.h, tools/utils/smartair2_server.cpp: the emulated SmartAir2 air
-- conditioner.
pub mod Server
pub mod Control
pub mod Names
pub mod Fields
pub mod Numbers
pub mod Config
pub mod Console
pub mod Dynamics
pub mod Ticks
pub mod Phases
pub mod Simulate
pub mod Untouched
pub mod Words
pub mod Sized
pub mod Reach
pub mod Room
pub mod Loading
