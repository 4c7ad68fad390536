-- ===== src/Hon.antt =====
-- tools/utils/hon_packet.h, tools/utils/hon_server.h, tools/utils/hon_server.cpp: the emulated hOn
-- air conditioner.
pub mod Packet
pub mod Parameters
pub mod State
pub mod Settings
pub mod Valid
pub mod Server
pub mod Fields
pub mod Control
pub mod Alarms
pub mod Simulator
pub mod Answers
pub mod Sized
pub mod Reach
