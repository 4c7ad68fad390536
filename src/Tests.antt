-- ===== src/Tests.antt =====
-- The development at concrete values: what the theorems say of them.
mod Ring
mod Frame
mod Transport
mod Protocol
mod Hon
mod Log
mod Serial
mod Console
mod Base
mod Smartair2
