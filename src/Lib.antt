-- ===== src/Lib.antt =====
-- HaierProtocol: the serial protocol of Haier air conditioners, as the library under src/ speaks it.
--
-- A frame carries a type, data, a checksum and a CRC over a serial line. Two separators 0xFF begin
-- it, and 0x55 is put behind each later 0xFF. The parts, bottom up:
--
-- src/utils/circular_buffer.h: `CircularBuffer`, the buffer of received bytes: Ring. The record
-- has the class's fields; `push`, `push_items`, `pop`, `reserve`, `clear` and `discard` (drop)
-- are its operations, `create`, `copy` and `assign` its constructors and `operator=`.
-- src/transport/haier_frame.cpp: `crc16` and `checksum`: Crc. `HaierFrame`: Frame, with `build`
-- for its constructor and `parse_buffer` in the pieces that its branches are.
-- src/transport/protocol_transport.cpp: `TransportLevelHandler`: Transport. `read_data` moves bytes
-- from the stream to the buffer, `process_data` makes frames of them and queues the frames, `pop`
-- hands them over, and `send_data` writes a frame.
-- src/protocol/haier_message.cpp: `HaierMessage`: Message.
-- src/protocol/haier_protocol.cpp: `ProtocolHandler`: Protocol has its state, its settings and its
-- queue of requests, Protocol/Loop what it writes and `loop`, which drives the transport, calls
-- the callbacks that are registered for frame types, and sends and repeats requests.
--
-- src/protocol/haier_frame_types.h: FrameType.
--
-- tools/utils/hon_server.cpp, hon_packet.h and tools/hon_simulator/main.cpp emulate an air
-- conditioner of the hOn kind: Hon/Packet has the bytes of its status and the fields in them,
-- Hon/Parameters the parameters that can be set, Hon/State its variables and alarms, Hon/Server the
-- handlers that the simulator registers with the protocol handler, and Hon/Simulator the rest of the
-- simulator. A handler gives the calls that it makes of the protocol handler, as the callbacks of
-- Protocol do.
--
-- tools/utils/smartair2_server.cpp and smartair2_packet.h emulate one of the SmartAir2 kind:
-- Smartair2/Server.
--
-- tools/smartair2_simulator/: the simulator around it. Smartair2/Names, Config, Console and Dynamics are
-- smartair2_sim_control.cpp from the words of its files to `simulate`, and Smartair2/Ticks has its tick and
-- main.cpp. Smartair2/Numbers is the record of what they do with floating point numbers.
-- tools/utils/simulator_base.cpp: Base, with a round of `protocol_loop` for any simulator, and
-- with what its handlers do to the state of the simulator.
--
-- src/utils/haier_log.cpp: Log. tools/utils/serial_stream.cpp and tools/remote_serial_bridge/main.cpp:
-- Serial; `available` and `read_array` are those that the transport calls of its stream.
--
-- The files below each of these modules hold what is proved of it, by subject. Tests has runs at
-- concrete values. Prelude has the tests on numbers and the lemmas on lists that the parts share.
--
-- How the code is rendered. Bytes and sizes are natural numbers, with the wrap-around of the 8-bit
-- and 16-bit variables written out; sums of `size_t` stay below the sizes of arrays and do not wrap.
-- An object is a record, and an operation returns the new record beside its result. The stream is
-- the list of the bytes that it has available, and what is written is returned or collected in the
-- field `written`. The clock's readings are arguments. Memory from `new` is a parameter: `cells` or
-- `scratch n` is a list of n bytes of any values. A callback is a function from its arguments to the
-- calls that it makes of the handler, and its result.
--
-- Bounds and fuel. The `while` loop of `process_data` runs on fuel, `scan_fuel n` rounds for a
-- buffer of n bytes; each round either advances in the buffer, or drops bytes, or finishes the
-- frame that it had begun, so that many rounds are enough. The other loops are structural. Undefined
-- behaviour that a caller's mistake would bring, `front` and `pop` of an empty queue, is `none`.
--
-- A write outside an array of the log is `none` too; `size_t` wraps there at 2 ^ 64. The rest of the
-- program calls the log only to tell what it does, and the models leave these calls out.
-- What the operating system and the standard library return is an argument: the bytes of `read`, how
-- many bytes a `write` takes, the lines of a file, the numbers that `stod` makes of a text. Floating point
-- numbers are a type with the operations of the code; what is assumed of their order (`IsOrdered`) holds
-- for IEEE 754, and a NaN is in no order with anything.
--
-- Not modelled: the destructors and the freeing of memory; the callbacks that register other
-- callbacks; sleeping, the console (console_log.cpp), the opening of sockets, the settings of the serial
-- port, and the text of the JSON files of the SmartAir2 simulator; the Windows variants.
pub mod Prelude
pub mod Ring
pub mod Crc
pub mod Frame
pub mod Transport
pub mod Message
pub mod Protocol
pub mod FrameType
pub mod Log
pub mod Serial
pub mod Hon
pub mod Smartair2
pub mod Base
pub mod Tests
