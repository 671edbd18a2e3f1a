-- ===== src/Protocol.antt =====
-- ProjetoFinal/spread/spread-src-5.0.1/daemon/protocol.c: the window of ordered packets of a ring of
-- daemons, its delivery to the sessions. The children hold the parts.
pub mod Types
pub mod Body
pub mod Window
pub mod Token
pub mod Invariant
pub mod Moves
mod Tests
mod TokenTests
mod SendTests
pub mod Delivery
pub mod Agreed
pub mod Discard
pub mod Receive
pub mod Runs
pub mod Total
pub mod Admission
pub mod Circle
pub mod Round
pub mod Pack
pub mod Queue
pub mod Packing
pub mod PackingTotal
pub mod Send
pub mod Sending
pub mod Evs
pub mod Remaining
pub mod BeforeSignal
pub mod AfterSignal
pub mod Transitional
pub mod TransitionalTotal
pub mod Retrans
pub mod Dispatch
pub mod Requests
