-- ===== src/Pdu.antt =====
-- The packets of sACN (src/sacn/pdu.c, src/sacn/private/pdu.h): how they are parsed and packed. A
-- pointer into a buffer is the buffer read from that position on.
pub mod Wire
pub mod Parse
pub mod Pack
pub mod Strings
pub mod Sent
pub mod Sends
pub mod Accepts
pub mod Discovery
pub mod BigEndian
mod Examples
