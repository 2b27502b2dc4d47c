-- ===== src/Proto/Dns.antt =====
-- crates/cbna-core/src/proto/dns.rs, by parts: names, records, the fixed fields, and the message.
pub mod Name
pub mod Record
pub mod Fields
pub mod Message
