-- ===== src/Capture/File/Sound.antt =====
-- Reading a capture file: no read is out of range, and each packet is made of bytes that the file has.
pub mod Block
pub mod Packets
pub mod Answers
pub mod Opening
pub mod End
