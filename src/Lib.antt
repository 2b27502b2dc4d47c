-- ===== src/Lib.antt =====
-- cbna reads captured frames, decodes their layers, and puts split messages together. This library
-- models the decoding core, crates/cbna-core/src, whose input is any bytes that a network delivers, and
-- the capture files, crates/cbna-capture/src. A file named alone is of the core.
--
-- The parts, and where they are modelled:
--   Error        error.rs: `DecodeError`. `Outcome` is a Rust result with a third end, the panic.
--   Bytes        bytes.rs: `Reader`. A parser takes the reader's state and returns it; an index or a
--                slice out of range is a panic, so that its absence is a statement. A slice that a
--                parser returns carries its start in the buffer, for `offset_in`.
--   Link, Net, Transport
--                link.rs, net.rs, transport.rs: `parse_ethernet`, `parse_arp`, `parse_ipv4`,
--                `parse_ipv6`, `parse_icmp`, `parse_tcp`, `parse_udp`, each by its source's name.
--   Proto        proto/: the messages of the application decoders; Proto.Dns is dns.rs: Name has
--                `read_name`, Record `render_rdata`, Message `parse_strict` and `parse`; Proto.Tls is
--                tls.rs, with its lists in Proto.Tls.Lists. Bytes.Loop is a `while` loop over a reader.
--   Outcomes     chains of outcomes, for what is no parser.
--   Packet       packet.rs: `DecodedPacket` with its accessors; Packet.App has `app_from_payload` and
--                Packet.Decoder has `decode` and what it calls, down to `decode_transport`.
--   Flow         flow.rs: the key that both directions of a conversation share, and `from_packet`.
--   FlowTable    flow.rs: `Flow`, `DirectionStats` and `FlowTable::observe`, which takes the packets that
--                `decode` returns; FlowTable.Client has `client_direction` and what is read off it.
--   Service      transport.rs: `service_name`.
--   Ranges, Buffered
--                what `Stream` of reassembly.rs and `Datagram` of ip_reassembly.rs hold in the same
--                words: filled ranges (`add_range`, `contiguous`) and the buffer (`write`).
--   Reassembly   reassembly.rs: `Stream`, `Reassembler` and `push`, which takes the packets that
--                `decode` returns and gives back a message that several segments carried.
--   Fragment, IpReassembly
--                ip_reassembly.rs: `FragKey`, `Datagram`, `IpReassembler` and `push`, which calls the
--                transport parsers over the rebuilt datagram.
--   Time         time.rs: `civil_from_unix` on signed seconds; Time.Calendar compares it with the calendar.
--   Ioc          ioc.rs: `IocSet`; Ioc.Domain has the shape of names. Proofs: Ioc.Suffix, Ioc.Sound
--                and, bit by bit, Ioc.Prefix and Ioc.Octets.
--   Capture      crates/cbna-capture/src: Capture.File is `FileSource` of file.rs over bytes, with the
--                blocks of pcapng in Capture.File.Blocks and its loop in Capture.File.Sections;
--                Capture.Writer is `PcapWriter` of writer.rs; Capture.Fuzz is `capture_file` of
--                fuzz.rs, which gives each packet of a file to `decode`; Capture.IocList is `parse_iocs` of
--                ioc.rs, which fills the set of Ioc.
--   Base         the shared helpers: tests, lists, and the association list that stands for a hash map.
--   Tests        the theorems at concrete inputs.
--
-- Numbers are natural numbers. A field of w bits is below 2 ^ w because it is read from bytes;
-- sequence numbers wrap at 2 ^ 32, written out in `wrapping_sub` and `after_syn`. Counters of packets
-- do not wrap. A hash map is an association list whose order nothing reads. Recursion is on fuel.
-- A loop that the source counts has its count: the 16 extension headers of IPv6, three tags, the point
-- formats of TLS and the entries of a DNS message. The walk over TCP options and the decoding of lossy
-- text return what they have where the fuel ends. Elsewhere running out of it is a panic.
-- The walk over TCP options, the texts of a DNS record, a loop over a reader, the options of a pcapng
-- interface, the loop over pcapng blocks and the walk over a name's parents have one round more than
-- bytes remain, and each round but the last takes one byte at least; a DNS name has a round
-- for each label and each pointer that the source's two limits allow; `capture_file` has the 4096
-- rounds of its own limit.
-- Lossy UTF-8 decoding is modelled as the standard library documents it. A read of a file in memory
-- fails only at its end, so the other I/O errors do not arise.
-- A set of texts is a list without repeats, and a time sample is the timestamp before its conversion
-- to floating point.
--
-- The byte order of the host, which the loopback header is read in, is an argument of `decode`, and
-- so are the decoders that `decode` calls for DNS, TLS and HTTP, of which nothing is assumed but that
-- they return. So are MD5, the standard library's reading and printing of addresses, and `trim`. Not
-- modelled: the body of the HTTP decoder, the analysis over floating point, text for display, live
-- capture, and the crates for feeds, web and command line, which are input and output around this core.
pub mod Base
pub mod Error
pub mod Bytes
pub mod Outcomes
pub mod Transport
pub mod Ranges
pub mod Buffered
pub mod Link
pub mod Net
pub mod Proto
pub mod Packet
pub mod Capture
pub mod Flow
pub mod Reassembly
pub mod Service
pub mod FlowTable
pub mod Fragment
pub mod IpReassembly
pub mod Time
pub mod Ioc
pub mod Tests
