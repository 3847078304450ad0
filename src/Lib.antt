-- ===== src/Lib.antt =====
-- The TCP library sponge: byte streams, the reassembly of a stream from segments that arrive in any
-- order, sequence numbers that wrap round, and the receiving and the sending half of a connection.
--
-- A TCPReceiver hands the payload of each segment to a StreamReassembler, at the position that
-- `unwrap` gives its 32-bit sequence number; the reassembler writes what has become contiguous to a
-- ByteStream, from which the application reads. A TCPSender reads a ByteStream that the application
-- writes, cuts it into segments, keeps them until an acknowledgment covers them, and sends the oldest
-- again when its RetransmissionTimer expires. On the wire a TCPSegment is a TCPHeader, which a
-- NetParser reads from a Buffer, and its payload, under an InternetChecksum. Files and code:
--
--   Prelude       Boolean tests, lists over the native numbers, 32- and 64-bit words
--   ByteStream    libsponge/byte_stream.hh, byte_stream.cc
--   Reassembler   libsponge/stream_reassembler.hh, stream_reassembler.cc
--   Wrapping      libsponge/wrapping_integers.hh, wrapping_integers.cc
--   Segment       libsponge/tcp_helpers/tcp_header.hh, tcp_segment.hh: fields and sequence length
--   Buffer        libsponge/util/buffer.hh, buffer.cc: Buffer
--   BufferList    libsponge/util/buffer.hh, buffer.cc: BufferList and BufferViewList
--   Parser        libsponge/util/parser.hh, parser.cc
--   Checksum      libsponge/util/util.hh, util.cc: InternetChecksum
--   Header        libsponge/tcp_helpers/tcp_header.cc
--   Packet        libsponge/tcp_helpers/tcp_segment.cc
--   Receiver      libsponge/tcp_receiver.hh, tcp_receiver.cc
--   Timer         libsponge/retransmission_timer.hh, retransmission_timer.cc
--   Sender        libsponge/tcp_sender.hh, tcp_sender.cc
--   Config        libsponge/tcp_helpers/tcp_config.hh
--   Descriptor    libsponge/util/file_descriptor.hh, file_descriptor.cc: Descriptor.Store has the objects
--                 that duplicates share
--   Utilities     libsponge/util/util.cc: SystemCall and hexdump
--   Address       libsponge/util/address.hh, address.cc
--   Socket        libsponge/util/socket.hh, socket.cc, and the constructor in libsponge/util/tun.cc
--   EventLoop     libsponge/util/eventloop.hh, eventloop.cc
--   State         libsponge/tcp_helpers/tcp_state.hh, tcp_state.cc
--   Webget        apps/webget.cc
--   Connection    libsponge/tcp_sender.cc and tcp_receiver.cc together
--
-- An object is a record with one field for each member; a method is a function of the same name that
-- returns the new object, beside its result where it has one. `size_t` and `uint64_t` arithmetic is
-- add64 and sub64, modulo 2 ^ 64; 32-bit arithmetic is add32 and sub32. Deques, queues and strings are
-- lists with the front at the head. A loop over a string or a queue is a recursion on it or on the
-- number of its rounds. The loop that drains the reassembler's window has one round of fuel for each
-- slot and one for the test that ends it: each round puts an empty slot at the back. The recursion of
-- fill_window has one call for each byte that the stream holds and three more, for a SYN, for a FIN
-- and for the call that sends nothing. The loop of InternetChecksum::value has three rounds, which a
-- 32-bit sum needs at most, and FileDescriptor::write one round for each byte, which is enough if the
-- kernel takes some byte each time. The loop that prints in get_URL has one round for each read, one
-- more for the read that finds the end, and one for the test that ends it. `front` of an empty queue is undefined in C++: there `tick` returns none, as
-- the functions do that throw.
--
-- ByteStream.Spec describes a stream by its history: all bytes that were accepted and how many were
-- taken out. Reassembler.Invariant says what holds while pieces of one stream `s` arrive, and
-- Reassembler.Known which bytes of it are there. Sender.Chain numbers the outstanding segments.
--
-- Connection puts a sender and a receiver at the two ends of a network that loses, repeats, delays and
-- reorders, with their owner free to call their methods in any order: its Step is a relation on the two
-- objects, what the network was given and what the reader got, and its invariant is proved step by step.
-- It takes a stream shorter than 2 ^ 31 - 2 bytes, on which all 32-bit numbers stay apart.
--
-- Header.Layout is the diagram of a TCP header as a list of bytes.
--
-- Not modelled: what only prints headers, results and states (to_string, summary, as_string, operator<<),
-- the addresses that BufferViewList::as_iovecs hands out, the clock and the random generator of util.cc. The
-- bytes of a sockaddr_in and O_NONBLOCK are those of a little-endian Linux. The storage that Buffers share is
-- never changed, so that a Buffer carries its own. Parameters are random_device in the sender's constructor,
-- getaddrinfo and getnameinfo, the kernel's answers in Descriptor, Socket, Webget and EventLoop, and the
-- callbacks of an EventLoop, which return and leave its list of rules as it is.
pub mod Prelude
pub mod Wrapping
pub mod ByteStream
pub mod Reassembler
pub mod Segment
pub mod Timer
pub mod Receiver
pub mod Config
pub mod Sender
pub mod Buffer
pub mod BufferList
pub mod Parser
pub mod Checksum
pub mod Header
pub mod Packet
pub mod Descriptor
pub mod EventLoop
pub mod Address
pub mod Socket
pub mod Utilities
pub mod Webget
pub mod State
pub mod Connection
