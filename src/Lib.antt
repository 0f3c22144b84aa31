-- ===== src/Lib.antt =====
-- libattachsql is a client library for the MySQL protocol. A connection sends a command, receives
-- the packets of the answer into a buffer, and hands them to the handler of the packet type it
-- expects next; a program polls the connection and reads rows and statement columns.
--
-- Which file is about which part:
--   Prelude        numbers of fixed width, lists, and byte memory as the C code addresses it
--   Pack           src/pack.cc and src/pack_macros.h: integers, lengths, dates and times on the wire
--   Buffer         src/buffer.cc: the growing receive buffer
--   Net            src/net.cc: the queue of expected packets (Queue), the connection's state from
--                  src/structs.h (Connect), the packet handlers (Response, Columns), the packet
--                  loop (Process) and the callbacks of reading (Read) and writing (Write)
--   Command        src/command.cc: sending a command, the next row and the next result
--   Connect        src/connect.cc and src/error.cc: the handshake (Handshake), the password's scramble
--                  (Scramble), the errors (Errors), the callback and the event loop (Callback), opening
--                  a connection and its options (Open), creating one and the accessors (Create), and
--                  the poll (Poll)
--   Query          src/query.cc: escaping, the text of a query with its parameters, sending it (Run),
--                  the cells of a row (Rows), and the row buffer (Buffered)
--   Statement      src/statement.cc and src/statement_getset.cc: the setters of parameters (Params),
--                  the packet of an execution (Pack), preparing and executing (Run), the other commands
--                  (Commands), the cells of a binary row (Row), and the getters of numbers (Getters)
--                  and of texts (Texts)
--   Pool           src/pool.cc: connections with a common event loop
--   Compress       the parts of src/net.cc, src/command.cc and src/connect.cc that are built with
--                  HAVE_ZLIB: sending a compressed packet (Send) and decompressing (Receive); Zlib has
--                  the library's operations and their laws, Frames the format of a packet
--   Tls            the parts of src/net.cc, src/connect.cc and src/command.cc that are built with
--                  HAVE_OPENSSL: running SSL (Run), the callbacks, the poll and the commands on an
--                  encrypted connection (Read), its setup (Setup) and the response of the
--                  handshake (Handshake); Ssl has the library's operations and their laws
--   Tests          the theorems at concrete inputs
--
-- Pointers are addresses (numbers, 0 is NULL) into a memory that maps an address to its byte. Sums
-- and differences of size_t are written modulo 2 ^ 64. Functions that write through a pointer take
-- the memory and give it back. What an allocation answers is an argument of the operation that asks
-- for it. Whether a plain `char` is signed is an argument (`PlainChar`), as it is the compiler's
-- choice; what `sprintf` prints for a floating point number is an argument with the length that
-- FLOAT_MAX_LEN and DOUBLE_MAX_LEN promise as a hypothesis. Loops are structural recursion over the
-- bytes or packets that the source's loop goes through, but for the packet loop: it takes fuel, one
-- more than the unread bytes, and as each of its turns takes at least the four bytes of a header,
-- that is enough.
--
-- A command or the program puts the types of the packets it waits for on the queue; the packet
-- loop takes the top one, hands the packet to its handler with the read pointer on the payload,
-- and the handler sets the connection's fields, ends the packet in the buffer and puts what it
-- expects next on the queue. The handlers of handshake packets are an argument of the loop (the
-- record Handshake), with what the loop relies on as its law (IsHandshake), which the handshake of
-- Connect has.
--
-- Debug output is left out. The modules but Compress and Tls are about the build with neither
-- HAVE_ZLIB nor HAVE_OPENSSL; the functions that differ with zlib stand in Compress, under their names
-- with `_zlib`, and those that differ with OpenSSL, but without zlib, in Tls, with `_tls`. Each library
-- is an argument (the records Zlib and OpenSsl), and what its manual says of it is a hypothesis
-- (IsZlib, IsOpenSsl). The fields that only compression uses are a record of their own, Compression,
-- and those of SSL are in the record Secured with the connection. The loop that takes bytes for the
-- network from OpenSSL has fuel, one more than the bytes that are pending. The response of the
-- handshake with OpenSSL (Tls/Handshake) has fuel for each entry, of which SSL takes two.
-- The union of a parameter is a sum with the member that was stored last, and packing a parameter
-- whose type asks for another member has no result. What the event loop of libuv and the program's
-- callback make of a connection is an argument of the poll (the record World), as are the answers of
-- the allocations and the conversions of floating point numbers (Floats, Snprintf). The loop of the
-- row buffer takes fuel, two more than the unread bytes. The pointer of a connection to its pool is two
-- Booleans, whether it is there and whether that pool has a callback; whether the array `con->row` is
-- there is an argument of the functions that fill it.
--
-- Not modelled: destroying a connection or a pool; SHA-1, which is a copy of another implementation
-- and an argument of the scramble; the event loop of libuv and what only calls it; releasing memory;
-- the packet loop's calls of the handshake with OpenSSL; the build with both zlib and OpenSSL, where
-- they meet; the version and utility functions.
pub mod Prelude
pub mod Pack
pub mod Buffer
pub mod Net
pub mod Query
pub mod Command
pub mod Connect
pub mod Statement
pub mod Pool
pub mod Compress
pub mod Tls
pub mod Tests
