-- ===== src/Lib.antt =====
-- OxiBus, a message bus that speaks D-Bus: the wire format, the handshake, the registry of names, the
-- security policy and the routing of messages.
--
-- The program's parts and the files that model them:
--   Core         crates/oxibus-core. Core/Types is types.rs (Type is DType, a vector of types DTypes),
--                Core/Signature is signature.rs, Core/Marshal is marshal.rs, Core/Unmarshal is
--                unmarshal.rs, Core/Header with Access and Wire is header.rs, Core/Message is
--                message.rs, Core/Error is error.rs, Core/Names is lib.rs, Core/Addr is addr.rs.
--                Core/Utf8 and Core/Bytes are the functions of the standard library that these
--                use.
--   Core/Wire    the D-Bus wire format as a function of a value and its position, which stands
--                between Marshal and Unmarshal: the one writes it, the other reads it.
--   Auth         crates/oxibus-auth: mechanism.rs, server.rs in Auth/Server, client.rs in
--                Auth/Client, and the splitting of a line in Auth/Lines.
--   Transport    the credentials of a peer, of crates/oxibus-transport.
--   Daemon       crates/oxibus-daemon. Daemon/Registry is registry.rs; Daemon/Policy is policy.rs, with
--                its reader of XML in Policy/Xml and Policy/XmlRules; Daemon/MatchRules is
--                match_rules.rs; Daemon/Bus is the state of bus.rs and stats.rs, with the world around
--                it; Daemon/Driver is driver.rs; Daemon/Dispatch is dispatch.rs, where Interfaces is
--                handle_side_interface and Routing is what starts at dispatch_incoming;
--                Daemon/Connections is connection_handler.rs, and its runs are those of the bus.
--   Base         lists, texts, maps, results, options and tests that the parts share; Base/Strs holds
--                methods of `str`.
--   Tests        the theorems at concrete inputs.
-- A method that changes `self` takes the state last and returns the new one. A definition has the
-- name of the function that it models; what stands for a part of a function says so.
--
-- Texts are lists of bytes and numbers are natural numbers, with the wrap-around of machine integers
-- written out. A float is its bits and a file descriptor its number. `HashMap` is an association
-- list. `usize` has 64 bits, and no buffer comes near that size.
--
-- Recursion: `parse_signature` runs on fuel of twice the length of the text, since each
-- byte opens or closes at most one level. `read_value` takes its fuel as an argument; a unit for each
-- nested value and each round of a loop is enough for every value that is written (`fuel_of`).
--
-- The tokenizers of XML and of match rules run on fuel of one more than the length of the text, since
-- each round takes a byte.
--
-- The dispatch of one message is a step on the state of the bus, and what it writes is a log in that
-- state. The program awaits each write, and the dispatch of another connection may run meanwhile:
-- that interleaving is left out but for the wait for a service to start, which sees one state of the
-- registry after another, given as a list. A message that `to_bytes` refuses is not written and stands
-- not in the log, as in `write_message` of crates/oxibus-transport/src/stream.rs.
--
-- What a method of the registry does under one lock is one step. `release_name` and
-- `remove_connection` take several locks: what other methods do between them is an argument of
-- `release_name_among` and `remove_connection_among`, and the driver and the runs of the connections
-- have nothing between. In the runs of the registry, other steps may come between the locks.
--
-- Parameters, since their code lies elsewhere: the crates `hex` and `sha1` (`Crates`), and what the
-- files of the keyring, the random numbers and the system answer (`Moment`, and `System` of the
-- client). The dispatch asks the system for the groups of a user, AppArmor, the sockets and the start
-- of services (`World`). What `String::from_utf8_lossy` makes of bytes that are no UTF-8 is an
-- argument.
--
-- Not modelled: sockets and processes, the client library (crates/oxibus-client), the
-- configuration, the policy's files and their TOML, and the handshake of a connection over its
-- socket.
pub mod Base
pub mod Transport
pub mod Core
pub mod Auth
pub mod Daemon
mod Tests
