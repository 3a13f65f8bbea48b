-- ===== src/Lib.antt =====
-- ktuctl: the control program of the tutuicmptunnel kernel module, and the two programs that carry
-- its scripts to another host.
--
-- - ktuctl-rs talks to the kernel module by generic netlink. ktuctl-rs/src/netlink.rs opens a socket
--   for each request, asks the controller for the number of the module's family, sends one message
--   and reads the replies; ktuctl-rs/src/config.rs has the structs that the messages carry.
-- - tuctl-client/src/main.rs encrypts a script, sends it to a server in a UDP datagram, with retries,
--   and shows the response.
-- - tuctl-server/src/main.rs decrypts such datagrams, refuses old and repeated ones, hands each script
--   to `ktuctl script -` and sends the output back.
--
-- What models what:
-- - Prelude, Bytes, Text, Number: shared names and lemmas, integers as bytes, `from_utf8_lossy`,
--   `lines`, `str::parse` and the decimal digits. Bytes are numbers below 256, and texts are their UTF-8 bytes.
-- - Outcome, World: results with their errors, panics and waits, and the outside of ktuctl-rs. A run
--   of ktuctl-rs is a function of what its system calls will give, one `Conversation` per socket.
-- - Protocol: config.rs, each struct with its layout in memory (`Layout`); Image has what the fields may
--   hold and the images written out by hand.
-- - Netlink: netlink.rs. Attr has `push_nlattr` and `parse_attrs`; Message the messages; Loop the two
--   loops over datagrams and over the messages in one, which the source repeats in each exchange, with
--   the `match` of each exchange as a parameter; Socket `NetlinkSocket`; Exchange the exchanges
--   (`resolve_genl_family_id`, `send_struct`, `send_string`, `receive_struct`, `dump_structs`,
--   `dump_strings`). Delivery, Replies and Dumps have a kernel that answers, for what is sent, asked
--   for and dumped, and Kernel puts its answers into records; World/Chaining has the laws of actions
--   that they use. Closed is an interface, a property of actions that the ways to put them together
--   keep; Termination and Queries fill it, and the exchanges and the commands that print are shown to
--   keep it.
-- - Control: UidMap is ktuctl-rs/src/uid_map.rs, and UidMap/Written describes the lines of its file apart
--   from the parser and UidMap/Said has what is found, with Text/Words for words and the space between them; XorKey, Comment and Names are the functions of
--   ktuctl-rs/src/helper.rs, whose global variables are arguments. Options has the argument loops of
--   ktuctl-rs/src/commands.rs, one loop with the words of a command as its parameter, Edit the
--   commands that change the module's state, Listing those that print (Listing/Answered and
--   Listing/Dumped against a kernel that answers), and Script `cmd_script`, whose `Outside` holds what
--   the commands use besides the kernel; Script/Whole and Script/Users have a dump as a script, and
--   Script/Reload what a dump prints as the standard input of one. AddressText has the texts of addresses.
--   Main is ktuctl-rs/src/main.rs with the types of ktuctl-rs/src/cli.rs; Ends shows that every command
--   ends. Address is `IpAddr`.
-- - Tunnel: the client and the server. Clock has the arithmetic of times, Replay the record of packets
--   (`ReplayWindow`), Packet the encryption, Padding the padding, Server the handling of a packet,
--   RateLimiter the limiter, Server/System the server's start and its loop with the tasks, Dsl the
--   client's arguments, Client its run and Client/Main its `main`. EndToEnd has a run of the client
--   against the server.
-- - Tests: runs, and the theorems at concrete inputs.
--
-- Conventions, bounds and fuel:
-- - The byte order of the machine is a parameter (`Endian`). `usize` has 64 bits. Integers are natural
--   numbers with their wrap-around written out, as in a release build; an `i64` is its bit pattern.
-- - The attribute loop and the loop over a datagram run on fuel, the length of the input. Each round
--   takes at least a header, so the fuel is enough; `stuck` is what a lack of fuel would give. The
--   other loops recurse on their data: the datagrams that will come, the arguments, the retries that
--   are left.
-- - A `HashMap` is an association list in the order of its iteration. The server's limiter goes by the host
--   of a `SocketAddr`, responses go to the whole of it. A datagram is cut to the buffer of who receives it:
--   4160 bytes in tuctl-client and tuctl-server, so a script of more than 4096 bytes does not get through.
-- - `recv_from` without an answer is `blocked`; a slice index out of range is `panic`.
-- - The tasks of the server meet in the replay record, behind a mutex. A task's handling of a packet is
--   one function; what other tasks do in between is a list of `Turn`s. In Server/System each hold of
--   the lock is a step, and the steps of the tasks may come in any order.
-- - Argon2 and XChaCha20-Poly1305 are crates, and a parameter (`Crypto`) with their contract as its
--   laws: what was encrypted is decrypted, and a tag has 16 bytes. `f64` is a parameter as well
--   (`Float`). Random bytes, clocks and the results of system calls are arguments.
-- - `println!` adds a line to the log of `World`; the texts of errors, the local time, the resolver, the
--   lines of files and `shlex::split` are arguments (`Outside`), as they may be at any point of a run.
--
-- Not modelled: what is logged; the parsers of command lines that clap generates; how the client's
-- sockets are created; build scripts.
pub mod Prelude
pub mod Bytes
pub mod Text
pub mod Number
pub mod Address
pub mod Outcome
pub mod World
pub mod Protocol
pub mod Netlink
pub mod Control
pub mod Tunnel
mod Tests
