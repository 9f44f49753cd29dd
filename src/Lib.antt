-- ===== src/Lib.antt =====
-- sockify: a proxy that takes WebSocket clients and forwards their bytes to a TCP server.
--
-- A session (src/proxy/proxy.c) reads from the client, answers the HTTP handshake, and from then on
-- feeds what arrives to the frame parser, writes the payload to a buffer for the target, and wraps
-- what the target sends in frames in a buffer for the client. The files model the parts below it:
--
-- - Prelude (Tests, Lists, Words, Texts, Bits): the shared names; tests on numbers, lists and bytes over
--   the native numbers, machine words with their wrap-around, texts, bits.
-- - Status: the result codes of include/sockify/core.h and include/sockify/tls.h.
-- - Buffer: src/core/buffer.c. Buffer/Queue is the bounded queue that it promises, Buffer/Inv its
--   invariant, Buffer/Window the bytes that it holds, Buffer/Write and Buffer/Read its operations,
--   Buffer/Refine the refinement. `sockify_buffer_write` is `write`, and so on.
-- - ByteOrder: src/core/byte_order.c.
-- - Frame: the parser of src/ws/ws_frame.c. `sockify_ws_parser_feed` is `parser_feed`, its loop
--   `feed_loop`, a round in a header state `step_in`, the payload branch `step_payload`. Frame/Spec
--   describes frames as RFC 6455 does, apart from the code. Frame/Writer is `sockify_ws_write_frame`.
-- - Base64: src/core/base64.c. Base64/RoundTrip reads Base64 as RFC 4648 does, apart from the code.
-- - Sha1: src/core/sha1.c. Sha1/Feed follows the bytes into the blocks, Sha1/Padding has the padding
--   of RFC 3174, apart from the code; the compression of one block is the code's.
-- - Text: the helpers on texts of src/ws/ws_handshake.c, and Handshake: the rest of that file.
--   `sockify_ws_build_handshake_response_ex` is `build_response`, its loop over the header lines
--   `headers_loop`, its `else if` chain `note_header`, its end `respond`. Handshake/Loops renders requests
--   line by line, Handshake/Request runs the builder on them, Handshake/Fields says what the fields show
--   apart from the code's one pass, Handshake/Accept has the answer, Handshake/Outcome every outcome.
-- - Transport: src/transport/transport.c. The sockets, the TLS library behind src/tls, the event loop and
--   the clock are the record `Backend` of functions on a state of the world, a parameter.
-- - Net: the endpoint parser of src/net/net_posix.c, and its reads, writes, accepts and socket errors over
--   the system calls, which are the record `Calls`. Net/Addresses is `sockify_net_listen` and
--   `sockify_net_connect` over the record `Sockets`; one loop over the addresses, `try_addresses`, stands for
--   the loops of both. Net/Addresses/Open is about the sockets that are open.
-- - Tls: src/tls/tls_openssl.c, over OpenSSL as the record `Openssl`. A function of the source that creates an
--   object is two here, the second from the result of OpenSSL's `new` on. Tls/Wants has the calls on a
--   connection, Tls/Verified the certificate of the target, Tls/Released the objects that OpenSSL holds.
-- - Linked: the `Backend` that Net, Net/Addresses and Tls make together, with the memory of the TLS code;
--   Linked/Outside says what is relied on in the system and in OpenSSL below it.
--   A handle of a session may be null: the tests for it at the top of the TLS functions are here.
-- - EventLoop: the table of sources of src/event/ev_poll.c, EventLoop/PollRun its run, EventLoop/Dispatch
--   src/event/event_loop.c. EventLoop/Spec is the map that a backend promises, EventLoop/Table the tables
--   that stand for one, EventLoop/Refine the refinement for poll. EventLoop/Epoll is src/event/ev_epoll.c,
--   with the address of each source, which the kernel holds too; Epoll/Watched says what the
--   kernel watches, Epoll/Registered follows the calls, Epoll/Batch the sources freed in one `epoll_wait`;
--   EventLoop/Entries is what the tables of the two backends with addresses share. EventLoop/Kqueue is
--   src/event/ev_kqueue.c in the same way, with its filters in Kqueue/Filters; EventLoop/Iocp is
--   src/event/ev_iocp.c, and Iocp/Silent is about its callbacks.
-- - Cli: src/core/cli.c and the names of the log levels of src/core/log.c; `sockify_cli_parse_args` is
--   `parse_args`.
-- - Config: the configuration of src/proxy/proxy.c and the `validate_tls` of src/core/cli.c.
-- - Session: src/proxy/proxy.c, one session. Session/Client takes the bytes of an open client
--   (`session_process_ws_bytes` is `process_ws_bytes`, `session_handle_ws_message` is
--   `handle_ws_message`), Session/Target the bytes to and from the target and to the client
--   (`session_write_target` is `write_target`, and so on). Session/Target/Stream says what is relied
--   on in the sockets and the TLS library. Session/Events has the event masks, the TLS handshakes and
--   `session_handle_target_event`. Session/Opening has the HTTP
--   handshake of a session, the connect to its target and the client event handler: Opening/Start and
--   Opening/Opens follow a request and the frames behind it, Opening/Inv is what every handler keeps.
-- - Server: the rest of src/proxy/proxy.c. The list of sessions has numbers in place of addresses; a
--   session that a handler has freed leaves the list when the handler returns. Server/Loop has
--   the callbacks of the event loop, Server/Run is `sockify_proxy_run` up to the run of the event loop
--   and behind it, Server/Inv and Server/Steps the
--   invariant, Server/Ends the start and the end of a run.
--   Logging is left out. `session_close` frees a session: it stays a value with `closing` 2 and no storage.
--   Where the source reads it after that, which C leaves undefined, the field `used_freed` of the session
--   becomes true, and that of the server when the handler returns or when the event loop calls back for a
--   session that is not in the list; the model goes on with the fields as they were at the `free`.
--   Session/Client/Freed is about such reads.
--
-- Conventions. A function returns its code first and then what it stores through its output
-- parameters. A pointer to a struct of the program's own or to an output parameter is not null, and
-- the test for it is left out; a data pointer that may be null is an `Option`. `size_t` has 64 bits,
-- and its sums and differences wrap round (`add_size`, `sub_size`). The loop of `consume` runs on
-- fuel: each round takes at least one off the position, so one more than the position is enough.
-- The loop that pads a hash has 64 rounds, the bytes of a block. The loop of
-- `session_process_ws_bytes` has one more round than bytes as its fuel, and gives `none` without fuel.
-- The loops that write and read have the budget of the configuration as their rounds. Every other loop
-- is structural recursion over the bytes it goes through. Where a size is bounded by 2 ^ 63 or 2 ^ 60,
-- sums of sizes do not wrap; no object of the program is as large.
--
-- The searches for the end of a header and of a line are structural; the loop over the header lines has one
-- more round than bytes, and a round goes on two bytes at least. A callback of the event loop is an entry
-- of a list that the world chooses, so the orderings of callbacks are all lists.
--
-- The runs of the backends have fuel for their rounds, since they last until a callback stops the loop; without
-- fuel they give `out_of_fuel`. A round of `poll_run` has fuel for its loop over the sources, which callbacks
-- may lengthen. A callback of the event loop is a number, and what it does to the loop is a parameter.
--
-- Not modelled: `main`, and the run of the event loop inside `sockify_proxy_run`, whose length the callbacks
-- decide: the server's callbacks are run as any list, apart from the loops of EventLoop; which backend
-- `sockify_event_loop_create` takes, which the compiler decides; Winsock
-- (src/net/net_windows.c), whose functions repeat those of net_posix.c over other calls; the stub in place of
-- OpenSSL (src/tls/tls_none.c), whose functions return SOCKIFY_ERR_UNSUPPORTED; output to the
-- terminal. They are the outside world, or code that the models take as parameters.
pub mod Base64
pub mod Buffer
pub mod ByteOrder
pub mod Cli
pub mod Config
pub mod EventLoop
pub mod Frame
pub mod Handshake
pub mod Linked
pub mod Net
pub mod Prelude
pub mod Server
pub mod Session
pub mod Sha1
pub mod Status
pub mod Text
pub mod Tls
pub mod Transport
