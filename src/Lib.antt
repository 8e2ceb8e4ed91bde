-- ===== src/Lib.antt =====
-- nanoproxy is a small HTTP proxy and static file server with a DNS responder, written in C. This
-- library models the parts that read bytes from the network, the tree of values that configurations
-- are read into, the choice of a handler and of a file, the relay between a client and an upstream
-- server, the pools that choose and keep upstream connections, and the recorder of exchanges, and
-- states what makes them correct.
--
-- The parts and their modules:
--   StringBuf  include/stringbuf.h, the growable byte buffer. A buffer is a record of its block, its
--              size and its capacity; `stringbuf_append` is `append`, and so on, with the prefix left
--              out. `malloc` and `realloc` are the parameter `Alloc` of StringBuf/Heap: they fail or
--              give a block of the size asked for, and `realloc` keeps the bytes in front.
--   Http       include/http.h, requests and responses. Http/Types has `struct http_parser` and the limits;
--              each case of the `switch` in `http_parser_feed` is a file: RequestLine, HeaderLine with
--              Framing (what the end of the headers decides), and Body. Feed is the loop around them,
--              with `http_parser_init`, `_reset` and `_drain_body`. The header fields are kept by
--              stb_ds.h, which is the parameter `Table` of Http/Table: a map of strings with its
--              length. Http/Strtoull is the C library's function of that name. Http/Answer has
--              `http_build_response` and Http/KeepAlive has `http_should_keep_alive`.
--   Dns        include/dns.h, the responder, and the records of include/config.h. Dns/Name has
--              `dns_decode_name`, `dns_encode_name` and `dns_valid_hostname`, Dns/Response has
--              `dns_build_response`.
--   Upstream   the upstream pools of include/request.h: `upstream_pool_resolve` in all of its modes,
--              `_inc_conn`, `_dec_conn` and `_mark_down`, on the pool that a name is found under. The
--              clock and `rand` are arguments.
--   Keepalive  the pool of idle connections in include/request.h: `keepalive_pool_take`, `_put` and
--              `_sweep` on the array of one target.
--   Proxy      one proxied connection of include/request.h, `proxy_state_t`, with the masks of events
--              of its two descriptors. Proxy has `proxy_on_body_data`, `proxy_on_upstream_write`,
--              `proxy_on_client_writable` and `proxy_cleanup`; Proxy/Relay has
--              `proxy_on_upstream_read` and `proxy_relay_upstream_keepalive`, and Proxy/Response what
--              it reads from a head and makes of it. What `read` and `write` answer, whether memory is
--              given, and `atol` are arguments. The masks are those of epoll.
--   Dispatch   include/request.h: the choice of a handler in `http_dispatcher`, `get_mime_type`, and in
--              Dispatch/Static `http_static_dir` up to the answer; Dispatch/Register has where
--              `addHandler` puts a handler. The tables of handlers are lists of
--              entries, and the file system is the parameter `Files`.
--   Mock       include/mock.h: `mock_make_key` and the recorder, from `mock_recorder_begin` to
--              `mock_recorder_finish`; Mock/Header reads the numbers of the header back. The file is the
--              list of its bytes.
--   Endpoint   include/request.h: `parse_forward_target`, and `upstream_pool_register` with its reading
--              of target URLs. `strtol` is an argument.
--   Dict       include/dict.h, the tree of JSON values. Dict has the values and the operations on
--              objects (`dict_object_set` is `object_set`, and so on), Dict/Json/Print and
--              Dict/Json/Parse have `dict_serialize_json` and `dict_deserialize_json`, Dict/Bson has
--              `dict_serialize_bson` and `dict_deserialize_bson`. What `snprintf` and `strtod` do with
--              a `double` is the parameter `Doubles` of Dict/Json/Text.
--   Prelude    the names, tests and list lemmas that all parts share.
--   Samples    a concrete allocator and table, for the runs in the modules called Tests.
--
-- How the parts meet: the parser appends what it is fed to a StringBuf, searches it with
-- `stringbuf_memchr` and `stringbuf_find`, and moves it up with `stringbuf_consume`;
-- `http_build_response` takes its decimal digits from Dict/Json/Text; what the relay asks
-- of header values is the parser's `strcasecmp`; a connection that `proxy_cleanup` pools is one that
-- `keepalive_pool_put` is given; a pool that `upstream_pool_register` makes is one that
-- `upstream_pool_resolve` works on; the responder shares only the prelude.
--
-- Bytes are natural numbers below 256 in a list; the theorems hold of any numbers. A `size_t` is a
-- natural number, with `% 2 ^ 64` where the code can wrap around. A pointer that may be NULL is an
-- option, and a pointer into a buffer is an index. A write or a read outside of a block that the
-- code can reach is a result of its own (`fault`, `out_of_bounds`) in the parser; the responder's
-- output is the list of the bytes written, whose length is compared with the size of the buffer.
--
-- Fuel: the loop of `http_parser_feed` has the bytes not yet read and two more, since each round but
-- the last one reads a byte or ends the request; the loop over chunks has the bytes left and one
-- more. The loop of `dns_decode_name` has 66 walks over the packet, since 64 jumps are allowed. The
-- loop of `dns_encode_name` takes a byte of the name each round. The JSON parser has two units for
-- each byte of the text and one more: of two calls in a row, one reads a byte. The BSON reader has
-- the length of the document: a round of its loop reads two bytes at least. The loop over the lines of
-- a response's head has the length of the head. That the fuel is enough is part of the theorems below.
--
-- In the dictionary memory does not run out, so a capacity is no part of the model.
--
-- Not modelled: logging (`log_error` and the like have no effect here), `errno` beyond ERANGE, the
-- formatted append, the scans and the number parsers of include/stringbuf.h; in include/dict.h the
-- text that `dict_parser_error` puts around a message, `dict_object_sort_keys` and the freeing of
-- trees; in include/request.h the sending of files, the start of a proxied request, the access log,
-- the timeouts and the forward tunnel, which are I/O for the most part; the reader of include/mock.h,
-- whose text comes from sscanf; include/config.h but for the DNS records and the host name test;
-- include/socket_server.h but for the masks of events; include/logger.h and server.c.
-- include/stb_ds.h is a copy of another project's library.
pub mod Prelude
pub mod StringBuf
pub mod Http
pub mod Dns
pub mod Upstream
pub mod Keepalive
pub mod Dict
pub mod Proxy
pub mod Dispatch
pub mod Mock
pub mod Endpoint
pub mod Samples
