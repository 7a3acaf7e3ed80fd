-- ===== src/Lib.antt =====
-- A model of obexd's OBEX library (gobex), which the server, the plugins and the client use to talk to a
-- peer, of the server's registries of drivers, and of the vCards that the phone book plugins print.
--
-- The parts, from the inside out:
-- A header is an id whose two upper bits give the encoding of its value: text in UTF-16, bytes, one
-- byte or four. A packet is an opcode with a final bit, a length of two bytes, data whose length
-- depends on the opcode, and headers; its last header may be produced while it is encoded. A session
-- (GObex) owns a channel. It keeps a queue of packets to send, one request that waits for its response,
-- a receive buffer, and a table of handlers for the peer's requests. The write watch takes packets from
-- the queue and encodes them into the transmit buffer; the read watch collects a packet, decodes it, and
-- hands it to the pending request's callback or to a handler. A transfer is an object that is sent or
-- taken in many packets: it lives above the session, as a list of its own and as callbacks and handlers
-- that it leaves with the session, for PUT and GET in both roles.
-- The server looks for what serves a request in three registries: of transports, by name; of services, by
-- target and who; and of drivers for objects, by target, MIME type and who. A server session writes what a
-- PUT brings to an object of such a driver, and reads a GET from one; an object that has no data yet has a
-- watch. A plugin prints a contact as a vCard: a property is a line that is escaped and folded,
-- or quoted-printable.
--
-- The files:
-- Base: lists, Boolean tests, byte order and integers that all parts share.
-- Gobex/Defs: gobex/gobex-defs.h; also GLib's text conversions, which are parameters (record Glib) with
-- their documented behaviour as hypotheses (IsConverting). Gobex/Ascii has functions to put in for them
-- in examples.
-- Gobex/Header: gobex/gobex-header.c. g_obex_header_encode and g_obex_header_decode are encode and decode
-- of Header/Codec; g_obex_header_X is X of Header.
-- Gobex/Packet: gobex/gobex-packet.c. g_obex_packet_encode and g_obex_packet_decode are encode and decode
-- of Packet/Codec; g_obex_packet_X is X of Packet, where the static function get_body is part of
-- encode_body.
-- Gobex/Obex: gobex/gobex.c. The record GObex is struct _GObex, World adds the static counters, the idle
-- requests, what the channel has taken, and the state of everything outside; Env has what the session
-- calls: the channel, the callbacks, the handlers and the producers. Obex/Send has the queue
-- (g_obex_send, g_obex_send_req, g_obex_cancel_req), Obex/Write the write watch (write_data), Obex/Receive
-- read_stream and read_packet, Obex/Incoming the read watch (incoming_data) with handle_response and
-- handle_request, Obex/Requests the client requests (g_obex_connect to g_obex_move). Obex/Steps has
-- the session as a step relation over the calls of the interface, the timer and the watches.
--
-- Gobex/Transfer: gobex/gobex-transfer.c. The transfers are a part of what World has outside the session
-- (record Layer), and Func says which callback the session holds: the user's own or one of the file's.
-- Transfer/Client has g_obex_put_req, g_obex_get_req and what they leave with the session, Transfer/Server
-- g_obex_put_rsp and g_obex_get_rsp, and Transfer/Session makes of both the Env that the session calls.
-- Each function of the file has its name there, without g_obex_. A callback names its transfer by its id;
-- a transfer that is no longer in the list was freed, and using it sets faulted.
-- Obexd/Session: src/obex.c. The record ObexSession has the members of struct obex_session that the object
-- needs, and Driver what the session calls; Session has the reset and driver_write, Session/Stream
-- driver_read, driver_get_headers, the watch handle_async_io, and recv_data, Session/Open how an object is
-- opened, Session/Requests the handlers cmd_get to cmd_abort with what they parse, and Session/Connect
-- cmd_connect with its authentication. What g_obex_suspend and its
-- like are told is the list calls.
-- Obexd/Blob: memncmp0 of src/obex.c. Obexd/Mimetype: src/mimetype.c, where obex_mime_type_driver_X is
-- driver_X, with the watches in Mimetype/Watches. Obexd/Service: src/service.c, where
-- obex_service_driver_X is service_driver_X. Obexd/Transport: src/transport.c. The static lists are an
-- argument and a result, and a driver is known by its address, id.
-- Vcard: plugins/vcard.c. Words has its string literals, Print vcard_printf, Escape add_slash to
-- get_escaped_fields, Qp the quoted-printable encoding, Fields the printers of the properties, Contact
-- phonebook_add_contact. A C string is the list of its bytes before the NUL, and a function that appends
-- to the GString gives what it appends. The stack's content, where the code copies an array that nothing
-- has set, is a parameter.
--
-- How the code is modelled: a buffer is the list of its bytes, and a pointer into it a suffix. An encoder
-- gives the bytes that it puts at the front of the buffer; what a call that fails has written is not
-- kept. A reference to foreign memory is the bytes that it points to. A function that ends the process by
-- an assertion gives an outcome of its own: aborted, asserted, assertion_failed, or none. A timer, a watch
-- or a channel is modelled by whether it is set. Callbacks get and give the whole World, so they may call
-- the library again; the theorems name what they rely on. The bytes of a buffer behind what it holds are
-- unspecified after g_realloc, and the model drops them.
--
-- Fuel: parse_headers has the buffer's length as fuel, since each header takes two bytes or more;
-- read_rest has one more than the number of bytes that are missing, since each round but the last brings
-- one or more; driver_write has one more than the bytes that wait and the interruptions that may come;
-- extract_nonce has one more than the data's length, since each turn takes two bytes or more. Integers are
-- natural numbers, and ℤ where the code counts below 0; the counters of requests, connections and
-- handlers wrap at 2^32, lengths at 2^16 where the code stores 16 bits.
--
-- Not modelled: memory management and reference counts, debug output, g_obex_strerror, the channel's
-- set-up in g_obex_new; src/map_ap.c, whose functions are stubs; of src/obex.c the time of an object, the
-- list of sessions, their end and the accessors; of src/mimetype.c obex_object_set_io_flags; the server's
-- set-up and D-Bus interface, the other plugins and the client, which speak to the file system, D-Bus and
-- sockets and are not yet taken up; btio and gdbus, which are copies of other libraries.
pub mod Base
pub mod Gobex
pub mod Obexd
pub mod Vcard
