-- ===== src/Gobex/Obex/Tests.antt =====
-- The theorems about the session at concrete inputs.
use map_client.Base.{
  ◌≡◌, ◌≢◌, ◌↔◌, ◌⊎◌, inr, refl, Bool, true, false, Option, some, none, [], ◌∷◌, ◌++◌, length,
  arith,
}
use map_client.Base.Int.{pos, negsuc}
use map_client.Base.Endian.{Bytes, get_be16}
use map_client.Gobex.Defs.{GObexError, parse_error, copy, disconnected}
use map_client.Gobex.Header.{GObexHeader, u32, get_uint32, hdr_enc}
use map_client.Gobex.Packet.{
  GObexPacket, empty_packet, set_data, op_abort, op_put, op_get, get_header, find_header,
}
use map_client.Gobex.Obex.{
  PendingPkt, GObex, World, is_some, stream, new, find_handler, add_request_function,
  remove_request_function,
}
use map_client.Gobex.Obex.Send.{with_obex, response, connect_data, cancel_req}
use map_client.Gobex.Obex.Write.{write, write_data}
use map_client.Gobex.Obex.Receive.{read, read_rest, read_body, read_stream, put_at}
use map_client.Gobex.Obex.Incoming.{
  handle_response, fail_incoming, parse_connect_data, handle_request, response_unavailable,
}
use map_client.Gobex.Obex.Stream.{output, write_data-output}
use map_client.Gobex.Obex.Queue.{KeepsPending, write_data-KeepsPending}
use map_client.Gobex.Obex.Buffer.{IsWithin, KeepsBounds, read-KeepsBounds, read_rest_ends}
use map_client.Gobex.Obex.Session.{
  IsFresh, IsTooSmall, limited, new-IsFresh, parse_connect_data-connect_data,
  add_request_function_undone,
}
use map_client.Gobex.Obex.Cancel.{CancelsQueued, completions, cancel_req_queued}
use map_client.Gobex.Obex.Abort.{aborting, cancel_req_pending, cancel_req_closed}
use map_client.Gobex.Obex.Responses.{
  besides, told, failed, handle_response-pending, fail_incoming-obex,
}
use map_client.Gobex.Obex.Requesters.{replied, handle_request_foreign}
use map_client.Gobex.Packet.{get_data}
use map_client.Gobex.Obex.Send.{send_req}
use map_client.Gobex.Obex.Incoming.{incoming_data}
use map_client.Gobex.Obex.Keeping.{IsKeeping}
use map_client.Gobex.Obex.Steps.{Reachable, starts, goes_on, requests, reads, Reachable-IsWithin}
use map_client.Gobex.Packet.Codec.{decode, decode_body, parse_headers}
use map_client.Gobex.Obex.Incoming.{rsp_header_offset}
use map_client.Gobex.Obex.{packet}
use map_client.Gobex.Obex.Delivery.{IsTold, incoming_data-handle_response}
use map_client.Gobex.Obex.Samples.{
  small_env, request_pkt, busy, idle_watch, small_env-Accepts, small_env-ReadsAtMost, busy-IsWithin,
}

write_data-output_example :
    (w' : World Bool Bytes) × (keep : Bool) × (write_data small_env idle_watch busy
      ≡ some (w', keep))
    × (output w' ≡ output busy)
write_data-output_example =
    write_data-output small_env idle_watch busy small_env-Accepts refl refl (omega arith)
      (inr (unfold write in refl))

write_data-KeepsPending_example :
    KeepsPending small_env (request_pkt 3) (write_data small_env idle_watch busy)
write_data-KeepsPending_example =
    write_data-KeepsPending small_env idle_watch (request_pkt 3) busy (λ f n w. refl) refl

read-KeepsBounds_example : KeepsBounds small_env (read small_env busy)
read-KeepsBounds_example = read-KeepsBounds small_env busy small_env-ReadsAtMost busy-IsWithin

read_rest_ends_example :
    let w = with_obex busy (record busy.obex { rx_pkt_len = 5 }) in
    read_rest small_env 9 w ≡ read_rest small_env 6 w
read_rest_ends_example =
    read_rest_ends small_env 6 9 (with_obex busy (record busy.obex { rx_pkt_len = 5 }))
      (omega arith) (omega arith)

new-IsFresh_example :
    ((o : GObex Bool) → new true stream (pos 300) (negsuc 0) ≡ some o → IsFresh o)
    × (new {A = Bool} true stream (pos 300) (negsuc 0) ≡ none
        ↔ (true ≡ false) ⊎ IsTooSmall (pos 300) ⊎ IsTooSmall (negsuc 0))
new-IsFresh_example = new-IsFresh Bool true stream (pos 300) (negsuc 0)

parse_connect_data-connect_data_example :
    (parse_connect_data busy.obex
      (set_data (empty_packet 0x20 true [] 0) (connect_data busy.obex) copy).0).tx_mtu
    ≡ limited (pos 300) 5
parse_connect_data-connect_data_example =
    parse_connect_data-connect_data busy.obex busy.obex (empty_packet 0x20 true [] 0) (omega arith)
      refl

add_request_function_undone_example :
    let r = add_request_function busy op_put true in
    (find_handler op_put r.0.obex.req_handlers
      ≡ some (record { id = r.1; opcode = op_put; func = true }))
    × (op_put ≢ op_get
        → find_handler op_get r.0.obex.req_handlers ≡ find_handler op_get busy.obex.req_handlers)
    × (remove_request_function r.0.obex r.1 ≡ (busy.obex, true))
add_request_function_undone_example = add_request_function_undone busy op_put op_get true

cancel_req_queued_example : CancelsQueued busy 4 false (cancel_req busy 4 false)
cancel_req_queued_example = cancel_req_queued busy 4 false (omega arith)

cancel_req_pending_example :
    (w' : World Bool Bytes) × (cancel_req busy 3 false ≡ (w', true))
    × (w'.obex.pending_req ≡ some (aborting (request_pkt 3)))
    × (w'.obex.tx_queue ≡ response (empty_packet op_abort true [] 0) ∷ busy.obex.tx_queue)
    × (w'.idle ≡ busy.idle)
    × (cancel_req w' 3 true ≡ (w', true))
cancel_req_pending_example =
    cancel_req_pending busy (request_pkt 3) false true refl refl refl (omega arith)

abbrev disconnected_world : World Bool Bytes
disconnected_world = with_obex busy (record busy.obex { io = false })

cancel_req_closed_example :
    ((cancel_req disconnected_world 3 false).1 ≡ true)
    × ((cancel_req disconnected_world 3 false).0.obex.pending_req ≡ none)
    × ((cancel_req disconnected_world 3 false).0.idle
        ≡ disconnected_world.idle ++ completions (aborting (request_pkt 3)) false)
cancel_req_closed_example =
    cancel_req_closed disconnected_world (request_pkt 3) false refl refl refl (omega arith)

abbrev no_error : Option GObexError
no_error = none

abbrev success : GObexPacket Bool
success = empty_packet 0x20 true [] 0

handle_response-pending_example :
    let v = told small_env busy (request_pkt 3) none (some success) in
    let v' = handle_response small_env busy (request_pkt 3) none (some success) in
    (v'.obex.pending_req ≡ none)
    × (besides v' ≡ besides v)
    × (no_error ≡ none
        → v.obex.tx_queue ≢ []
        → v.obex.suspended ≡ false
        → v'.obex.write_source ≡ true)
    × ((is_some no_error ≡ true) ⊎ ((v.obex.tx_queue ≡ []) ⊎ (v.obex.suspended ≡ true))
        → v'.obex.write_source ≡ v.obex.write_source)
handle_response-pending_example =
    handle_response-pending small_env busy (request_pkt 3) none (some success) (λ f e rsp w. refl)
      refl

fail_incoming-obex_example :
    (fail_incoming small_env busy disconnected).obex ≡ failed small_env busy.obex
fail_incoming-obex_example =
    fail_incoming-obex small_env busy disconnected (λ f e rsp w. refl) (λ f e w. refl)

abbrev other_connid : GObexHeader
other_connid = record { id = 0xcb; extdata = false; vlen = 4; hlen = 5; v = u32 9 }

abbrev foreign : GObexPacket Bool
foreign = empty_packet 0x03 true (other_connid ∷ []) 5

handle_request_foreign_example :
    handle_request small_env busy foreign ≡ some (replied busy response_unavailable)
handle_request_foreign_example =
    handle_request_foreign small_env busy foreign other_connid 9 refl (omega arith) (omega arith)
      (omega arith) (omega arith) (unfold get_header find_header in refl)
      (unfold get_uint32 hdr_enc in refl) (omega arith)

-- A response of three bytes of which two have been received. The length is taken from what the buffer
-- has behind the header, and the packet is refused as too big.
abbrev piecewise : World Bool Bytes
piecewise =
    with_obex (record busy { user = 0x03 ∷ [] })
      (record busy.obex { rx_buf = 0xa0 ∷ 0 ∷ 0 ∷ 9 ∷ 9 ∷ []; rx_data = 2; rx_mtu = 5 })

read_stream_pieces : (read_stream small_env piecewise).1 ≡ some parse_error
unfolding read_stream read_body put_at get_be16
read_stream_pieces = refl

-- The same response in one piece.
read_stream_whole :
    ((read_stream small_env busy).1 ≡ none) × ((read_stream small_env busy).0.obex.rx_pkt_len ≡ 3)
unfolding read_stream read_body put_at get_be16
read_stream_whole = (refl, refl)

abbrev ready : World Bool Bytes
ready = with_obex busy (record busy.obex { tx_data = 0; tx_sent = 0; tx_queue = [] })

abbrev queued_response : PendingPkt Bool
queued_response = response (empty_packet 0x20 true [] 0)

small_env-IsKeeping : IsKeeping small_env
small_env-IsKeeping = record {
  responding = λ f e rsp w h. h;
  requesting = λ f req w h. h;
  disconnecting = λ f e w h. h;
  producing = λ f n w h. h;
}

abbrev started : World Bool Bytes
started =
    with_obex busy (elim (new true stream (pos 300) (negsuc 0)) [ none ↦ busy.obex | some o ↦ o ])

started-new : new true stream (pos 300) (negsuc 0) ≡ some started.obex
unfolding new
started-new = refl

-- A request is sent, and then the channel hangs up.
abbrev requested : World Bool Bytes
requested = (send_req started (empty_packet op_get true [] 0) (pos 10) (some true)).0

abbrev hung_up : World Bool Bytes
hung_up = fail_incoming small_env requested disconnected

hung_up-Reachable : Reachable small_env hung_up
unfolding incoming_data
hung_up-Reachable =
    goes_on
      (goes_on (starts stream (pos 300) (negsuc 0) started-new)
        (requests (empty_packet op_get true [] 0) (pos 10) (some true)))
      (reads (record { nval = false; hup_or_err = true }) false refl)

Reachable-IsWithin_example : IsWithin hung_up.obex
Reachable-IsWithin_example =
    Reachable-IsWithin small_env hung_up small_env-IsKeeping small_env-ReadsAtMost hung_up-Reachable

-- A CONNECT response with an MTU of 0, while a packet is half sent: the transmit buffer is emptied
-- under the bytes that remain.
parse_connect_data_shrinks :
    let o =
      parse_connect_data busy.obex
        (record success { buf = some (0x10 ∷ 0 ∷ 0 ∷ 0 ∷ []); data_len = 4 }) in
    (length o.tx_buf ≡ 0) × (o.tx_data ≡ 5)
unfolding parse_connect_data get_data get_header find_header get_be16
parse_connect_data_shrinks = (refl, refl)

abbrev by_packets : World Bool Bytes
by_packets = with_obex busy (record busy.obex { transport = packet })

incoming_data-handle_response_example :
    (v w' : World Bool Bytes) × (incoming_data small_env idle_watch by_packets ≡ some (w', true))
    × IsTold by_packets (0xa0 ∷ 0 ∷ 3 ∷ []) [] (request_pkt 3) success v
    × (w'.user ≡ (small_env.on_response true none (some success) v).user)
    × (w'.obex.rx_data ≡ 0)
    × (w'.obex.pending_req ≡ none)
incoming_data-handle_response_example =
    incoming_data-handle_response small_env idle_watch by_packets (0xa0 ∷ 0 ∷ 3 ∷ []) []
      (request_pkt 3) true 0 success (λ f e rsp w. refl) refl refl refl refl refl refl
      (unfold rsp_header_offset in refl) refl
      (unfold decode decode_body parse_headers get_be16 in refl)
