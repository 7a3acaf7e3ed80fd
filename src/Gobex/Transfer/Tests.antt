-- ===== src/Gobex/Transfer/Tests.antt =====
-- A GET and a cancelled PUT, and the theorems about transfers at them.
use map_client.Base.{ℕ, ◌≡◌, refl, Bool, true, false, Option, some, none, [], ◌∷◌, ◌++◌, arith}
use map_client.Base.Int.{pos}
use map_client.Base.Endian.{Bytes}
use map_client.Gobex.Defs.{GObexError}
use map_client.Gobex.Ascii.{ascii}
use map_client.Gobex.Header.{extdata_ref, get_bytes, hdr_enc}
use map_client.Gobex.Packet.{
  GObexPacket, empty_packet, op_put, op_get, rsp_continue, rsp_success, get_header, find_header,
  get_body_header,
}
use map_client.Gobex.Packet.Codec.{bytes}
use map_client.Gobex.Obex.{PendingPkt, stream}
use map_client.Gobex.Transfer.{
  Func, response_of, Transfer, State, Users, fault, find_transfer, remove_transfer,
  transfer_complete, cancel_transfer,
}
use map_client.Gobex.Transfer.Client.{transfer_response}
use map_client.Gobex.Transfer.Deliver.{
  IsGetting, Collects, respond_all, bodies, with_rest, respond_all-delivers,
}
use map_client.Gobex.Transfer.Cancel.{cancel_transfer-dangles}

-- A consumer that appends to the user's state.
abbrev users : Users Bool Bytes
users = record {
  glib = ascii;
  write_chars = λ d v. (none, v);
  read_chars = λ n v. (none, v);
  on_response = λ f e rsp w. w;
  on_request = λ f req w. w;
  on_disconnect = λ f e w. w;
  produce = λ f n w. (bytes [], w);
  data_producer = λ f n w. (bytes [], w);
  data_consumer = λ f d w. (true, with_rest w (w.user.rest ++ d));
  complete_func = λ f e w. w;
}

abbrev transfer : ℕ → Transfer Bool
transfer opcode = record {
  id = 1;
  opcode = opcode;
  req_id = 3;
  put_id = 0;
  get_id = 0;
  abort_id = 0;
  data_producer = some true;
  data_consumer = some true;
  complete_func = false;
}

abbrev pending : PendingPkt (Func Bool)
pending = record {
  id = 3;
  owned = false;
  pkt = empty_packet op_get true [] 0;
  timeout = 10;
  timeout_id = true;
  rsp_func = some (response_of 1);
  cancelled = false;
}

abbrev during : ℕ → State Bool Bytes
during opcode = record {
  obex = record {
    io = true;
    io_source = true;
    transport = stream;
    rx_buf = [];
    rx_data = 0;
    rx_pkt_len = 0;
    rx_last_op = 0x10;
    tx_buf = [];
    tx_data = 0;
    tx_sent = 0;
    suspended = false;
    write_source = false;
    io_rx_mtu = pos 300;
    io_tx_mtu = pos 300;
    rx_mtu = 300;
    tx_mtu = 300;
    conn_id = 7;
    tx_queue = [];
    req_handlers = [];
    disconn_func = none;
    pending_req = some pending;
  };
  next_connid = 8;
  next_req_id = 4;
  next_handler_id = 1;
  idle = [];
  wire = [];
  user = record { transfers = transfer opcode ∷ []; next_id = 2; faulted = false; rest = 9 ∷ [] };
}

abbrev part : ℕ → Bytes → GObexPacket (Func Bool)
part code d =
    empty_packet code true
      (record { id = 0x48; extdata = true; vlen = 2; hlen = 5; v = extdata_ref d } ∷ []) 5

users-Collects : Collects users (λ v. v) true
users-Collects d w = (w.user.rest ++ d, refl, refl)

during-IsGetting : IsGetting 1 true false (during op_get)
unfolding find_transfer
during-IsGetting = record {
  t = transfer op_get;
  listed = refl;
  gets = refl;
  consumes = refl;
  completes = refl;
  channel = refl;
}

respond_all-delivers_example :
    (v : State Bool Bytes) × (respond_all users
        (λ v. v)
        1
        (during op_get)
        (part rsp_continue (1 ∷ 2 ∷ []) ∷ part rsp_success (3 ∷ 4 ∷ []) ∷ [])
      ≡ transfer_complete users v 1 none)
    × IsGetting 1 true false v
    × (v.user.rest
        ≡ (9 ∷ []) ++ bodies (part rsp_continue (1 ∷ 2 ∷ []) ∷ part rsp_success (3 ∷ 4 ∷ []) ∷ []))
respond_all-delivers_example =
    respond_all-delivers users (λ v. v) 1 true false (during op_get)
      (part rsp_continue (1 ∷ 2 ∷ []) ∷ []) (part rsp_success (3 ∷ 4 ∷ [])) during-IsGetting
      users-Collects (refl, tt) refl

bodies_test :
    bodies (part rsp_continue (1 ∷ 2 ∷ []) ∷ part rsp_success (3 ∷ 4 ∷ []) ∷ [])
    ≡ 1 ∷ 2 ∷ 3 ∷ 4 ∷ []
unfolding get_body_header get_header find_header get_bytes hdr_enc
bodies_test = refl

cancel_transfer-dangles_example :
    (w' : State Bool Bytes) × (q : PendingPkt (Func Bool)) × (cancel_transfer (during op_put) 1
      ≡ (w', true))
    × (w'.obex.pending_req ≡ some q)
    × (q.rsp_func ≡ some (response_of 1))
    × ((e : Option GObexError) (rsp : Option (GObexPacket (Func Bool)))
        → transfer_response users w' 1 e rsp ≡ fault w')
cancel_transfer-dangles_example =
    cancel_transfer-dangles users (during op_put) (transfer op_put) pending
      (unfold find_transfer in refl) (unfold find_transfer remove_transfer in refl) refl refl
      (omega arith) refl refl refl (omega arith)
