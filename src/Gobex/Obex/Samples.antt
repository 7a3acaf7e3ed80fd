-- ===== src/Gobex/Obex/Samples.antt =====
-- A small environment and a session in it, for the examples.
use map_client.Base.{
  ℕ, refl, Bool, true, false, some, [], ◌∷◌, min, take, drop, length, arith, length-take,
}
use map_client.Base.Int.{pos}
use map_client.Base.Endian.{Bytes}
use map_client.Gobex.Ascii.{ascii}
use map_client.Gobex.Packet.{empty_packet}
use map_client.Gobex.Packet.Codec.{bytes}
use map_client.Gobex.Obex.{PendingPkt, World, Env, stream}
use map_client.Gobex.Obex.Send.{response}
use map_client.Gobex.Obex.Write.{Condition}
use map_client.Gobex.Obex.Stream.{Accepts}
use map_client.Gobex.Obex.Buffer.{ReadsAtMost, IsWithin}

-- A channel that takes three bytes at a time; the user's state is what is left to read.
abbrev pub small_env : Env Bool Bytes
small_env = record {
  glib = ascii;
  write_chars = λ d u. (some (min 3 (length d)), u);
  read_chars = λ n u. (some (take n u), drop n u);
  on_response = λ f e rsp w. w;
  on_request = λ f req w. w;
  on_disconnect = λ f e w. w;
  produce = λ f n w. (bytes [], w);
}

abbrev pub request_pkt : ℕ → PendingPkt Bool
request_pkt n = record {
  id = n;
  owned = false;
  pkt = empty_packet 0x01 true [] 0;
  timeout = 10;
  timeout_id = false;
  rsp_func = some true;
  cancelled = false;
}

-- A session that has sent a request, has another queued, and is halfway through a packet.
abbrev pub busy : World Bool Bytes
busy = record {
  obex = record {
    io = true;
    io_source = true;
    transport = stream;
    rx_buf = 0 ∷ 0 ∷ 0 ∷ 0 ∷ 0 ∷ [];
    rx_data = 0;
    rx_pkt_len = 0;
    rx_last_op = 0xff;
    tx_buf = 1 ∷ 2 ∷ 3 ∷ 4 ∷ 5 ∷ 6 ∷ [];
    tx_data = 5;
    tx_sent = 1;
    suspended = false;
    write_source = true;
    io_rx_mtu = pos 300;
    io_tx_mtu = pos 300;
    rx_mtu = 5;
    tx_mtu = 255;
    conn_id = 7;
    tx_queue = request_pkt 4 ∷ response (empty_packet 0x20 true [] 0) ∷ [];
    req_handlers = [];
    disconn_func = some true;
    pending_req = some (request_pkt 3);
  };
  next_connid = 8;
  next_req_id = 5;
  next_handler_id = 1;
  idle = [];
  wire = 1 ∷ [];
  user = 0xa0 ∷ 0 ∷ 3 ∷ [];
}

abbrev pub idle_watch : Condition
idle_watch = record { nval = false; hup_or_err = false }

pub small_env-Accepts : Accepts small_env
small_env-Accepts d u n e = ground arith

pub small_env-ReadsAtMost : ReadsAtMost small_env
small_env-ReadsAtMost n u d e = ground (arith, length-take n u)

pub busy-IsWithin : IsWithin busy.obex
busy-IsWithin = record {
  sized = refl;
  room = omega arith;
  filled = omega arith;
  expected = λ h. omega arith;
}
