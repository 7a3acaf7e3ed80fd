-- ===== src/Gobex/Obex.antt =====
-- gobex/gobex.c: the session object, what it shares with its environment, and its small operations.
pub mod Send
pub mod Write
pub mod Receive
pub mod Incoming
pub mod Requests
pub mod Stream
pub mod Queue
pub mod Cancel
pub mod Abort
pub mod Buffer
pub mod Session
pub mod Responses
pub mod Requesters
pub mod Calls
pub mod Outside
pub mod Keeping
pub mod Arriving
pub mod Steps
pub mod Delivery
mod Samples
mod Tests
use map_client.Base.{
  ℕ, ◌+◌, ◌%◌, ◌^◌, Bool, true, false, Option, some, none, List, [], ◌∷◌, ◌++◌, ltb, ◌==◌, ◌||◌,
  not, replicate, if◌then◌else◌,
}
use map_client.Base.Int.{ℤ, pos, negsuc}
use map_client.Base.Endian.{Bytes, get_be16, put_be16}
use map_client.Gobex.Defs.{Glib, GObexError}
use map_client.Gobex.Packet.{GObexPacket}
use map_client.Gobex.Packet.Codec.{Produced}

abbrev pub default_mtu : ℕ
default_mtu = 4096

abbrev pub minimum_mtu : ℕ
minimum_mtu = 255

abbrev pub maximum_mtu : ℕ
maximum_mtu = 65535

abbrev pub default_timeout : ℕ
default_timeout = 10

abbrev pub abort_timeout : ℕ
abort_timeout = 5

abbrev pub op_none : ℕ
op_none = 0xff

abbrev pub connid_invalid : ℕ
connid_invalid = 0xffff_ffff

-- `A` is the type of function pointers with their user data. A source id is modelled by whether it
-- is set. `owned` says that the packet holds a reference to the session (its field `obex`).
pub record PendingPkt (A : Type 0) : Type 0 where
  pub id : ℕ
  pub owned : Bool
  pub pkt : GObexPacket A
  pub timeout : ℕ
  pub timeout_id : Bool
  pub rsp_func : Option A
  pub cancelled : Bool

pub record ReqHandler (A : Type 0) : Type 0 where
  pub id : ℕ
  pub opcode : ℕ
  pub func : A

pub data GObexTransportType : Type 0 where
  stream packet : GObexTransportType

-- The fields `read` and `write` follow from the transport. `io` and the two sources say whether they
-- are set.
pub record GObex (A : Type 0) : Type 0 where
  pub io : Bool
  pub io_source : Bool
  pub transport : GObexTransportType
  pub rx_buf : Bytes
  pub rx_data : ℕ
  pub rx_pkt_len : ℕ
  pub rx_last_op : ℕ
  pub tx_buf : Bytes
  pub tx_data : ℕ
  pub tx_sent : ℕ
  pub suspended : Bool
  pub write_source : Bool
  pub io_rx_mtu : ℤ
  pub io_tx_mtu : ℤ
  pub rx_mtu : ℕ
  pub tx_mtu : ℕ
  pub conn_id : ℕ
  pub tx_queue : List (PendingPkt A)
  pub req_handlers : List (ReqHandler A)
  pub disconn_func : Option A
  pub pending_req : Option (PendingPkt A)

-- The session with the static counters of gobex.c, the cancelled requests that wait for the idle
-- loop, the bytes that the channel has taken so far, and `user`, the state of everything outside.
pub record World (A U : Type 0) : Type 0 where
  pub obex : GObex A
  pub next_connid : ℕ
  pub next_req_id : ℕ
  pub next_handler_id : ℕ
  pub idle : List (PendingPkt A)
  pub wire : Bytes
  pub user : U

-- What the session calls: GLib, the I/O channel and the user's functions. A channel call that does
-- not return G_IO_STATUS_NORMAL gives `none`.
pub record Env (A U : Type 0) : Type 0 where
  pub glib : Glib
  pub write_chars : Bytes → U → Option ℕ × U
  pub read_chars : ℕ → U → Option Bytes × U
  pub on_response : A → Option GObexError → Option (GObexPacket A) → World A U → World A U
  pub on_request : A → GObexPacket A → World A U → World A U
  pub on_disconnect : A → Option GObexError → World A U → World A U
  pub produce : A → ℕ → World A U → Produced × World A U

abbrev pub is_some {ℓ} : {A : Type ℓ} → Option A → Bool
is_some none = false
is_some (some a) = true

abbrev pub is_empty {ℓ} : {A : Type ℓ} → List A → Bool
is_empty [] = true
is_empty (x ∷ xs) = false

-- gssize comparisons with a constant.
abbrev pub below_minimum : ℤ → Bool
below_minimum (pos n) = ltb n minimum_mtu
below_minimum (negsuc n) = false

abbrev rx_mtu_of : ℤ → ℕ
rx_mtu_of (negsuc n) = default_mtu
rx_mtu_of (pos n) =
    if ltb maximum_mtu n then maximum_mtu else (if ltb n minimum_mtu then default_mtu else n)

-- g_obex_new; `connected` says that `io` is not NULL. The buffers' first content is not initialised.
unfoldable pub new : {A : Type 0} → Bool → GObexTransportType → ℤ → ℤ → Option (GObex A)
new connected transport io_rx_mtu io_tx_mtu =
    if not connected
    then none
    else if below_minimum io_rx_mtu || below_minimum io_tx_mtu
    then none
    else some (record {
      io = true;
      io_source = true;
      transport = transport;
      rx_buf = replicate (rx_mtu_of io_rx_mtu) 0;
      rx_data = 0;
      rx_pkt_len = 0;
      rx_last_op = op_none;
      tx_buf = replicate minimum_mtu 0;
      tx_data = 0;
      tx_sent = 0;
      suspended = false;
      write_source = false;
      io_rx_mtu = io_rx_mtu;
      io_tx_mtu = io_tx_mtu;
      rx_mtu = rx_mtu_of io_rx_mtu;
      tx_mtu = minimum_mtu;
      conn_id = connid_invalid;
      tx_queue = [];
      req_handlers = [];
      disconn_func = none;
      pending_req = none;
    })

module _ {A : Type 0} where
  unfoldable pub enable_tx : GObex A → GObex A
  enable_tx o =
      if o.suspended then o else if o.write_source then o else record o { write_source = true }

  unfoldable pub suspend : GObex A → GObex A
  suspend o = record o { write_source = false; suspended = true }

  unfoldable pub resume : GObex A → GObex A
  resume o =
      let o' = record o { suspended = false } in
      if not (is_empty o.tx_queue) || ltb 0 o.tx_data then enable_tx o' else o'

  unfoldable pub set_disconnect_function : GObex A → Option A → GObex A
  set_disconnect_function o func = record o { disconn_func = func }

  -- g_slist_find_custom with req_handler_cmpop and with req_handler_cmpid.
  unfoldable pub find_handler : ℕ → List (ReqHandler A) → Option (ReqHandler A)
  find_handler op [] = none
  find_handler op (h ∷ hs) = if h.opcode == op then some h else find_handler op hs

  unfoldable pub remove_handler : ℕ → List (ReqHandler A) → Option (List (ReqHandler A))
  remove_handler id [] = none
  remove_handler id (h ∷ hs) =
      let rest = remove_handler id hs in
      if h.id == id then some hs else elim rest [ none ↦ none | some l ↦ some (h ∷ l) ]

  unfoldable pub add_request_function : {U : Type 0} → World A U → ℕ → A → World A U × ℕ
  add_request_function w opcode func =
      let o = w.obex in
      let handler : ReqHandler A = record {
        id = w.next_handler_id;
        opcode = opcode;
        func = func;
      } in
      (
        record w {
          obex = record o { req_handlers = handler ∷ o.req_handlers };
          next_handler_id = (w.next_handler_id + 1) % 2 ^ 32;
        },
        w.next_handler_id,
      )

  unfoldable pub remove_request_function : GObex A → ℕ → GObex A × Bool
  remove_request_function o id = elim (remove_handler id o.req_handlers) [
    | none ↦ (o, false)
    | some hs ↦ (record o { req_handlers = hs }, true)
  ]
