-- ===== src/Gobex/Packet.antt =====
-- gobex/gobex-packet.c: the packet object, its headers and its data.
pub mod Codec
pub mod Decode
pub mod Encode
pub mod RoundTrip
pub mod BodyTrip
pub mod Headers
mod Tests
use map_client.Base.{
  ℕ, ◌+◌, Bool, true, false, Option, some, none, List, [], ◌∷◌, ◌++◌, length, take, ◌==◌,
  if◌then◌else◌,
}
use map_client.Base.Endian.{Bytes}
use map_client.Gobex.Defs.{Glib, GObexDataPolicy, inherit, copy, ref}
use map_client.Gobex.Header.{
  GObexHeader, VaArg, create_list, get_length, new_unicode, new_bytes, new_uint8, new_uint32,
}

-- `A` is the type of body producers with their user data. `buf` is the pointer of the union `data`:
-- `none` for NULL, else the bytes behind it.
pub record GObexPacket (A : Type 0) : Type 0 where
  pub opcode : ℕ
  pub final : Bool
  pub data_policy : GObexDataPolicy
  pub buf : Option Bytes
  pub data_len : ℕ
  pub hlen : ℕ
  pub headers : List GObexHeader
  pub get_body : Option A

-- Opcodes, response codes and header ids that the code names.
abbrev pub op_connect : ℕ
op_connect = 0x00

abbrev pub op_disconnect : ℕ
op_disconnect = 0x01

abbrev pub op_put : ℕ
op_put = 0x02

abbrev pub op_get : ℕ
op_get = 0x03

abbrev pub op_setpath : ℕ
op_setpath = 0x05

abbrev pub op_action : ℕ
op_action = 0x06

abbrev pub op_session : ℕ
op_session = 0x07

abbrev pub op_abort : ℕ
op_abort = 0x7f

abbrev pub rsp_continue : ℕ
rsp_continue = 0x10

abbrev pub rsp_success : ℕ
rsp_success = 0x20

abbrev pub hdr_body : ℕ
hdr_body = 0x48

abbrev pub hdr_body_end : ℕ
hdr_body_end = 0x49

-- The loop of g_obex_packet_get_header.
unfoldable pub find_header : ℕ → List GObexHeader → Option GObexHeader
find_header id [] = none
find_header id (h ∷ hs) = if h.id == id then some h else find_header id hs

-- g_memdup of no bytes is NULL; a reference keeps the caller's pointer.
abbrev pub stored : GObexDataPolicy → Bytes → Option Bytes
stored copy d = if length d == 0 then none else some d
stored ref d = some d
stored inherit d = some d

module _ {A : Type 0} where
  unfoldable pub get_header : GObexPacket A → ℕ → Option GObexHeader
  get_header pkt id = find_header id pkt.headers

  unfoldable pub get_body_header : GObexPacket A → Option GObexHeader
  get_body_header pkt = elim (get_header pkt hdr_body) [
    | some body ↦ some body
    | none ↦ get_header pkt hdr_body_end
  ]

  abbrev pub get_operation : GObexPacket A → ℕ × Bool
  get_operation pkt = (pkt.opcode, pkt.final)

  unfoldable pub prepend_header : GObexPacket A → GObexHeader → GObexPacket A
  prepend_header pkt h = record pkt { headers = h ∷ pkt.headers; hlen = pkt.hlen + get_length h }

  unfoldable pub add_header : GObexPacket A → GObexHeader → GObexPacket A
  add_header pkt h = record pkt {
    headers = pkt.headers ++ (h ∷ []);
    hlen = pkt.hlen + get_length h;
  }

  -- A second producer is refused.
  unfoldable pub add_body : GObexPacket A → A → GObexPacket A × Bool
  add_body pkt func = elim pkt.get_body [
    | none ↦ (record pkt { get_body = some func }, true)
    | some _ ↦ (pkt, false)
  ]

  abbrev pub add_new : GObexPacket A → Option GObexHeader → GObexPacket A × Bool
  add_new pkt none = (pkt, false)
  add_new pkt (some h) = (add_header pkt h, true)

  unfoldable pub add_unicode : Glib → GObexPacket A → ℕ → Bytes → GObexPacket A × Bool
  add_unicode g pkt id s = add_new pkt (new_unicode g id s)

  unfoldable pub add_bytes : GObexPacket A → ℕ → Bytes → GObexPacket A × Bool
  add_bytes pkt id d = add_new pkt (new_bytes id d)

  unfoldable pub add_uint8 : GObexPacket A → ℕ → ℕ → GObexPacket A × Bool
  add_uint8 pkt id n = add_new pkt (new_uint8 id n)

  unfoldable pub add_uint32 : GObexPacket A → ℕ → ℕ → GObexPacket A × Bool
  add_uint32 pkt id n = add_new pkt (new_uint32 id n)

  -- The pointer and the length.
  unfoldable pub get_data : GObexPacket A → Option Bytes × ℕ
  get_data pkt = if pkt.data_len == 0 then (none, 0) else (pkt.buf, pkt.data_len)

  unfoldable pub set_data : GObexPacket A → Bytes → GObexDataPolicy → GObexPacket A × Bool
  set_data pkt d policy = elim pkt.buf [
    | some _ ↦ (pkt, false)
    | none ↦ (record pkt { data_policy = policy; data_len = length d; buf = stored policy d }, true)
  ]

  abbrev pub empty_packet : ℕ → Bool → List GObexHeader → ℕ → GObexPacket A
  empty_packet opcode final headers hlen = record {
    opcode = opcode;
    final = final;
    data_policy = copy;
    buf = none;
    data_len = 0;
    hlen = hlen;
    headers = headers;
    get_body = none;
  }

  -- g_obex_packet_new and g_obex_packet_new_valist; `none` as in create_list.
  unfoldable pub new_packet : Glib → ℕ → Bool → List (ℕ × VaArg) → Option (GObexPacket A)
  new_packet g opcode final args = elim (create_list g args) [
    | none ↦ none
    | some (headers, hlen) ↦ some (empty_packet opcode final headers hlen)
  ]
