-- ===== src/Obexd/Session/Connect.antt =====
-- src/obex.c: the start of a server session, and CONNECT with its authentication.
use map_client.Base.{
  ℕ, zero, suc, ◌+◌, ◌-◌, ◌%◌, ◌^◌, ◌<◌, ◌≢◌, Bool, true, false, not, Option, some, none, List, [],
  ◌∷◌, ◌++◌, ltb, ◌==◌, if◌then◌else◌, arith, Bool-cases, inl, inr,
}
use map_client.Base.Endian.{Bytes}
use map_client.Base.Int.{pos}
use map_client.Gobex.Header.{get_bytes}
use map_client.Gobex.Packet.{GObexPacket}
use map_client.Obexd.Blob.{Blob, null_blob}
use map_client.Obexd.Service.{ServiceDriver, service_driver_find}
use map_client.Obexd.Session.{
  ObexSession, call_connected, object_size_delete, tell, with_rest, os_set_response,
}
use map_client.Obexd.Session.Requests.{found_as}

abbrev pub nonce_len : ℕ
nonce_len = 16

abbrev pub hdr_target_id : ℕ
hdr_target_id = 0x46

abbrev pub hdr_who_id : ℕ
hdr_who_id = 0x4a

abbrev pub hdr_authchal_id : ℕ
hdr_authchal_id = 0x4d

abbrev pub hdr_authresp_id : ℕ
hdr_authresp_id = 0x4e

-- The bytes of the memory from a header's data on, which go on behind them.
abbrev pub Memory : Type 0
Memory = ℕ → ℕ

abbrev pub read_memory : Memory → (offset count : ℕ) → Bytes
read_memory mem offset zero = []
read_memory mem offset (suc n) = mem offset ∷ read_memory mem (offset + 1) n

-- The loop at `len`, with fuel: the nonce found so far is known by its offset. `some none` is NULL.
unfoldable pub nonce_loop : (mem : Memory) (hlen fuel len : ℕ) (held : Option ℕ) → Option (Option ℕ)
nonce_loop mem hlen zero len held = none
nonce_loop mem hlen (suc fuel) len held =
    let next = (len + (mem (len + 1) + 2)) % 2 ^ 32 in
    let skipped = nonce_loop mem hlen fuel next held in
    let found = nonce_loop mem hlen fuel next (some (len + 2)) in
    if not (ltb len hlen)
    then some held
    else if not (mem len == 0)
    then skipped
    else if mem (len + 1) == nonce_len
    then found
    else some none

abbrev pub extract_nonce : (mem : Memory) (hlen : ℕ) → Option (Option ℕ)
extract_nonce mem hlen = nonce_loop mem hlen (hlen + 1) 0 none

nonce_loop_ends :
    (mem : Memory) (hlen fuel len : ℕ) (held : Option ℕ)
    → ((i : ℕ) → mem i < 256)
    → hlen < 2 ^ 31
    → hlen - len < fuel
    → nonce_loop mem hlen fuel len held ≢ none
unfolding nonce_loop
nonce_loop_ends mem hlen zero len held bytes small enough = absurd (omega arith)
nonce_loop_ends mem hlen (suc fuel) len held bytes small enough = elim (Bool-cases (ltb len hlen)) [
  | inr end ↦ ground arith
  | inl more ↦
      let size = bytes (len + 1) in
      let next = (len + (mem (len + 1) + 2)) % 2 ^ 32 in
      let closer : hlen - next < fuel = ground arith in
      ground (
        arith,
        nonce_loop_ends mem hlen fuel next held bytes small closer,
        nonce_loop_ends mem hlen fuel next (some (len + 2)) bytes small closer,
      )
]

-- Each turn takes two bytes or more and no length wraps, so the fuel is enough.
pub extract_nonce_ends :
    (mem : Memory) (hlen : ℕ)
    → ((i : ℕ) → mem i < 256)
    → hlen < 2 ^ 31
    → extract_nonce mem hlen ≢ none
extract_nonce_ends mem hlen bytes small =
    nonce_loop_ends mem hlen (hlen + 1) 0 none bytes small (omega arith)

-- The header's value for a challenge whose nonce is at an offset, or is null: a digest of 16 bytes. `md5`
-- is the checksum's digest after an update with a pointer that may be null, and one with ":BlueZ".
module _ (md5 : Option Bytes → Bytes → Bytes) where
  abbrev pub challenge_response : Option Bytes → Bytes
  challenge_response bytes = md5 bytes (58 ∷ 66 ∷ 108 ∷ 117 ∷ 101 ∷ 90 ∷ [])

  abbrev pub auth_header : (mem : Memory) → Option ℕ → List (ℕ × Bytes)
  auth_header mem none = (hdr_authresp_id, 0 ∷ nonce_len ∷ challenge_response none) ∷ []
  auth_header mem (some offset) =
      (
        hdr_authresp_id,
        0 ∷ nonce_len ∷ challenge_response (some (read_memory mem offset nonce_len)),
      )
      ∷ []

  -- The header that is added to the response. The memory begins with the header's data.
  unfoldable pub parse_authchal :
      {A : Type 0} (behind : Bytes → Memory) → GObexPacket A → Option (List (ℕ × Bytes))
  parse_authchal behind req = elim (found_as req hdr_authchal_id get_bytes) [
    | none ↦ some []
    | some (bytes, len) ↦ elim (extract_nonce (behind bytes) len) [
      | none ↦ none
      | some offset ↦ some (auth_header (behind bytes) offset)
    ]
  ]

-- A header's bytes, or a null pointer.
abbrev pub blob_of : Option (Bytes × ℕ) → Blob
blob_of none = null_blob
blob_of (some (bytes, len)) = record { ptr = some bytes; size = len }

unfoldable pub parse_service :
    {A : Type 0} → List ServiceDriver → GObexPacket A → Option ServiceDriver
parse_service services req =
    service_driver_find services (blob_of (found_as req hdr_target_id get_bytes))
      (blob_of (found_as req hdr_who_id get_bytes))

-- `connect` is the driver's function: none if it is null, else an errno or 0. `authresp` is what
-- parse_authchal adds.
module _ {V : Type 0} (connect : ServiceDriver → Option (V → ℕ × V)) where
  abbrev pub who_header : ServiceDriver → List (ℕ × Bytes)
  who_header d = elim d.target.ptr [ none ↦ [] | some bytes ↦ (hdr_who_id, bytes) ∷ [] ]

  abbrev pub connected : ObexSession V → ServiceDriver → List (ℕ × Bytes) → ℕ × V → ObexSession V
  connected os d authresp (err, v) =
      if err == 0
      then tell (with_rest os v) (call_connected (authresp ++ who_header d))
      else os_set_response (with_rest os v) err

  unfoldable pub cmd_connect :
      ObexSession V → Option ServiceDriver → List (ℕ × Bytes) → ObexSession V
  cmd_connect os none authresp = os_set_response (record os { service = false }) 1
  cmd_connect os (some d) authresp = elim (connect d) [
    | none ↦ os_set_response (record os { service = true }) 1
    | some f ↦ connected (record os { service = true }) d authresp (f os.rest)
  ]

abbrev pub is_service : Option ServiceDriver → Bool
is_service none = false
is_service (some d) = true

-- A new session: all is zero but the size and the service for a null target.
unfoldable pub obex_session_start : {V : Type 0} → List ServiceDriver → V → ObexSession V
obex_session_start services v = record {
  cmd = 0;
  action_id = 0;
  name = none;
  destname = none;
  type = none;
  path = none;
  apparam = none;
  nonhdr = (none, 0);
  get_rsp = 0;
  buf = [];
  pending = 0;
  offset = pos 0;
  size = object_size_delete;
  object = false;
  driver = false;
  service = is_service (service_driver_find services null_blob null_blob);
  aborted = false;
  checked = false;
  headers_sent = false;
  calls = [];
  rest = v;
}
