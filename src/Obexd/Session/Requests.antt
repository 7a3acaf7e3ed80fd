-- ===== src/Obexd/Session/Requests.antt =====
-- src/obex.c: the handlers of a server session's requests.
use map_client.Base.{
  ℕ, Bool, true, false, not, Option, some, none, List, [], ◌∷◌, ◌==◌, if◌then◌else◌,
}
use map_client.Base.Endian.{Bytes}
use map_client.Base.Int.{pos}
use map_client.Gobex.Header.{GObexHeader, get_unicode, get_bytes, get_uint8, get_uint32}
use map_client.Gobex.Packet.{GObexPacket, get_header, get_data}
use map_client.Obexd.Blob.{Blob}
use map_client.Obexd.Mimetype.{MimeTypeDriver, driver_find}
use map_client.Obexd.Session.{
  call_suspend, call_put_rsp, Driver, ObexSession, eagain, tell, with_rest, os_set_response,
  os_reset_session,
}

-- A service's function: what it gives, an errno or 0, and the session after it. A null function is none.
abbrev pub Handler : Type 0 → Type 0
Handler V = Option (ObexSession V → ℕ × ObexSession V)

pub record Service (V : Type 0) : Type 0 where
  pub target : Blob
  pub who : Blob
  pub get : Handler V
  pub put : Handler V
  pub chkput : Handler V
  pub setpath : Handler V
  pub action : Handler V
  pub disconnect : Option (V → V)

abbrev pub hdr_name_id : ℕ
hdr_name_id = 0x01

abbrev pub hdr_type_id : ℕ
hdr_type_id = 0x42

abbrev pub hdr_length_id : ℕ
hdr_length_id = 0xc3

abbrev pub hdr_apparam_id : ℕ
hdr_apparam_id = 0x4c

abbrev pub hdr_action_id : ℕ
hdr_action_id = 0x94

abbrev pub hdr_destname_id : ℕ
hdr_destname_id = 0x15

-- A header that is there and has the right encoding.
abbrev pub found_as : {A B : Type 0} → GObexPacket A → ℕ → (GObexHeader → Option B) → Option B
found_as req id get = elim (get_header req id) [ none ↦ none | some h ↦ get h ]

-- The byte before the end, or `before` when there is none: the code then reads what stands before them.
abbrev pub last_or : (before : ℕ) → Bytes → ℕ
last_or before [] = before
last_or before (b ∷ bs) = last_or b bs

-- A C string: the bytes before the first NUL.
abbrev pub until_nul : Bytes → Bytes
until_nul [] = []
until_nul (b ∷ bs) = let rest = until_nul bs in if b == 0 then [] else b ∷ rest

module _ {V A : Type 0} where
  abbrev pub parse_name : ObexSession V → GObexPacket A → ObexSession V
  parse_name os req = record os { name = found_as req hdr_name_id get_unicode }

  abbrev pub parse_destname : ObexSession V → GObexPacket A → ObexSession V
  parse_destname os req = record os { destname = found_as req hdr_destname_id get_unicode }

  abbrev pub parse_apparam : ObexSession V → GObexPacket A → ObexSession V
  parse_apparam os req = elim (found_as req hdr_apparam_id get_bytes) [
    | none ↦ os
    | some (bytes, len) ↦ record os { apparam = some bytes }
  ]

  abbrev pub parse_length : ObexSession V → GObexPacket A → ObexSession V
  parse_length os req = elim (found_as req hdr_length_id get_uint32) [
    | none ↦ os
    | some n ↦ record os { size = pos n }
  ]

  abbrev pub parse_action : ObexSession V → GObexPacket A → ObexSession V
  parse_action os req = elim (found_as req hdr_action_id get_uint8) [
    | none ↦ os
    | some n ↦ record os { action_id = n }
  ]

-- The text of a type that ends in NUL.
abbrev pub type_of : {A : Type 0} (before : ℕ) → GObexPacket A → Option Bytes
type_of before req = elim (found_as req hdr_type_id get_bytes) [
  | none ↦ none
  | some (bytes, len) ↦ if last_or before bytes == 0 then some (until_nul bytes) else none
]

abbrev pub is_found : Option MimeTypeDriver → Bool
is_found none = false
is_found (some d) = true

module _ {V : Type 0} where
  -- The response to what a service's function gave, unless it is 0.
  abbrev pub unless_done : ℕ × ObexSession V → ObexSession V
  unless_done (err, os) = if err == 0 then os else os_set_response os err

  abbrev pub respond : ℕ × ObexSession V → ObexSession V
  respond (err, os) = os_set_response os err

  abbrev pub cmd_disconnect : ObexSession V → ObexSession V
  cmd_disconnect os = os_set_response os 0

module _ {V : Type 0} (driver : Driver V) where
  abbrev pub cmd_abort : ObexSession V → ObexSession V
  cmd_abort os = os_set_response (os_reset_session driver os) 0

  abbrev pub after_chkput : ℕ × ObexSession V → Bool × ObexSession V
  after_chkput (err, os) =
      if err == 0
      then (true, record os { checked = true })
      else if err == eagain
      then (true, with_rest (tell os call_suspend) (driver.set_io_watch true os.rest))
      else (false, os_set_response os err)

module _ {V : Type 0} (service : Service V) where
  abbrev pub start_put : Bool × ObexSession V → ObexSession V
  start_put (false, os) = os
  start_put (true, os) = elim service.put [
    | none ↦ os_set_response os 22
    | some put ↦
        let (err, next) = put os in
        if err == 0 then tell next call_put_rsp else os_set_response next err
  ]

module _ {V : Type 0} (driver : Driver V) (service : Service V) where
  -- Whether the PUT goes on.
  unfoldable pub check_put : ObexSession V → Bool × ObexSession V
  check_put os = elim service.chkput [
    | none ↦ (true, record os { checked = true })
    | some chkput ↦ after_chkput driver (chkput os)
  ]

-- How types compare, the registered drivers, the byte before a header's data, the driver that is found
-- and the service are parameters.
module _ {V : Type 0} (same_type : Bytes → Bytes → Bool) (drivers : List MimeTypeDriver)
    (before : ℕ) (driver : Driver V) (service : Service V) where
  abbrev pub probe : ObexSession V → Option Bytes → ObexSession V
  probe os type = record os {
    driver = is_found (driver_find same_type drivers service.target type service.who);
  }

  abbrev pub parse_type : {A : Type 0} → ObexSession V → GObexPacket A → ObexSession V
  parse_type os req = let type = type_of before req in probe (record os { type = type }) type

  unfoldable pub cmd_get : {A : Type 0} → ObexSession V → GObexPacket A → ObexSession V
  cmd_get os req = if not os.service then os_set_response os 1 else elim service.get [
    | none ↦ os_set_response os 22
    | some get ↦
        let typed = parse_type (record os { headers_sent = false }) req in
        if not typed.driver
        then os_set_response typed 22
        else unless_done (get (parse_apparam (parse_name typed req) req))
  ]

  unfoldable pub cmd_setpath : {A : Type 0} → ObexSession V → GObexPacket A → ObexSession V
  cmd_setpath os req = if not os.service then os_set_response os 1 else elim service.setpath [
    | none ↦ os_set_response os 22
    | some setpath ↦ respond (setpath (record (parse_name os req) { nonhdr = get_data req }))
  ]

  unfoldable pub cmd_action : {A : Type 0} → ObexSession V → GObexPacket A → ObexSession V
  cmd_action os req = if not os.service then os_set_response os 1 else elim service.action [
    | none ↦ os_set_response os 22
    | some action ↦
        let parsed = probe (parse_action (parse_destname (parse_name os req) req) req) none in
        if not parsed.driver then os_set_response parsed 22 else respond (action parsed)
  ]

  unfoldable pub cmd_put : {A : Type 0} → ObexSession V → GObexPacket A → ObexSession V
  cmd_put os req =
      if not os.service
      then os_set_response os 1
      else let typed = parse_type os req in
        let parsed = parse_length (parse_name typed req) req in
        if not typed.driver
        then os_set_response typed 22
        else if parsed.checked
        then start_put service (true, parsed)
        else start_put service (check_put driver service parsed)
