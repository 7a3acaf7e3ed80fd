-- ===== src/Gobex/Obex/Requests.antt =====
-- gobex/gobex.c: the requests of the client interface.
use map_client.Base.{ℕ, true, Option, some, none, List, [], ◌∷◌, ◌==◌, ◌&&◌, if◌then◌else◌}
use map_client.Base.Int.{negsuc}
use map_client.Base.Endian.{Bytes}
use map_client.Gobex.Defs.{copy}
use map_client.Gobex.Header.{VaArg, str, val, new_unicode}
use map_client.Gobex.Packet.{
  GObexPacket, empty_packet, new_packet, set_data, add_header, op_connect, op_setpath, op_put,
  op_action,
}
use map_client.Gobex.Obex.{World, Env}
use map_client.Gobex.Obex.Send.{send_req, connect_data}

abbrev pub hdr_name : ℕ
hdr_name = 0x01

abbrev pub hdr_destname : ℕ
hdr_destname = 0x15

abbrev pub hdr_action : ℕ
hdr_action = 0x94

abbrev pub action_copy : ℕ
action_copy = 0

abbrev pub action_move : ℕ
action_move = 1

-- The flags of struct setpath_data, and the folder that the path leaves: a path that begins with two
-- dots goes up, and then down what follows a slash.
unfoldable pub setpath_target : Option Bytes → ℕ × Option Bytes
setpath_target none = (0x02, none)
setpath_target (some (a ∷ b ∷ c ∷ rest)) =
    if a == b'.' && b == b'.'
    then (0x03, if c == b'/' then some rest else none)
    else (0x02, some (a ∷ b ∷ c ∷ rest))
setpath_target (some (a ∷ b ∷ [])) =
    if a == b'.' && b == b'.' then (0x03, none) else (0x02, some (a ∷ b ∷ []))
setpath_target (some path) = (0x02, some path)

-- The result is the request's id, or 0; `none` is a null dereference.
module _ {A U : Type 0} (env : Env A U) where
  abbrev default_send : World A U → GObexPacket A → Option A → World A U × ℕ
  default_send w req func = send_req w req (negsuc 0) func

  unfoldable pub connect : World A U → Option A → List (ℕ × VaArg) → Option (World A U × ℕ)
  connect w func args = elim (new_packet env.glib op_connect true args) [
    | none ↦ none
    | some req ↦ some (default_send w (set_data req (connect_data w.obex) copy).0 func)
  ]

  unfoldable pub setpath_packet : Option Bytes → Option (GObexPacket A)
  setpath_packet path =
      let (flags, folder) = setpath_target path in
      let req = empty_packet op_setpath true [] 0 in
      elim folder [
        | none ↦ some (set_data req (flags ∷ 0 ∷ []) copy).0
        | some f ↦ elim (new_unicode env.glib hdr_name f) [
          | none ↦ none
          | some h ↦ some (set_data (add_header req h) (flags ∷ 0 ∷ []) copy).0
        ]
      ]

  unfoldable pub setpath : World A U → Option Bytes → Option A → Option (World A U × ℕ)
  setpath w path func = elim (setpath_packet path) [
    | none ↦ none
    | some req ↦ some (default_send w req func)
  ]

  unfoldable pub mkdir : World A U → Bytes → Option A → Option (World A U × ℕ)
  mkdir w path func = elim (new_packet env.glib op_setpath true ((hdr_name, str path) ∷ [])) [
    | none ↦ none
    | some req ↦ some (default_send w (set_data req (0 ∷ 0 ∷ []) copy).0 func)
  ]

  abbrev plain_request : World A U → ℕ → List (ℕ × VaArg) → Option A → Option (World A U × ℕ)
  plain_request w op args func = elim (new_packet env.glib op true args) [
    | none ↦ none
    | some req ↦ some (default_send w req func)
  ]

  unfoldable pub delete : World A U → Bytes → Option A → Option (World A U × ℕ)
  delete w name func = plain_request w op_put ((hdr_name, str name) ∷ []) func

  abbrev action_args : ℕ → Bytes → Bytes → List (ℕ × VaArg)
  action_args action name dest =
      (hdr_action, val action) ∷ (hdr_name, str name) ∷ (hdr_destname, str dest) ∷ []

  unfoldable pub copy_object : World A U → Bytes → Bytes → Option A → Option (World A U × ℕ)
  copy_object w name dest func = plain_request w op_action (action_args action_copy name dest) func

  unfoldable pub move_object : World A U → Bytes → Bytes → Option A → Option (World A U × ℕ)
  move_object w name dest func = plain_request w op_action (action_args action_move name dest) func
