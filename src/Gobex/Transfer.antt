-- ===== src/Gobex/Transfer.antt =====
-- gobex/gobex-transfer.c: the list of transfers, and the life of one.
pub mod Client
pub mod Server
pub mod Session
pub mod Table
pub mod Deliver
pub mod Cancel
mod Tests
use map_client.Base.{
  ℕ, ◌+◌, ◌%◌, ◌^◌, Bool, true, false, Option, some, none, List, [], ◌∷◌, ◌++◌, ltb, ◌==◌, not,
  if◌then◌else◌,
}
use map_client.Base.Int.{ℤ, pos, negsuc}
use map_client.Base.Endian.{Bytes}
use map_client.Gobex.Defs.{Glib, GObexError, disconnected, cancelled, proto, eagain}
use map_client.Gobex.Packet.{GObexPacket}
use map_client.Gobex.Packet.Codec.{Produced, bytes, errno}
use map_client.Gobex.Obex.{GObex, World, Env, remove_request_function}
use map_client.Gobex.Obex.Send.{with_obex, send, send_req, cancel_req}

-- The functions that the library hands to the session, each with the transfer that is its user data,
-- and the user's own. A pointer to a transfer is its id.
pub data Func (A : Type 0) : Type 0 where
  user : A → Func A
  response_of abort_response_of put_data_of get_data_of put_req_of get_req_of abort_req_of :
      ℕ → Func A

pub record Transfer (A : Type 0) : Type 0 where
  pub id : ℕ
  pub opcode : ℕ
  pub req_id : ℕ
  pub put_id : ℕ
  pub get_id : ℕ
  pub abort_id : ℕ
  pub data_producer : Option A
  pub data_consumer : Option A
  pub complete_func : A

-- The static variables of the file in front of the user's state. `faulted` says that a transfer was
-- used after it was freed, or a function pointer that is null was called.
pub record Layer (A V : Type 0) : Type 0 where
  pub transfers : List (Transfer A)
  pub next_id : ℕ
  pub faulted : Bool
  pub rest : V

abbrev pub State : Type 0 → Type 0 → Type 0
State A V = World (Func A) (Layer A V)

-- The channel, the functions that the user hands to the session, and those handed to a transfer.
pub record Users (A V : Type 0) : Type 0 where
  pub glib : Glib
  pub write_chars : Bytes → V → Option ℕ × V
  pub read_chars : ℕ → V → Option Bytes × V
  pub on_response : A → Option GObexError → Option (GObexPacket (Func A)) → State A V → State A V
  pub on_request : A → GObexPacket (Func A) → State A V → State A V
  pub on_disconnect : A → Option GObexError → State A V → State A V
  pub produce : A → ℕ → State A V → Produced × State A V
  pub data_producer : A → ℕ → State A V → Produced × State A V
  pub data_consumer : A → Bytes → State A V → Bool × State A V
  pub complete_func : A → Option GObexError → State A V → State A V

abbrev pub first_packet_timeout : ℤ
first_packet_timeout = pos 60

module _ {A : Type 0} where
  -- find_transfer, on the list.
  unfoldable pub find_transfer : ℕ → List (Transfer A) → Option (Transfer A)
  find_transfer id [] = none
  find_transfer id (t ∷ ts) = if t.id == id then some t else find_transfer id ts

  -- g_slist_remove of the first entry.
  unfoldable pub remove_transfer : ℕ → List (Transfer A) → List (Transfer A)
  remove_transfer id [] = []
  remove_transfer id (t ∷ ts) =
      let rest = remove_transfer id ts in if t.id == id then ts else t ∷ rest

  -- An assignment through the pointer.
  unfoldable pub put_transfer : Transfer A → List (Transfer A) → List (Transfer A)
  put_transfer new [] = []
  put_transfer new (t ∷ ts) =
      let rest = put_transfer new ts in if t.id == new.id then new ∷ ts else t ∷ rest

module _ {A V : Type 0} where
  abbrev pub found : State A V → ℕ → Option (Transfer A)
  found w id = find_transfer id w.user.transfers

  abbrev pub with_transfers : State A V → List (Transfer A) → State A V
  with_transfers w ts = let l = w.user in record w { user = record l { transfers = ts } }

  abbrev pub assign : State A V → Transfer A → State A V
  assign w t = with_transfers w (put_transfer t w.user.transfers)

  abbrev pub fault : State A V → State A V
  fault w = let l = w.user in record w { user = record l { faulted = true } }

  -- The error of a send, which fails exactly if there is no channel.
  abbrev pub send_error : State A V → Option GObexError
  send_error w = if w.obex.io then none else some disconnected

  abbrev pub cancel_if : ℕ → State A V → State A V
  cancel_if id w = if ltb 0 id then (cancel_req w id true).0 else w

  abbrev pub unregister_if : ℕ → State A V → State A V
  unregister_if id w = if ltb 0 id then with_obex w (remove_request_function w.obex id).0 else w

  unfoldable pub transfer_free : State A V → Transfer A → State A V
  transfer_free w t = unregister_if t.abort_id (
      unregister_if t.get_id (
        unregister_if t.put_id
          (cancel_if t.req_id (with_transfers w (remove_transfer t.id w.user.transfers)))))

  -- The next id and the transfer are the result's second and third part.
  unfoldable pub transfer_new : State A V → ℕ → Option A → Option A → A → State A V × Transfer A
  transfer_new w opcode producer consumer complete =
      let l = w.user in
      let t : Transfer A = record {
        id = l.next_id;
        opcode = opcode;
        req_id = 0;
        put_id = 0;
        get_id = 0;
        abort_id = 0;
        data_producer = producer;
        data_consumer = consumer;
        complete_func = complete;
      } in
      (
        record w {
          user = record l {
            transfers = l.transfers ++ (t ∷ []);
            next_id = (l.next_id + 1) % 2 ^ 32;
          };
        },
        t,
      )

  unfoldable pub cancel_transfer : State A V → ℕ → State A V × Bool
  cancel_transfer w id = elim (found w id) [
    | none ↦ (w, false)
    | some t ↦ (transfer_free w t, true)
  ]

module _ {A V : Type 0} (env : Users A V) where
  unfoldable pub transfer_complete : State A V → ℕ → Option GObexError → State A V
  transfer_complete w id err = elim (found w id) [
    | none ↦ fault w
    | some t ↦
        let w' = env.complete_func t.complete_func err w in
        elim (found w' id) [ none ↦ w' | some t' ↦ transfer_free w' t' ]
  ]

  abbrev pub complete_on : Option GObexError → ℕ → State A V → State A V
  complete_on none id w = w
  complete_on (some e) id w = transfer_complete w id (some e)

  unfoldable pub transfer_abort_response : State A V → ℕ → State A V
  transfer_abort_response w id = elim (found w id) [
    | none ↦ fault w
    | some t ↦ transfer_complete (assign w (record t { req_id = 0 })) id (some cancelled)
  ]
