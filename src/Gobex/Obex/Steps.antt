-- ===== src/Gobex/Obex/Steps.antt =====
-- The session as a state machine: the calls of the interface and the watches are its steps.
use map_client.Base.{ℕ, ◌≡◌, refl, subst, Bool, true, Option, some}
use map_client.Base.Int.{ℤ}
use map_client.Gobex.Packet.{GObexPacket}
use map_client.Gobex.Obex.{
  World, Env, GObexTransportType, new, suspend, resume, set_disconnect_function,
  add_request_function, remove_request_function,
}
use map_client.Gobex.Obex.Send.{with_obex, send, send_req, cancel_req, cancel_complete}
use map_client.Gobex.Obex.Write.{Condition, write_data, req_timeout}
use map_client.Gobex.Obex.Incoming.{incoming_data}
use map_client.Gobex.Obex.Buffer.{IsWithin, ReadsAtMost}
use map_client.Gobex.Obex.Session.{new-IsFresh}
use map_client.Gobex.Obex.Calls.{
  IsWithin-SameRx, send-SameRx, send_req-SameRx, cancel_req-SameRx, resume-SameRx,
  remove_request_function-SameRx,
}
use map_client.Gobex.Obex.Keeping.{
  IsKeeping, Within, WithinAfter, WithinSome, write_data-Within, req_timeout-Within,
  cancel_complete-Within,
}
use map_client.Gobex.Obex.Arriving.{incoming_data-Within}

-- One step. A watch or a timer that ends in a failed assertion is none.
pub data Step {A U : Type 0} (env : Env A U) (w : World A U) : World A U → Type 0 where
  sends : (pkt : GObexPacket A) → Step env w (send w pkt).0
  requests :
      (req : GObexPacket A) (timeout : ℤ) (func : Option A)
      → Step env w (send_req w req timeout func).0
  cancels : (id : ℕ) (remove : Bool) → Step env w (cancel_req w id remove).0
  suspends : Step env w (with_obex w (suspend w.obex))
  resumes : Step env w (with_obex w (resume w.obex))
  sets_disconnect :
      (func : Option A) → Step env w (with_obex w (set_disconnect_function w.obex func))
  adds_handler : (opcode : ℕ) (func : A) → Step env w (add_request_function w opcode func).0
  removes_handler : (id : ℕ) → Step env w (with_obex w (remove_request_function w.obex id).0)
  completes : Step env w (cancel_complete env w)
  times_out : {w' : World A U} → req_timeout env w ≡ some w' → Step env w w'
  writes :
      (cond : Condition) (keep : Bool) {w' : World A U}
      → write_data env cond w ≡ some (w', keep)
      → Step env w w'
  reads :
      (cond : Condition) (keep : Bool) {w' : World A U}
      → incoming_data env cond w ≡ some (w', keep)
      → Step env w w'

-- What can be reached from a session that g_obex_new made.
pub data Reachable {A U : Type 0} (env : Env A U) : World A U → Type 0 where
  starts :
      {w : World A U} (t : GObexTransportType) (rx tx : ℤ)
      → new true t rx tx ≡ some w.obex
      → Reachable env w
  goes_on : {v w : World A U} → Reachable env v → Step env v w → Reachable env w

module _ {A U : Type 0} (env : Env A U) where
  Step-Within :
      (v w : World A U) → IsKeeping env → ReadsAtMost env → Within v → Step env v w → Within w
  unfolding suspend set_disconnect_function add_request_function
  Step-Within v w keeps most h (sends pkt) =
      IsWithin-SameRx v.obex (send v pkt).0.obex (send-SameRx v pkt) h
  Step-Within v w keeps most h (requests req timeout func) =
      IsWithin-SameRx v.obex (send_req v req timeout func).0.obex
        (send_req-SameRx v req timeout func) h
  Step-Within v w keeps most h (cancels id remove) =
      IsWithin-SameRx v.obex (cancel_req v id remove).0.obex (cancel_req-SameRx v id remove) h
  Step-Within v w keeps most h suspends =
      IsWithin-SameRx v.obex (suspend v.obex) (refl, refl, refl, refl) h
  Step-Within v w keeps most h resumes =
      IsWithin-SameRx v.obex (resume v.obex) (resume-SameRx v.obex) h
  Step-Within v w keeps most h (sets_disconnect func) =
      IsWithin-SameRx v.obex (set_disconnect_function v.obex func) (refl, refl, refl, refl) h
  Step-Within v w keeps most h (adds_handler opcode func) =
      IsWithin-SameRx v.obex (add_request_function v opcode func).0.obex (refl, refl, refl, refl) h
  Step-Within v w keeps most h (removes_handler id) =
      IsWithin-SameRx v.obex (remove_request_function v.obex id).0
        (remove_request_function-SameRx v.obex id) h
  Step-Within v w keeps most h completes = cancel_complete-Within env v keeps h
  Step-Within v w keeps most h (times_out e) =
      subst (λ r. WithinSome r) e (req_timeout-Within env v keeps h)
  Step-Within v w keeps most h (writes cond keep e) =
      subst (λ r. WithinAfter r) e (write_data-Within env cond v keeps h)
  Step-Within v w keeps most h (reads cond keep e) =
      subst (λ r. WithinAfter r) e (incoming_data-Within env keeps cond v most h)

  -- Whatever the user, the peer and the timers do, in any order, the receive buffer keeps the size of the
  -- MTU and what was received fits into it, if the channel reads no more than it is asked for and the
  -- callbacks, handlers and producers keep this too.
  pub Reachable-IsWithin :
      (w : World A U) → IsKeeping env → ReadsAtMost env → Reachable env w → IsWithin w.obex
  Reachable-IsWithin w keeps most (starts t rx tx e) = ((new-IsFresh A true t rx tx).0 w.obex e).0
  Reachable-IsWithin w keeps most (goes_on {v} before step) =
      Step-Within v w keeps most (Reachable-IsWithin v keeps most before) step
