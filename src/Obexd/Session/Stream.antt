-- ===== src/Obexd/Session/Stream.antt =====
-- src/obex.c: reading the object and its headers, the watch on it, and what a PUT brings.
use map_client.Base.{
  ℕ, zero, suc, ◌+◌, Bool, true, false, ◌&&◌, not, Option, some, none, List, [], ◌∷◌, ◌++◌, take,
  length, ◌==◌, if◌then◌else◌,
}
use map_client.Base.Endian.{Bytes}
use map_client.Obexd.Session.{
  Outcome, done, failed, NextHeader, no_header, header, no_header_yet, call_suspend, call_resume,
  call_send, call_add_get, Driver, ObexSession, eio, eagain, enostr, plus, minus, same_int,
  object_size_delete, object_size_unknown, tell, with_rest, os_set_response, driver_write,
}

module _ {V : Type 0} (driver : Driver V) where
  -- The outcome, and the bytes that are in the buffer.
  unfoldable pub driver_read : (size : ℕ) → ObexSession V → Outcome × Bytes × ObexSession V
  driver_read size os =
      if not os.object
      then (failed eio, [], os)
      else let (w, bytes, v) = driver.read size (driver.progress os.rest) in
        let next = with_rest os v in
        elim w [
          | done n ↦ (done n, bytes, record next { offset = plus os.offset n })
          | failed e ↦
              let watched =
                if e == eagain then with_rest next (driver.set_io_watch true v) else next in
              if e == enostr
              then (done 0, [], next)
              else (failed e, [], record watched { offset = minus os.offset e })
        ]

  unfoldable pub send_data : (size : ℕ) → ObexSession V → Outcome × Bytes × ObexSession V
  send_data size os = if os.aborted then (failed 1, [], os) else driver_read size os

  -- The end of a transfer, with its error or without.
  unfoldable pub transfer_complete : (err : Bool) → ObexSession V → ObexSession V
  transfer_complete true os = os
  transfer_complete false os = elim driver.flush [
    | none ↦ os
    | some flush ↦
        let (w, v) = flush os.rest in
        let flushed = with_rest os v in
        if os.object && os.driver
        then elim w [
          | done _ ↦ flushed
          | failed e ↦
              if e == eagain
              then with_rest (tell flushed call_suspend) (driver.set_io_watch true v)
              else flushed
        ]
        else os
  ]

  -- The loop over the headers, with those so far and their size.
  unfoldable pub header_loop :
      (next : V → NextHeader × V) (fuel : ℕ) (headers : List (ℕ × Bytes)) (total : ℕ)
      → ObexSession V
      → Option (Outcome × List (ℕ × Bytes) × ObexSession V)
  header_loop next zero headers total os = none
  header_loop next (suc fuel) headers total os =
      let (h, v) = next os.rest in
      let after = with_rest os v in
      elim h [
        | no_header ↦ some (done total, headers, after)
        | header id value ↦
            header_loop next fuel (headers ++ ((id, value) ∷ [])) (total + length value) after
        | no_header_yet e ↦
            some (failed e, headers, if e == eagain then after else record after { buf = [] })
      ]

  abbrev pub send_found :
      (get_rsp : ℕ) → Outcome × List (ℕ × Bytes) × ObexSession V → Outcome × ObexSession V
  send_found get_rsp (failed e, headers, os) = (failed e, os)
  send_found get_rsp (done total, headers, os) = if total == 0 then (done 0, os) else (
    done total,
    record (tell (tell os (call_send headers)) call_add_get) {
      get_rsp = get_rsp;
      headers_sent = true;
    },
  )

  -- `get_rsp` is the id that the session gives to the request function.
  unfoldable pub driver_get_headers :
      (fuel get_rsp : ℕ) → ObexSession V → Option (Outcome × ObexSession V)
  driver_get_headers fuel get_rsp os =
      if os.aborted
      then some (failed 1, os)
      else if not os.object
      then some (failed eio, os)
      else if os.headers_sent
      then some (done 0, os)
      else elim driver.get_next_header [
        | none ↦ some (done 0, record os { headers_sent = true })
        | some next ↦ elim (header_loop next fuel [] 0 os) [
          | none ↦ none
          | some r ↦ some (send_found get_rsp r)
        ]
      ]

  abbrev pub finish_io : Outcome × ObexSession V → ObexSession V × Bool
  finish_io (done n, os) = (tell os call_resume, false)
  finish_io (failed e, os) =
      if e == eagain then (os, true) else (tell (os_set_response os e) call_resume, false)

  abbrev pub then_headers :
      (can_read : Bool) (fuel get_rsp : ℕ)
      → Option (Outcome × ObexSession V)
      → Option (Outcome × ObexSession V)
  then_headers can_read fuel get_rsp none = none
  then_headers can_read fuel get_rsp (some (w, os)) =
      if can_read && not os.headers_sent then driver_get_headers fuel get_rsp os else some (w, os)

  -- The watch on the object, and whether it stays. `err` is an errno, or 0.
  unfoldable pub handle_async_io :
      (fuel get_rsp : ℕ) (can_write can_read : Bool) (err : ℕ)
      → ObexSession V
      → Option (ObexSession V × Bool)
  handle_async_io fuel get_rsp can_write can_read err os =
      if not (err == 0)
      then some (tell (os_set_response os err) call_resume, false)
      else let written : Option (Outcome × ObexSession V) =
          if can_write then driver_write driver fuel os else some (done 0, os) in
        elim (then_headers can_read fuel get_rsp written) [
          | none ↦ none
          | some r ↦ some (finish_io r)
        ]

  -- The new bytes, behind those that wait.
  abbrev pub stored : Bytes → ObexSession V → ObexSession V
  stored bytes os = record os {
    size = if same_int os.size object_size_delete then object_size_unknown else os.size;
    buf = take os.pending os.buf ++ bytes;
    pending = os.pending + length bytes;
  }

  abbrev pub after_recv : Outcome × ObexSession V → Bool × ObexSession V
  after_recv (done n, os) = (true, os)
  after_recv (failed e, os) =
      if e == eagain
      then (true, with_rest (tell os call_suspend) (driver.set_io_watch true os.rest))
      else (false, os)

  unfoldable pub recv_data :
      (fuel : ℕ) (bytes : Bytes) → ObexSession V → Option (Bool × ObexSession V)
  recv_data fuel bytes os =
      let kept = stored bytes os in
      if os.aborted
      then some (false, os)
      else if os.object && os.driver
      then elim (driver_write driver fuel kept) [ none ↦ none | some r ↦ some (after_recv r) ]
      else some (true, kept)
