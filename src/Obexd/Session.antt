-- ===== src/Obexd/Session.antt =====
-- src/obex.c: the object of a server session, how it is written, read, and given up.
pub mod Stream
pub mod Write
pub mod Deliver
pub mod Open
pub mod Connect
pub mod Requests
pub mod Unchecked
use map_client.Base.{
  ℕ, zero, suc, ◌+◌, ◌-◌, Bool, true, false, ◌&&◌, ◌||◌, not, Option, some, none, List, [], ◌∷◌,
  ◌++◌, take, drop, length, ltb, leb, ◌==◌, if◌then◌else◌,
}
use map_client.Base.Int.{ℤ, pos, negsuc}
use map_client.Base.Endian.{Bytes}

-- What a function gives that counts bytes, or the errno that it gives with a minus sign.
pub data Outcome : Type 0 where
  done failed : ℕ → Outcome

abbrev pub enoent : ℕ
enoent = 2

abbrev pub eintr : ℕ
eintr = 4

abbrev pub eio : ℕ
eio = 5

abbrev pub eagain : ℕ
eagain = 11

abbrev pub eacces : ℕ
eacces = 13

abbrev pub efault : ℕ
efault = 14

abbrev pub eexist : ℕ
eexist = 17

abbrev pub ebadr : ℕ
ebadr = 53

abbrev pub enotempty : ℕ
enotempty = 39

abbrev pub enostr : ℕ
enostr = 60

-- A size that is not known, and that of an object that is to be deleted.
abbrev pub object_size_unknown : ℤ
object_size_unknown = negsuc 0

abbrev pub object_size_delete : ℤ
object_size_delete = negsuc 1

abbrev pub plus : ℤ → ℕ → ℤ
plus (pos a) n = pos (a + n)
plus (negsuc a) n = if ltb a n then pos (n - a - 1) else negsuc (a - n)

abbrev pub minus : ℤ → ℕ → ℤ
minus (pos a) n = if ltb a n then negsuc (n - a - 1) else pos (a - n)
minus (negsuc a) n = negsuc (a + n)

abbrev pub same_int : ℤ → ℤ → Bool
same_int (pos a) (pos b) = a == b
same_int (negsuc a) (negsuc b) = a == b
same_int (pos a) (negsuc b) = false
same_int (negsuc a) (pos b) = false

-- What the session is told, in order: g_obex_suspend, g_obex_resume, g_obex_send_rsp, g_obex_send of a
-- packet with headers, the request function of GET, added or removed, and g_obex_get_rsp, with the length if
-- it is sent, g_obex_put_rsp, and the response to CONNECT with its headers.
pub data Call : Type 0 where
  call_suspend call_resume : Call
  call_send_rsp : ℕ → Call
  call_send : List (ℕ × Bytes) → Call
  call_add_get : Call
  call_remove : ℕ → Call
  call_get_rsp : Option ℤ → Call
  call_put_rsp : Call
  call_connected : List (ℕ × Bytes) → Call

-- What get_next_header gives: the end, a header's id and bytes, or an errno.
pub data NextHeader : Type 0 where
  no_header : NextHeader
  header : ℕ → Bytes → NextHeader
  no_header_yet : ℕ → NextHeader

-- What a driver does with its object, in a state of its own. A null function is none. Set_io_watch is
-- given whether there is a watch, and the service's functions are here too.
pub record Driver (V : Type 0) : Type 0 where
  pub write : Bytes → V → Outcome × V
  pub read : ℕ → V → Outcome × Bytes × V
  pub get_next_header : Option (V → NextHeader × V)
  pub close : V → V
  pub flush : Option (V → Outcome × V)
  pub remove : Option (Bytes → V → V)
  pub set_io_watch : Bool → V → V
  pub progress : V → V
  pub reset : V → V

-- The members of struct obex_session, without the time and the pointers to what is modelled elsewhere. `object` and `driver` are whether
-- the pointers are set, `buf` the allocated memory, `rest` everything outside.
pub record ObexSession (V : Type 0) : Type 0 where
  pub cmd : ℕ
  pub action_id : ℕ
  pub name : Option Bytes
  pub destname : Option Bytes
  pub type : Option Bytes
  pub path : Option Bytes
  pub apparam : Option Bytes
  pub nonhdr : Option Bytes × ℕ
  pub get_rsp : ℕ
  pub buf : Bytes
  pub pending : ℕ
  pub offset : ℤ
  pub size : ℤ
  pub object : Bool
  pub driver : Bool
  pub service : Bool
  pub aborted : Bool
  pub checked : Bool
  pub headers_sent : Bool
  pub calls : List Call
  pub rest : V

-- The response to an errno, and to 0.
abbrev pub rsp_of : (err : ℕ) → ℕ
rsp_of err =
    if err == 0
    then 0x20
    else if err == 1 || err == eacces
    then 0x43
    else if err == enoent
    then 0x44
    else if err == ebadr
    then 0x40
    else if err == efault
    then 0x53
    else if err == 22
    then 0x51
    else if err == enotempty || err == eexist
    then 0x4c
    else 0x50

module _ {V : Type 0} where
  abbrev pub tell : ObexSession V → Call → ObexSession V
  tell os c = record os { calls = os.calls ++ (c ∷ []) }

  abbrev pub with_rest : ObexSession V → V → ObexSession V
  with_rest os v = record os { rest = v }

  abbrev pub os_set_response : ObexSession V → (err : ℕ) → ObexSession V
  os_set_response os err = tell os (call_send_rsp (rsp_of err))

  unfoldable pub os_session_mark_aborted : ObexSession V → ObexSession V
  os_session_mark_aborted os =
      if os.aborted || same_int os.size object_size_unknown
      then os
      else record os { aborted = not (same_int os.size os.offset) }

module _ {V : Type 0} (driver : Driver V) where
  -- The object is closed, and removed if it was not put whole. 2 is PUT.
  abbrev pub close_object : ObexSession V → ObexSession V
  close_object os =
      let closed = driver.close (driver.set_io_watch false os.rest) in
      with_rest os (elim driver.remove [
        | none ↦ closed
        | some remove ↦ elim os.path [
          | none ↦ closed
          | some path ↦ if os.aborted && os.cmd == 2 then remove path closed else closed
        ]
      ])

  abbrev pub cleared : ObexSession V → ObexSession V
  cleared os = record os {
    name = none;
    type = none;
    buf = [];
    path = none;
    apparam = none;
    get_rsp = 0;
    object = false;
    driver = false;
    aborted = false;
    pending = 0;
    offset = pos 0;
    size = object_size_delete;
    headers_sent = false;
  }

  unfoldable pub os_reset_session : ObexSession V → ObexSession V
  os_reset_session os =
      let marked = os_session_mark_aborted os in
      let closed = if marked.object then close_object marked else marked in
      let reset = if closed.service then with_rest closed (driver.reset closed.rest) else closed in
      let told = if ltb 0 reset.get_rsp then tell reset (call_remove reset.get_rsp) else reset in
      cleared told

  -- A turn of the loop at `len` bytes written, which goes on with `again`. What stands behind the bytes
  -- that were moved does not matter.
  abbrev pub write_turn :
      (again : ℕ → ObexSession V → Option (Outcome × ObexSession V)) (len : ℕ) (os : ObexSession V)
      → Outcome × V
      → Option (Outcome × ObexSession V)
  write_turn again len os (done n, v) =
      again (len + n) (record os { rest = v; offset = plus os.offset n; pending = os.pending - n })
  write_turn again len os (failed e, v) =
      if e == eintr
      then again len (with_rest os v)
      else if e == 22
      then some (failed e, record os { rest = v; buf = take os.pending (drop len os.buf) })
      else some (failed e, with_rest os v)

  unfoldable pub write_loop : (fuel len : ℕ) → ObexSession V → Option (Outcome × ObexSession V)
  write_loop zero len os = none
  write_loop (suc fuel) len os =
      if os.pending == 0
      then some (done len, os)
      else write_turn (write_loop fuel) len os
          (driver.write (take os.pending (drop len os.buf)) os.rest)

  abbrev pub after_write : Outcome × ObexSession V → Outcome × ObexSession V
  after_write (done n, os) = (done n, with_rest os (driver.progress os.rest))
  after_write (failed e, os) = (failed e, os)

  unfoldable pub driver_write : (fuel : ℕ) → ObexSession V → Option (Outcome × ObexSession V)
  driver_write fuel os = elim (write_loop fuel 0 os) [ none ↦ none | some r ↦ some (after_write r) ]
