-- ===== src/Obexd/Session/Open.antt =====
-- src/obex.c: how the object of a session is opened, and the answer to a GET begun.
use map_client.Base.{
  ℕ, ◌-◌, ◌^◌, Bool, true, false, not, Option, some, none, ltb, ◌==◌, if◌then◌else◌,
}
use map_client.Base.Endian.{Bytes}
use map_client.Base.Int.{ℤ, pos, negsuc}
use map_client.Obexd.Session.{
  Outcome, done, failed, call_suspend, call_get_rsp, Driver, ObexSession, eagain,
  object_size_unknown, same_int, tell, with_rest,
}
use map_client.Obexd.Session.Stream.{driver_get_headers}

-- What a driver's open gives: an object, and its size if it sets that, or an errno.
pub data Opened : Type 0 where
  opened : Option ℤ → Opened
  refused : ℕ → Opened

abbrev pub size_or : ℤ → Option ℤ → ℤ
size_or size none = size
size_or size (some s) = s

-- Whether a size is below UINT32_MAX.
abbrev pub is_announced : ℤ → Bool
is_announced (pos n) = ltb n (2 ^ 32 - 1)
is_announced (negsuc n) = not (n == 0)

module _ {V : Type 0} where
  -- The answer is begun, with the length if it is known.
  unfoldable pub cmd_get_rsp : ObexSession V → ObexSession V
  cmd_get_rsp os = tell os (call_get_rsp (if is_announced os.size then some os.size else none))

module _ {V : Type 0} (driver : Driver V) where
  abbrev pub after_headers : Outcome × ObexSession V → ℕ × ObexSession V
  after_headers (done total, os) = (0, if ltb 0 total then os else cmd_get_rsp os)
  after_headers (failed e, os) =
      if e == eagain
      then (0, with_rest (tell os call_suspend) (driver.set_io_watch true os.rest))
      else (e, os)

  abbrev pub get_opened :
      (fuel get_rsp : ℕ) → ObexSession V → Opened × V → Option (ℕ × ObexSession V)
  get_opened fuel get_rsp os (refused e, v) = some (e, with_rest os v)
  get_opened fuel get_rsp os (opened size, v) =
      elim (driver_get_headers driver fuel get_rsp (record os {
        object = true;
        offset = pos 0;
        size = size_or object_size_unknown size;
        rest = v;
      })) [ none ↦ none | some r ↦ some (after_headers r) ]

  -- `open_object` opens the file, and `get_rsp` is the id of the request function.
  unfoldable pub obex_get_stream_start :
      (open_object : V → Opened × V) (fuel get_rsp : ℕ) → ObexSession V → Option (ℕ × ObexSession V)
  obex_get_stream_start open_object fuel get_rsp os =
      get_opened fuel get_rsp os (open_object os.rest)

module _ {V : Type 0} where
  abbrev pub put_opened : (filename : Bytes) → ObexSession V → Opened × V → ℕ × ObexSession V
  put_opened filename os (refused e, v) = (e, record os { object = false; rest = v })
  put_opened filename os (opened size, v) = (
    0,
    record os {
      object = true;
      path = some filename;
      size = if same_int os.size object_size_unknown then os.size else size_or os.size size;
      rest = v;
    },
  )

  unfoldable pub obex_put_stream_start :
      (open_object : V → Opened × V) (filename : Bytes) → ObexSession V → ℕ × ObexSession V
  obex_put_stream_start open_object filename os = put_opened filename os (open_object os.rest)
