-- ===== src/Obexd/Tests.antt =====
-- Drivers, a watch and a PUT, and the theorems about the registries and the sessions at them.
use map_client.Base.{
  ◌<◌, ◌≤◌, ◌≢◌, ◌++◌, ◌⊎◌, inl, take, length, ℕ, ◌≡◌, refl, ap, Bool, true, false, some, none,
  List, [], ◌∷◌, arith,
}
use map_client.Gobex.Packet.{GObexPacket, empty_packet, op_put, get_header, find_header}
use map_client.Obexd.Session.{call_send_rsp}
use map_client.Obexd.Session.Requests.{Service, cmd_put, check_put}
use map_client.Obexd.Session.Unchecked.{cmd_put-unchecked}
use map_client.Obexd.Blob.{null_blob, same_bytes, same_bytes_refl, same_bytes-eq, memncmp0}
use map_client.Obexd.Mimetype.{MimeTypeDriver, own, find_driver, driver_find, driver_register}
use map_client.Obexd.Mimetype.Registry.{IsComparing, IsUnshadowed, driver_register-IsUnshadowed}
use map_client.Obexd.Mimetype.Watches.{IoWatch, reset_io_watch, set_io_watch}
use map_client.Obexd.Service.{ServiceDriver, service_driver_register}
use map_client.Obexd.Service.Disjoint.{IsDisjoint, service_driver_register-IsDisjoint}
use map_client.Base.Endian.{Bytes}
use map_client.Base.Int.{pos}
use map_client.Obexd.Session.{
  Outcome, done, failed, eagain, eintr, Driver, ObexSession, driver_write, os_reset_session,
  os_session_mark_aborted,
}
use map_client.Obexd.Session.Write.{IsTaking}
use map_client.Obexd.Session.Deliver.{
  waiting, IsReceiving, IsDelivered, recv_all, recv_all-IsDelivered, driver_write-repeats,
}

-- Case matters to this comparison.
same_bytes-IsComparing : IsComparing same_bytes
same_bytes-IsComparing = record {
  reflexive = same_bytes_refl;
  congruent = λ a b c e. ap (same_bytes c) (same_bytes-eq a b e);
}

abbrev plain_driver : MimeTypeDriver
plain_driver = record {
  id = 1;
  target = null_blob;
  mimetype = some (97 ∷ []);
  who = null_blob;
  set_io_watch = own;
}

abbrev map_driver : MimeTypeDriver
map_driver = record {
  id = 2;
  target = record { ptr = some (187 ∷ 88 ∷ []); size = 2 };
  mimetype = none;
  who = null_blob;
  set_io_watch = own;
}

driver_register-IsUnshadowed_example :
    IsUnshadowed same_bytes
      (driver_register same_bytes (plain_driver ∷ []) (some map_driver)).0
      (driver_register same_bytes (plain_driver ∷ []) (some map_driver)).0
driver_register-IsUnshadowed_example =
    driver_register-IsUnshadowed same_bytes (plain_driver ∷ []) map_driver same_bytes-IsComparing
      (unfold find_driver memncmp0 same_bytes in (refl, tt))

abbrev watches : List (IoWatch Bool)
watches = record { object = 5; func = true } ∷ []

set_io_watch_test : (set_io_watch watches 5 none).0 ≡ []
unfolding set_io_watch reset_io_watch
set_io_watch_test = refl

abbrev opp : ServiceDriver
opp = record { id = 1; service = 2; target = null_blob; who = null_blob }

abbrev pcsuite : ServiceDriver
pcsuite = record {
  id = 2;
  service = 32;
  target = null_blob;
  who = record { ptr = some (80 ∷ []); size = 1 };
}

service_driver_register-IsDisjoint_example :
    IsDisjoint (service_driver_register (opp ∷ []) (some pcsuite)).0
service_driver_register-IsDisjoint_example =
    service_driver_register-IsDisjoint (opp ∷ []) pcsuite (omega arith) (tt, tt)

-- Drivers whose state is the object: one takes a byte at a time, the other one byte at all.
abbrev bytewise : Bytes → Bytes → Outcome × Bytes
bytewise [] v = (done 0, v)
bytewise (b ∷ bs) v = (done 1, v ++ (b ∷ []))

abbrev only_one : Bytes → Bytes → Outcome × Bytes
only_one bs [] = (done 1, take 1 bs)
only_one bs (b ∷ v) = (failed eagain, b ∷ v)

abbrev object_driver : (Bytes → Bytes → Outcome × Bytes) → Driver Bytes
object_driver write = record {
  write = write;
  read = λ n v. (done 0, [], v);
  get_next_header = none;
  close = λ v. v;
  flush = none;
  remove = some (λ path v. []);
  set_io_watch = λ b v. v;
  progress = λ v. v;
  reset = λ v. v;
}

abbrev putting : ObexSession Bytes
putting = record {
  cmd = 2;
  action_id = 0;
  name = none;
  destname = none;
  type = none;
  path = some (97 ∷ []);
  apparam = none;
  nonhdr = (none, 0);
  get_rsp = 0;
  buf = 5 ∷ 6 ∷ 7 ∷ [];
  pending = 2;
  offset = pos 0;
  size = pos 9;
  object = true;
  driver = true;
  service = true;
  aborted = false;
  checked = false;
  headers_sent = false;
  calls = [];
  rest = [];
}

bytewise-IsTaking : IsTaking (object_driver bytewise) (λ v. v) (λ v. 0) 0
bytewise-IsTaking = record {
  taken = λ bs v filled. bytewise_takes bs v filled;
  patient = λ v. omega arith;
  progressing = λ v. refl;
}
  where
    bytewise_takes :
        (bs v : Bytes)
        → bs ≢ []
        → ((n : ℕ) × (v' : Bytes) × (0 < n)
            × (n ≤ length bs)
            × (bytewise bs v ≡ (done n, v'))
            × (v' ≡ v ++ take n bs)
            × (0 ≤ 0))
          ⊎ ((v' : Bytes) × (bytewise bs v ≡ (failed eintr, v')) × (v' ≡ v) × (0 < 0))
    bytewise_takes [] v filled = absurd (filled refl)
    bytewise_takes (b ∷ bs) v filled =
        inl (1, v ++ (b ∷ []), omega arith, omega arith, refl, refl, omega arith)

putting-IsReceiving : IsReceiving putting
putting-IsReceiving = record { object = refl; driver = refl; running = refl; kept = omega arith }

recv_all-IsDelivered_example :
    IsDelivered
      (object_driver bytewise)
      (λ v. v)
      putting
      3
      (8 ∷ 9 ∷ 10 ∷ [])
      (recv_all (object_driver bytewise) 6 ((8 ∷ 9 ∷ []) ∷ (10 ∷ []) ∷ []) putting)
recv_all-IsDelivered_example =
    recv_all-IsDelivered (object_driver bytewise) (λ v. v) (λ v. 0) 0 6 (8 ∷ 9 ∷ [])
      ((10 ∷ []) ∷ []) putting bytewise-IsTaking putting-IsReceiving (omega arith)

driver_write-repeats_example :
    (os' : ObexSession Bytes) × (driver_write (object_driver only_one) 2 putting
      ≡ some (failed eagain, os'))
    × (os'.rest ≡ 5 ∷ [])
    × (os'.pending ≡ 1)
    × (waiting os' ≡ take 1 (waiting putting))
driver_write-repeats_example =
    driver_write-repeats (object_driver only_one) 0 1 putting (5 ∷ []) (5 ∷ []) (omega arith) refl
      refl

-- The object of an unfinished PUT is removed.
os_reset_session_test :
    (os_reset_session (object_driver bytewise) (record putting { rest = 1 ∷ [] })).rest ≡ []
unfolding os_reset_session os_session_mark_aborted
os_reset_session_test = refl

-- A service that allows a PUT and takes it.
abbrev allowing : ObexSession Bytes → ℕ × ObexSession Bytes
allowing os = (0, os)

abbrev put_service : Service Bytes
put_service = record {
  target = null_blob;
  who = null_blob;
  get = none;
  put = some allowing;
  chkput = some allowing;
  setpath = none;
  action = none;
  disconnect = none;
}

abbrev any_driver : MimeTypeDriver
any_driver = record {
  id = 3;
  target = null_blob;
  mimetype = none;
  who = null_blob;
  set_io_watch = own;
}

abbrev put_request : GObexPacket Bool
put_request = empty_packet op_put true [] 0

cmd_put-unchecked_example :
    cmd_put same_bytes
      (any_driver ∷ [])
      0
      (object_driver bytewise)
      put_service
      (os_reset_session
        (object_driver bytewise)
        (check_put (object_driver bytewise) put_service putting).1)
      put_request
    ≡ cmd_put same_bytes
        (any_driver ∷ [])
        0
        (object_driver bytewise)
        (record put_service { chkput = some (λ os. (1, os)) })
        (os_reset_session
          (object_driver bytewise)
          (check_put (object_driver bytewise) put_service putting).1)
        put_request
cmd_put-unchecked_example =
    cmd_put-unchecked same_bytes (any_driver ∷ []) 0 (object_driver bytewise) put_service putting
      putting put_request allowing (some (λ os. (1, os))) refl refl

-- A session that is new asks the check, which refuses.
cmd_put_test :
    (cmd_put same_bytes
      (any_driver ∷ [])
      0
      (object_driver bytewise)
      (record put_service { chkput = some (λ os. (1, os)) })
      putting
      put_request).calls
    ≡ call_send_rsp 0x43 ∷ []
unfolding cmd_put check_put driver_find find_driver memncmp0 get_header find_header
cmd_put_test = refl
