-- ===== src/Obexd/Session/Unchecked.antt =====
-- src/obex.c: a PUT that follows another.
use map_client.Base.{ℕ, ◌≡◌, ◌∙◌, Bool, true, some, List, arith}
use map_client.Base.Endian.{Bytes}
use map_client.Gobex.Packet.{GObexPacket}
use map_client.Obexd.Mimetype.{MimeTypeDriver}
use map_client.Obexd.Session.{Driver, ObexSession, os_reset_session, os_session_mark_aborted}
use map_client.Obexd.Session.Requests.{
  Service, Handler, cmd_put, check_put, parse_type, parse_name, parse_length,
}

module _ {V : Type 0} (driver : Driver V) where
  os_reset_session-checked :
      (os : ObexSession V) → (os_reset_session driver os).checked ≡ os.checked
  unfolding os_reset_session os_session_mark_aborted
  os_reset_session-checked os = ground arith

parse_length-checked :
    {V A : Type 0} (os : ObexSession V) (req : GObexPacket A)
    → (parse_length os req).checked ≡ os.checked
parse_length-checked os req = ground arith

module _ {V : Type 0} (same_type : Bytes → Bytes → Bool) (drivers : List MimeTypeDriver)
    (before : ℕ) (driver : Driver V) (service : Service V) where
  -- A PUT of a session that was checked goes on without the service's check.
  cmd_put-checked :
      {A : Type 0} (os : ObexSession V) (req : GObexPacket A) (chkput : Handler V)
      → os.checked ≡ true
      → cmd_put same_type drivers before driver service os req
        ≡ cmd_put same_type drivers before driver (record service { chkput = chkput }) os req
  unfolding cmd_put
  cmd_put-checked os req chkput was =
      let typed = parse_type same_type drivers before driver service os req in
      let parsed : (parse_length (parse_name typed req) req).checked ≡ true =
        parse_length-checked (parse_name typed req) req ∙ was in
      rw parsed

  -- The check of a PUT is not asked for again: once the service's check has allowed a PUT, the next one
  -- after a reset of the session, which an abort makes, is handled the same whatever the check is.
  pub cmd_put-unchecked :
      {A : Type 0} (os mid : ObexSession V) (req : GObexPacket A)
      (allow : ObexSession V → ℕ × ObexSession V) (chkput : Handler V)
      → service.chkput ≡ some allow
      → allow os ≡ (0, mid)
      → cmd_put same_type drivers before driver service
          (os_reset_session driver (check_put driver service os).1)
          req
        ≡ cmd_put same_type drivers before driver
            (record service { chkput = chkput })
            (os_reset_session driver (check_put driver service os).1)
            req
  cmd_put-unchecked os mid req allow chkput asks allows =
      let allowed = (check_put driver service os).1 in
      let was : allowed.checked ≡ true = unfold check_put in ground arith in
      cmd_put-checked (os_reset_session driver allowed) req chkput
        (os_reset_session-checked driver allowed ∙ was)
