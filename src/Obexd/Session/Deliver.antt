-- ===== src/Obexd/Session/Deliver.antt =====
-- src/obex.c: what a PUT brings stands in the object, and what a driver that is not ready makes of it.
use map_client.Base.{
  ℕ, suc, ◌+◌, ◌-◌, ◌≤◌, ◌<◌, ◌≡◌, refl, sym, ap, ◌∙◌, append_assoc, append-nil, Bool, true, false,
  Option, some, none, List, [], ◌∷◌, ◌++◌, take, take_all, take-take, drop, length, length-append,
  length-take, arith,
}
use map_client.Base.Endian.{Bytes}
use map_client.Obexd.Session.{
  done, failed, eagain, Driver, ObexSession, plus, with_rest, write_loop, driver_write,
}
use map_client.Obexd.Session.Stream.{recv_data, stored}
use map_client.Obexd.Session.Write.{
  IsTaking, step_failed, write_loop-IsWritten, wrote, plus-plus, step_done,
}

abbrev pub total : List Bytes → ℕ
total [] = 0
total (bs ∷ chunks) = length bs + total chunks

abbrev pub joined : List Bytes → Bytes
joined [] = []
joined (bs ∷ chunks) = bs ++ joined chunks

module _ {V : Type 0} where
  -- What was received and is not written yet.
  abbrev pub waiting : ObexSession V → Bytes
  waiting os = take os.pending os.buf

  -- A session that has an object to write, and keeps what waits in its buffer.
  pub record IsReceiving (os : ObexSession V) : Type 0 where
    pub object : os.object ≡ true
    pub driver : os.driver ≡ true
    pub running : os.aborted ≡ false
    pub kept : os.pending ≤ length os.buf

module _ {V : Type 0} (driver : Driver V) where
  -- The packets of a PUT, one after another, as long as they are taken.
  abbrev pub recv_next :
      (again : ObexSession V → Option (Bool × ObexSession V))
      → Option (Bool × ObexSession V)
      → Option (Bool × ObexSession V)
  recv_next again none = none
  recv_next again (some (false, os)) = some (false, os)
  recv_next again (some (true, os)) = again os

  abbrev pub recv_all : (fuel : ℕ) → List Bytes → ObexSession V → Option (Bool × ObexSession V)
  recv_all fuel [] os = some (true, os)
  recv_all fuel (bs ∷ chunks) os = recv_next (recv_all fuel chunks) (recv_data driver fuel bs os)

  recv_data_written :
      (fuel : ℕ) (bs : Bytes) (os : ObexSession V) (n : ℕ) (os' : ObexSession V)
      → IsReceiving os
      → write_loop driver fuel 0 (stored driver bs os) ≡ some (done n, os')
      → recv_data driver fuel bs os ≡ some (true, with_rest os' (driver.progress os'.rest))
  unfolding recv_data driver_write
  recv_data_written fuel bs os n os' h w = ground (arith, h.object, h.driver, h.running)

  abbrev pub IsDelivered :
      (content : V → Bytes) → ObexSession V → ℕ → Bytes → Option (Bool × ObexSession V) → Type 0
  IsDelivered content os n bs result =
      (os' : ObexSession V) × (result ≡ some (true, os'))
      × IsReceiving os'
      × (os'.pending ≡ 0)
      × (os'.offset ≡ plus os.offset (os.pending + n))
      × (content os'.rest ≡ content os.rest ++ (waiting os ++ bs))

  recv_data-IsDelivered :
      (content : V → Bytes) (patience : V → ℕ) (limit fuel : ℕ) (bs : Bytes) (os : ObexSession V)
      → IsTaking driver content patience limit
      → IsReceiving os
      → os.pending + length bs + limit < fuel
      → IsDelivered content os (length bs) bs (recv_data driver fuel bs os)
  recv_data-IsDelivered content patience limit fuel bs os laws h enough =
      let kept = stored driver bs os in
      let size : length kept.buf ≡ kept.pending =
        omega (arith, length-append (waiting os) bs, length-take os.pending os.buf, h.kept) in
      let (v, eq, c) =
        write_loop-IsWritten driver content patience limit fuel 0 kept laws (omega arith)
          (omega (arith, laws.patient kept.rest)) in
      let whole : take kept.pending kept.buf ≡ waiting os ++ bs =
        take_all kept.pending kept.buf (omega arith) in
      let left : kept.pending - kept.pending ≡ 0 = omega arith in
      (
        with_rest (wrote kept kept.pending v) (driver.progress v),
        recv_data_written fuel bs os (0 + kept.pending) (wrote kept kept.pending v) h eq,
        record { object = h.object; driver = h.driver; running = h.running; kept = omega arith },
        left,
        refl,
        laws.progressing v ∙ c ∙ ap (λ l. content os.rest ++ l) whole,
      )

  -- Enough fuel is one more than all bytes and `limit`. Then a PUT puts into the object, in order and
  -- once, what waited for it and what each packet brings: every packet is taken, the offset counts the
  -- bytes, and nothing is left waiting. The session has an object and a driver and was not aborted, the
  -- buffer holds what waits, there is a packet, and each write takes a byte or more or is interrupted.
  -- Interruptions use up the driver's patience, which a write that takes bytes does not restore and
  -- which is at most `limit`, so that one call of driver_write sees at most `limit` of them.
  pub recv_all-IsDelivered :
      (content : V → Bytes) (patience : V → ℕ) (limit fuel : ℕ) (bs : Bytes) (chunks : List Bytes)
      (os : ObexSession V)
      → IsTaking driver content patience limit
      → IsReceiving os
      → os.pending + total (bs ∷ chunks) + limit < fuel
      → IsDelivered content os
          (total (bs ∷ chunks))
          (joined (bs ∷ chunks))
          (recv_all fuel (bs ∷ chunks) os)
  recv_all-IsDelivered content patience limit fuel bs [] os laws h enough =
      let (os', eq, h', none_, o, c) =
        recv_data-IsDelivered content patience limit fuel bs os laws h (omega arith) in
      let n : length bs ≡ length bs + 0 = omega arith in
      (
        os',
        ap (recv_next (recv_all fuel [])) eq,
        h',
        none_,
        o ∙ ap (λ k. plus os.offset (os.pending + k)) n,
        c ∙ ap (λ l. content os.rest ++ (waiting os ++ l)) (sym (append-nil bs)),
      )
  recv_all-IsDelivered content patience limit fuel bs (bs' ∷ chunks) os laws h enough =
      let (mid, eq, h', none_, o, c) =
        recv_data-IsDelivered content patience limit fuel bs os laws h (omega arith) in
      let (os', eq', h'', none', o', c') =
        recv_all-IsDelivered content patience limit fuel bs' chunks mid laws h' (omega arith) in
      let sum : os.pending + length bs + (mid.pending + total (bs' ∷ chunks))
          ≡ os.pending + total (bs ∷ bs' ∷ chunks) =
        omega arith in
      let rest = joined (bs' ∷ chunks) in
      (
        os',
        ap (recv_next (recv_all fuel (bs' ∷ chunks))) eq ∙ eq',
        h'',
        none',
        o'
            ∙ ap (λ k. plus k (mid.pending + total (bs' ∷ chunks))) o
            ∙ plus-plus os.offset (os.pending + length bs) (mid.pending + total (bs' ∷ chunks))
            ∙ ap (plus os.offset) sum,
        c'
            ∙ ap (λ k. content mid.rest ++ (take k mid.buf ++ rest)) none_
            ∙ ap (λ l. l ++ rest) c
            ∙ append_assoc (content os.rest) (waiting os ++ bs) rest
            ∙ ap (λ l. content os.rest ++ l) (append_assoc (waiting os) bs rest),
      )

  driver_write-failed :
      (fuel : ℕ) (os : ObexSession V) (e : ℕ) (os' : ObexSession V)
      → write_loop driver fuel 0 os ≡ some (failed e, os')
      → driver_write driver fuel os ≡ some (failed e, os')
  unfolding driver_write
  driver_write-failed fuel os e os' loop = rw (loop, driver_write) refl

  -- A driver that takes some bytes and then is not ready: the bytes that it took are counted, but they
  -- stay at the front of the buffer. So what waits for the next call is again the front of what waited
  -- before, and not what is behind the bytes that were taken.
  pub driver_write-repeats :
      (fuel n : ℕ) (os : ObexSession V) (v v' : V)
      → n < os.pending
      → driver.write (waiting os) os.rest ≡ (done n, v)
      → driver.write (take (os.pending - n) (drop n os.buf)) v ≡ (failed eagain, v')
      → (os' : ObexSession V) × (driver_write driver (suc (suc fuel)) os
          ≡ some (failed eagain, os'))
        × (os'.rest ≡ v')
        × (os'.pending ≡ os.pending - n)
        × (waiting os' ≡ take (os.pending - n) (waiting os))
  driver_write-repeats fuel n os v v' part w w' =
      let first = step_done driver (suc fuel) 0 n os v (omega arith) w in
      let count : 0 + n ≡ n = omega arith in
      let second = step_failed driver fuel n (wrote os n v) v' (omega arith) w' in
      let loop = first ∙ ap (λ k. write_loop driver (suc fuel) k (wrote os n v)) count ∙ second in
      (
        wrote os n v',
        driver_write-failed (suc (suc fuel)) os eagain (wrote os n v') loop,
        refl,
        refl,
        sym (take-take (os.pending - n) os.pending os.buf (omega arith)),
      )
