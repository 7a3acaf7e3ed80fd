-- ===== src/Obexd/Session/Write.antt =====
-- src/obex.c: what driver_write puts into the object.
use map_client.Base.{
  ℕ, zero, suc, ◌+◌, ◌-◌, ◌≤◌, ◌<◌, ◌≡◌, ◌≢◌, ◌⊎◌, inl, inr, sym, ap, ◌∙◌, append_assoc, append-nil,
  true, false, some, [], ◌++◌, take, drop, length, length-take, length-drop, drop-drop, take_split,
  ◌==◌, arith, Bool-cases,
}
use map_client.Base.Int.{ℤ, pos, negsuc}
use map_client.Base.Endian.{Bytes}
use map_client.Obexd.Session.{
  done, failed, eintr, eagain, Driver, ObexSession, plus, with_rest, write_loop,
}

-- A write takes a part of what it is given, one byte or more, or is interrupted and has done nothing.
pub record IsTaking {V : Type 0} (driver : Driver V) (content : V → Bytes) (patience : V → ℕ)
    (limit : ℕ) : Type 0 where
  pub taken :
      (bs : Bytes) (v : V)
      → bs ≢ []
      → ((n : ℕ) × (v' : V) × (0 < n)
          × (n ≤ length bs)
          × (driver.write bs v ≡ (done n, v'))
          × (content v' ≡ content v ++ take n bs)
          × (patience v' ≤ patience v))
        ⊎ ((v' : V) × (driver.write bs v ≡ (failed eintr, v'))
            × (content v' ≡ content v)
            × (patience v' < patience v))
  pub patient : (v : V) → patience v ≤ limit
  pub progressing : (v : V) → content (driver.progress v) ≡ content v

pub plus_zero : (o : ℤ) → plus o 0 ≡ o
plus_zero (pos a) = ground arith
plus_zero (negsuc a) = ground arith

pub plus-plus : (o : ℤ) (a b : ℕ) → plus (plus o a) b ≡ plus o (a + b)
plus-plus (pos o) a b = ground arith
plus-plus (negsuc o) a b = ground arith

module _ {V : Type 0} where
  abbrev pub wrote : ObexSession V → ℕ → V → ObexSession V
  wrote os n v = record os { rest = v; offset = plus os.offset n; pending = os.pending - n }

  wrote_nothing : (os : ObexSession V) → os ≡ wrote os 0 os.rest
  wrote_nothing os =
      let same : os.pending - 0 ≡ os.pending = omega arith in
      ap (λ o. record os { offset = o }) (sym (plus_zero os.offset))
      ∙ ap (λ p. record os { offset = plus os.offset 0; pending = p }) (sym same)

  wrote_twice :
      (os : ObexSession V) (n m : ℕ) (v v' : V) → wrote (wrote os n v) m v' ≡ wrote os (n + m) v'
  wrote_twice os n m v v' =
      let left : os.pending - n - m ≡ os.pending - (n + m) = omega arith in
      ap (λ o. record os { rest = v'; offset = o; pending = os.pending - n - m })
        (plus-plus os.offset n m)
      ∙ ap (λ p. record os { rest = v'; offset = plus os.offset (n + m); pending = p }) left

module _ {V : Type 0} (driver : Driver V) where
  pub step_done :
      (fuel len n : ℕ) (os : ObexSession V) (v : V)
      → os.pending ≢ 0
      → driver.write (take os.pending (drop len os.buf)) os.rest ≡ (done n, v)
      → write_loop driver (suc fuel) len os ≡ write_loop driver fuel (len + n) (wrote os n v)
  unfolding write_loop
  step_done fuel len n os v some_ w =
      let more : (os.pending == 0) ≡ false = ground arith in rw (more, w)

  step_interrupted :
      (fuel len : ℕ) (os : ObexSession V) (v : V)
      → os.pending ≢ 0
      → driver.write (take os.pending (drop len os.buf)) os.rest ≡ (failed eintr, v)
      → write_loop driver (suc fuel) len os ≡ write_loop driver fuel len (with_rest os v)
  unfolding write_loop
  step_interrupted fuel len os v some_ w =
      let more : (os.pending == 0) ≡ false = ground arith in rw (more, w)

  pub step_failed :
      (fuel len : ℕ) (os : ObexSession V) (v : V)
      → os.pending ≢ 0
      → driver.write (take os.pending (drop len os.buf)) os.rest ≡ (failed eagain, v)
      → write_loop driver (suc fuel) len os ≡ some (failed eagain, with_rest os v)
  unfolding write_loop
  step_failed fuel len os v some_ w =
      let more : (os.pending == 0) ≡ false = ground arith in rw (more, w)

  step_end :
      (fuel len : ℕ) (os : ObexSession V)
      → os.pending ≡ 0
      → write_loop driver (suc fuel) len os ≡ some (done len, os)
  unfolding write_loop
  step_end fuel len os none_ = let end : (os.pending == 0) ≡ true = ground arith in rw end

  -- All that waits is in the object, and nothing else has changed.
  abbrev pub IsWritten : (content : V → Bytes) (fuel len : ℕ) → ObexSession V → Type 0
  IsWritten content fuel len os =
      (v : V) × (write_loop driver fuel len os
        ≡ some (done (len + os.pending), wrote os os.pending v))
      × (content v ≡ content os.rest ++ take os.pending (drop len os.buf))

  IsWritten-none :
      (content : V → Bytes) (fuel len : ℕ) (os : ObexSession V)
      → os.pending ≡ 0
      → IsWritten content (suc fuel) len os
  IsWritten-none content fuel len os e =
      let count : len ≡ len + os.pending = omega arith in
      let same : os ≡ wrote os os.pending os.rest =
        wrote_nothing os ∙ ap (λ k. wrote os k os.rest) (sym e) in
      (
        os.rest,
        step_end fuel len os e ∙ (λ i. some (done (count i), same i)),
        sym (append-nil (content os.rest))
            ∙ ap (λ k. content os.rest ++ take k (drop len os.buf)) (sym e),
      )

  IsWritten-more :
      (content : V → Bytes) (fuel len n : ℕ) (os : ObexSession V) (v : V)
      → n ≤ os.pending
      → os.pending ≢ 0
      → driver.write (take os.pending (drop len os.buf)) os.rest ≡ (done n, v)
      → content v ≡ content os.rest ++ take n (take os.pending (drop len os.buf))
      → IsWritten content fuel (len + n) (wrote os n v)
      → IsWritten content (suc fuel) len os
  IsWritten-more content fuel len n os v fits some_ w c (v', eq, c') =
      let p = os.pending in
      let d = drop len os.buf in
      let count : len + n + (p - n) ≡ len + p = omega arith in
      let sum : n + (p - n) ≡ p = omega arith in
      let same = wrote_twice os n (p - n) v v' ∙ ap (λ k. wrote os k v') sum in
      (
        v',
        step_done fuel len n os v some_ w ∙ eq ∙ (λ i. some (done (count i), same i)),
        c'
            ∙ ap (λ l. l ++ take (p - n) (drop (len + n) os.buf)) c
            ∙ append_assoc (content os.rest) (take n (take p d))
                (take (p - n) (drop (len + n) os.buf))
            ∙ ap (λ l. content os.rest ++ (take n (take p d) ++ take (p - n) l))
                (sym (drop-drop n len os.buf))
            ∙ ap (λ l. content os.rest ++ l) (take_split n p d fits),
      )

  IsWritten-again :
      (content : V → Bytes) (fuel len : ℕ) (os : ObexSession V) (v : V)
      → os.pending ≢ 0
      → driver.write (take os.pending (drop len os.buf)) os.rest ≡ (failed eintr, v)
      → content v ≡ content os.rest
      → IsWritten content fuel len (with_rest os v)
      → IsWritten content (suc fuel) len os
  IsWritten-again content fuel len os v some_ w c (v', eq, c') = (
    v',
    step_interrupted fuel len os v some_ w ∙ eq,
    c' ∙ ap (λ l. l ++ take os.pending (drop len os.buf)) c,
  )

  -- Enough fuel is one more than the bytes that wait and the interruptions that may come.
  pub write_loop-IsWritten :
      (content : V → Bytes) (patience : V → ℕ) (limit fuel len : ℕ) (os : ObexSession V)
      → IsTaking driver content patience limit
      → len + os.pending ≤ length os.buf
      → os.pending + patience os.rest < fuel
      → IsWritten content fuel len os
  write_loop-IsWritten content patience limit zero len os laws room enough = absurd (omega arith)
  write_loop-IsWritten content patience limit (suc fuel) len os laws room enough =
      let bs = take os.pending (drop len os.buf) in
      let size : length bs ≡ os.pending =
        omega (arith, length-take os.pending (drop len os.buf), length-drop len os.buf) in
      elim (Bool-cases (os.pending == 0)) [
        | inl end ↦ IsWritten-none content fuel len os (ground arith)
        | inr waits ↦
            let some_ : os.pending ≢ 0 = ground arith in
            let filled : bs ≢ [] = λ e. some_ (sym size ∙ ap length e) in
            elim (laws.taken bs os.rest filled) [
              | inl (n, v, more, fits, w, c, calm) ↦
                  IsWritten-more content fuel len n os v (omega arith) some_ w c (
                    write_loop-IsWritten content patience limit fuel (len + n) (wrote os n v) laws
                      (omega arith) (omega arith))
              | inr (v, w, c, calmer) ↦ IsWritten-again content fuel len os v some_ w c (
                  write_loop-IsWritten content patience limit fuel len (with_rest os v) laws room
                    (omega arith))
            ]
      ]
