-- ===== src/Gobex/Obex/Cancel.antt =====
-- g_obex_cancel_req with a request that is queued, or that is not there.
use map_client.Base.{
  ℕ, ◌≡◌, ◌≢◌, refl, sym, ap, subst, ◌∙◌, ◌⊎◌, inl, inr, Bool, true, false, Option, some, none,
  List, [], ◌∷◌, ◌++◌, All, ◌==◌, ◌||◌, not, if◌then◌else◌, arith, append-nil, Bool-cases,
}
use map_client.Gobex.Obex.{PendingPkt, World, is_some}
use map_client.Gobex.Obex.Send.{take_queued, with_obex, complete_now, cancel_queued, cancel_req}

module _ {A : Type 0} where
  abbrev pub HasNot : ℕ → PendingPkt A → Type 0
  HasNot id p = p.id ≢ id

  -- The first packet with the id is taken out, and the others keep their order.
  abbrev pub IsTaken :
      ℕ → List (PendingPkt A) → Option (PendingPkt A × List (PendingPkt A)) → Type 0
  IsTaken id queue none = All (HasNot id) queue
  IsTaken id queue (some (p, rest)) =
      (front back : List (PendingPkt A)) × (queue ≡ front ++ (p ∷ back))
      × (rest ≡ front ++ back)
      × (p.id ≡ id)
      × All (HasNot id) front

  abbrev behind :
      PendingPkt A
      → Option (PendingPkt A × List (PendingPkt A))
      → Option (PendingPkt A × List (PendingPkt A))
  behind p none = none
  behind p (some (q, qs)) = some (q, p ∷ qs)

  take_queued_head :
      (id : ℕ) (p : PendingPkt A) (ps : List (PendingPkt A))
      → p.id == id ≡ true
      → take_queued id (p ∷ ps) ≡ some (p, ps)
  unfolding take_queued
  take_queued_head id p ps e = ground arith

  take_queued_skip :
      (id : ℕ) (p : PendingPkt A) (ps : List (PendingPkt A))
      → p.id == id ≡ false
      → take_queued id (p ∷ ps) ≡ behind p (take_queued id ps)
  unfolding take_queued
  take_queued_skip id p ps e = ground arith

  behind-IsTaken :
      (id : ℕ) (p : PendingPkt A) (ps : List (PendingPkt A))
      (r : Option (PendingPkt A × List (PendingPkt A)))
      → p.id ≢ id
      → IsTaken id ps r
      → IsTaken id (p ∷ ps) (behind p r)
  behind-IsTaken id p ps none other h = (other, h)
  behind-IsTaken id p ps (some (q, qs)) other (front, back, split, left, found, first) =
      (p ∷ front, back, ap (◌∷◌ p) split, ap (◌∷◌ p) left, found, (other, first))

  take_queued-IsTaken :
      (id : ℕ) (queue : List (PendingPkt A)) → IsTaken id queue (take_queued id queue)
  unfolding take_queued
  take_queued-IsTaken id [] = tt
  take_queued-IsTaken id (p ∷ ps) = elim (Bool-cases (p.id == id)) [
    | inl same ↦
        subst (λ r. IsTaken id (p ∷ ps) r) (sym (take_queued_head id p ps same))
          ([], ps, refl, refl, ground arith, tt)
    | inr other ↦
        subst (λ r. IsTaken id (p ∷ ps) r) (sym (take_queued_skip id p ps other))
          (behind-IsTaken id p ps (take_queued id ps) (ground arith) (take_queued-IsTaken id ps))
  ]

  -- The request that is to be cancelled is not the pending one.
  abbrev pub NotPending : ℕ → Option (PendingPkt A) → Type 0
  NotPending id none = Unit {0}
  NotPending id (some p) = p.id ≢ id

  -- What the idle loop is given for a request that is gone.
  abbrev pub completions : PendingPkt A → Bool → List (PendingPkt A)
  completions p remove_callback =
      if remove_callback || not (is_some p.rsp_func)
      then []
      else record p { cancelled = true; owned = true } ∷ []

module _ {A U : Type 0} where
  cancel_req_elsewhere :
      (w : World A U) (id : ℕ) (remove : Bool) (o : Option (PendingPkt A))
      → w.obex.pending_req ≡ o
      → NotPending id o
      → cancel_req w id remove ≡ cancel_queued w id remove
  unfolding cancel_req
  cancel_req_elsewhere w id remove none e h = ground arith
  cancel_req_elsewhere w id remove (some p) e h = ground arith

  -- What cancelling does to a queue that has the request, or has not.
  abbrev pub CancelsQueued : World A U → ℕ → Bool → World A U × Bool → Type 0
  CancelsQueued w id remove (w', found) =
      (All (HasNot id) w.obex.tx_queue × (w' ≡ w) × (found ≡ false))
      ⊎ ((p : PendingPkt A) × (front back : List (PendingPkt A)) × (w.obex.tx_queue
            ≡ front ++ (p ∷ back))
          × (p.id ≡ id)
          × All (HasNot id) front
          × (w'.obex ≡ (let o = w.obex in record o { tx_queue = front ++ back }))
          × (w'.idle ≡ w.idle ++ completions p remove)
          × (found ≡ true))

  pub complete_now-obex :
      (w : World A U) (p : PendingPkt A) (remove : Bool) → (complete_now w p remove).obex ≡ w.obex
  unfolding complete_now
  complete_now-obex w p remove = ground arith

  pub complete_now-idle :
      (w : World A U) (p : PendingPkt A) (remove : Bool)
      → (complete_now w p remove).idle ≡ w.idle ++ completions p remove
  unfolding complete_now
  complete_now-idle w p remove = ground (arith, append-nil w.idle)

  cancel_queued-none :
      (w : World A U) (id : ℕ) (remove : Bool)
      → take_queued id w.obex.tx_queue ≡ none
      → cancel_queued w id remove ≡ (w, false)
  unfolding cancel_queued
  cancel_queued-none w id remove e = ground arith

  cancel_queued-some :
      (w : World A U) (id : ℕ) (remove : Bool) (p : PendingPkt A) (ps : List (PendingPkt A))
      → take_queued id w.obex.tx_queue ≡ some (p, ps)
      → cancel_queued w id remove
        ≡ (complete_now (let o = w.obex in with_obex w (record o { tx_queue = ps })) p remove, true)
  unfolding cancel_queued
  cancel_queued-some w id remove p ps e = ground arith

  found-CancelsQueued :
      (w : World A U) (id : ℕ) (remove : Bool) (r : Option (PendingPkt A × List (PendingPkt A)))
      → take_queued id w.obex.tx_queue ≡ r
      → IsTaken id w.obex.tx_queue r
      → CancelsQueued w id remove (cancel_queued w id remove)
  found-CancelsQueued w id remove none e h =
      subst (λ r. CancelsQueued w id remove r) (sym (cancel_queued-none w id remove e))
        (inl (h, refl, refl))
  found-CancelsQueued w id remove (some (p, ps)) e (front, back, split, left, found, first) =
      let v = let o = w.obex in with_obex w (record o { tx_queue = ps }) in
      subst (λ r. CancelsQueued w id remove r) (sym (cancel_queued-some w id remove p ps e))
        (inr (
          p,
          front,
          back,
          split,
          found,
          first,
          complete_now-obex v p remove ∙ ap (λ l. let o = w.obex in record o { tx_queue = l }) left,
          complete_now-idle v p remove,
          refl,
        ))

  cancel_queued-CancelsQueued :
      (w : World A U) (id : ℕ) (remove : Bool)
      → CancelsQueued w id remove (cancel_queued w id remove)
  cancel_queued-CancelsQueued w id remove =
      found-CancelsQueued w id remove (take_queued id w.obex.tx_queue) refl
        (take_queued-IsTaken id w.obex.tx_queue)

  -- Cancelling a request that is not pending: with no such request in the queue nothing changes and
  -- the result is FALSE. Otherwise the first such request leaves the queue, the others keep their
  -- order, the result is TRUE, and its callback waits for the idle loop unless it is to be removed.
  pub cancel_req_queued :
      (w : World A U) (id : ℕ) (remove : Bool)
      → NotPending id w.obex.pending_req
      → CancelsQueued w id remove (cancel_req w id remove)
  cancel_req_queued w id remove h =
      subst (λ r. CancelsQueued w id remove r)
        (sym (cancel_req_elsewhere w id remove w.obex.pending_req refl h))
        (cancel_queued-CancelsQueued w id remove)
