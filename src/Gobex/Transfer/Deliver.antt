-- ===== src/Gobex/Transfer/Deliver.antt =====
-- A GET from its first response to its last: what the consumer is given.
use map_client.Base.{
  ℕ, ◌≡◌, sym, ap, subst, ◌∙◌, inl, inr, true, some, none, List, [], ◌∷◌, ◌++◌, append_assoc,
  append-nil, All, take, ◌==◌, ◌||◌, if◌then◌else◌, arith, Bool-cases, Option-cases,
}
use map_client.Base.Int.{ℤ, negsuc}
use map_client.Base.Endian.{Bytes}
use map_client.Gobex.Header.{get_bytes}
use map_client.Gobex.Packet.{GObexPacket, get_body_header, op_get, rsp_success, rsp_continue}
use map_client.Gobex.Obex.Send.{send_req}
use map_client.Gobex.Transfer.{
  Func, response_of, Transfer, State, Users, found, assign, find_transfer, transfer_complete,
}
use map_client.Gobex.Transfer.Client.{
  send_for, next_pkt, consume_body, after_body, transfer_response,
}
use map_client.Gobex.Transfer.Table.{find_transfer-id, find_transfer-put_transfer, send_req-user}

module _ {A : Type 0} where
  -- The bytes that a response carries.
  abbrev pub body_of : GObexPacket (Func A) → Bytes
  body_of pkt = elim (get_body_header pkt) [
    | none ↦ []
    | some h ↦ elim (get_bytes h) [
      | none ↦ []
      | some (buf, len) ↦ if len == 0 then [] else take len buf
    ]
  ]

  abbrev pub bodies : List (GObexPacket (Func A)) → Bytes
  bodies [] = []
  bodies (r ∷ rs) = body_of r ++ bodies rs

module _ {A V : Type 0} where
  abbrev pub with_rest : State A V → V → State A V
  with_rest w v = let l = w.user in record w { user = record l { rest = v } }

  -- The transfer of a GET is under way.
  pub record IsGetting (id : ℕ) (f c : A) (w : State A V) : Type 0 where
    pub t : Transfer A
    pub listed : found w id ≡ some t
    pub gets : t.opcode ≡ op_get
    pub consumes : t.data_consumer ≡ some f
    pub completes : t.complete_func ≡ c
    pub channel : w.obex.io ≡ true

module _ {A V : Type 0} (env : Users A V) (log : V → Bytes) where
  -- The consumer takes all that it is given, and notes it.
  abbrev pub Collects : A → Type 0
  Collects f =
      (d : Bytes) (w : State A V)
      → (v : V) × (env.data_consumer f d w ≡ (true, with_rest w v)) × (log v ≡ log w.user.rest ++ d)

  -- The responses of a transfer, as they come in.
  abbrev pub respond_all : ℕ → State A V → List (GObexPacket (Func A)) → State A V
  respond_all id w [] = w
  respond_all id w (r ∷ rs) = respond_all id (transfer_response env w id none (some r)) rs

  consume_body_takes :
      (f : A) (t : Transfer A) (pkt : GObexPacket (Func A)) (w : State A V)
      → Collects f
      → t.data_consumer ≡ some f
      → (v : V) × (consume_body env t pkt w ≡ (true, with_rest w v))
        × (log v ≡ log w.user.rest ++ body_of pkt)
  unfolding consume_body
  consume_body_takes f t pkt w takes e = elim (Option-cases (get_body_header pkt)) [
    | inl no_body ↦ (w.user.rest, ground arith, ground (arith, append-nil (log w.user.rest)))
    | inr (h, body) ↦ elim (Option-cases (get_bytes h)) [
      | inl no_bytes ↦ (w.user.rest, ground arith, ground (arith, append-nil (log w.user.rest)))
      | inr ((buf, len), given) ↦ elim (Bool-cases (len == 0)) [
        | inl empty ↦ (w.user.rest, ground arith, ground (arith, append-nil (log w.user.rest)))
        | inr full ↦
            let (v, called, logged) = takes (take len buf) w in (v, ground arith, ground arith)
      ]
    ]
  ]

  abbrev quiet : Transfer A → Transfer A
  quiet t = record t { req_id = 0 }

  found-assign :
      (w : State A V) (t new : Transfer A) (id : ℕ)
      → found w id ≡ some t
      → new.id ≡ id
      → found (assign w new) id ≡ some new
  found-assign w t new id e same =
      subst (λ k. found (assign w new) k ≡ some new) same
        (find_transfer-put_transfer new w.user.transfers t
          (subst (λ k. found w k ≡ some t) (sym same) e))

  transfer_response_get :
      (id : ℕ) (w : State A V) (pkt : GObexPacket (Func A)) (t : Transfer A)
      → found w id ≡ some t
      → t.opcode ≡ op_get
      → (pkt.opcode == rsp_success || pkt.opcode == rsp_continue) ≡ true
      → transfer_response env w id none (some pkt)
        ≡ after_body env id pkt.opcode (consume_body env (quiet t) pkt (assign w (quiet t)))
  unfolding transfer_response
  transfer_response_get id w pkt t e op fine = ground arith

  response_step :
      (id : ℕ) (f c : A) (w : State A V) (pkt : GObexPacket (Func A)) (g : IsGetting id f c w)
      → Collects f
      → (pkt.opcode == rsp_success || pkt.opcode == rsp_continue) ≡ true
      → (v : V) × (transfer_response env w id none (some pkt)
          ≡ after_body env id pkt.opcode (true, with_rest (assign w (quiet g.t)) v))
        × (log v ≡ log w.user.rest ++ body_of pkt)
        × (found (with_rest (assign w (quiet g.t)) v) id ≡ some (quiet g.t))
  response_step id f c w pkt g takes fine =
      let t' = quiet g.t in
      let w' = assign w t' in
      let (v, consumed, logged) = consume_body_takes f t' pkt w' takes g.consumes in
      let same : t'.id ≡ id = find_transfer-id id w.user.transfers g.t g.listed in
      let there = found-assign w g.t t' id g.listed same in
      (
        v,
        transfer_response_get id w pkt g.t g.listed g.gets fine
            ∙ ap (after_body env id pkt.opcode) consumed,
        logged,
        there,
      )

  after_body_done :
      (id : ℕ) (w : State A V) (t : Transfer A)
      → found w id ≡ some t
      → after_body env id rsp_success (true, w) ≡ transfer_complete env w id none
  after_body_done id w t e = ground arith

  after_body_more :
      (id : ℕ) (w : State A V) (t : Transfer A)
      → found w id ≡ some t
      → w.obex.io ≡ true
      → after_body env id rsp_continue (true, w)
        ≡ send_for w t (next_pkt t) (negsuc 0) (response_of id)
  after_body_more id w t e up = ground arith

  send_for-IsGetting :
      (id : ℕ) (f c : A) (w : State A V) (t : Transfer A) (req : GObexPacket (Func A)) (timeout : ℤ)
      (func : Func A)
      → IsGetting id f c w
      → found w id ≡ some t
      → t.opcode ≡ op_get
      → t.data_consumer ≡ some f
      → t.complete_func ≡ c
      → IsGetting id f c (send_for w t req timeout func)
        × ((send_for w t req timeout func).user.rest ≡ w.user.rest)
  unfolding send_for
  send_for-IsGetting id f c w t req timeout func g e op cons comp =
      let r = send_req w req timeout (some func) in
      let (same_user, same_io) = send_req-user w req timeout (some func) in
      let t' = record t { req_id = r.1 } in
      let here : found r.0 id ≡ some t = ap (λ l. find_transfer id l.transfers) same_user ∙ e in
      (
        record {
          t = t';
          listed = found-assign r.0 t t' id here (find_transfer-id id w.user.transfers t e);
          gets = op;
          consumes = cons;
          completes = comp;
          channel = same_io ∙ g.channel;
        },
        ap (λ l. l.rest) same_user,
      )

  quiet-IsGetting :
      (id : ℕ) (f c : A) (w : State A V) (v : V) (g : IsGetting id f c w)
      → found (with_rest (assign w (quiet g.t)) v) id ≡ some (quiet g.t)
      → IsGetting id f c (with_rest (assign w (quiet g.t)) v)
  quiet-IsGetting id f c w v g there = record {
    t = quiet g.t;
    listed = there;
    gets = g.gets;
    consumes = g.consumes;
    completes = g.completes;
    channel = g.channel;
  }

  continue_step :
      (id : ℕ) (f c : A) (w : State A V) (pkt : GObexPacket (Func A))
      → IsGetting id f c w
      → Collects f
      → pkt.opcode ≡ rsp_continue
      → IsGetting id f c (transfer_response env w id none (some pkt))
        × (log (transfer_response env w id none (some pkt)).user.rest
            ≡ log w.user.rest ++ body_of pkt)
  continue_step id f c w pkt g takes code =
      let (v, step, logged, there) = response_step id f c w pkt g takes (ground arith) in
      let w' = with_rest (assign w (quiet g.t)) v in
      let (goes, kept) =
        send_for-IsGetting id f c w' (quiet g.t) (next_pkt (quiet g.t)) (negsuc 0) (response_of id)
          (quiet-IsGetting id f c w v g there) there g.gets g.consumes g.completes in
      let whole =
        step
        ∙ ap (λ k. after_body env id k (true, w')) code
        ∙ after_body_more id w' (quiet g.t) there g.channel in
      (
        subst (λ x. IsGetting id f c x) (sym whole) goes,
        ap (λ x. log x.user.rest) whole ∙ ap log kept ∙ logged,
      )

  -- A GET delivers the object: if the peer answers with Continue any number of times and then with
  -- Success, the consumer has been given the bodies of all responses, in order, when the transfer is
  -- completed without an error. The channel is up, and the consumer takes what it is given.
  pub respond_all-delivers :
      (id : ℕ) (f c : A) (w : State A V) (rs : List (GObexPacket (Func A)))
      (last : GObexPacket (Func A))
      → IsGetting id f c w
      → Collects f
      → All (λ r. r.opcode ≡ rsp_continue) rs
      → last.opcode ≡ rsp_success
      → (v : State A V) × (respond_all id w (rs ++ (last ∷ [])) ≡ transfer_complete env v id none)
        × IsGetting id f c v
        × (log v.user.rest ≡ log w.user.rest ++ bodies (rs ++ (last ∷ [])))
  respond_all-delivers id f c w [] last g takes tt code =
      let (v, step, logged, there) = response_step id f c w last g takes (ground arith) in
      let w' = with_rest (assign w (quiet g.t)) v in
      (
        w',
        step
            ∙ ap (λ k. after_body env id k (true, w')) code
            ∙ after_body_done id w' (quiet g.t) there,
        quiet-IsGetting id f c w v g there,
        logged ∙ ap (◌++◌ (log w.user.rest)) (sym (append-nil (body_of last))),
      )
  respond_all-delivers id f c w (r ∷ rs) last g takes (code, codes) final =
      let (goes, logged) = continue_step id f c w r g takes code in
      let (v, run, done, noted) =
        respond_all-delivers id f c (transfer_response env w id none (some r)) rs last goes takes
          codes final in
      (
        v,
        run,
        done,
        noted
            ∙ ap (λ l. l ++ bodies (rs ++ (last ∷ []))) logged
            ∙ append_assoc (log w.user.rest) (body_of r) (bodies (rs ++ (last ∷ []))),
      )
