-- ===== src/Gobex/Obex/Session.antt =====
-- A new session, the negotiation of the packet sizes, and the table of request handlers.
use map_client.Base.{
  ℕ, zero, suc, ◌^◌, ◌≤◌, ◌<◌, ◌≡◌, ◌≢◌, refl, ap, subst, ◌∙◌, ◌↔◌, ◌⊎◌, inl, inr, Bool, true,
  false, Option, some, none, ◌||◌, arith, min, Bool-cases, length, replicate, take, drop,
}
use map_client.Base.Int.{ℤ, pos, negsuc}
use map_client.Base.Endian.{Bytes, get_be16, put_be16}
use map_client.Gobex.Defs.{copy}
use map_client.Gobex.Packet.{GObexPacket, get_data, set_data}
use map_client.Gobex.Obex.{
  GObex, World, GObexTransportType, new, below_minimum, rx_mtu_of, find_handler, remove_handler,
  add_request_function, remove_request_function,
}
use map_client.Gobex.Obex.Send.{connect_data}
use map_client.Gobex.Obex.Buffer.{IsWithin}
use map_client.Gobex.Obex.Incoming.{parse_connect_data, limit_mtu, with_header_connid}

length-replicate : (n : ℕ) (b : ℕ) → length (replicate n b) ≡ n
length-replicate zero b = refl
length-replicate (suc n) b = ground (arith, length-replicate n b)

-- The channel's limit applies if there is one.
abbrev pub limited : ℤ → ℕ → ℕ
limited (pos (suc k)) n = min (suc k) n
limited _ n = n

limit_mtu_lem : (m : ℤ) (n : ℕ) → limit_mtu m n ≡ limited m n
limit_mtu_lem (negsuc k) n = refl
limit_mtu_lem (pos zero) n = ground arith
limit_mtu_lem (pos (suc k)) n = ground arith

rx_mtu_of_bounds : (m : ℤ) → (255 ≤ rx_mtu_of m) × (rx_mtu_of m ≤ 65535)
rx_mtu_of_bounds (pos n) = ground arith
rx_mtu_of_bounds (negsuc n) = ground arith

abbrev pub IsFresh : {A : Type 0} → GObex A → Type 0
IsFresh o =
    IsWithin o
    × (255 ≤ o.rx_mtu)
    × (o.rx_mtu ≤ 65535)
    × (o.tx_mtu ≡ 255)
    × (length o.tx_buf ≡ o.tx_mtu)

abbrev GivesFresh : {A : Type 0} → Option (GObex A) → Type 0
GivesFresh none = Unit {0}
GivesFresh (some o) = IsFresh o

new-GivesFresh :
    (A : Type 0) (connected : Bool) (t : GObexTransportType) (rx tx : ℤ)
    → GivesFresh (new {A = A} connected t rx tx)
unfolding new
new-GivesFresh A false t rx tx = tt
new-GivesFresh A true t rx tx = elim (Bool-cases (below_minimum rx || below_minimum tx)) [
  | inl low ↦ rw low tt
  | inr high ↦
      let (least, most) = rx_mtu_of_bounds rx in
      rw high (
        record {
          sized = length-replicate (rx_mtu_of rx) 0;
          room = omega arith;
          filled = omega arith;
          expected = λ h. omega arith;
        },
        least,
        most,
        refl,
        refl,
      )
]

-- An MTU that is known, and below the 255 bytes that the protocol asks for.
abbrev pub IsTooSmall : ℤ → Type 0
IsTooSmall m = (n : ℕ) × (m ≡ pos n) × (n < 255)

IsTooSmall-of_below_minimum : (m : ℤ) → below_minimum m ≡ true → IsTooSmall m
IsTooSmall-of_below_minimum (pos n) e = (n, refl, ground arith)
IsTooSmall-of_below_minimum (negsuc n) e = absurd (ground arith)

below_minimum-IsTooSmall : (m : ℤ) → IsTooSmall m → below_minimum m ≡ true
below_minimum-IsTooSmall m (n, e, small) = ap below_minimum e ∙ ground arith

new-none :
    (A : Type 0) (connected : Bool) (t : GObexTransportType) (rx tx : ℤ)
    → new {A = A} connected t rx tx ≡ none
    → (connected ≡ false) ⊎ (below_minimum rx ≡ true) ⊎ (below_minimum tx ≡ true)
unfolding new
new-none A connected t rx tx e = ground arith

new-refused :
    (A : Type 0) (connected : Bool) (t : GObexTransportType) (rx tx : ℤ)
    → (connected ≡ false) ⊎ (below_minimum rx ≡ true) ⊎ (below_minimum tx ≡ true)
    → new {A = A} connected t rx tx ≡ none
unfolding new
new-refused A connected t rx tx h = ground arith

-- A new session is within bounds; its receive MTU is between 255 and 65535, its transmit MTU is 255.
-- There is none exactly if there is no channel, or if one of the channel's MTUs is known, so not
-- negative, and below 255.
pub new-IsFresh :
    (A : Type 0) (connected : Bool) (t : GObexTransportType) (rx tx : ℤ)
    → ((o : GObex A) → new connected t rx tx ≡ some o → IsFresh o)
      × (new {A = A} connected t rx tx ≡ none ↔ (connected ≡ false) ⊎ IsTooSmall rx ⊎ IsTooSmall tx)
new-IsFresh A connected t rx tx = (
  λ o e. subst (λ r. GivesFresh r) e (new-GivesFresh A connected t rx tx),
  (λ e. refusal (new-none A connected t rx tx e), λ h. new-refused A connected t rx tx (guards h)),
)
  where
    refusal :
        (connected ≡ false) ⊎ (below_minimum rx ≡ true) ⊎ (below_minimum tx ≡ true)
        → (connected ≡ false) ⊎ IsTooSmall rx ⊎ IsTooSmall tx
    refusal (inl closed) = inl closed
    refusal (inr (inl r)) = inr (inl (IsTooSmall-of_below_minimum rx r))
    refusal (inr (inr t)) = inr (inr (IsTooSmall-of_below_minimum tx t))

    guards :
        (connected ≡ false) ⊎ IsTooSmall rx ⊎ IsTooSmall tx
        → (connected ≡ false) ⊎ (below_minimum rx ≡ true) ⊎ (below_minimum tx ≡ true)
    guards (inl closed) = inl closed
    guards (inr (inl r)) = inr (inl (below_minimum-IsTooSmall rx r))
    guards (inr (inr t)) = inr (inr (below_minimum-IsTooSmall tx t))

module _ {A : Type 0} where
  with_header_connid-tx_mtu :
      (o : GObex A) (pkt : GObexPacket A) → (with_header_connid o pkt).tx_mtu ≡ o.tx_mtu
  with_header_connid-tx_mtu o pkt = ground arith

  parse_connect_data-tx_mtu :
      (o : GObex A) (pkt : GObexPacket A) (d : Bytes)
      → get_data pkt ≡ (some d, 4)
      → (parse_connect_data o pkt).tx_mtu ≡ limited o.io_tx_mtu (get_be16 (drop 2 d))
  unfolding parse_connect_data
  parse_connect_data-tx_mtu o pkt d e =
      let mtu = limit_mtu o.io_tx_mtu (get_be16 (drop 2 d)) in
      rw (ap (λ r. r.0) e, ap (λ r. r.1) e, parse_connect_data)
        (with_header_connid-tx_mtu (record o { tx_mtu = mtu; tx_buf = take mtu o.tx_buf }) pkt
          ∙ limit_mtu_lem o.io_tx_mtu (get_be16 (drop 2 d)))

  get_data-set_data :
      (o : GObex A) (pkt : GObexPacket A)
      → pkt.buf ≡ none
      → get_data (set_data pkt (connect_data o) copy).0 ≡ (some (connect_data o), 4)
  unfolding set_data get_data connect_data put_be16
  get_data-set_data o pkt fresh = ground arith

  -- What one side announces the other side takes: the data of a CONNECT packet built by `o` sets the
  -- peer's transmit MTU to the receive MTU of `o`, as far as the peer's channel allows. The packet had no
  -- data yet, and the MTU fits 16 bits.
  pub parse_connect_data-connect_data :
      (o peer : GObex A) (pkt : GObexPacket A)
      → o.rx_mtu < 2 ^ 16
      → pkt.buf ≡ none
      → (parse_connect_data peer (set_data pkt (connect_data o) copy).0).tx_mtu
        ≡ limited peer.io_tx_mtu o.rx_mtu
  unfolding connect_data
  parse_connect_data-connect_data o peer pkt small fresh =
      parse_connect_data-tx_mtu peer (set_data pkt (connect_data o) copy).0 (connect_data o)
        (get_data-set_data o pkt fresh)
      ∙ ap (limited peer.io_tx_mtu) (unfold get_be16 put_be16 in omega arith)

  -- A handler that was added is found for its opcode, the others are found as before, and removing
  -- it by the id that the call gave restores the table.
  pub add_request_function_undone :
      {U : Type 0} (w : World A U) (op other : ℕ) (f : A)
      → let r = add_request_function w op f in
        (find_handler op r.0.obex.req_handlers ≡ some (record { id = r.1; opcode = op; func = f }))
        × (op ≢ other
            → find_handler other r.0.obex.req_handlers ≡ find_handler other w.obex.req_handlers)
        × (remove_request_function r.0.obex r.1 ≡ (w.obex, true))
  unfolding add_request_function find_handler remove_request_function remove_handler
  add_request_function_undone w op other f = (ground arith, λ ne. ground arith, ground arith)
