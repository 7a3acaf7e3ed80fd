-- ===== src/Gobex/Obex/Receive.antt =====
-- gobex/gobex.c: the two transports' read functions.
use map_client.Base.{
  ℕ, zero, suc, ◌+◌, ◌-◌, Option, some, none, ◌++◌, length, take, drop, ltb, leb, ◌==◌, ◌&&◌,
  if◌then◌else◌,
}
use map_client.Base.Endian.{Bytes, get_be16}
use map_client.Gobex.Defs.{GObexError, parse_error}
use map_client.Gobex.Obex.{GObex, World, Env, GObexTransportType, stream, packet}
use map_client.Gobex.Obex.Send.{with_obex}

-- A read into `rx_buf` at an offset: the bytes replace what stood there.
unfoldable pub put_at : ℕ → Bytes → Bytes → Bytes
put_at offset d buf = take offset buf ++ (d ++ drop (offset + length d) buf)

module _ {A : Type 0} where
  -- The packet's length is read one byte behind the place where this read began.
  abbrev pub length_field : ℕ → GObex A → ℕ
  length_field began o = get_be16 (drop (began + 1) o.rx_buf)

module _ {A U : Type 0} where
  abbrev pub received : World A U → U → Bytes → World A U
  received w u d =
      let o = w.obex in
      record w {
        obex = record o { rx_buf = put_at o.rx_data d o.rx_buf; rx_data = o.rx_data + length d };
        user = u;
      }

module _ {A U : Type 0} (env : Env A U) where
  -- The loop of read_stream. Every round but the last receives a byte or more.
  unfoldable pub read_rest : ℕ → World A U → World A U
  read_rest zero w = w
  read_rest (suc fuel) w =
      let o = w.obex in
      let (got, u) = env.read_chars (o.rx_pkt_len - o.rx_data) w.user in
      elim got [
        | none ↦ record w { user = u }
        | some d ↦
            let w' = received w u d in
            let more = read_rest fuel w' in
            if ltb 0 (length d) && ltb (o.rx_data + length d) o.rx_pkt_len then more else w'
      ]

  -- The label read_body.
  unfoldable pub read_body : World A U → World A U
  read_body w =
      let o = w.obex in
      if leb o.rx_pkt_len o.rx_data then w else read_rest (suc (o.rx_pkt_len - o.rx_data)) w

  unfoldable pub read_stream : World A U → World A U × Option GObexError
  read_stream w =
      let o = w.obex in
      if leb 3 o.rx_data
      then (read_body w, none)
      else let (got, u) = env.read_chars (3 - o.rx_data) w.user in
        elim got [
          | none ↦ (record w { user = u }, none)
          | some d ↦
              let w' = received w u d in
              let o' = w'.obex in
              let n = length_field o.rx_data o' in
              let measured = with_obex w' (record o' { rx_pkt_len = n }) in
              if ltb o'.rx_data 3
              then (w', none)
              else if ltb o.rx_mtu n
              then (measured, some parse_error)
              else (read_body measured, none)
        ]

  -- A channel without data is here one that reports an error. The code takes the text of its message;
  -- where the channel says EAGAIN or the end of the input instead, there is no error to take it from.
  unfoldable pub read_packet : World A U → World A U × Option GObexError
  read_packet w =
      let o = w.obex in
      if ltb 0 o.rx_data
      then (w, some parse_error)
      else let (got, u) = env.read_chars o.rx_mtu w.user in
        elim got [
          | none ↦ (record w { user = u }, some parse_error)
          | some d ↦
              let w' = received w u d in
              let o' = w'.obex in
              let n = get_be16 (drop 1 o'.rx_buf) in
              let measured = with_obex w' (record o' { rx_pkt_len = n }) in
              if ltb (length d) 3
              then (w', some parse_error)
              else if n == length d
              then (measured, none)
              else (measured, some parse_error)
        ]

  abbrev pub read_as : GObexTransportType → World A U → World A U × Option GObexError
  read_as stream = read_stream
  read_as packet = read_packet

  -- obex->read.
  unfoldable pub read : World A U → World A U × Option GObexError
  read w = read_as w.obex.transport w
