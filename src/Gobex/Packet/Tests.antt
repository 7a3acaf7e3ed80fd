-- ===== src/Gobex/Packet/Tests.antt =====
-- Concrete packets, and the theorems about packets at concrete inputs.
use map_client.Base.{
  ℕ, ◌≤◌, ◌<◌, ◌≡◌, ◌≢◌, refl, Bool, true, false, some, none, [], ◌∷◌, ◌++◌, arith, take, drop, All,
  length-take,
}
use map_client.Base.Endian.{Bytes, IsByte, put_be16, get_be16, put_be32, get_be32}
use map_client.Gobex.Defs.{copy, ref, ok, err, parse_error, aborted, stuck, enobufs}
use map_client.Gobex.Ascii.{ascii, ascii-IsConverting}
use map_client.Gobex.Header.{GObexHeader, u32, hdr_enc}
use map_client.Gobex.Header.Codec.{encode as encode_header, decode as decode_header, decode_uint32}
use map_client.Gobex.Header.Wire.{IsHeaders}
use map_client.Gobex.Packet.{GObexPacket, rsp_continue, set_data}
use map_client.Gobex.Packet.Codec.{
  Produced, bytes, encoded, fails, encode_headers, encode_body, encode, parse_headers, decode_body,
  decode,
}
use map_client.Gobex.Packet.Decode.{Decoded, decode-Decoded, decode_ends}
use map_client.Gobex.Packet.Encode.{IsPacket, Respects, IsFramed, encode-IsFramed}
use map_client.Gobex.Packet.RoundTrip.{ReadsBack, decode-encode_plain}
use map_client.Gobex.Packet.BodyTrip.{ReadsBackWith, decode-encode_body}
use map_client.Gobex.Packet.Headers.{
  IsConsistent, call, adds, call-IsConsistent, IsEncodable, IsEncoded, encode_fits,
}

abbrev connid : GObexHeader
connid = record { id = 0xcb; extdata = false; vlen = 4; hlen = 5; v = u32 0x01020304 }

-- A producer whose state is what is left to send.
abbrev send_rest : Bool → ℕ → Bytes → Produced × Bytes
send_rest f n s = (bytes (take n s), drop n s)

send_rest-Respects : Respects send_rest
send_rest-Respects f n s d e = ground (arith, length-take n s)

-- A SETPATH request: two bytes of data and a connection id.
abbrev setpath_request : GObexPacket Bool
setpath_request = record {
  opcode = 0x05;
  final = true;
  data_policy = copy;
  buf = some (2 ∷ 0 ∷ []);
  data_len = 2;
  hlen = 5;
  headers = connid ∷ [];
  get_body = none;
}

abbrev setpath_bytes : Bytes
setpath_bytes = 0x85 ∷ 0 ∷ 10 ∷ 2 ∷ 0 ∷ 0xcb ∷ 1 ∷ 2 ∷ 3 ∷ 4 ∷ []

-- A response that goes on, with a producer.
abbrev continue : GObexPacket Bool
continue = record {
  opcode = rsp_continue;
  final = true;
  data_policy = copy;
  buf = none;
  data_len = 0;
  hlen = 0;
  headers = [];
  get_body = some true;
}

encode-setpath_request :
    encode ascii send_rest setpath_request 255 [] ≡ (encoded setpath_bytes 10, [])
unfolding encode encode_headers encode_body encode_header hdr_enc put_be16 put_be32
encode-setpath_request = refl

decode-setpath_request : decode {A = Bool} ascii copy 2 setpath_bytes ≡ ok setpath_request
unfolding decode decode_body parse_headers decode_header decode_uint32 hdr_enc get_be16 get_be32
    set_data
decode-setpath_request = refl

decode_incorrect_length :
    decode {A = Bool} ascii copy 2 (setpath_bytes ++ (1 ∷ [])) ≡ err parse_error
unfolding decode get_be16
decode_incorrect_length = refl

-- The empty body turns Continue into Success.
encode_end :
    encode ascii send_rest continue 255 [] ≡ (encoded (0xa0 ∷ 0 ∷ 6 ∷ 0x49 ∷ 0 ∷ 3 ∷ []) 6, [])
unfolding encode encode_headers encode_body put_be16
encode_end = refl

encode_chunk :
    encode ascii send_rest continue 8 (7 ∷ 8 ∷ 9 ∷ [])
    ≡ (encoded (0x90 ∷ 0 ∷ 8 ∷ 0x48 ∷ 0 ∷ 5 ∷ 7 ∷ 8 ∷ []) 8, 9 ∷ [])
unfolding encode encode_headers encode_body put_be16
encode_chunk = refl

setpath_request-IsPacket : IsPacket setpath_request
unfolding hdr_enc
setpath_request-IsPacket = (((refl, refl, refl, refl), tt), refl)

decode-Decoded_example :
    (get_be16 (0 ∷ 10 ∷ 2 ∷ 0 ∷ 0xcb ∷ 1 ∷ 2 ∷ 3 ∷ 4 ∷ []) ≡ 10)
    × (2 ≤ 9)
    × Decoded 2 0x85 (2 ∷ 0 ∷ 0xcb ∷ 1 ∷ 2 ∷ 3 ∷ 4 ∷ []) setpath_request
    × IsHeaders ascii copy (0xcb ∷ 1 ∷ 2 ∷ 3 ∷ 4 ∷ []) (connid ∷ [])
decode-Decoded_example =
    decode-Decoded ascii copy 2 0x85 (0 ∷ 10 ∷ 2 ∷ 0 ∷ 0xcb ∷ 1 ∷ 2 ∷ 3 ∷ 4 ∷ []) setpath_request
      decode-setpath_request

decode_ends_example :
    (decode {A = Bool} ascii ref 7 setpath_bytes ≢ stuck)
    × (All IsByte setpath_bytes → decode {A = Bool} ascii ref 7 setpath_bytes ≢ aborted)
decode_ends_example = decode_ends ascii ref 7 setpath_bytes

encode-IsFramed_example : IsFramed 8 (encode ascii send_rest continue 8 (7 ∷ 8 ∷ 9 ∷ [])).0
encode-IsFramed_example =
    encode-IsFramed ascii send_rest send_rest-Respects continue 8 (7 ∷ 8 ∷ 9 ∷ []) (tt, refl)

decode-encode_plain_example :
    (pkt' : GObexPacket Bool) × (decode ascii ref 2 setpath_bytes ≡ ok pkt')
    × ReadsBack pkt' setpath_request
decode-encode_plain_example =
    decode-encode_plain ascii send_rest ref setpath_request 255 [] [] setpath_bytes 10
      ascii-IsConverting (λ e. cc) setpath_request-IsPacket (omega arith) (omega arith)
      (omega arith) refl encode-setpath_request

decode-encode_body_example :
    (d : Bytes) × (n : ℕ) × (pkt' : GObexPacket Bool) × (send_rest true n (7 ∷ 8 ∷ 9 ∷ [])
      ≡ (bytes d, 9 ∷ []))
    × (decode ascii ref 0 (0x90 ∷ 0 ∷ 8 ∷ 0x48 ∷ 0 ∷ 5 ∷ 7 ∷ 8 ∷ []) ≡ ok pkt')
    × ReadsBackWith pkt' continue d
decode-encode_body_example =
    decode-encode_body ascii send_rest ref continue true 8 (7 ∷ 8 ∷ 9 ∷ []) (9 ∷ [])
      (0x90 ∷ 0 ∷ 8 ∷ 0x48 ∷ 0 ∷ 5 ∷ 7 ∷ 8 ∷ []) 8 ascii-IsConverting (λ e. cc) (tt, refl) tt
      (omega arith) (omega arith) refl encode_chunk

setpath_request-IsConsistent : IsConsistent setpath_request
setpath_request-IsConsistent = record {
  well_formed = setpath_request-IsPacket.0;
  short = omega arith;
  summed = refl;
  has_data = refl;
}

call-IsConsistent_example : IsConsistent (call setpath_request (adds connid))
call-IsConsistent_example =
    call-IsConsistent setpath_request (adds connid) setpath_request-IsConsistent
      (setpath_request-IsPacket.0.0, omega arith)

connid-IsEncodable : All (IsEncodable ascii) setpath_request.headers
unfolding encode_header hdr_enc
connid-IsEncodable = (λ n le. ground arith, tt)

encode_fits_example :
    (9 < 10 → encode ascii send_rest setpath_request 9 [] ≡ (fails enobufs, []))
    × (10 ≤ 9 → IsEncoded (encode ascii send_rest setpath_request 9 []).0 10)
encode_fits_example =
    encode_fits ascii send_rest setpath_request 9 [] setpath_request-IsConsistent connid-IsEncodable
      refl
