-- ===== src/Gobex/Transfer/Session.antt =====
-- The session with the transfers on top: the environment that the transfers make of the user's functions.
use map_client.Base.{ℕ, Option, []}
use map_client.Base.Endian.{Bytes}
use map_client.Gobex.Defs.{GObexError}
use map_client.Gobex.Packet.{GObexPacket}
use map_client.Gobex.Packet.Codec.{Produced, bytes}
use map_client.Gobex.Obex.{Env}
use map_client.Gobex.Transfer.{
  Func, user, response_of, abort_response_of, put_data_of, get_data_of, put_req_of, get_req_of,
  abort_req_of, Layer, State, Users, fault, transfer_abort_response,
}
use map_client.Gobex.Transfer.Client.{put_get_data, transfer_response}
use map_client.Gobex.Transfer.Server.{
  transfer_abort_req, transfer_put_req, transfer_get_req, get_get_data,
}

module _ {A V : Type 0} (env : Users A V) where
  abbrev pub run_response :
      Func A → Option GObexError → Option (GObexPacket (Func A)) → State A V → State A V
  run_response (user f) e rsp w = env.on_response f e rsp w
  run_response (response_of id) e rsp w = transfer_response env w id e rsp
  run_response (abort_response_of id) e rsp w = transfer_abort_response env w id
  run_response _ e rsp w = fault w

  abbrev pub run_request : Func A → GObexPacket (Func A) → State A V → State A V
  run_request (user f) req w = env.on_request f req w
  run_request (put_req_of id) req w = transfer_put_req env w id req
  run_request (get_req_of id) req w = transfer_get_req env w id
  run_request (abort_req_of id) req w = transfer_abort_req env w id
  run_request _ req w = fault w

  abbrev pub run_disconnect : Func A → Option GObexError → State A V → State A V
  run_disconnect (user f) e w = env.on_disconnect f e w
  run_disconnect _ e w = fault w

  abbrev pub run_producer : Func A → ℕ → State A V → Produced × State A V
  run_producer (user f) n w = env.produce f n w
  run_producer (put_data_of id) n w = put_get_data env id n w
  run_producer (get_data_of id) n w = get_get_data env id n w
  run_producer _ n w = (bytes [], fault w)

  abbrev with_rest : Layer A V → Option ℕ × V → Option ℕ × Layer A V
  with_rest l (r, v) = (r, record l { rest = v })

  abbrev with_rest_read : Layer A V → Option Bytes × V → Option Bytes × Layer A V
  with_rest_read l (r, v) = (r, record l { rest = v })

  abbrev pub env_of : Env (Func A) (Layer A V)
  env_of = record {
    glib = env.glib;
    write_chars = λ d l. with_rest l (env.write_chars d l.rest);
    read_chars = λ n l. with_rest_read l (env.read_chars n l.rest);
    on_response = run_response;
    on_request = run_request;
    on_disconnect = run_disconnect;
    produce = run_producer;
  }
