-- ===== src/Ping/Udp/Runs.antt =====
-- The UDP theorems at concrete inputs.
use niceperf.Prelude.{ℕ, ◌≡◌, refl, none, some, [], ◌∷◌, ◌++◌, arith, map}
use niceperf.Prelude.Outcome.{ok, err, ◌>>=◌}
use niceperf.Prelude.Words.{debug}
use niceperf.Common.Os.{v4, Answer}
use niceperf.Common.Sockets.{Socket, udp_new}
use niceperf.Ping.Logger.{UdpEchoResult}
use niceperf.Ping.Task.{gave, ended, waiting, bad_packet, client_timeout}
use niceperf.Ping.Echo.{EchoPacket, IsPacket, SendState, send_task, echo}
use niceperf.Ping.Echo.Send.{Finished, send_task-Finished, good}
use niceperf.Ping.Echo.Plain.{plain, plain-IsBincode, whole, fields}
use niceperf.Ping.Udp.ClientSocket.{Peer, client_socket}
use niceperf.Ping.Udp.{idle, recv_error, handle_client, from, UdpServer, run, on_datagram}
use niceperf.Ping.Udp.Client.{measured, on_datagram-echo}
use niceperf.Ping.Udp.Server.{
  Request, request, reply_to, asked, handle_client-replies, run-answers, run_bad_packet,
}

abbrev hello : EchoPacket
hello = record {
  identifier = 9;
  send_timestamp = 1000000;
  recv_timestamp = 0;
  seq = 3;
  payload = 0 ∷ 0 ∷ [];
}

hello-IsPacket : IsPacket hello
hello-IsPacket = omega arith

abbrev nothing : UdpEchoResult ℕ
nothing = record {
  seq = 0;
  send_timestamp = 0;
  server_timestamp = 0;
  recv_timestamp = 0;
  rtt = 0;
  size = 0;
  src_addr = "10.0.0.2";
  dst_addr = "10.0.0.1";
}

abbrev accepting : Answer
accepting t c = none

abbrev server_peer : Peer
server_peer = (v4 1, 4000)

abbrev client_peer : Peer
client_peer = (v4 2, 5000)

abbrev fresh : SendState
fresh = record { counter = 0; payload = hello; sent = [] }

send_task-Finished_example :
    Finished plain plain-IsBincode 2 fresh
      ((5, 44) ∷ (6, 44) ∷ [])
      (send_task plain (some 2) fresh (map good ((5, 44) ∷ (6, 44) ∷ []) ++ []))
send_task-Finished_example =
    send_task-Finished plain plain-IsBincode 2 fresh ((5, 44) ∷ (6, 44) ∷ []) [] hello-IsPacket
      (omega arith) refl (omega arith)

on_datagram-echo_example :
    (do
      reply ← echo plain (fields hello) (gave 77)
      on_datagram whole plain debug nothing reply (gave 3000000))
    ≡ ok (measured whole nothing (record hello { recv_timestamp = 77 }) 6 3000000)
on_datagram-echo_example =
    on_datagram-echo whole plain plain-IsBincode debug nothing hello 77 3000000 hello-IsPacket
      (omega arith) (omega arith)

handle_client-replies_example :
    (handle_client plain (map (asked plain plain-IsBincode) ((hello, 5) ∷ []) ++ idle ∷ [])
      ≡ (map (reply_to plain plain-IsBincode) ((hello, 5) ∷ []), ended (err client_timeout)))
    × (handle_client plain (map (asked plain plain-IsBincode) ((hello, 5) ∷ []) ++ recv_error ∷ [])
        ≡ (map (reply_to plain plain-IsBincode) ((hello, 5) ∷ []), ended (err client_timeout)))
handle_client-replies_example =
    handle_client-replies plain plain-IsBincode ((hello, 5) ∷ []) []
      ((hello-IsPacket, omega arith), tt)

abbrev asks : Request
asks = record { peer = client_peer; packet = hello; now = 5; system = accepting }

abbrev listening : UdpServer
listening = record { local = server_peer; answers = []; handlers = [] }

asks_socket : (s : Socket) × ((client_socket server_peer client_peer accepting []).0 ≡ ok s)
unfolding client_socket udp_new
asks_socket = (_, refl)

run-answers_example : run plain listening (map (request plain plain-IsBincode) (asks ∷ [])) ≡ (
  record listening {
    answers = (client_peer, fields (record hello { recv_timestamp = 5 })) ∷ [];
    handlers = client_peer ∷ [];
  },
  waiting,
)
run-answers_example =
    run-answers plain plain-IsBincode listening (asks ∷ [])
      ((hello-IsPacket, omega arith, asks_socket), tt)

-- A datagram of one byte between two requests.
run_bad_packet_example :
    run plain listening (
      map (request plain plain-IsBincode) (asks ∷ [])
      ++ from client_peer (1 ∷ []) (gave 5) (gave 0) accepting
        ∷ map (request plain plain-IsBincode) (asks ∷ []))
    ≡ (
      record listening {
        answers = (client_peer, fields (record hello { recv_timestamp = 5 })) ∷ [];
        handlers = client_peer ∷ [];
      },
      ended (err bad_packet),
    )
run_bad_packet_example =
    run_bad_packet plain plain-IsBincode listening (asks ∷ []) client_peer (1 ∷ []) (gave 5)
      (gave 0) accepting (asks ∷ []) ((hello-IsPacket, omega arith, asks_socket), tt) refl
