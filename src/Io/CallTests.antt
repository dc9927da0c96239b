-- ===== src/Io/CallTests.antt =====
-- Messages over several buffers, datagrams and sends, on the socket of Sock/Recv/Tests.
use lwip_amiga.Base.{ℕ, ◌≡◌, refl, true, false, List, [], ◌∷◌, arith, length, ltb, take}
use lwip_amiga.Sock.State.{udp, Dgram, Socket}
use lwip_amiga.Sock.Recv.Stream.{bytes}
use lwip_amiga.Sock.Recv.Tests.{plain_socket, one_opener}
use lwip_amiga.Sock.Wake.{err_ok}
use lwip_amiga.Io.{returned}
use lwip_amiga.Io.Drain.{mode}
use lwip_amiga.Io.Read.{clamp, pass, after_pass, turn, recv_loop, pass_mark, tcp_recv}
use lwip_amiga.Io.Send.{
  Turn, accepted, rejected, tcp_send, send_loop, send_turn, write_turn, wrote_chunk,
}
use lwip_amiga.Io.Calls.{Iov, stream_recvmsg, recvmsg_loop}
use lwip_amiga.Io.Dgram.{message, dgram_recvmsg}
use lwip_amiga.Io.Scatter.{AreFilled, dgram_recvmsg_lem}
use lwip_amiga.Io.Sendmsg.{OutVec, stream_sendmsg, IsPrefix, stream_sendmsg-IsPrefix}
use lwip_amiga.Io.Told.{Handed, tcp_send-Handed}
use lwip_amiga.Io.Finishes.{Takes, tcp_send_finishes}

abbrev two_buffers : List Iov
two_buffers =
    record { len = 1; copies = []; waits = [] } ∷ record { len = 1; copies = []; waits = [] } ∷ []

-- A message of two buffers that is peeked at: both get the first byte.
peek_run : (stream_recvmsg one_opener plain_socket two_buffers 0x02).outcome ≡ returned (1 ∷ 1 ∷ [])
unfolding stream_recvmsg recvmsg_loop tcp_recv recv_loop mode pass_mark turn after_pass pass clamp
peek_run = refl

abbrev hello : Dgram
hello = record { payload = (1 ∷ 2 ∷ []) ∷ (3 ∷ []) ∷ []; addr = 0x0A00_0001; port = 53 }

abbrev mail_socket : Socket
mail_socket = record plain_socket { kind = udp; dgrams = hello ∷ hello ∷ []; ndgrams = 2 }

dgram_recvmsg_lem_example :
    let r = dgram_recvmsg one_opener mail_socket (1 ∷ 0 ∷ 1 ∷ []) 0 [] in
    (pieces : List (List ℕ)) × (r.1 ≡ message pieces 0x0A00_0001 53 (ltb 2 3))
    × AreFilled (1 ∷ 0 ∷ 1 ∷ []) pieces
    × (bytes pieces ≡ take 2 (bytes hello.payload))
    × (r.0.dgrams ≡ hello ∷ [])
    × (r.0.ndgrams ≡ length r.0.dgrams)
dgram_recvmsg_lem_example =
    dgram_recvmsg_lem one_opener mail_socket hello (hello ∷ []) (1 ∷ 0 ∷ 1 ∷ []) 0 [] refl refl
      (omega arith)

abbrev taking : Turn
taking = record {
  avail = 2;
  written = err_ok;
  contended = true;
  heard = [];
  shut = false;
  verdict = 0;
}

abbrev taking_three : List Turn
taking_three = taking ∷ taking ∷ taking ∷ []

-- The urgent mark goes with the last chunk.
send_run :
    let r = tcp_send one_opener plain_socket (7 ∷ 8 ∷ 9 ∷ []) 0x01 taking_three in
    (r.verdict ≡ accepted 3)
    × (r.wrote
        ≡ record { bytes = 7 ∷ 8 ∷ []; more = true; urg = false }
          ∷ record { bytes = 9 ∷ []; more = false; urg = true }
          ∷ [])
    × (r.outputs ≡ 2)
unfolding tcp_send send_loop send_turn write_turn wrote_chunk
send_run = (refl, refl, refl)

-- Another opener shuts the socket down at the lock break: two bytes are queued, and the call fails.
shut_run :
    let r =
      tcp_send one_opener plain_socket
        (7 ∷ 8 ∷ 9 ∷ [])
        0
        (record taking { shut = true } ∷ taking ∷ taking ∷ []) in
    (r.verdict ≡ rejected 58)
    × (r.wrote ≡ record { bytes = 7 ∷ 8 ∷ []; more = true; urg = false } ∷ [])
unfolding tcp_send send_loop send_turn write_turn wrote_chunk
shut_run = (refl, refl)

tcp_send-Handed_example :
    Handed true
      (7 ∷ 8 ∷ 9 ∷ [])
      (tcp_send one_opener plain_socket (7 ∷ 8 ∷ 9 ∷ []) 0x01 taking_three)
tcp_send-Handed_example = tcp_send-Handed one_opener plain_socket (7 ∷ 8 ∷ 9 ∷ []) 0x01 taking_three

tcp_send_finishes_example :
    (tcp_send one_opener plain_socket (7 ∷ 8 ∷ 9 ∷ []) 0x01 taking_three).verdict ≡ accepted 3
tcp_send_finishes_example =
    tcp_send_finishes one_opener plain_socket (7 ∷ 8 ∷ 9 ∷ []) 0x01 taking_three
      (all_take, (all_take, (all_take, tt)))
      (record { pcb = refl; err = refl; shut_wr = refl; connecting = refl; connected = refl })
      (omega arith)
  where
    all_take : Takes taking
    all_take = record { room = omega arith; ok = refl; quiet = refl; open_for = refl }

abbrev two_parts : List OutVec
two_parts =
    record { bytes = 7 ∷ 8 ∷ []; turns = taking_three }
    ∷ record { bytes = 9 ∷ []; turns = taking_three }
    ∷ []

stream_sendmsg-IsPrefix_example :
    IsPrefix (7 ∷ 8 ∷ 9 ∷ []) (stream_sendmsg one_opener plain_socket two_parts 0x01)
stream_sendmsg-IsPrefix_example = stream_sendmsg-IsPrefix one_opener plain_socket two_parts 0x01
