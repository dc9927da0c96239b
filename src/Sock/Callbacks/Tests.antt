-- ===== src/Sock/Callbacks/Tests.antt =====
-- A socket with an empty queue, its callbacks, and the theorem on them.
use lwip_amiga.Base.{◌==◌, ◌∷◌, ◌≡◌, refl, get_or, true, false, [], inl}
use lwip_amiga.Sock.State.{Socket, Opener}
use lwip_amiga.Sock.Wake.{is_readable, event_wake, event, wake, wake_mask, map_err, err_rst}
use lwip_amiga.Sock.Recv.Tests.{plain_socket, one_opener}
use lwip_amiga.Sock.Callbacks.{callback, failed, tcp_err_cb, is_local_peer}
use lwip_amiga.Sock.Callbacks.Wakes.{Posted, callback-Posted}

abbrev idle_socket : Socket
idle_socket = record plain_socket { rxq = []; rx_bytes = 0 }

abbrev opener_of_slot : Opener
opener_of_slot = get_or one_opener 0 (record {
  task = false;
  sig_bit = 0;
  sig_io_mask = 0;
  sig_urg_mask = 0;
  sig_event_mask = 0;
  break_mask = 0;
  fd = [];
})

abbrev joining : Socket
joining = record plain_socket { connecting = true }

reset_run : (callback one_opener joining (failed err_rst)).0.err ≡ 61
unfolding callback tcp_err_cb event_wake event wake
reset_run = refl

local_run : is_local_peer (λ a. a == 0x7F000001) (0xC0A80002 ∷ []) 0xC0A80002 ≡ true
unfolding is_local_peer
local_run = refl

callback-Posted_example :
    Posted
      (0, wake_mask idle_socket opener_of_slot)
      (callback one_opener idle_socket (failed err_rst)).1
unfolding is_readable callback tcp_err_cb event_wake map_err
callback-Posted_example =
    callback-Posted one_opener idle_socket (failed err_rst) 0 opener_of_slot (inl refl) refl refl
      refl refl
