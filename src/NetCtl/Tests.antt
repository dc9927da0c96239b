-- ===== src/NetCtl/Tests.antt =====
-- The control port at concrete messages: runs, and the theorems at such inputs.
use lwip_amiga.Base.{ℕ, ◌+◌, ◌≡◌, ◌⊎◌, ◌↔◌, inr, refl, true, false, none, some, [], ◌∷◌, map}
use lwip_amiga.NetCtl.Message.{
  Op, add_if, cancel_add, shutdown, Code, ok, err_pending, IfConfig, Msg, Ctx, Env,
}
use lwip_amiga.NetCtl.Handle.{
  handle_add, handle_cancel_add, service, stop, serve_all, serve, handle, dispatch, terminate,
  try_complete_add, is_ready, handle_shutdown, fill_outputs,
}
use lwip_amiga.NetCtl.Port.{places, copies, parked, service-places, stop-places}
use lwip_amiga.NetCtl.Outcome.{IsUsable, IsSound, service-IsSound, answer, handle_add_lem}

abbrev genet : IfConfig
genet = record {
  name = b'n' ∷ 0 ∷ [];
  device = b'g' ∷ 0 ∷ [];
  id = [];
  kind = 0;
  flags = 1;
  addr = 0;
  mtu = 0;
  hw_addr = [];
}

abbrev message : ℕ → Op → Msg
message key op = record {
  key = key;
  version = 3;
  op = op;
  result = ok;
  aux = 0;
  force = 0;
  count = 0;
  config = genet;
  out = record { addr = 0; mask = 0; gateway = 0; dns0 = 0; dns1 = 0 };
}

abbrev idle : Ctx
idle = record {
  port = true;
  queue = [];
  created = false;
  pending_add = none;
  pending_shutdown = none;
  shutting_down = false;
  open_count = 0;
  openers = [];
  cfg_dns0 = 0;
  cfg_dns1 = 0;
  dns0 = 0;
  dns1 = 0;
  last_start = (0, 0);
  nudged = [];
  replies = [];
}

-- No lease yet; one socket is bound to the address.
abbrev world : Env
world = record {
  if_up = λ c. (ok, 0);
  leased = false;
  link_up = true;
  addr = 5;
  mask = 0;
  gateway = 0;
  finds = λ n. true;
  tcp_active = 5 ∷ [];
  tcp_listen = [];
  udp = 7 ∷ [];
  now = (9, 0);
}

abbrev waiting : Ctx
waiting = record idle { created = true; pending_add = some (message 4 add_if) }

abbrev busy_port : Ctx
busy_port = record waiting {
  queue = message 1 add_if ∷ message 2 cancel_add ∷ message 3 shutdown ∷ [];
}

service_answers :
    map answer (service (λ k. world) busy_port).replies
    ≡ (1, Code.err_exists) ∷ (4, err_pending) ∷ (2, ok) ∷ []
unfolding service serve_all serve handle dispatch handle_add handle_cancel_add try_complete_add
    is_ready fill_outputs handle_shutdown
service_answers = refl

service-places_example :
    (places 4 (service (λ k. world) busy_port) ≡ places 4 busy_port)
    × ((service (λ k. world) busy_port).queue ≡ [])
service-places_example = service-places 4 (λ k. world) busy_port refl

stop-places_example :
    (places 4 (stop busy_port) ≡ places 4 busy_port)
    × (copies 4 (stop busy_port).replies + parked 4 none ≡ places 4 busy_port)
    × ((stop busy_port).pending_add ≡ none)
    × ((stop busy_port).queue ≡ [])
    × ((stop busy_port).port ≡ false)
stop-places_example = stop-places 4 busy_port refl

service-IsSound_example : IsSound (service (λ k. world) busy_port)
service-IsSound_example =
    service-IsSound (λ k. world) busy_port (record { waits = inr refl; stops = refl })

handle_add_lem_example :
    let (verdict, m', ctx') = handle_add world idle (message 1 add_if) in
    ((verdict ≡ none) ↔ (
      (idle.pending_shutdown ≡ none)
      × (idle.pending_add ≡ none)
      × (idle.created ≡ false)
      × IsUsable (terminate genet)
      × ((world.if_up (terminate genet)).0 ≡ ok)))
    × ((verdict ≡ none) ⊎ (ctx' ≡ idle))
handle_add_lem_example = handle_add_lem world idle (message 1 add_if)
