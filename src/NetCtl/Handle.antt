-- ===== src/NetCtl/Handle.antt =====
-- The handlers of the control port. A handler's verdict is a code, or `none` for a message that it
-- parked (SB_NETCTL_PARKED).
use lwip_amiga.Base.{
  ℕ, suc, ◌+◌, ◌^◌, Bool, true, false, ◌&&◌, ◌||◌, not, Option, none, some, List, [], ◌∷◌, ◌++◌,
  ◌==◌, ltb, leb, if◌then◌else◌, set, get_or,
}
use lwip_amiga.Sock.State.{Opener}
use lwip_amiga.NetCtl.Message.{
  Op, add_if, cancel_add, rem_if, shutdown, cancel_shutdown, op_unknown, Code, ok, err_version,
  err_op, err_param, err_exists, err_notfound, err_busy, err_inactive, err_pending, err_aborted,
  IfConfig, Msg, Ctx, Env, iff_dhcp, iff_has_mask, iff_has_mtu, iff_has_hwaddr, has_flag, is_ok,
  mac_usable, reply,
}

-- `sb_netctl_fill_outputs`
unfoldable pub fill_outputs : Env → Ctx → Msg → Msg
fill_outputs env ctx m = record m {
  out = record {
    addr = env.addr;
    mask = env.mask;
    gateway = env.gateway;
    dns0 = ctx.dns0;
    dns1 = ctx.dns1;
  };
}

-- Configured DNS servers beat those of a lease.
unfoldable pub apply_dns : Ctx → Ctx
apply_dns ctx = record ctx {
  dns0 = if ctx.cfg_dns0 == 0 then ctx.dns0 else ctx.cfg_dns0;
  dns1 = if ctx.cfg_dns1 == 0 then ctx.dns1 else ctx.cfg_dns1;
}

-- The interface of a parked ADD_IF is operational.
unfoldable pub is_ready : Env → Msg → Bool
is_ready env m = if has_flag m.config iff_dhcp then env.leased else env.link_up

unfoldable pub try_complete_add : Env → Ctx → Ctx × Bool
try_complete_add env ctx = elim ctx.pending_add [
  | none ↦ (ctx, false)
  | some m ↦
      if not (is_ready env m)
      then (ctx, false)
      else (let ctx' = apply_dns ctx in
          (
            record (reply ctx' (record (fill_outputs env ctx' m) { result = ok })) {
              pending_add = none;
            },
            true,
          ))
]

-- The last byte of each string array, forced to NUL.
unfoldable pub terminate : IfConfig → IfConfig
terminate c = record c { name = set c.name 15 0; device = set c.device 63 0; id = set c.id 63 0 }

-- The checks of an ADD_IF configuration, in the order of the code.
unfoldable pub config_accepted : IfConfig → Bool
unfolding mac_usable
config_accepted c =
    not (get_or c.name 0 0 == 0 || get_or c.device 0 0 == 0)
    && leb c.kind 2
    && not (has_flag c iff_has_mtu && (c.mtu == 0 || leb (2 ^ 31) c.mtu))
    && not (has_flag c iff_has_hwaddr && not (mac_usable c.hw_addr))
    && not (not (has_flag c iff_dhcp) && (c.addr == 0 || not (has_flag c iff_has_mask)))

-- The verdict, the message as the handler left it, and the context.
abbrev pub Handled : Type 0
Handled = Option Code × Msg × Ctx

-- The message with its strings terminated, and with the `aux` of the bring-up.
abbrev pub checked_msg : Msg → Msg
checked_msg m = record m { config = terminate m.config }

abbrev pub added_msg : Env → Msg → Msg
added_msg env m = record (checked_msg m) { aux = (env.if_up (terminate m.config)).1 }

-- The context once the interface is up and the message is parked.
abbrev pub attached : Env → Ctx → Msg → Ctx
attached env ctx m = record ctx {
  created = true;
  last_start = env.now;
  pending_add = some (added_msg env m);
}

unfoldable pub handle_add : Env → Ctx → Msg → Handled
handle_add env ctx m = elim ctx.pending_shutdown [
  | some s ↦ (some err_inactive, m, ctx)
  | none ↦ elim ctx.pending_add [
    | some a ↦ (some err_exists, m, ctx)
    | none ↦
        if ctx.created
        then (some err_exists, m, ctx)
        else if not (config_accepted (terminate m.config))
        then (some err_param, checked_msg m, ctx)
        else if not (is_ok (env.if_up (terminate m.config)).0)
        then (some (env.if_up (terminate m.config)).0, added_msg env m, ctx)
        else (none, added_msg env m, (try_complete_add env (attached env ctx m)).0)
  ]
]

unfoldable pub handle_cancel_add : Env → Ctx → Option Code × Ctx
handle_cancel_add env ctx = elim ctx.pending_add [
  | none ↦ (some err_notfound, ctx)
  | some a ↦
      (let (ctx', completed) = try_complete_add env ctx in
        if completed then (some err_notfound, ctx') else (
          some ok,
          record (reply ctx (fill_outputs env ctx (record a { result = err_pending }))) {
            pending_add = none;
          },
        ))
]

unfoldable pub count_addr : ℕ → List ℕ → ℕ
count_addr addr [] = 0
count_addr addr (a ∷ rest) = if a == addr then suc (count_addr addr rest) else count_addr addr rest

-- Sockets that pin the interface address; none when it has no address.
unfoldable pub bound_count : Env → ℕ
unfolding count_addr
bound_count env =
    if env.addr == 0
    then 0
    else count_addr env.addr env.tcp_active
      + count_addr env.addr env.tcp_listen
      + count_addr env.addr env.udp

-- A parked ADD_IF is answered that its interface is gone.
unfoldable pub withdraw_add : Ctx → Ctx
withdraw_add ctx = elim ctx.pending_add [
  | none ↦ ctx
  | some a ↦ record (reply ctx (record a { result = err_inactive })) { pending_add = none }
]

unfoldable pub handle_rem : Env → Ctx → Msg → Handled
handle_rem env ctx m = elim ctx.pending_shutdown [
  | some s ↦ (some err_inactive, m, ctx)
  | none ↦
      if get_or m1.config.name 0 0 == 0
      then (some err_param, m1, ctx)
      else if not match
      then (some err_notfound, m1, ctx)
      else if m.force == 0 && ltb 0 (bound_count env)
      then (some err_busy, record m1 { count = bound_count env }, ctx)
      else (some ok, m1, record (withdraw_add ctx) { created = false })
]
  where
    m1 : Msg
    m1 = record m { config = record (m.config) { name = set m.config.name 15 0 } }

    match : Bool
    match = ctx.created && env.finds m1.config.name

-- The break signals to every opener that has a task and a break mask, by its place in the registry.
unfoldable pub nudge_openers : ℕ → List Opener → List (ℕ × ℕ)
nudge_openers i [] = []
nudge_openers i (b ∷ rest) =
    if b.task && not (b.break_mask == 0)
    then (i, b.break_mask) ∷ nudge_openers (i + 1) rest
    else nudge_openers (i + 1) rest

unfoldable pub handle_shutdown : Ctx → Msg → Handled
handle_shutdown ctx m = elim ctx.pending_shutdown [
  | some s ↦ (some err_exists, m, ctx)
  | none ↦ (
    none,
    m,
    record ctx {
      shutting_down = true;
      nudged = ctx.nudged ++ nudge_openers 0 ctx.openers;
      pending_shutdown = some m;
    },
  )
]

unfoldable pub handle_cancel_shutdown : Ctx → Option Code × Ctx
handle_cancel_shutdown ctx = elim ctx.pending_shutdown [
  | none ↦ (some err_notfound, ctx)
  | some s ↦ (
    some ok,
    record (reply ctx (record s { result = err_aborted; count = ctx.open_count })) {
      shutting_down = false;
      pending_shutdown = none;
    },
  )
]

unfoldable pub dispatch : Env → Ctx → Msg → Op → Handled
dispatch env ctx m add_if = handle_add env ctx m
dispatch env ctx m cancel_add = let (v, ctx') = handle_cancel_add env ctx in (v, m, ctx')
dispatch env ctx m rem_if = handle_rem env ctx m
dispatch env ctx m shutdown = handle_shutdown ctx m
dispatch env ctx m cancel_shutdown = let (v, ctx') = handle_cancel_shutdown ctx in (v, m, ctx')
dispatch env ctx m op_unknown = (some err_op, m, ctx)

unfoldable pub handle : Env → Ctx → Msg → Handled
handle env ctx m =
    if not (m.version == 3) then (some err_version, m, ctx) else dispatch env ctx m m.op

-- One round of the service loop: a verdict is replied, a parked message is kept.
unfoldable pub serve : Env → Ctx → Msg → Ctx
serve env ctx m =
    let (verdict, m', ctx') = handle env ctx m in
    elim verdict [ none ↦ ctx' | some code ↦ reply ctx' (record m' { result = code }) ]

-- `sb_netctl_service` on the messages taken from the port, in order, each with what the world
-- answers while it is served.
unfoldable pub serve_all : (ℕ → Env) → Ctx → List Msg → Ctx
serve_all env ctx [] = ctx
serve_all env ctx (m ∷ rest) = serve_all env (serve (env m.key) ctx m) rest

unfoldable pub service : (ℕ → Env) → Ctx → Ctx
service env ctx = if ctx.port then serve_all env (record ctx { queue = [] }) ctx.queue else ctx

unfoldable pub tick : Env → Ctx → Ctx
tick env ctx = (try_complete_add env ctx).0

unfoldable pub shutdown_ready : Ctx → Bool
shutdown_ready ctx = elim ctx.pending_shutdown [ none ↦ false | some s ↦ ctx.open_count == 0 ]

unfoldable pub nudge : Ctx → Ctx
nudge ctx = elim ctx.pending_shutdown [
  | none ↦ ctx
  | some s ↦
      if ctx.shutting_down
      then record ctx { nudged = ctx.nudged ++ nudge_openers 0 ctx.openers }
      else ctx
]

unfoldable pub drain : List Msg → List Msg
drain [] = []
drain (m ∷ rest) = record m { result = err_inactive } ∷ drain rest

-- The port is withdrawn, a parked ADD_IF answered, and the queue drained the same way.
unfoldable pub stop : Ctx → Ctx
stop ctx = if ctx.port then drained else ctx
  where
    withdrawn : Ctx
    withdrawn = withdraw_add ctx

    drained : Ctx
    drained = record withdrawn {
      port = false;
      queue = [];
      replies = withdrawn.replies ++ drain withdrawn.queue;
    }
