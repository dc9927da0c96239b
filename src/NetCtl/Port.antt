-- ===== src/NetCtl/Port.antt =====
-- The reply discipline of the control port: the places in which a message stands.
use lwip_amiga.Base.{
  ℕ, ◌+◌, ◌≡◌, inl, inr, refl, true, false, Option, none, some, List, [], ◌∷◌, ◌++◌, ◌==◌,
  if◌then◌else◌, arith, Option-cases,
}
use lwip_amiga.NetCtl.Message.{
  Op, add_if, cancel_add, rem_if, shutdown, cancel_shutdown, op_unknown, Code, ok, err_inactive,
  err_pending, err_aborted, Msg, Ctx, Env,
}
use lwip_amiga.NetCtl.Handle.{
  fill_outputs, apply_dns, try_complete_add, handle_add, attached, handle_cancel_add, withdraw_add,
  handle_rem, handle_shutdown, handle_cancel_shutdown, dispatch, handle, Handled, serve, serve_all,
  service, drain, stop,
}

abbrev pub here : ℕ → Msg → ℕ
here k m = if m.key == k then 1 else 0

-- How often the message `k` stands in a list, and in a parking place.
abbrev pub copies : ℕ → List Msg → ℕ
copies k [] = 0
copies k (m ∷ rest) = here k m + copies k rest

abbrev pub parked : ℕ → Option Msg → ℕ
parked k none = 0
parked k (some m) = here k m

-- The places where a delivered message can be: answered, parked, or queued at the port.
abbrev pub places : ℕ → Ctx → ℕ
places k ctx =
    copies k ctx.replies
    + parked k ctx.pending_add
    + parked k ctx.pending_shutdown
    + copies k ctx.queue

copies-append : (k : ℕ) (ms ns : List Msg) → copies k (ms ++ ns) ≡ copies k ms + copies k ns
copies-append k [] ns = omega arith
copies-append k (m ∷ ms) ns = omega (arith, copies-append k ms ns)

copies-drain : (k : ℕ) (ms : List Msg) → copies k (drain ms) ≡ copies k ms
unfolding drain
copies-drain k [] = refl
copies-drain k (m ∷ ms) = omega (arith, copies-drain k ms)

-- What the handlers leave alone of the context.
record Keeps (k : ℕ) (ctx ctx' : Ctx) : Type 0 where
  total : places k ctx' ≡ places k ctx
  queue : ctx'.queue ≡ ctx.queue

copies-snoc : (k : ℕ) (ms : List Msg) (m : Msg) → copies k (ms ++ (m ∷ [])) ≡ copies k ms + here k m
copies-snoc k ms m = omega (arith, copies-append k ms (m ∷ []))

try_complete_add-Keeps : (k : ℕ) (env : Env) (ctx : Ctx) → Keeps k ctx (try_complete_add env ctx).0
unfolding try_complete_add apply_dns fill_outputs
try_complete_add-Keeps k env ctx = elim (Option-cases ctx.pending_add) [
  | inl e ↦ ground arith
  | inr (m, e) ↦ ground (
    arith,
    copies-snoc k ctx.replies (record (fill_outputs env (apply_dns ctx) m) { result = ok }),
  )
]

withdraw_add-Keeps : (k : ℕ) (ctx : Ctx) → Keeps k ctx (withdraw_add ctx)
unfolding withdraw_add
withdraw_add-Keeps k ctx = elim (Option-cases ctx.pending_add) [
  | inl e ↦ ground arith
  | inr (m, e) ↦ ground (arith, copies-snoc k ctx.replies (record m { result = err_inactive }))
]

handle_cancel_add-Keeps :
    (k : ℕ) (env : Env) (ctx : Ctx) → Keeps k ctx (handle_cancel_add env ctx).1
unfolding handle_cancel_add fill_outputs
handle_cancel_add-Keeps k env ctx = elim (Option-cases ctx.pending_add) [
  | inl e ↦ ground arith
  | inr (m, e) ↦ ground (
    arith,
    try_complete_add-Keeps k env ctx,
    copies-snoc k ctx.replies (fill_outputs env ctx (record m { result = err_pending })),
  )
]

handle_cancel_shutdown-Keeps : (k : ℕ) (ctx : Ctx) → Keeps k ctx (handle_cancel_shutdown ctx).1
unfolding handle_cancel_shutdown
handle_cancel_shutdown-Keeps k ctx = elim (Option-cases ctx.pending_shutdown) [
  | inl e ↦ ground arith
  | inr (m, e) ↦
      ground (
        arith,
        copies-snoc k ctx.replies (record m { result = err_aborted; count = ctx.open_count }),
      )
]

-- A handled message is in one place more: the verdict that is due, or a parking place.
abbrev due : ℕ → Option Code → Msg → ℕ
due k none m = 0
due k (some code) m = here k m

record Owes (k : ℕ) (ctx : Ctx) (m : Msg) (h : Handled) : Type 0 where
  total : places k h.2 + due k h.0 h.1 ≡ places k ctx + here k m
  queue : h.2.queue ≡ ctx.queue

handle_add-Owes : (k : ℕ) (env : Env) (ctx : Ctx) (m : Msg) → Owes k ctx m (handle_add env ctx m)
unfolding handle_add
handle_add-Owes k env ctx m = ground (arith, try_complete_add-Keeps k env (attached env ctx m))

handle_rem-Owes : (k : ℕ) (env : Env) (ctx : Ctx) (m : Msg) → Owes k ctx m (handle_rem env ctx m)
unfolding handle_rem
handle_rem-Owes k env ctx m = ground (arith, withdraw_add-Keeps k ctx)

handle_shutdown-Owes : (k : ℕ) (ctx : Ctx) (m : Msg) → Owes k ctx m (handle_shutdown ctx m)
unfolding handle_shutdown
handle_shutdown-Owes k ctx m = ground arith

-- The two recalls always have a verdict.
cancel_add_due :
    (k : ℕ) (env : Env) (ctx : Ctx) (m : Msg) → due k (handle_cancel_add env ctx).0 m ≡ here k m
unfolding handle_cancel_add
cancel_add_due k env ctx m = ground arith

cancel_shutdown_due :
    (k : ℕ) (ctx : Ctx) (m : Msg) → due k (handle_cancel_shutdown ctx).0 m ≡ here k m
unfolding handle_cancel_shutdown
cancel_shutdown_due k ctx m = ground arith

by_op-Owes :
    (k : ℕ) (env : Env) (ctx : Ctx) (m : Msg) (op : Op) → Owes k ctx m (dispatch env ctx m op)
unfolding dispatch
by_op-Owes k env ctx m add_if = handle_add-Owes k env ctx m
by_op-Owes k env ctx m cancel_add =
    ground (arith, handle_cancel_add-Keeps k env ctx, cancel_add_due k env ctx m)
by_op-Owes k env ctx m rem_if = handle_rem-Owes k env ctx m
by_op-Owes k env ctx m shutdown = handle_shutdown-Owes k ctx m
by_op-Owes k env ctx m cancel_shutdown =
    ground (arith, handle_cancel_shutdown-Keeps k ctx, cancel_shutdown_due k ctx m)
by_op-Owes k env ctx m op_unknown = ground arith

handle-Owes : (k : ℕ) (env : Env) (ctx : Ctx) (m : Msg) → Owes k ctx m (handle env ctx m)
unfolding handle
handle-Owes k env ctx m = ground (arith, by_op-Owes k env ctx m m.op)

-- One round adds the served message to exactly one place, and leaves the queue.
record Served (k : ℕ) (ctx : Ctx) (m : Msg) (ctx' : Ctx) : Type 0 where
  total : places k ctx' ≡ places k ctx + here k m
  queue : ctx'.queue ≡ ctx.queue

serve-Served : (k : ℕ) (env : Env) (ctx : Ctx) (m : Msg) → Served k ctx m (serve env ctx m)
unfolding serve
serve-Served k env ctx m = elim (Option-cases (handle env ctx m).0) [
  | inl e ↦ ground (arith, handle-Owes k env ctx m)
  | inr (code, e) ↦ ground (
    arith,
    handle-Owes k env ctx m,
    copies-snoc k (handle env ctx m).2.replies (record ((handle env ctx m).1) { result = code }),
  )
]

serve_all-places :
    (k : ℕ) (env : ℕ → Env) (ctx : Ctx) (ms : List Msg)
    → (places k (serve_all env ctx ms) ≡ places k ctx + copies k ms)
      × ((serve_all env ctx ms).queue ≡ ctx.queue)
unfolding serve_all
serve_all-places k env ctx [] = (omega arith, refl)
serve_all-places k env ctx (m ∷ rest) =
    ground (
      arith,
      serve-Served k (env m.key) ctx m,
      serve_all-places k env (serve (env m.key) ctx m) rest,
    )

-- Serving an open port loses no message and answers none twice, whatever the messages and the
-- answers of the world: each message stands in as many places (answered, parked, queued) as before,
-- and none is left in the queue.
pub service-places :
    (k : ℕ) (env : ℕ → Env) (ctx : Ctx)
    → ctx.port ≡ true
    → (places k (service env ctx) ≡ places k ctx) × ((service env ctx).queue ≡ [])
unfolding service
service-places k env ctx open_port =
    ground (arith, serve_all-places k env (record ctx { queue = [] }) ctx.queue)

-- Withdrawing an open port answers everything still owed but a parked SHUTDOWN: no message is lost
-- or answered twice, no ADD_IF stays parked, the queue is empty and the port is closed.
pub stop-places :
    (k : ℕ) (ctx : Ctx)
    → ctx.port ≡ true
    → (places k (stop ctx) ≡ places k ctx)
      × (copies k (stop ctx).replies + parked k ctx.pending_shutdown ≡ places k ctx)
      × ((stop ctx).pending_add ≡ none)
      × ((stop ctx).queue ≡ [])
      × ((stop ctx).port ≡ false)
unfolding stop withdraw_add
stop-places k ctx open_port = elim (Option-cases ctx.pending_add) [
  | inl e ↦ ground (arith, copies-append k ctx.replies (drain ctx.queue), copies-drain k ctx.queue)
  | inr (m, e) ↦ ground (
    arith,
    copies-snoc k ctx.replies (record m { result = err_inactive }),
    copies-append k (ctx.replies ++ (record m { result = err_inactive } ∷ [])) (drain ctx.queue),
    copies-drain k ctx.queue,
  )
]
