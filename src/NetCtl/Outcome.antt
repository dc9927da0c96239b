-- ===== src/NetCtl/Outcome.antt =====
-- What the control-port requests achieve, and the states that the context can be in.
use lwip_amiga.Base.{
  ℕ, ◌^◌, ◌%◌, ◌<◌, ◌≤◌, ◌≡◌, ◌≢◌, ◌⊎◌, ◌↔◌, inl, inr, refl, bit_and, Bool, true, false, ◌&&◌,
  Option, none, some, List, [], ◌∷◌, ◌++◌, ◌==◌, ltb, if◌then◌else◌, arith, map, get_or, set,
  Bool-cases,
}
use lwip_amiga.Base.Bits.{bit_and_low}
use mathlib.Core.List.{map-append}
use lwip_amiga.NetCtl.Message.{
  Op, add_if, cancel_add, rem_if, shutdown, cancel_shutdown, op_unknown, Code, ok, err_notfound,
  err_busy, err_pending, IfConfig, Msg, Ctx, Env, is_ok, any_nonzero, mac_usable,
}
use lwip_amiga.NetCtl.Handle.{
  fill_outputs, apply_dns, is_ready, try_complete_add, handle_add, attached, handle_cancel_add,
  withdraw_add, handle_rem, handle_shutdown, handle_cancel_shutdown, dispatch, handle, serve,
  serve_all, service, config_accepted, terminate, bound_count,
}

abbrev pub is_some {ℓ} : {A : Type ℓ} → Option A → Bool
is_some none = false
is_some (some a) = true

-- A parked ADD_IF waits for an interface that is there, and the library refuses new clients exactly
-- while a SHUTDOWN is parked.
pub record IsSound (ctx : Ctx) : Type 0 where
  pub waits : (ctx.pending_add ≡ none) ⊎ (ctx.created ≡ true)
  pub stops : ctx.shutting_down ≡ is_some ctx.pending_shutdown

try_complete_add-IsSound :
    (env : Env) (ctx : Ctx) → IsSound ctx → IsSound (try_complete_add env ctx).0
unfolding try_complete_add apply_dns
try_complete_add-IsSound env ctx v = ground arith

handle_add-IsSound :
    (env : Env) (ctx : Ctx) (m : Msg) → IsSound ctx → IsSound (handle_add env ctx m).2
unfolding handle_add
handle_add-IsSound env ctx m v = ground (arith, try_complete_add-IsSound env (attached env ctx m))

dispatch-IsSound :
    (env : Env) (ctx : Ctx) (m : Msg) (op : Op) → IsSound ctx → IsSound (dispatch env ctx m op).2
unfolding dispatch handle_cancel_add handle_rem withdraw_add handle_shutdown handle_cancel_shutdown
dispatch-IsSound env ctx m add_if v = handle_add-IsSound env ctx m v
dispatch-IsSound env ctx m cancel_add v = ground (arith, try_complete_add-IsSound env ctx v)
dispatch-IsSound env ctx m rem_if v = ground arith
dispatch-IsSound env ctx m shutdown v = ground arith
dispatch-IsSound env ctx m cancel_shutdown v = ground arith
dispatch-IsSound env ctx m op_unknown v = v

serve-IsSound : (env : Env) (ctx : Ctx) (m : Msg) → IsSound ctx → IsSound (serve env ctx m)
unfolding serve handle
serve-IsSound env ctx m v = ground (arith, dispatch-IsSound env ctx m m.op v)

serve_all-IsSound :
    (env : ℕ → Env) (ctx : Ctx) (ms : List Msg) → IsSound ctx → IsSound (serve_all env ctx ms)
unfolding serve_all
serve_all-IsSound env ctx [] v = v
serve_all-IsSound env ctx (m ∷ rest) v =
    serve_all-IsSound env (serve (env m.key) ctx m) rest (serve-IsSound (env m.key) ctx m v)

-- Serving the port, whatever the messages and the answers of the world, keeps the context sound: a
-- parked ADD_IF has its interface, and new clients are refused exactly while a SHUTDOWN is parked.
pub service-IsSound : (env : ℕ → Env) (ctx : Ctx) → IsSound ctx → IsSound (service env ctx)
unfolding service
service-IsSound env ctx v =
    ground (arith, serve_all-IsSound env (record ctx { queue = [] }) ctx.queue)

-- A reply as its receiver tells it: which message, and the result.
abbrev pub answer : Msg → ℕ × Code
answer m = (m.key, m.result)

answers-snoc :
    (ms : List Msg) (m : Msg) → map answer (ms ++ (m ∷ [])) ≡ map answer ms ++ (answer m ∷ [])
answers-snoc ms m = map-append answer ms (m ∷ [])

-- Recalling a parked ADD_IF answers it and leaves the interface as it is. If the interface is ready
-- the ADD_IF succeeds and the recall finds nothing; if not, the ADD_IF is told that the interface is
-- pending and the recall succeeds.
handle_cancel_add_lem :
    (env : Env) (ctx : Ctx) (a : Msg)
    → ctx.pending_add ≡ some a
    → let (verdict, ctx') = handle_cancel_add env ctx in
      (verdict ≡ some (if is_ready env a then err_notfound else ok))
      × (map answer ctx'.replies
          ≡ map answer ctx.replies ++ ((a.key, if is_ready env a then ok else err_pending) ∷ []))
      × (ctx'.pending_add ≡ none)
      × (ctx'.created ≡ ctx.created)
unfolding handle_cancel_add try_complete_add fill_outputs apply_dns
handle_cancel_add_lem env ctx a e = ground (
  arith,
  answers-snoc ctx.replies (record (fill_outputs env (apply_dns ctx) a) { result = ok }),
  answers-snoc ctx.replies (fill_outputs env ctx (record a { result = err_pending })),
)

is_ok_iff : (c : Code) → (is_ok c ≡ true) ↔ (c ≡ ok)
is_ok_iff ok = (λ h. refl, λ h. refl)
is_ok_iff _ = (λ h. cc, λ h. cc)

-- A flag of a configuration is set.
abbrev pub Has : IfConfig → ℕ → Type 0
Has c k = bit_and c.flags k ≢ 0

abbrev pub HasNonZero : List ℕ → Type 0
HasNonZero [] = ⊥
HasNonZero (b ∷ rest) = (b ≢ 0) ⊎ HasNonZero rest

-- A station address: not of a group, which the first byte tells by being odd, and not all zero.
abbrev pub IsStation : List ℕ → Type 0
IsStation a = (get_or a 0 0 % 2 ≡ 0) × HasNonZero a

-- What an ADD_IF must say: a name and a device; a kind up to 2; an MTU, where there is one, that is
-- positive as a LONG; a station address, where there is one; and without DHCP an address and a mask.
abbrev pub IsUsable : IfConfig → Type 0
IsUsable c =
    (get_or c.name 0 0 ≢ 0)
    × (get_or c.device 0 0 ≢ 0)
    × (c.kind ≤ 2)
    × ((bit_and c.flags 8 ≡ 0) ⊎ ((0 < c.mtu) × (c.mtu < 2 ^ 31)))
    × ((bit_and c.flags 16 ≡ 0) ⊎ IsStation c.hw_addr)
    × (Has c 1 ⊎ ((c.addr ≢ 0) × Has c 2))

any_nonzero_iff : (a : List ℕ) → (any_nonzero a ≡ true) ↔ HasNonZero a
unfolding any_nonzero
any_nonzero_iff [] = (λ h. ground (arith, h), λ h. absurd h)
any_nonzero_iff (b ∷ rest) = elim (Bool-cases (b == 0)) [
  | inl z ↦ (
    λ h. inr ((any_nonzero_iff rest).0 (ground (arith, h, z))),
    λ h. ground (arith, h, z, (any_nonzero_iff rest).1),
  )
  | inr z ↦ (λ h. inl (ground (arith, z)), λ h. ground (arith, z))
]

mac_usable_iff : (a : List ℕ) → (mac_usable a ≡ true) ↔ IsStation a
unfolding mac_usable
mac_usable_iff a =
    let low = bit_and_low 1 (get_or a 0 0) in
    (
      λ h. (ground (arith, h, low), (any_nonzero_iff a).0 (ground (arith, h, low))),
      λ h. ground (arith, h.0, low, (any_nonzero_iff a).1 h.1),
    )

config_accepted_iff : (c : IfConfig) → (config_accepted c ≡ true) ↔ IsUsable c
unfolding config_accepted
config_accepted_iff c = elim (Bool-cases (mac_usable c.hw_addr)) [
  | inl z ↦
      let st = (mac_usable_iff c.hw_addr).0 z in
      (λ h. ground (arith, h, z, st), λ h. ground (arith, h, z))
  | inr z ↦ (λ h. ground (arith, h, z), λ h. ground (arith, h, z, (mac_usable_iff c.hw_addr).1))
]

-- ADD_IF is accepted, with its verdict left to the completion of the interface, exactly when no
-- shutdown and no other ADD_IF is pending, there is no interface yet, the configuration passes the
-- checks and the bring-up succeeds; whenever it is refused, the context stays as it was.
pub handle_add_lem :
    (env : Env) (ctx : Ctx) (m : Msg)
    → let (verdict, m', ctx') = handle_add env ctx m in
      ((verdict ≡ none) ↔ (
        (ctx.pending_shutdown ≡ none)
        × (ctx.pending_add ≡ none)
        × (ctx.created ≡ false)
        × IsUsable (terminate m.config)
        × ((env.if_up (terminate m.config)).0 ≡ ok)))
      × ((verdict ≡ none) ⊎ (ctx' ≡ ctx))
unfolding handle_add
handle_add_lem env ctx m = elim (Bool-cases (config_accepted (terminate m.config))) [
  | inl z ↦
      let u = (config_accepted_iff (terminate m.config)).0 z in
      ground (arith, z, u, is_ok_iff (env.if_up (terminate m.config)).0)
  | inr z ↦
      let no : ¬ IsUsable (terminate m.config) =
        λ u. ground (arith, z, (config_accepted_iff (terminate m.config)).1 u) in
      ground (arith, z, no, is_ok_iff (env.if_up (terminate m.config)).0)
]

-- With no shutdown pending and a named interface that is there, REM_IF takes it down unless a
-- socket is bound to its address and force is not set; then it reports the number of such sockets
-- and leaves the context as it was. Taking it down answers an ADD_IF that waited for it.
handle_rem_lem :
    (env : Env) (ctx : Ctx) (m : Msg)
    → ctx.pending_shutdown ≡ none
    → ctx.created ≡ true
    → get_or (set m.config.name 15 0) 0 0 ≢ 0
    → env.finds (set m.config.name 15 0) ≡ true
    → let (verdict, m', ctx') = handle_rem env ctx m in
      (if m.force == 0 && ltb 0 (bound_count env)
        then (verdict ≡ some err_busy) × (m'.count ≡ bound_count env) × (ctx' ≡ ctx)
        else (verdict ≡ some ok) × (ctx'.created ≡ false) × (ctx'.pending_add ≡ none))
unfolding handle_rem withdraw_add
handle_rem_lem env ctx m hs hc hn hf = ground arith
