-- ===== src/NetCtl/Message.antt =====
-- The objects of the control port: messages, the context of the stack task, and what a call reads
-- of the world.
use lwip_amiga.Base.{
  ℕ, Bool, true, false, ◌||◌, Option, List, [], ◌∷◌, ◌++◌, ◌!=◌, if◌then◌else◌, bit_and, get_or,
}
use lwip_amiga.Sock.State.{Opener}

-- `ncm_Op`; any other number is `op_unknown`.
pub data Op : Type 0 where
  add_if cancel_add rem_if shutdown cancel_shutdown op_unknown : Op

-- `NETCTL_OK` and `NETCTL_ERR_*`.
pub data Code : Type 0 where
  ok err_version err_op err_param err_exists err_notfound err_busy err_device err_nomem : Code
  err_inactive err_pending err_aborted err_hwtype : Code

-- `struct NetCtlIfConfig`: strings are the bytes of their arrays, and a `LONG` is its 32-bit pattern.
pub record IfConfig : Type 0 where
  pub name : List ℕ
  pub device : List ℕ
  pub id : List ℕ
  pub kind : ℕ
  pub flags : ℕ
  pub addr : ℕ
  pub mtu : ℕ
  pub hw_addr : List ℕ

-- The address words that a reply reports.
pub record Outputs : Type 0 where
  pub addr : ℕ
  pub mask : ℕ
  pub gateway : ℕ
  pub dns0 : ℕ
  pub dns1 : ℕ

-- `struct NetCtlMsg`; `key` tells one delivered message from another.
pub record Msg : Type 0 where
  pub key : ℕ
  pub version : ℕ
  pub op : Op
  pub result : Code
  pub aux : ℕ
  pub force : ℕ
  pub count : ℕ
  pub config : IfConfig
  pub out : Outputs

-- The fields of `struct SbStackCtx` and of the root base that the control port uses.
pub record Ctx : Type 0 where
  pub port : Bool
  pub queue : List Msg
  pub created : Bool
  pub pending_add : Option Msg
  pub pending_shutdown : Option Msg
  pub shutting_down : Bool
  pub open_count : ℕ
  pub openers : List Opener
  pub cfg_dns0 : ℕ
  pub cfg_dns1 : ℕ
  pub dns0 : ℕ
  pub dns1 : ℕ
  pub last_start : ℕ × ℕ
  pub nudged : List (ℕ × ℕ)
  pub replies : List Msg

-- What one call is answered by code outside this part: `sb_if_up` for a configuration (its result
-- and `aux`), the lease and the link of the interface, its addresses, whether `sb_if_find` finds it
-- by a name, the local addresses of the lwIP control blocks, and the time.
pub record Env : Type 0 where
  pub if_up : IfConfig → Code × ℕ
  pub leased : Bool
  pub link_up : Bool
  pub addr : ℕ
  pub mask : ℕ
  pub gateway : ℕ
  pub finds : List ℕ → Bool
  pub tcp_active : List ℕ
  pub tcp_listen : List ℕ
  pub udp : List ℕ
  pub now : ℕ × ℕ

abbrev pub iff_dhcp : ℕ
iff_dhcp = 1

abbrev pub iff_has_mask : ℕ
iff_has_mask = 2

abbrev pub iff_has_mtu : ℕ
iff_has_mtu = 8

abbrev pub iff_has_hwaddr : ℕ
iff_has_hwaddr = 16

abbrev pub has_flag : IfConfig → ℕ → Bool
has_flag c f = bit_and c.flags f != 0

abbrev pub is_ok : Code → Bool
is_ok ok = true
is_ok _ = false

unfoldable pub any_nonzero : List ℕ → Bool
any_nonzero [] = false
any_nonzero (b ∷ rest) = b != 0 || any_nonzero rest

-- A usable station address: not all zero, and the group bit clear.
unfoldable pub mac_usable : List ℕ → Bool
unfolding any_nonzero
mac_usable mac = if bit_and (get_or mac 0 0) 1 != 0 then false else any_nonzero mac

-- `ReplyMsg`
abbrev pub reply : Ctx → Msg → Ctx
reply ctx m = record ctx { replies = ctx.replies ++ (m ∷ []) }
