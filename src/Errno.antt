-- ===== src/Errno.antt =====
-- src/bsdsocket/sb_errno.c: the error cells of an opener and their mirrors in the caller's memory,
-- the strerror tables, and the SetErrnoPtr and Errno calls. A `LONG` is its 32-bit pattern, and the
-- memory is the byte at each address, the most significant byte of a cell first (m68k).
pub mod Mirror
pub mod Text
mod Tests
use lwip_amiga.Base.{
  ℕ, zero, suc, ◌+◌, ◌-◌, ◌*◌, ◌/◌, ◌%◌, ◌^◌, Bool, true, false, ◌&&◌, ◌||◌, Option, none, some,
  List, [], ◌∷◌, ◌==◌, if◌then◌else◌,
}
use Prim.Native.String.{String}

abbrev pub Memory : Type 0
Memory = ℕ → ℕ

-- Where `errnoPtr` points: the base's own cell, nowhere, or `size` bytes of the caller's memory.
pub data ErrnoPtr : Type 0 where
  internal null : ErrnoPtr
  caller : ℕ → ErrnoPtr

-- The error fields of a `struct SocketBase`.
pub record ErrCells : Type 0 where
  pub internal_errno : ℕ
  pub errno_ptr : ErrnoPtr
  pub errno_size : ℕ
  pub h_errno : ℕ
  pub h_errno_ptr : Option ℕ

abbrev pub poke : Memory → ℕ → ℕ → Memory
poke m p v q = if p == q then v % 256 else m q

-- A store of 1, 2 or 4 bytes, the value cut to that width.
unfoldable pub store8 : Memory → ℕ → ℕ → Memory
store8 m p v = poke m p v

unfoldable pub store16 : Memory → ℕ → ℕ → Memory
store16 m p v = poke (poke m p (v / 2 ^ 8)) (p + 1) v

unfoldable pub store32 : Memory → ℕ → ℕ → Memory
store32 m p v =
    poke (poke (poke (poke m p (v / 2 ^ 24)) (p + 1) (v / 2 ^ 16)) (p + 2) (v / 2 ^ 8)) (p + 3) v

unfoldable pub set_errno : ErrCells → Memory → ℕ → ErrCells × Memory
unfolding store8 store16 store32
set_errno e m code = (record e { internal_errno = code }, mirror)
  where
    mirror : Memory
    mirror = elim e.errno_ptr [
      | internal ↦ m
      | null ↦ m
      | caller p ↦
          if e.errno_size == 1
          then store8 m p code
          else if e.errno_size == 2
          then store16 m p code
          else store32 m p code
    ]

unfoldable pub set_herrno : ErrCells → Memory → ℕ → ErrCells × Memory
unfolding store32
set_herrno e m code = (record e { h_errno = code }, mirror)
  where
    mirror : Memory
    mirror = elim e.h_errno_ptr [ none ↦ m | some p ↦ store32 m p code ]

-- The API-wide fail idiom: the pattern of -1 is the result.
unfoldable pub fail : ErrCells → Memory → ℕ → ℕ × ErrCells × Memory
unfolding set_errno
fail e m code = let (e', m') = set_errno e m code in (0xFFFF_FFFF, e', m')

unfoldable pub errno : ErrCells → ℕ
errno e = e.internal_errno

-- `none` is the NULL pointer.
unfoldable pub set_errno_ptr : ErrCells → Option ℕ → ℕ → ErrCells
set_errno_ptr e none size = record e { errno_ptr = internal; errno_size = 4 }
set_errno_ptr e (some p) size =
    if size == 1 || size == 2 || size == 4
    then record e { errno_ptr = caller p; errno_size = size }
    else record e { errno_ptr = internal; errno_size = 4 }

abbrev pub ErrTable : Type 0
ErrTable = List (ℕ × String)

unfoldable pub errno_table : ErrTable
errno_table =
    (4, "Interrupted system call")
    ∷ (6, "Device not configured")
    ∷ (9, "Bad file descriptor")
    ∷ (12, "Cannot allocate memory")
    ∷ (13, "Permission denied")
    ∷ (14, "Bad address")
    ∷ (22, "Invalid argument")
    ∷ (24, "Too many open files")
    ∷ (32, "Broken pipe")
    ∷ (35, "Resource temporarily unavailable")
    ∷ (36, "Operation now in progress")
    ∷ (37, "Operation already in progress")
    ∷ (38, "Socket operation on non-socket")
    ∷ (39, "Destination address required")
    ∷ (40, "Message too long")
    ∷ (42, "Protocol not available")
    ∷ (43, "Protocol not supported")
    ∷ (44, "Socket type not supported")
    ∷ (45, "Operation not supported")
    ∷ (47, "Address family not supported by protocol family")
    ∷ (48, "Address already in use")
    ∷ (49, "Can't assign requested address")
    ∷ (51, "Network is unreachable")
    ∷ (53, "Software caused connection abort")
    ∷ (54, "Connection reset by peer")
    ∷ (55, "No buffer space available")
    ∷ (56, "Socket is already connected")
    ∷ (57, "Socket is not connected")
    ∷ (58, "Can't send after socket shutdown")
    ∷ (60, "Operation timed out")
    ∷ (61, "Connection refused")
    ∷ (65, "No route to host")
    ∷ []

unfoldable pub herrno_table : ErrTable
herrno_table =
    (1, "Unknown host")
    ∷ (2, "Host name lookup failure")
    ∷ (3, "Unknown server error")
    ∷ (4, "No address associated with name")
    ∷ []

unfoldable pub find_text : ErrTable → ℕ → String → String
find_text [] code unknown = unknown
find_text ((c, text) ∷ rest) code unknown = if c == code then text else find_text rest code unknown

unfoldable pub err_lookup : ErrTable → ℕ → String → String
unfolding find_text
err_lookup table code unknown = if code == 0 then "No error" else find_text table code unknown

unfoldable pub errno_text : ℕ → String
errno_text code = err_lookup errno_table code "Unknown error"

unfoldable pub herrno_text : ℕ → String
herrno_text code = err_lookup herrno_table code "Unknown resolver error"
