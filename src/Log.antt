-- ===== src/Log.antt =====
-- The log facility of src/bsdsocket/sb_log.c: the replay ring, the hook and the expansion of `%m`.
-- A text is the list of its characters without the NUL; the calls of the hook are collected in
-- `calls`, oldest first. A hook that logs does so while `busy`. The ring is `none` where its
-- allocation failed. `SB_LOG_RING` is 16.
pub mod Queue
pub mod Told
pub mod Ring
pub mod Expand
mod Tests
use lwip_amiga.Base.{
  ℕ, zero, suc, ◌+◌, ◌-◌, ◌*◌, ◌/◌, ◌%◌, ◌^◌, Bool, true, false, not, ◌&&◌, ◌||◌, Option, none,
  some, List, [], ◌∷◌, ◌++◌, ◌==◌, ◌!=◌, ltb, leb, if◌then◌else◌, length, get_or, set, take,
  bit_and, shl,
}

abbrev pub Text : Type 0
Text = List ℕ

-- `struct SbLogHookMessage`; a missing tag is NULL.
pub record Message : Type 0 where
  pub priority : ℕ
  pub date : ℕ
  pub tag : Option Text
  pub id : ℕ
  pub text : Text

-- `struct SbLogEntry`
pub record Entry : Type 0 where
  pub date : ℕ
  pub id : ℕ
  pub pri : ℕ
  pub tag : Text
  pub text : Text

-- The fields of the root base that the log uses, and the calls made of hooks, by their number.
pub record Log : Type 0 where
  pub hook : Option ℕ
  pub owner : Option ℕ
  pub busy : Bool
  pub ring : Option (List Entry)
  pub head : ℕ
  pub count : ℕ
  pub calls : List (ℕ × Message)

abbrev pub ring_size : ℕ
ring_size = 16

abbrev pub blank : Entry
blank = record { date = 0; id = 0; pri = 0; tag = []; text = [] }

-- `strlcpy` into a buffer of a size.
abbrev pub copied : ℕ → Text → Text
copied size text = take (size - 1) text

abbrev pub entry_of : Message → Entry
entry_of m = record {
  date = m.date;
  id = m.id;
  pri = m.priority % 2 ^ 8;
  tag = elim m.tag [ none ↦ [] | some t ↦ copied 32 t ];
  text = copied 128 m.text;
}

abbrev pub message_of : Entry → Message
message_of e = record {
  priority = e.pri;
  date = e.date;
  tag = elim e.tag [ [] ↦ none | c ∷ rest ↦ some (c ∷ rest) ];
  id = e.id;
  text = e.text;
}

unfoldable pub ring_put : Log → Message → Log
ring_put l m = elim l.ring [
  | none ↦ l
  | some entries ↦ record l {
    ring = some (set entries l.head (entry_of m));
    head = ((l.head + 1) % ring_size) % 2 ^ 8;
    count = if ltb l.count ring_size then l.count + 1 else l.count;
  }
]

-- The calls of the loop of `sb_log_ring_replay`, `n` entries from index `i`.
unfoldable pub replay_from : ℕ → List Entry → ℕ → ℕ → List (ℕ × Message)
replay_from hook entries i zero = []
replay_from hook entries i (suc n) =
    (hook, message_of (get_or entries i blank)) ∷ replay_from hook entries ((i + 1) % ring_size) n

unfoldable pub ring_replay : Log → ℕ → List Entry → Log
ring_replay l hook entries = record l {
  calls = l.calls ++ replay_from hook entries ((l.head + ring_size - l.count) % ring_size) l.count;
  count = 0;
  head = 0;
}

-- One newline at the end of a text goes.
unfoldable pub bare_line : Text → Text
bare_line [] = []
bare_line (c ∷ []) = if c == 10 then [] else c ∷ []
bare_line (c ∷ d ∷ rest) = c ∷ bare_line (d ∷ rest)

unfoldable pub emit : Log → ℕ → ℕ → Option Text → ℕ → Text → Log
emit l now pri tag id text = if l.busy then l else to_hook l.hook
  where
    m : Message
    m = record { priority = bit_and pri 7; date = now; tag = tag; id = id; text = bare_line text }

    to_hook : Option ℕ → Log
    to_hook none = ring_put l m
    to_hook (some h) = record l { calls = l.calls ++ ((h, m) ∷ []) }

unfoldable pub set_hook : Log → Option ℕ → ℕ → Log
set_hook l none base = record l { hook = none; owner = none }
set_hook l (some h) base = replayed l.ring
  where
    set : Log
    set = record l { hook = some h; owner = some base }

    replayed : Option (List Entry) → Log
    replayed none = set
    replayed (some entries) = if l.count != 0 && not l.busy then ring_replay set h entries else set

unfoldable pub owner_closed : Log → Option ℕ → Log
owner_closed l base = if is_owner l.owner base then record l { hook = none; owner = none } else l
  where
    is_owner : Option ℕ → Option ℕ → Bool
    is_owner none none = true
    is_owner (some a) (some b) = a == b
    is_owner _ _ = false

-- `%m` anywhere in a format; `%%` is skipped.
unfoldable pub has_m : Text → Bool
has_m [] = false
has_m (c ∷ []) = false
has_m (c ∷ d ∷ rest) =
    let behind = has_m rest in
    let next = has_m (d ∷ rest) in
    if c != 37 then next else if d == 109 then true else if d == 37 then behind else next

-- `room` is what `max - 1 - o` is in the code.
unfoldable pub expand : ℕ → Text → Text → Text
expand room [] error = []
expand zero fmt error = []
expand (suc room) (c ∷ []) error = c ∷ []
expand (suc room) (c ∷ d ∷ rest) error =
    let replaced = take (suc room) error ++ expand (suc room - length error) rest error in
    let behind = expand (room - 1) rest error in
    let next = expand room (d ∷ rest) error in
    if c == 37 && d == 109
    then replaced
    else if c == 37 && d == 37 && ltb 0 room
    then c ∷ d ∷ behind
    else c ∷ next

unfoldable pub expand_m : ℕ → Text → Text → Text
expand_m max fmt error = expand (max - 1) fmt error

-- A client's line: `mask`, `facility` and `tag` are the opener's, `error` the text of its errno, and
-- `format` what the formatter makes of a format in `SB_SYSLOG_BUF` bytes.
unfoldable pub vsyslog :
    (Text → Text) → Log → ℕ → ℕ → Option Text → ℕ → Text → ℕ → Option Text → Log
vsyslog format l mask facility tag now error pri none = l
vsyslog format l mask facility tag now error pri (some fmt) =
    if bit_and mask (shl 1 (bit_and pri 7)) == 0
    then l
    else emit l now (bit_and pri 7) tag
        (if bit_and pri 0x3F8 == 0 then facility else bit_and pri 0x3F8)
        (format (if has_m fmt then expand_m 128 fmt error else fmt))
