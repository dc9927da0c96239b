-- ===== src/Log/Ring.antt =====
-- The log as a queue of lines, for whoever installs a hook.
use lwip_amiga.Base.{
  ℕ, zero, suc, ◌+◌, ◌-◌, ◌%◌, ◌^◌, ◌≤◌, ◌<◌, ◌≡◌, inl, inr, refl, sym, ◌∙◌, ap, false, Option,
  none, some, List, [], ◌∷◌, ◌++◌, append-nil, append_assoc, map, ltb, arith, Bool-cases, ap₂, ◌==◌,
  ==→eq, Option-cases, length, set, take, drop, length-append, length-set, bit_and, ltb→lt,
}
use lwip_amiga.Base.Bits.{bit_and_low}
use lwip_amiga.Log.{
  Text, copied, Message, Entry, Log, entry_of, message_of, ring_put, ring_replay, emit, set_hook,
  bare_line,
}
use lwip_amiga.Log.Told.{Line, bare_line-unended, told_tag, told, same_message, calls_of, latest}
use lwip_amiga.Log.Queue.{
  newest, contents_of, replay_from-entries, length-entries_from, drop-zero, put_room, put_full,
  newest-newest, entries_from,
}

-- The ring is allocated and its indices are within it.
abbrev pub IsRing : Log → List Entry → Type 0
IsRing l es = (l.ring ≡ some es) × (length es ≡ 16) × (l.head < 16) × (l.count ≤ 16)

abbrev next : Log → List Entry → Message → List Entry
next l es m = set es l.head (entry_of m)

ring_put-IsRing :
    (l : Log) (es : List Entry) (m : Message)
    → IsRing l es
    → IsRing (ring_put l m) (next l es m)
      × (contents_of (next l es m) (ring_put l m).head (ring_put l m).count
          ≡ newest (contents_of es l.head l.count ++ (entry_of m ∷ [])))
unfolding ring_put
ring_put-IsRing l es m (r, n, h, c) = elim (Bool-cases (ltb l.count 16)) [
  | inl z ↦ ground (
    arith,
    r,
    z,
    length-set es l.head (entry_of m),
    put_room es (entry_of m) l.head l.count n h (ltb→lt l.count 16 z),
    length-append (contents_of es l.head l.count) (entry_of m ∷ []),
    length-entries_from es ((l.head + 16 - l.count) % 16) l.count,
    drop-zero (length (contents_of es l.head l.count ++ (entry_of m ∷ [])) - 16)
        (contents_of es l.head l.count ++ (entry_of m ∷ [])),
  )
  | inr z ↦
      let full : l.count ≡ 16 = ground arith in
      let es' = contents_of es l.head l.count ++ (entry_of m ∷ []) in
      let one_over : length es' - 16 ≡ 1 = ground (
        arith,
        length-append (contents_of es l.head l.count) (entry_of m ∷ []),
        length-entries_from es ((l.head + 16 - l.count) % 16) l.count,
      ) in
      ground (
        arith,
        r,
        z,
        full,
        length-set es l.head (entry_of m),
        one_over,
        put_full es (entry_of m) l.head n h,
      )
]

-- What the ring keeps of a line.
abbrev pub kept : Line → Entry
kept x = record {
  date = x.now;
  id = x.id;
  pri = bit_and x.pri 7 % 2 ^ 8;
  tag = elim x.tag [ none ↦ [] | some t ↦ copied 32 t ];
  text = copied 128 (bare_line x.text);
}

abbrev pub emit_all : Log → List Line → Log
emit_all l [] = l
emit_all l (x ∷ rest) = emit_all (emit l x.now x.pri x.tag x.id x.text) rest

-- A log with nobody listening.
abbrev pub IsUnread : Log → Type 0
IsUnread l = (l.hook ≡ none) × (l.busy ≡ false)

abbrev message : Line → Message
message x = record {
  priority = bit_and x.pri 7;
  date = x.now;
  tag = x.tag;
  id = x.id;
  text = bare_line x.text;
}

emit-ring_put :
    (l : Log) (x : Line)
    → IsUnread l
    → emit l x.now x.pri x.tag x.id x.text ≡ ring_put l (message x)
unfolding emit
emit-ring_put l x (h, b) = ground (arith, h, b)

ring_put-IsUnread :
    (l : Log) (m : Message)
    → IsUnread l
    → IsUnread (ring_put l m) × ((ring_put l m).calls ≡ l.calls)
unfolding ring_put
ring_put-IsUnread l m v = elim (Option-cases l.ring) [
  | inl n ↦ ground (arith, n, v)
  | inr (es, n) ↦ ground (arith, n, v)
]

all_new :
    (l : Log) (es : List Entry)
    → IsRing l es
    → contents_of es l.head l.count ≡ newest (contents_of es l.head l.count ++ [])
all_new l es (r, n, h, c) =
    let xs = contents_of es l.head l.count in
    sym (
      drop-zero (length (xs ++ []) - 16) (xs ++ []) (
        ground
          (arith, append-nil xs, length-entries_from es ((l.head + 16 - l.count) % 16) l.count))
      ∙ append-nil xs)

-- The lines of a log that nobody reads stand in its ring, the newest of them and of what was there.
emit_all-contents :
    (l : Log) (es : List Entry) (lines : List Line)
    → IsRing l es
    → IsUnread l
    → ((emit_all l lines).calls ≡ l.calls)
      × ((es' : List Entry) × IsRing (emit_all l lines) es'
          × (contents_of es' (emit_all l lines).head (emit_all l lines).count
              ≡ newest (contents_of es l.head l.count ++ map kept lines)))
      × IsUnread (emit_all l lines)
emit_all-contents l es [] w v = (refl, (es, w, all_new l es w), v)
emit_all-contents l es (x ∷ rest) w v =
    let (w', e) = ring_put-IsRing l es (message x) w in
    let (v', c) = ring_put-IsUnread l (message x) v in
    let (c', (es', w'', e'), v'') =
      emit_all-contents (ring_put l (message x)) (next l es (message x)) rest w' v' in
    let now = contents_of es l.head l.count in
    let held =
      e'
      ∙ ap (λ t. newest (t ++ map kept rest)) e
      ∙ newest-newest (now ++ (kept x ∷ [])) (map kept rest)
      ∙ ap newest (append_assoc now (kept x ∷ []) (map kept rest)) in
    rw (emit_all, emit-ring_put l x v) (c' ∙ c, (es', w'', held), v'')

set_hook-replays :
    (l : Log) (es : List Entry) (h base : ℕ)
    → IsRing l es
    → IsUnread l
    → (set_hook l (some h) base).calls
      ≡ l.calls ++ map (λ e. (h, message_of e)) (contents_of es l.head l.count)
unfolding set_hook ring_replay
set_hook-replays l es h base (r, n, a, c) (k, b) = elim (Bool-cases (l.count == 0)) [
  | inl z ↦ ground (arith, r, b, z, ==→eq l.count 0 z, append-nil l.calls)
  | inr z ↦ ground (arith, r, b, z, replay_from-entries h es ((l.head + 16 - l.count) % 16) l.count)
]

none_from : (es : List Entry) (i n : ℕ) → n ≡ 0 → entries_from es i n ≡ []
none_from es i zero e = refl
none_from es i (suc n) e = absurd (omega arith)

tag_told :
    (x : Line) (t : Option Text) → (message_of (kept (record x { tag = t }))).tag ≡ told_tag t
tag_told x none = refl
tag_told x (some []) = refl
tag_told x (some (c ∷ u)) = refl

told-kept : (x : Line) → message_of (kept x) ≡ told x
told-kept x =
    let text = ap (take 127) (bare_line-unended x.text) in
    same_message (bit_and x.pri 7 % 2 ^ 8) (x.pri % 8) x.now x.id _ _ _ _
      (omega (arith, bit_and_low 3 x.pri)) (tag_told x x.tag) text

newest_told :
    (n h : ℕ) (lines : List Line)
    → map {B = ℕ × Message} (λ e. (h, message_of e)) (drop n (map kept lines))
      ≡ calls_of h (drop n (map told lines))
newest_told zero h [] = refl
newest_told (suc n) h [] = refl
newest_told zero h (x ∷ lines) =
    let call : Message → List (ℕ × Message) → List (ℕ × Message) = λ m ms. (h, m) ∷ ms in
    ap₂ call (told-kept x) (newest_told zero h lines)
newest_told (suc n) h (x ∷ lines) = newest_told n h lines

length-kept : (lines : List Line) → length (map kept lines) ≡ length lines
length-kept [] = refl
length-kept (x ∷ lines) = ap suc (length-kept lines)

-- A log that is allocated, empty and read by nobody takes lines, and then a hook is installed: the
-- hook is called once for each of the last sixteen of the lines, oldest first, with the level's three
-- bits, the date, the tag cut to 31 characters (none for an empty one), the task, and the text without a
-- newline at its end, cut to 127; and with nothing else.
pub set_hook-emit_all :
    (l : Log) (es : List Entry) (lines : List Line) (h base : ℕ)
    → IsRing l es
    → l.count ≡ 0
    → IsUnread l
    → (set_hook (emit_all l lines) (some h) base).calls ≡ l.calls ++ calls_of h (latest lines)
set_hook-emit_all l es lines h base w z v =
    let (c, (es', w', e), v') = emit_all-contents l es lines w v in
    let call : Entry → ℕ × Message = λ x. (h, message_of x) in
    set_hook-replays (emit_all l lines) es' h base w' v'
    ∙ ap₂ (λ cs xs. cs ++ map call xs) c e
    ∙ ap (λ xs. l.calls ++ map call (newest (xs ++ map kept lines)))
        (none_from es ((l.head + 16 - l.count) % 16) l.count z)
    ∙ ap (λ n. l.calls ++ map call (drop (n - 16) (map kept lines))) (length-kept lines)
    ∙ ap (λ xs. l.calls ++ xs) (newest_told (length lines - 16) h lines)
