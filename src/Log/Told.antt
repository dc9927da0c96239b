-- ===== src/Log/Told.antt =====
-- What the listener of a log is to be told of a line, apart from the ring that keeps it.
use lwip_amiga.Base.{
  ℕ, ◌-◌, ◌%◌, ◌≡◌, refl, ap, Option, none, some, List, [], ◌∷◌, map, ◌==◌, if◌then◌else◌, length,
  take, drop, arith,
}
use lwip_amiga.Log.{Text, Message, bare_line}

-- The arguments of `emit` for one line.
pub record Line : Type 0 where
  pub now : ℕ
  pub pri : ℕ
  pub tag : Option Text
  pub id : ℕ
  pub text : Text

abbrev pub last_of : Text → ℕ
last_of [] = 0
last_of (c ∷ []) = c
last_of (c ∷ d ∷ t) = last_of (d ∷ t)

-- A text without the newline that it may end with.
abbrev pub unended : Text → Text
unended t = if last_of t == 10 then take (length t - 1) t else t

take_all : (t : Text) → take (length t) t ≡ t
take_all [] = refl
take_all (c ∷ t) = ap (◌∷◌ c) (take_all t)

pub bare_line-unended : (t : Text) → bare_line t ≡ unended t
unfolding bare_line
bare_line-unended [] = refl
bare_line-unended (c ∷ []) = ground arith
bare_line-unended (c ∷ d ∷ t) = ground (arith, bare_line-unended (d ∷ t))

abbrev pub told_tag : Option Text → Option Text
told_tag none = none
told_tag (some []) = none
told_tag (some (c ∷ t)) = some (c ∷ take 30 t)

-- What a listener is to be told of a line: the level's three bits, the date, the first 31 characters of
-- the tag (none for an empty one), the task, and the first 127 characters of the text without a newline
-- at its end.
abbrev pub told : Line → Message
told x = record {
  priority = x.pri % 8;
  date = x.now;
  tag = told_tag x.tag;
  id = x.id;
  text = take 127 (unended x.text);
}

pub same_message :
    (p q d i : ℕ) (t u : Option Text) (x y : Text)
    → p ≡ q
    → t ≡ u
    → x ≡ y
    → Path Message
        (record { priority = p; date = d; tag = t; id = i; text = x })
        (record { priority = q; date = d; tag = u; id = i; text = y })
same_message p q d i t u x y e f g = rw (e, f, g) refl

-- The calls of a hook with messages.
abbrev pub calls_of : ℕ → List Message → List (ℕ × Message)
calls_of h [] = []
calls_of h (m ∷ ms) = (h, m) ∷ calls_of h ms

-- The last sixteen of the messages for lines.
abbrev pub latest : List Line → List Message
latest lines = drop (length lines - 16) (map told lines)
