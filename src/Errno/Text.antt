-- ===== src/Errno/Text.antt =====
-- The strerror tables of sb_errno.c.
use lwip_amiga.Base.{
  ℕ, suc, ◌≡◌, ◌≢◌, ◌⊎◌, inl, inr, refl, Bool, true, false, not, ◌&&◌, zero, some, get_elem?, sym,
  ◌∙◌, [], ◌∷◌, ◌==◌, arith, ◌||◌, ne→==_false,
}
use Prim.Native.String.{String}
use lwip_amiga.Errno.{ErrTable, errno_table, find_text, err_lookup, errno_text}

-- Codes that a table lists.
abbrev pub listed : ErrTable → ℕ → Bool
listed [] code = false
listed ((c, text) ∷ rest) code = c == code || listed rest code

find_text_unlisted :
    (t : ErrTable) (code : ℕ) (unknown : String)
    → listed t code ≡ false
    → find_text t code unknown ≡ unknown
unfolding find_text
find_text_unlisted [] code u h = refl
find_text_unlisted ((c, text) ∷ rest) code u h = ground (arith, find_text_unlisted rest code u)

-- No code stands twice in a table, nor 0.
distinct : ErrTable → Bool
distinct [] = true
distinct ((c, text) ∷ rest) = not (c == 0) && not (listed rest c) && distinct rest

listed_of_get :
    (t : ErrTable) (i code : ℕ) (text : String)
    → get_elem? t i ≡ some (code, text)
    → listed t code ≡ true
listed_of_get [] i code text h = cc
listed_of_get ((c, x) ∷ rest) zero code text h = ground arith
listed_of_get ((c, x) ∷ rest) (suc i) code text h = ground (arith, listed_of_get rest i code text)

err_lookup_get :
    (t : ErrTable) (i code : ℕ) (text unknown : String)
    → distinct t ≡ true
    → get_elem? t i ≡ some (code, text)
    → (code ≢ 0) × (find_text t code unknown ≡ text)
unfolding find_text distinct
err_lookup_get [] i code text u d h = cc
err_lookup_get ((c, x) ∷ rest) zero code text u d h = ground arith
err_lookup_get ((c, x) ∷ rest) (suc i) code text u d h =
    ground (arith, err_lookup_get rest i code text u, listed_of_get rest i code text h)

table_distinct : distinct errno_table ≡ true
unfolding distinct errno_table
table_distinct = refl

-- A code and text that stand together in the errno table are what `errno_text` returns for the code;
-- a nonzero code that the table does not list has the text "Unknown error".
errno_text_lem :
    (code i : ℕ) (text : String)
    → (get_elem? errno_table i ≡ some (code, text))
      ⊎ ((code ≢ 0) × (listed errno_table code ≡ false) × (text ≡ "Unknown error"))
    → errno_text code ≡ text
unfolding errno_text err_lookup
errno_text_lem code i text (inl h) =
    let found = err_lookup_get errno_table i code text "Unknown error" table_distinct h in
    rw (ne→==_false code 0 found.0) found.1
errno_text_lem code i text (inr h) =
    rw (ne→==_false code 0 h.0) (find_text_unlisted errno_table code _ h.1 ∙ sym h.2)
