-- ===== src/Errno/Tests.antt =====
-- Runs of the sb_errno.c model, and its theorems at concrete cells.
use lwip_amiga.Base.{◌^◌, ◌*◌, ◌%◌, ◌≡◌, inl, inr, refl, some, none, arith}
use lwip_amiga.Errno.{
  Memory, internal, ErrCells, set_errno, set_errno_ptr, errno, errno_text, herrno_text, err_lookup,
  find_text, errno_table, herrno_table,
}
use lwip_amiga.Errno.Mirror.{load, set_errno-set_errno_ptr}

abbrev fresh : ErrCells
fresh = record {
  internal_errno = 0;
  errno_ptr = internal;
  errno_size = 4;
  h_errno = 0;
  h_errno_ptr = none;
}

abbrev blank : Memory
blank p = 0

text_refused : errno_text 61 ≡ "Connection refused"
unfolding errno_text err_lookup find_text errno_table
text_refused = refl

text_host : herrno_text 1 ≡ "Unknown host"
unfolding herrno_text err_lookup find_text herrno_table
text_host = refl

word_mirror : load (set_errno (set_errno_ptr fresh (some 100) 2) blank 35).1 100 2 ≡ 35
unfolding set_errno set_errno_ptr
word_mirror = refl

set_errno-set_errno_ptr_example :
    let (e', m') = set_errno (set_errno_ptr fresh (some 100) 2) blank 35 in
    (errno e' ≡ 35) × (load m' 100 2 ≡ 35 % 2 ^ (8 * 2)) × (m' 102 ≡ blank 102)
set_errno-set_errno_ptr_example =
    set_errno-set_errno_ptr fresh blank 100 2 35 102 (inr (inl refl)) (inr (omega arith))
