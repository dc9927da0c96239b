-- ===== src/Log/Tests.antt =====
-- A ring that eighteen lines go around, an expansion, and the theorems on them.
use lwip_amiga.Base.{
  ℕ, zero, suc, ◌-◌, ◌≡◌, refl, false, none, some, List, [], ◌∷◌, ◌++◌, map, arith, take,
}
use lwip_amiga.Log.{
  Entry, Log, blank, emit, ring_put, set_hook, ring_replay, replay_from, bare_line, has_m, expand,
  expand_m, owner_closed, vsyslog,
}
use lwip_amiga.Log.Told.{calls_of, latest, Line}
use lwip_amiga.Log.Ring.{emit_all, set_hook-emit_all}
use lwip_amiga.Log.Expand.{expanded, expand_m_lem}

abbrev blanks : ℕ → List Entry
blanks zero = []
blanks (suc n) = blank ∷ blanks n

abbrev boot : Log
boot = record {
  hook = none;
  owner = none;
  busy = false;
  ring = some (blanks 16);
  head = 3;
  count = 0;
  calls = [];
}

abbrev line : ℕ → Line
line n = record { now = n; pri = 13; tag = some (110 ∷ []); id = 0; text = 65 ∷ n ∷ 10 ∷ [] }

abbrev lines_from : ℕ → ℕ → List Line
lines_from n zero = []
lines_from n (suc k) = line n ∷ lines_from (suc n) k

around_run :
    map (λ c. c.1.date) (set_hook (emit_all boot (lines_from 100 18)) (some 7) 1).calls
    ≡ 102 ∷ 103 ∷ 104 ∷ 105 ∷ 106 ∷ 107 ∷ 108 ∷ 109 ∷ 110 ∷ 111 ∷ 112 ∷ 113 ∷ 114 ∷ 115 ∷ 116 ∷ 117
      ∷ []
unfolding emit ring_put set_hook ring_replay replay_from bare_line
around_run = refl

-- "a%mb" with the text "xyz", in a buffer of four.
cut_run : expand_m 4 (97 ∷ 37 ∷ 109 ∷ 98 ∷ []) (120 ∷ 121 ∷ 122 ∷ []) ≡ 97 ∷ 120 ∷ 121 ∷ []
unfolding expand_m expand
cut_run = refl

-- A client's "%m" of priority 3 is masked, and of priority 4 is not.
masked_run :
    map
      (λ c. c.1.text)
      (vsyslog
        (λ t. t)
        (vsyslog
          (λ t. t)
          (record boot { hook = some 5 })
          0xF0
          8
          none
          1
          (120 ∷ [])
          3
          (some (37 ∷ 109 ∷ [])))
        0xF0
        8
        none
        1
        (120 ∷ [])
        4
        (some (37 ∷ 109 ∷ []))).calls
    ≡ (120 ∷ []) ∷ []
unfolding vsyslog emit has_m expand_m expand bare_line
masked_run = refl

closed_run : (owner_closed (set_hook boot (some 7) 1) (some 1)).hook ≡ none
unfolding owner_closed set_hook
closed_run = refl

set_hook-emit_all_example :
    (set_hook (emit_all boot (lines_from 100 18)) (some 7) 1).calls
    ≡ [] ++ calls_of 7 (latest (lines_from 100 18))
set_hook-emit_all_example =
    set_hook-emit_all boot (blanks 16) (lines_from 100 18) 7 1
      (refl, refl, omega arith, omega arith) refl (refl, refl)

expand_m_lem_example :
    expand_m 4 (97 ∷ 37 ∷ 109 ∷ 98 ∷ []) (120 ∷ 121 ∷ 122 ∷ [])
    ≡ take (4 - 1) (expanded (97 ∷ 37 ∷ 109 ∷ 98 ∷ []) (120 ∷ 121 ∷ 122 ∷ []))
expand_m_lem_example = expand_m_lem 4 (97 ∷ 37 ∷ 109 ∷ 98 ∷ []) (120 ∷ 121 ∷ 122 ∷ [])
