-- ===== src/Log/Expand.antt =====
-- The expansion of `%m`, and the expanded format with no bound.
use lwip_amiga.Base.{
  ℕ, zero, suc, ◌-◌, ◌≡◌, refl, false, ◌&&◌, List, [], ◌∷◌, ◌++◌, ◌==◌, if◌then◌else◌, arith, take,
  length, ap, sym,
}
use lwip_amiga.Log.{Text, has_m, expand, expand_m}

-- Every `%m` replaced, `%%` skipped, with no bound.
abbrev pub expanded : Text → Text → Text
expanded [] error = []
expanded (c ∷ []) error = c ∷ []
expanded (c ∷ d ∷ rest) error =
    let behind = expanded rest error in
    let next = expanded (d ∷ rest) error in
    if c == 37 && d == 109
    then error ++ behind
    else if c == 37 && d == 37
    then c ∷ d ∷ behind
    else c ∷ next

minus_zero : (n : ℕ) → n ≡ n - 0
minus_zero n = omega arith

take-nil : {A : Type 0} (n : ℕ) → take {A = A} n [] ≡ []
take-nil zero = refl
take-nil (suc n) = refl

take-append :
    {A : Type 0} (n : ℕ) (xs ys : List A) → take n (xs ++ ys) ≡ take n xs ++ take (n - length xs) ys
take-append zero [] ys = refl
take-append zero (x ∷ xs) ys = grind arith
take-append (suc n) [] ys = ap (λ t. take t ys) (minus_zero (suc n))
take-append (suc n) (x ∷ xs) ys = ground (arith, take-append n xs ys)

expand_lem : (room : ℕ) (fmt error : Text) → expand room fmt error ≡ take room (expanded fmt error)
unfolding expand
expand_lem zero [] error = refl
expand_lem zero (c ∷ rest) error = refl
expand_lem (suc room) [] error = refl
expand_lem (suc room) (c ∷ []) error = ap (λ t. c ∷ t) (sym (take-nil room))
expand_lem (suc room) (c ∷ d ∷ rest) error = ground (
  arith,
  take-append (suc room) error (expanded rest error),
  expand_lem (suc room - length error) rest error,
  expand_lem (room - 1) rest error,
  expand_lem room (d ∷ rest) error,
)

-- What is written of a format into a buffer is the format with each `%m` replaced, cut to one less
-- than the buffer.
pub expand_m_lem :
    (max : ℕ) (fmt error : Text) → expand_m max fmt error ≡ take (max - 1) (expanded fmt error)
unfolding expand_m
expand_m_lem max fmt error = expand_lem (max - 1) fmt error

-- A format in which no `%m` is found is its own expansion.
has_m_lem : (fmt error : Text) → has_m fmt ≡ false → expanded fmt error ≡ fmt
unfolding has_m
has_m_lem [] error e = refl
has_m_lem (c ∷ []) error e = refl
has_m_lem (c ∷ d ∷ rest) error e =
    ground (arith, e, has_m_lem rest error, has_m_lem (d ∷ rest) error)
