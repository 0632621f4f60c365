-- ===== src/Journal/Lines.antt =====
-- `bytes.splitlines`, `bytes.rsplit(b"\n", 1)[0]` and `bytes.endswith(b"\n")`.
use agent_crypto.Base.{
  ℕ, Bool, true, false, ◌≡◌, ◌≢◌, refl, Option, none, some, List, [], ◌∷◌, ◌++◌, All, ◌==◌,
  if◌then◌else◌, arith,
}

abbrev pub newline : ℕ
newline = 10

abbrev carriage_return : ℕ
carriage_return = 13

abbrev push : ℕ → List (List ℕ) → List (List ℕ)
push b [] = (b ∷ []) ∷ []
push b (l ∷ ls) = (b ∷ l) ∷ ls

-- `after_return` tells that the byte before was a carriage return, whose line feed ends no line.
lines_from : Bool → List ℕ → List (List ℕ)
lines_from after_return [] = []
lines_from after_return (b ∷ bs) =
    let rest = lines_from false bs in
    let after = lines_from true bs in
    if b == newline
    then (if after_return then rest else [] ∷ rest)
    else if b == carriage_return
    then [] ∷ after
    else push b rest

unfoldable pub split_lines : List ℕ → List (List ℕ)
unfolding lines_from
split_lines = lines_from false

-- What stands before the last newline, if there is one.
before_newline : List ℕ → Option (List ℕ)
before_newline [] = none
before_newline (b ∷ bs) = elim (before_newline bs) [
  | some p ↦ some (b ∷ p)
  | none ↦ if b == newline then some [] else none
]

unfoldable pub cut_last_line : List ℕ → List ℕ
unfolding before_newline
cut_last_line data' = elim (before_newline data') [ none ↦ data' | some p ↦ p ]

unfoldable pub ends_in_newline : List ℕ → Bool
ends_in_newline [] = false
ends_in_newline (b ∷ []) = b == newline
ends_in_newline (b ∷ c ∷ bs) = ends_in_newline (c ∷ bs)

-- A text without line breaks.
abbrev pub IsInline : List ℕ → Type 0
IsInline = All (λ b. (b ≢ newline) × (b ≢ carriage_return))

lines_from-append :
    (line rest : List ℕ)
    → IsInline line
    → lines_from false (line ++ newline ∷ rest) ≡ line ∷ lines_from false rest
unfolding lines_from
lines_from-append [] rest h = refl
lines_from-append (b ∷ line) rest ((n, r), h) = ground (arith, lines_from-append line rest h)

-- A line and its newline come off the front.
pub split_lines-append :
    (line rest : List ℕ)
    → IsInline line
    → split_lines (line ++ newline ∷ rest) ≡ line ∷ split_lines rest
unfolding split_lines
split_lines-append line rest h = lines_from-append line rest h

pub split_lines-nil : split_lines [] ≡ []
unfolding split_lines
split_lines-nil = refl

before_newline-inline : (torn : List ℕ) → IsInline torn → before_newline torn ≡ none
unfolding before_newline
before_newline-inline [] h = refl
before_newline-inline (b ∷ torn) ((n, r), h) = ground (arith, before_newline-inline torn h)

before_newline-append :
    (whole torn : List ℕ) → IsInline torn → before_newline (whole ++ newline ∷ torn) ≡ some whole
unfolding before_newline
before_newline-append [] torn h = ground (arith, before_newline-inline torn h)
before_newline-append (b ∷ whole) torn h = ground (arith, before_newline-append whole torn h)

-- An unfinished line behind the last newline is cut off, with that newline.
pub cut_last_line-append :
    (whole torn : List ℕ) → IsInline torn → cut_last_line (whole ++ newline ∷ torn) ≡ whole
unfolding cut_last_line
cut_last_line-append whole torn h = rw (before_newline-append whole torn h, cut_last_line) refl

-- Without any newline nothing is cut off.
pub cut_last_line-inline : (torn : List ℕ) → IsInline torn → cut_last_line torn ≡ torn
unfolding cut_last_line
cut_last_line-inline torn h = rw (before_newline-inline torn h, cut_last_line) refl

pub ends_in_newline-inline : (torn : List ℕ) → IsInline torn → ends_in_newline torn ≡ false
unfolding ends_in_newline
ends_in_newline-inline [] h = refl
ends_in_newline-inline (b ∷ []) ((n, r), h) = ground arith
ends_in_newline-inline (b ∷ c ∷ torn) (_, h) = ends_in_newline-inline (c ∷ torn) h

-- The end of a text is the end of its last part, if that is not empty.
pub ends_in_newline-append :
    (xs : List ℕ) (y : ℕ) (ys : List ℕ) → ends_in_newline (xs ++ y ∷ ys) ≡ ends_in_newline (y ∷ ys)
unfolding ends_in_newline
ends_in_newline-append [] y ys = refl
ends_in_newline-append (x ∷ []) y ys = refl
ends_in_newline-append (x ∷ x' ∷ xs) y ys = ends_in_newline-append (x' ∷ xs) y ys
