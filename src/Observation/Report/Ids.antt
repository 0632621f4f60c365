-- ===== src/Observation/Report/Ids.antt =====
-- The ids of the scenario criteria: `scenario_` and the code.
use Prim.Native.Char.{Char}
use Prim.Native.String.append.{nil, cons}
use agent_crypto.Base.{
  ℕ, String, Bool, true, false, ◌≡◌, refl, ap, sym, ◌∙◌, ◌&&◌, List, [], ◌∷◌, map, all, codes,
  contains, length, leb, ◌==◌, text_eq, text_eq_iff, Bool-cases, inl, inr, arith,
}
use agent_crypto.Patterns.{is_lower_code, is_lower_codes}
use agent_crypto.Observation.Policy.{all_different}
use agent_crypto.Observation.Report.{scenario_id}

-- The criterion `scenario_<code>` keeps to 64 characters.
abbrev pub is_storable : String → Bool
is_storable code = leb (length (codes code)) 55

-- The text character by character.
abbrev spelled : String → String
spelled t = String.◌∷◌ "s" (
    String.◌∷◌ "c" (
      String.◌∷◌ "e" (
        String.◌∷◌ "n"
          (String.◌∷◌ "a" (String.◌∷◌ "r" (String.◌∷◌ "i" (String.◌∷◌ "o" (String.◌∷◌ "_" t))))))))

abbrev put : Char → String → String
put c s = String.◌∷◌ c s

scenario_id_lem : (t : String) → scenario_id t ≡ spelled t
unfolding scenario_id
scenario_id_lem t =
    cons "s" "cenario_" t
    ∙ ap (put "s") (
        cons "c" "enario_" t
        ∙ ap (put "c") (
            cons "e" "nario_" t
            ∙ ap (put "e") (
                cons "n" "ario_" t
                ∙ ap (put "n") (
                    cons "a" "rio_" t
                    ∙ ap (put "a") (
                        cons "r" "io_" t
                        ∙ ap (put "r") (
                            cons "i" "o_" t
                            ∙ ap (put "i") (
                                cons "o" "_" t
                                ∙ ap (put "o") (cons "_" "" t ∙ ap (put "_") (nil t)))))))))

abbrev pub starts_sc : List ℕ → Bool
starts_sc (c ∷ d ∷ cs) = c == b's' && d == b'c'
starts_sc _ = false

-- A criterion id that starts otherwise is no scenario's.
scenario_id_differs :
    (id code : String) → starts_sc (codes id) ≡ false → text_eq id (scenario_id code) ≡ false
scenario_id_differs id code h = elim (Bool-cases (text_eq id (scenario_id code))) [
  | inl same ↦
      let e : starts_sc (codes id) ≡ true =
        ap (λ (s : String). starts_sc (codes s))
          ((text_eq_iff id (scenario_id code)).0 same ∙ scenario_id_lem code) in
      absurd (ground arith)
  | inr differ ↦ differ
]

pub scenario_ids_avoid :
    (id : String) (names : List String)
    → starts_sc (codes id) ≡ false
    → contains (map scenario_id names) id ≡ false
scenario_ids_avoid id [] h = refl
scenario_ids_avoid id (name ∷ names) h =
    ground (arith, scenario_id_differs id name h, scenario_ids_avoid id names h)

abbrev tail_of : String → String
tail_of String.[] = ""
tail_of (String.◌∷◌ c s) = s

after_prefix : String → String
after_prefix s =
    tail_of (tail_of (tail_of (tail_of (tail_of (tail_of (tail_of (tail_of (tail_of s))))))))

scenario_id_inj : (a b : String) → scenario_id a ≡ scenario_id b → a ≡ b
unfolding after_prefix
scenario_id_inj a b h = ap after_prefix (sym (scenario_id_lem a) ∙ h ∙ scenario_id_lem b)

text_eq-scenario_id : (a b : String) → text_eq (scenario_id a) (scenario_id b) ≡ text_eq a b
text_eq-scenario_id a b = elim (Bool-cases (text_eq a b)) [
  | inl same ↦ ground (
    arith,
    text_eq_iff (scenario_id a) (scenario_id b),
    ap scenario_id ((text_eq_iff a b).0 same),
  )
  | inr differ ↦
      ground
        (arith, text_eq_iff (scenario_id a) (scenario_id b), text_eq_iff a b, scenario_id_inj a b)
]

contains-scenario_ids :
    (name : String) (names : List String)
    → contains (map scenario_id names) (scenario_id name) ≡ contains names name
contains-scenario_ids name [] = refl
contains-scenario_ids name (m ∷ names) =
    ground (arith, text_eq-scenario_id name m, contains-scenario_ids name names)

pub different-scenario_ids :
    (names : List String) → all_different (map scenario_id names) ≡ all_different names
different-scenario_ids [] = refl
different-scenario_ids (name ∷ names) =
    ground (arith, contains-scenario_ids name names, different-scenario_ids names)

-- An id keeps to the pattern as long as the code is short enough.
is_lower_code-scenario_id :
    (code : String)
    → is_lower_code code ≡ true
    → is_lower_code (scenario_id code) ≡ is_storable code
unfolding is_lower_code
is_lower_code-scenario_id code h = rw (scenario_id_lem code) (prefixed (codes code) h)
  where
    prefixed :
        (cs : List ℕ)
        → is_lower_codes cs ≡ true
        → is_lower_codes (b's' ∷ b'c' ∷ b'e' ∷ b'n' ∷ b'a' ∷ b'r' ∷ b'i' ∷ b'o' ∷ b'_' ∷ cs)
          ≡ leb (length cs) 55
    prefixed [] h = cc
    prefixed (c ∷ cs) h = ground arith

pub safe-scenario_ids :
    (names : List String)
    → all is_lower_code names ≡ true
    → all is_lower_code (map scenario_id names) ≡ all is_storable names
safe-scenario_ids [] h = refl
safe-scenario_ids (name ∷ names) h =
    ground (arith, is_lower_code-scenario_id name, safe-scenario_ids names)
