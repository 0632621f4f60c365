-- ===== src/Patterns.antt =====
-- The regular expressions and string methods of the code, over code points.
use agent_crypto.Base.{
  ℕ, String, Bool, ◌&&◌, ◌||◌, not, List, [], ◌∷◌, leb, ◌==◌, length, all, any, codes, take, drop,
  ◌-◌,
}

abbrev in_range : ℕ → ℕ → ℕ → Bool
in_range lower upper c = leb lower c && leb c upper

abbrev is_digit : ℕ → Bool
is_digit c = in_range b'0' b'9' c

abbrev is_upper : ℕ → Bool
is_upper c = in_range b'A' b'Z' c

abbrev pub is_hex : ℕ → Bool
is_hex c = is_digit c || in_range b'a' b'f' c

-- `re.fullmatch(r"[0-9a-f]{64}", s)`
unfoldable pub is_sha256 : String → Bool
is_sha256 s = length (codes s) == 64 && all (λ c. is_digit c || in_range b'a' b'f' c) (codes s)

abbrev is_flag_codes : List ℕ → Bool
is_flag_codes [] = Bool.false
is_flag_codes (c ∷ cs) =
    is_upper c
    && (leb 2 (length cs)
        && (leb (length cs) 63 && all (λ d. is_upper d || (is_digit d || d == b'_')) cs))

-- `re.fullmatch(r"[A-Z][A-Z0-9_]{2,63}", s)`
unfoldable pub is_flag_code : String → Bool
is_flag_code s = is_flag_codes (codes s)

-- What `str.strip` removes: the Unicode white space.
abbrev is_space : ℕ → Bool
is_space c =
    in_range 9 13 c
    || (in_range 28 32 c
        || (c == 133
            || (c == 160
                || (c == 5760
                    || (in_range 8192 8202 c
                        || (in_range 8232 8233 c || (c == 8239 || (c == 8287 || c == 12288))))))))

-- `bool(s.strip())`
unfoldable pub has_ink : String → Bool
has_ink s = any (λ c. not (is_space c)) (codes s)

abbrev pub last_code : ℕ → List ℕ → ℕ
last_code c [] = c
last_code c (d ∷ ds) = last_code d ds

abbrev is_bare : List ℕ → Bool
is_bare [] = Bool.true
is_bare (c ∷ cs) = not (is_space c) && not (is_space (last_code c cs))

-- `1 <= len(s) <= max_length`, `s == s.strip()`, and no control character in it.
unfoldable pub is_opaque : ℕ → String → Bool
is_opaque max_length s =
    leb 1 (length (codes s))
    && (leb (length (codes s)) max_length
        && (is_bare (codes s) && all (λ c. leb 32 c && not (c == 127)) (codes s)))

abbrev pub same_codes : List ℕ → List ℕ → Bool
same_codes [] [] = Bool.true
same_codes (c ∷ cs) (d ∷ ds) = c == d && same_codes cs ds
same_codes _ _ = Bool.false

-- `s.endswith(t)`
unfoldable pub ends_with : String → String → Bool
ends_with s t =
    leb (length (codes t)) (length (codes s))
    && same_codes (drop (length (codes s) - length (codes t)) (codes s)) (codes t)

abbrev is_unit_name : List ℕ → Bool
is_unit_name [] = Bool.false
is_unit_name (c ∷ cs) =
    (is_upper c || (is_digit c || in_range b'a' b'z' c))
    && (leb (length cs) 126
        && all
            (λ d.
              is_upper d
              || (is_digit d
                  || (in_range b'a' b'z' d
                      || (d == b'_' || (d == b'.' || (d == b'@' || d == b'-'))))))
            cs)

-- `re.fullmatch(r"[A-Za-z0-9][A-Za-z0-9_.@-]{0,126}\.service", s)`
unfoldable pub is_service_unit : String → Bool
unfolding ends_with
is_service_unit s = ends_with s ".service" && is_unit_name (take (length (codes s) - 8) (codes s))

abbrev pub is_lower : ℕ → Bool
is_lower c = in_range b'a' b'z' c

abbrev pub is_lower_rest : ℕ → Bool
is_lower_rest c = is_lower c || (is_digit c || c == b'_')

abbrev pub is_lower_codes : List ℕ → Bool
is_lower_codes [] = Bool.false
is_lower_codes (c ∷ cs) = is_lower c && (leb (length cs) 63 && all is_lower_rest cs)

-- `re.fullmatch(r"[a-z][a-z0-9_]{0,63}", s)`
unfoldable pub is_lower_code : String → Bool
is_lower_code s = is_lower_codes (codes s)

abbrev is_upper_codes : List ℕ → Bool
is_upper_codes [] = Bool.false
is_upper_codes (c ∷ cs) =
    is_upper c && (leb (length cs) 63 && all (λ d. is_upper d || (is_digit d || d == b'_')) cs)

-- `re.fullmatch(r"[A-Z][A-Z0-9_]{0,63}", s)`
unfoldable pub is_upper_code : String → Bool
is_upper_code s = is_upper_codes (codes s)
