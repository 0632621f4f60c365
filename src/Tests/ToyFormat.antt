-- ===== src/Tests/ToyFormat.antt =====
-- A concrete format for journal records that satisfies the laws: an object without other items is
-- written as numbers above every line break, each text closed by a mark.
use agent_crypto.Base.{
  ℕ, ◌+◌, ◌-◌, String, false, ◌≡◌, ◌≢◌, refl, ap, Option, none, some, List, [], ◌∷◌, ◌==◌,
  if◌then◌else◌, arith, ◌>>=◌,
}
use Prim.Native.Nat.{Ordering, compare}
use Prim.Native.Char.{Char, char, code, IsLt}
use agent_crypto.Journal.{Item, missing, written, strange, Object, Format, FormatLaws}
use agent_crypto.Journal.Lines.{IsInline}

-- The ranges of a character's number, from its comparisons with their ends.
abbrev Above : Ordering → Ordering → Type 0
Above Ordering.lt o = IsLt o
Above Ordering.eq _ = ⊥
Above Ordering.gt _ = ⊥

abbrev InRanges : Ordering → Ordering → Ordering → Type 0
InRanges Ordering.lt _ _ = Unit
InRanges Ordering.eq b c = Above b c
InRanges Ordering.gt b c = Above b c

abbrev scalar? : (a b c : Ordering) → Option (InRanges a b c)
scalar? Ordering.lt b c = some tt
scalar? Ordering.eq Ordering.lt Ordering.lt = some tt
scalar? Ordering.gt Ordering.lt Ordering.lt = some tt
scalar? _ _ _ = none

abbrev char_of : ℕ → Option Char
char_of n = elim (scalar? (compare n 55296) (compare 57343 n) (compare n 1114112)) [
  | none ↦ none
  | some p ↦ some (char n p)
]

scalar?-some : (a b c : Ordering) (p : InRanges a b c) → scalar? a b c ≡ some p
scalar?-some Ordering.lt b c p = refl
scalar?-some Ordering.eq Ordering.lt Ordering.lt p = refl
scalar?-some Ordering.gt Ordering.lt Ordering.lt p = refl
scalar?-some Ordering.eq Ordering.lt Ordering.eq p = absurd p
scalar?-some Ordering.eq Ordering.lt Ordering.gt p = absurd p
scalar?-some Ordering.gt Ordering.lt Ordering.eq p = absurd p
scalar?-some Ordering.gt Ordering.lt Ordering.gt p = absurd p
scalar?-some Ordering.eq Ordering.eq c p = absurd p
scalar?-some Ordering.eq Ordering.gt c p = absurd p
scalar?-some Ordering.gt Ordering.eq c p = absurd p
scalar?-some Ordering.gt Ordering.gt c p = absurd p

char_of-code : (c : Char) → char_of (code c) ≡ some c
char_of-code (char n p) =
    rw (scalar?-some (compare n 55296) (compare 57343 n) (compare n 1114112) p, char_of) refl

abbrev text_bytes : String → List ℕ → List ℕ
text_bytes String.[] rest = 19 ∷ rest
text_bytes (String.◌∷◌ c s) rest = (20 + code c) ∷ text_bytes s rest

abbrev joined : Option Char → Option (String × List ℕ) → Option (String × List ℕ)
joined (some c) (some (s, rest)) = some (String.◌∷◌ c s, rest)
joined _ _ = none

abbrev read_text : List ℕ → Option (String × List ℕ)
read_text [] = none
read_text (b ∷ bs) =
    let more = read_text bs in
    if b == 19 then some (String.[], bs) else joined (char_of (b - 20)) more

past_mark : (n : ℕ) → ((20 + n) == 19) ≡ false
past_mark n = ground arith

mark_off : (n : ℕ) → (20 + n) - 20 ≡ n
mark_off n = omega arith

read_text-bytes : (s : String) (rest : List ℕ) → read_text (text_bytes s rest) ≡ some (s, rest)
read_text-bytes String.[] rest = refl
read_text-bytes (String.◌∷◌ c s) rest =
    rw (past_mark (code c), mark_off (code c), char_of-code c, read_text-bytes s rest) refl

abbrev item_bytes : Item → List ℕ → List ℕ
item_bytes missing rest = 16 ∷ rest
item_bytes strange rest = 17 ∷ rest
item_bytes (written s) rest = 18 ∷ text_bytes s rest

abbrev text_item : Option (String × List ℕ) → Option (Item × List ℕ)
text_item none = none
text_item (some (s, rest)) = some (written s, rest)

abbrev read_item : List ℕ → Option (Item × List ℕ)
read_item [] = none
read_item (b ∷ bs) =
    if b == 16
    then some (missing, bs)
    else if b == 17
    then some (strange, bs)
    else if b == 18
    then text_item (read_text bs)
    else none

read_item-bytes : (x : Item) (rest : List ℕ) → read_item (item_bytes x rest) ≡ some (x, rest)
read_item-bytes missing rest = refl
read_item-bytes strange rest = refl
read_item-bytes (written s) rest = ap text_item (read_text-bytes s rest)

abbrev object_bytes : Object (Unit {0}) → List ℕ
object_bytes r =
    item_bytes r.kind
      (item_bytes r.campaign_id (item_bytes r.previous_hash (item_bytes r.content_hash [])))

abbrev read_object : List ℕ → Option (Object (Unit {0}))
read_object bs = do
  (k, bs1) ← read_item bs
  (c, bs2) ← read_item bs1
  (p, bs3) ← read_item bs2
  (h, bs4) ← read_item bs3
  some (record { kind = k; campaign_id = c; previous_hash = p; content_hash = h; rest = tt })

read_object-bytes : (r : Object (Unit {0})) → read_object (object_bytes r) ≡ some r
read_object-bytes r =
    rw
      (
        read_item-bytes r.kind _,
        read_item-bytes r.campaign_id _,
        read_item-bytes r.previous_hash _,
        read_item-bytes r.content_hash _,
      )
      refl

text_bytes-IsInline : (s : String) (rest : List ℕ) → IsInline rest → IsInline (text_bytes s rest)
text_bytes-IsInline String.[] rest h = (((λ e. cc), λ e. cc), h)
text_bytes-IsInline (String.◌∷◌ c s) rest h =
    (((λ e. omega arith), λ e. omega arith), text_bytes-IsInline s rest h)

item_bytes-IsInline : (x : Item) (rest : List ℕ) → IsInline rest → IsInline (item_bytes x rest)
item_bytes-IsInline missing rest h = (((λ e. cc), λ e. cc), h)
item_bytes-IsInline strange rest h = (((λ e. cc), λ e. cc), h)
item_bytes-IsInline (written s) rest h = (((λ e. cc), λ e. cc), text_bytes-IsInline s rest h)

item_bytes-ne : (x : Item) (rest : List ℕ) → item_bytes x rest ≢ []
item_bytes-ne missing rest e = cc
item_bytes-ne strange rest e = cc
item_bytes-ne (written s) rest e = cc

abbrev pub toy : Format (Unit {0})
toy = record { render = object_bytes; parse = read_object; digest = λ r. "digest"; day = λ r. none }

pub toy-FormatLaws : FormatLaws toy
toy-FormatLaws = record {
  parse-render = read_object-bytes;
  render-IsInline = λ r. item_bytes-IsInline r.kind _ (
      item_bytes-IsInline r.campaign_id _
        (item_bytes-IsInline r.previous_hash _ (item_bytes-IsInline r.content_hash [] tt)));
  render-ne = λ r. item_bytes-ne r.kind _;
}
