-- ===== src/Metrics/Json/Quoting.antt =====
-- A reader of quoted texts, and what it makes of those of integration001/src/metrics.rs.
use avangard.Prelude.{
  ℕ, zero, suc, ◌+◌, ◌*◌, ◌-◌, ◌/◌, ◌%◌, ◌<◌, ◌==◌, ◌≡◌, refl, ◌&&◌, Option, none, some, List, [],
  ◌∷◌, ◌++◌, ltb, leb, arith, if◌then◌else◌,
}
use mathlib.Core.List.{append_assoc}
use avangard.Metrics.Json.{hex_digit, escape_character, json_escape, push_quoted}

-- Where a reader of a JSON text stands: between characters, behind a backslash, or before some digits
-- of a code.
pub data Place : Type 0 where
  plain escaped : Place
  digits : ℕ → ℕ → Place

-- What a letter behind a backslash stands for.
abbrev unescape : ℕ → Option ℕ
unescape c =
    if c == 34
    then some 34
    else if c == 92
    then some 92
    else if c == 47
    then some 47
    else if c == 98
    then some 8
    else if c == 102
    then some 12
    else if c == 110
    then some 10
    else if c == 114
    then some 13
    else if c == 116
    then some 9
    else none

abbrev digit_value : ℕ → Option ℕ
digit_value c =
    if leb 48 c && leb c 57
    then some (c - 48)
    else if leb 97 c && leb c 102
    then some (c - 87)
    else none

abbrev cons_text : ℕ → Option (List ℕ × List ℕ) → Option (List ℕ × List ℕ)
cons_text c none = none
cons_text c (some (text, rest)) = some (c ∷ text, rest)

-- The characters up to the closing quote, and what is behind it. A control character ends the reading.
unfoldable pub read_text : Place → List ℕ → Option (List ℕ × List ℕ)
read_text place [] = none
read_text plain (c ∷ cs) =
    let next = read_text plain cs in
    let behind = read_text escaped cs in
    if c == 34
    then some ([], cs)
    else if c == 92
    then behind
    else if ltb c 32
    then none
    else cons_text c next
read_text escaped (c ∷ cs) =
    let next = read_text plain cs in
    let code = read_text (digits 3 0) cs in
    if c == 117 then code else elim (unescape c) [ none ↦ none | some d ↦ cons_text d next ]
read_text (digits zero value) (c ∷ cs) =
    let next = read_text plain cs in
    elim (digit_value c) [ none ↦ none | some d ↦ cons_text (value * 16 + d) next ]
read_text (digits (suc more) value) (c ∷ cs) = elim (digit_value c) [
  | none ↦ none
  | some d ↦ read_text (digits more (value * 16 + d)) cs
]

unfoldable pub read_quoted : List ℕ → Option (List ℕ × List ℕ)
unfolding read_text
read_quoted [] = none
read_quoted (c ∷ cs) = let text = read_text plain cs in if c == 34 then text else none

digit_value-hex_digit : (v : ℕ) → v < 16 → digit_value (hex_digit v) ≡ some v
digit_value-hex_digit v h = ground arith

read_text-escape_character :
    (c : ℕ) (rest : List ℕ)
    → read_text plain (escape_character c ++ rest) ≡ cons_text c (read_text plain rest)
unfolding read_text
read_text-escape_character c rest =
    ground (arith, digit_value-hex_digit (c / 16 % 16), digit_value-hex_digit (c % 16))

read_text-json_escape :
    (value rest : List ℕ) → read_text plain (json_escape value ++ (34 ∷ rest)) ≡ some (value, rest)
unfolding json_escape
read_text-json_escape [] rest = unfold read_text in refl
read_text-json_escape (c ∷ cs) rest =
    rw
      (
        append_assoc (escape_character c) (json_escape cs) (34 ∷ rest),
        read_text-escape_character c (json_escape cs ++ (34 ∷ rest)),
        read_text-json_escape cs rest,
      )
      refl

-- A text that is pushed with its quotes is what a reader of JSON finds, and the reader stops at what
-- was pushed behind it, whatever characters the text has.
pub read_quoted-push_quoted :
    (value rest : List ℕ) → read_quoted (push_quoted value ++ rest) ≡ some (value, rest)
unfolding push_quoted read_quoted
read_quoted-push_quoted value rest =
    rw (append_assoc (json_escape value) (34 ∷ []) rest) (read_text-json_escape value rest)
