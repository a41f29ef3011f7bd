-- ===== src/Metrics/Json.antt =====
-- The texts of a report, integration001/src/metrics.rs. A text is its characters' codes.
pub mod Quoting
use avangard.Prelude.{
  ℕ, zero, suc, ◌+◌, ◌/◌, ◌%◌, ◌==◌, Bool, true, false, List, [], ◌∷◌, ◌++◌, ltb, if◌then◌else◌,
}
use avangard.Prelude.Assoc.{Map}
use avangard.Prelude.Bytes.{codes}

-- `HEX`
abbrev pub hex_digit : ℕ → ℕ
hex_digit value = if ltb value 10 then 48 + value else 87 + value

-- The text of one character.
abbrev pub escape_character : ℕ → List ℕ
escape_character c =
    if c == 34
    then 92 ∷ 34 ∷ []
    else if c == 92
    then 92 ∷ 92 ∷ []
    else if c == 8
    then 92 ∷ 98 ∷ []
    else if c == 12
    then 92 ∷ 102 ∷ []
    else if c == 10
    then 92 ∷ 110 ∷ []
    else if c == 13
    then 92 ∷ 114 ∷ []
    else if c == 9
    then 92 ∷ 116 ∷ []
    else if ltb c 32
    then 92 ∷ 117 ∷ 48 ∷ 48 ∷ hex_digit (c / 16 % 16) ∷ hex_digit (c % 16) ∷ []
    else c ∷ []

unfoldable pub json_escape : List ℕ → List ℕ
json_escape [] = []
json_escape (c ∷ cs) = escape_character c ++ json_escape cs

-- `push_quoted` and the maps return what they push.
unfoldable pub push_quoted : List ℕ → List ℕ
unfolding json_escape
push_quoted value = 34 ∷ (json_escape value ++ (34 ∷ []))

-- The loops over the entries; `first` says whether the index is zero.
unfoldable pub push_strings : Bool → Map (List ℕ) (List ℕ) → List ℕ
unfolding push_quoted
push_strings first [] = []
push_strings first ((key, value) ∷ values) =
    let rest = push_strings false values in
    (if first then [] else 44 ∷ []) ++ (push_quoted key ++ (58 ∷ (push_quoted value ++ rest)))

unfoldable pub push_string_map : List ℕ → Map (List ℕ) (List ℕ) → List ℕ
unfolding push_quoted push_strings
push_string_map name values =
    push_quoted name ++ (58 ∷ 123 ∷ (push_strings true values ++ (125 ∷ [])))

unfoldable pub push_bools : Bool → Map (List ℕ) Bool → List ℕ
unfolding push_quoted
push_bools first [] = []
push_bools first ((key, value) ∷ values) =
    let rest = push_bools false values in
    (if first then [] else 44 ∷ [])
    ++ (push_quoted key ++ (58 ∷ ((if value then codes "true" else codes "false") ++ rest)))

unfoldable pub push_bool_map : List ℕ → Map (List ℕ) Bool → List ℕ
unfolding push_quoted push_bools
push_bool_map name values = push_quoted name ++ (58 ∷ 123 ∷ (push_bools true values ++ (125 ∷ [])))
