-- ===== src/Prelude/Parse.antt =====
-- `str::parse` of the standard library for unsigned integers: an optional `+`, then digits, at least
-- one, that stay below the bound of the type. A text is its bytes.
use Prim.Native.Nat.{ℕ, ◌+◌, ◌-◌, ◌*◌}
use mathlib.Core.Bool.{◌&&◌}
use mathlib.Core.Option.{Option, none, some}
use mathlib.Core.List.{List, [], ◌∷◌}
use avangard.Prelude.Tests.{if◌then◌else◌, ltb, leb, ◌==◌}

abbrev parse_digits : ℕ → ℕ → List ℕ → Option ℕ
parse_digits bound value [] = some value
parse_digits bound value (c ∷ cs) =
    let next = value * 10 + (c - 48) in
    let rest = parse_digits bound next cs in
    if leb 48 c && leb c 57 && ltb next bound then rest else none

abbrev pub parse_uint : ℕ → List ℕ → Option ℕ
parse_uint bound [] = none
parse_uint bound (c ∷ []) = if c == 43 then none else parse_digits bound 0 (c ∷ [])
parse_uint bound (c ∷ d ∷ cs) =
    if c == 43 then parse_digits bound 0 (d ∷ cs) else parse_digits bound 0 (c ∷ d ∷ cs)
