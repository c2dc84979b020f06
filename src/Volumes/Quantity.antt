-- ===== src/Volumes/Quantity.antt =====
-- `_quantity_to_bytes` of salt/_modules/metalk8s_volumes.py, over the code points of the text.
pub mod Laws
use metalk8s.Prelude.{
  ℕ, zero, suc, ◌+◌, ◌-◌, ◌*◌, ◌^◌, Bool, true, false, ◌&&◌, ◌||◌, Option, none, some, List, [],
  ◌∷◌, leb, nat_eq, if◌then◌else◌,
}
use metalk8s.Exec.{Outcome, return, raise, assertion_error, key_error, ◌>>=◌}

abbrev pub is_digit : ℕ → Bool
is_digit c = leb b'0' c && leb c b'9'

-- `int(size)` of the digits, and what stands behind them: `(?P<size>[1-9][0-9]*)`
unfoldable pub read_digits : ℕ → List ℕ → ℕ × List ℕ
read_digits n [] = (n, [])
read_digits n (c ∷ cs) =
    let rest = read_digits (n * 10 + (c - b'0')) cs in if is_digit c then rest else (n, c ∷ cs)

-- the end of the match: `$` also matches before a last newline
abbrev at_end : List ℕ → Bool
at_end [] = true
at_end (c ∷ []) = nat_eq c 10
at_end (c ∷ d ∷ cs) = false

-- `[kKMGTP]`
abbrev is_unit_letter : ℕ → Bool
is_unit_letter c =
    nat_eq c b'k'
    || nat_eq c b'K'
    || nat_eq c b'M'
    || nat_eq c b'G'
    || nat_eq c b'T'
    || nat_eq c b'P'

-- `(?P<unit>[kKMGTP]i?)?$`: the letter, and whether an `i` follows; `none` where nothing matches
unfoldable pub read_unit : List ℕ → Option (Option (ℕ × Bool))
read_unit [] = some none
read_unit (c ∷ []) =
    if is_unit_letter c then some (some (c, false)) else if nat_eq c 10 then some none else none
read_unit (c ∷ d ∷ cs) =
    if is_unit_letter c
    then (if nat_eq d b'i'
        then (if at_end cs then some (some (c, true)) else none)
        else (if at_end (d ∷ cs) then some (some (c, false)) else none))
    else none

-- `UNIT_FACTOR[unit]`; a unit that the pattern takes and the table lacks is a `KeyError`
unfoldable pub unit_factor : Option (ℕ × Bool) → Outcome ℕ
unit_factor none = return 1
unit_factor (some (c, true)) =
    if nat_eq c b'K'
    then return (2 ^ 10)
    else if nat_eq c b'M'
    then return (2 ^ 20)
    else if nat_eq c b'G'
    then return (2 ^ 30)
    else if nat_eq c b'T'
    then return (2 ^ 40)
    else if nat_eq c b'P'
    then return (2 ^ 50)
    else raise (key_error "unit")
unit_factor (some (c, false)) =
    if nat_eq c b'k'
    then return (10 ^ 3)
    else if nat_eq c b'M'
    then return (10 ^ 6)
    else if nat_eq c b'G'
    then return (10 ^ 9)
    else if nat_eq c b'T'
    then return (10 ^ 12)
    else if nat_eq c b'P'
    then return (10 ^ 15)
    else raise (key_error "unit")

abbrev times : ℕ → Option (Option (ℕ × Bool)) → Outcome ℕ
times size none = raise (assertion_error "invalid resource.Quantity value")
times size (some unit) = do factor ← unit_factor unit; return (size * factor)

unfoldable pub quantity_to_bytes : List ℕ → Outcome ℕ
unfolding read_digits read_unit unit_factor
quantity_to_bytes [] = raise (assertion_error "invalid resource.Quantity value")
quantity_to_bytes (c ∷ cs) =
    if leb b'1' c && leb c b'9'
    then (let (size, rest) = read_digits (c - b'0') cs in times size (read_unit rest))
    else raise (assertion_error "invalid resource.Quantity value")
