-- ===== src/Prelude/Text.antt =====
-- Texts: decimal numerals and `sep.join(parts)`.
use Prim.Native.Nat.{ℕ, zero, suc, ◌-◌, ◌/◌, ◌%◌, compare, Ordering}
use Prim.Native.Char.{Char, code}
use Prim.Native.String.{String, ◌++◌ as ◌<>◌}
use mathlib.Core.Path.{◌≡◌, refl}
use mathlib.Core.List.{List, [], ◌∷◌}

abbrev digit : ℕ → String
digit zero = "0"
digit (suc zero) = "1"
digit (suc (suc zero)) = "2"
digit (suc (suc (suc zero))) = "3"
digit (suc (suc (suc (suc zero)))) = "4"
digit (suc (suc (suc (suc (suc zero))))) = "5"
digit (suc (suc (suc (suc (suc (suc zero)))))) = "6"
digit (suc (suc (suc (suc (suc (suc (suc zero))))))) = "7"
digit (suc (suc (suc (suc (suc (suc (suc (suc zero)))))))) = "8"
digit _ = "9"

-- the digits in front of `tail`; the fuel bounds their number
decimal_from : ℕ → ℕ → String → String
decimal_from zero n tail = tail
decimal_from (suc fuel) n tail =
    let more = decimal_from fuel (n / 10) (digit (n % 10) <> tail) in
    elim (compare n 10) [ Ordering.lt ↦ digit n <> tail | _ ↦ more ]

-- `str(n)`; a number has at most as many digits as its successor has units
unfoldable pub decimal : ℕ → String
unfolding decimal_from
decimal n = decimal_from (suc n) n ""

-- `sep.join(parts)`
unfoldable pub join : String → List String → String
join sep [] = ""
join sep (x ∷ []) = x
join sep (x ∷ y ∷ rest) = x <> sep <> join sep (y ∷ rest)

-- The code points of a text.
abbrev pub codes : String → List ℕ
codes String.[] = []
codes (String.◌∷◌ c s) = code c ∷ codes s

abbrev one : Char → String
one c = String.◌∷◌ c ""

-- the `n`th text of a list, for a table
abbrev nth : ℕ → List String → String → String
nth n [] default = default
nth zero (x ∷ xs) default = x
nth (suc n) (x ∷ xs) default = nth n xs default

abbrev letters : List String
letters =
    "a" ∷ "b" ∷ "c" ∷ "d" ∷ "e" ∷ "f" ∷ "g" ∷ "h" ∷ "i" ∷ "j" ∷ "k" ∷ "l" ∷ "m" ∷ "n" ∷ "o" ∷ "p"
    ∷ "q" ∷ "r" ∷ "s" ∷ "t" ∷ "u" ∷ "v" ∷ "w" ∷ "x" ∷ "y" ∷ "z" ∷ []

-- `s.lower()` on ASCII
unfoldable pub lower : String → String
lower String.[] = ""
lower (String.◌∷◌ c s) =
    let rest = lower s in
    elim (compare (code c) 64) [
      | Ordering.gt ↦ nth (code c - 65) letters (one c) <> rest
      | _ ↦ one c <> rest
    ]

-- `s.replace(' ', '-')`
unfoldable pub dashed : String → String
dashed String.[] = ""
dashed (String.◌∷◌ c s) =
    let rest = dashed s in
    elim (compare (code c) 32) [ Ordering.eq ↦ "-" <> rest | _ ↦ one c <> rest ]

lower_test : lower "Abc-9Z@[z" <> dashed "a b " ≡ "abc-9z@[za-b-"
unfolding lower dashed
lower_test = refl
