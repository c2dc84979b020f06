-- ===== src/Volumes/Quantity/Laws.antt =====
-- `_quantity_to_bytes` against the quantities that Kubernetes writes: a decimal numeral and a unit.
use Prim.Native.Nat.{◌/◌, ◌%◌, ◌≤◌, ◌<◌}
use metalk8s.Prelude.{
  ℕ, zero, suc, ◌+◌, ◌*◌, ◌^◌, ◌-◌, Bool, true, false, ◌&&◌, List, [], ◌∷◌, leb, ltb, if◌then◌else◌,
  ◌≡◌, refl, sym, ◌∙◌, arith, Bool-cases, inl, inr,
}
use metalk8s.Exec.{return, raise, key_error}
use metalk8s.Volumes.Quantity.{
  is_digit, read_digits, read_unit, unit_factor, times, quantity_to_bytes,
}

pub data SizeUnit : Type 0 where
  bytes : SizeUnit
  kibi mebi gibi tebi pebi : SizeUnit
  kilo mega giga tera peta : SizeUnit

abbrev pub suffix : SizeUnit → List ℕ
suffix bytes = []
suffix kibi = b'K' ∷ b'i' ∷ []
suffix mebi = b'M' ∷ b'i' ∷ []
suffix gibi = b'G' ∷ b'i' ∷ []
suffix tebi = b'T' ∷ b'i' ∷ []
suffix pebi = b'P' ∷ b'i' ∷ []
suffix kilo = b'k' ∷ []
suffix mega = b'M' ∷ []
suffix giga = b'G' ∷ []
suffix tera = b'T' ∷ []
suffix peta = b'P' ∷ []

abbrev pub factor : SizeUnit → ℕ
factor bytes = 1
factor kibi = 1024
factor mebi = 1024 ^ 2
factor gibi = 1024 ^ 3
factor tebi = 1024 ^ 4
factor pebi = 1024 ^ 5
factor kilo = 1000
factor mega = 1000 ^ 2
factor giga = 1000 ^ 3
factor tera = 1000 ^ 4
factor peta = 1000 ^ 5

-- The decimal numeral of `n` in front of `tail`; a fuel of `n` is enough.
print_from : ℕ → ℕ → List ℕ → List ℕ
print_from zero n tail = (b'0' + n) ∷ tail
print_from (suc fuel) n tail =
    let more = print_from fuel (n / 10) ((b'0' + n % 10) ∷ tail) in
    if ltb n 10 then (b'0' + n) ∷ tail else more

pub print : ℕ → List ℕ → List ℕ
unfolding print_from
print n tail = print_from n n tail

abbrev starts_well : List ℕ → Bool
starts_well [] = false
starts_well (c ∷ cs) = leb b'1' c && leb c b'9'

is_digit-digit : (d : ℕ) → d < 10 → is_digit (b'0' + d) ≡ true
is_digit-digit d h = ground arith

read_digits-digit :
    (acc d n : ℕ) (tail : List ℕ)
    → d < 10
    → acc * 10 + d ≡ n
    → read_digits acc ((b'0' + d) ∷ tail) ≡ read_digits n tail
unfolding read_digits
read_digits-digit acc d n tail h e =
    let value : acc * 10 + (b'0' + d - b'0') ≡ n = omega arith in rw (is_digit-digit d h, value)

read_digits-print :
    (fuel n : ℕ) (tail : List ℕ)
    → n ≤ fuel
    → read_digits 0 (print_from fuel n tail) ≡ read_digits n tail
unfolding print_from
read_digits-print zero n tail h = read_digits-digit 0 n n tail (omega arith) (omega arith)
read_digits-print (suc fuel) n tail h = elim (Bool-cases (ltb n 10)) [
  | inl small ↦ rw small (read_digits-digit 0 n n tail (ground arith) (omega arith))
  | inr large ↦ rw large (
      read_digits-print fuel (n / 10) ((b'0' + n % 10) ∷ tail) (ground arith)
      ∙ read_digits-digit (n / 10) (n % 10) n tail (omega arith) (omega arith))
]

print-starts_well :
    (fuel n : ℕ) (tail : List ℕ) → 0 < n → n ≤ fuel → starts_well (print_from fuel n tail) ≡ true
unfolding print_from
print-starts_well zero n tail p h = absurd (omega arith)
print-starts_well (suc fuel) n tail p h = elim (Bool-cases (ltb n 10)) [
  | inl small ↦ rw small (ground arith)
  | inr large ↦
      rw large
        (print-starts_well fuel (n / 10) ((b'0' + n % 10) ∷ tail) (ground arith) (ground arith))
]

-- Behind a numeral, a suffix ends the digits.
read_digits-suffix : (n : ℕ) (u : SizeUnit) → read_digits n (suffix u) ≡ (n, suffix u)
unfolding read_digits
read_digits-suffix n bytes = refl
read_digits-suffix n _ = refl

times-suffix : (n : ℕ) (u : SizeUnit) → times n (read_unit (suffix u)) ≡ return (n * factor u)
unfolding read_unit unit_factor
times-suffix n bytes = refl
times-suffix n _ = refl

quantity-read :
    (l : List ℕ) (n : ℕ) (rest : List ℕ)
    → starts_well l ≡ true
    → read_digits 0 l ≡ (n, rest)
    → quantity_to_bytes l ≡ times n (read_unit rest)
unfolding quantity_to_bytes
quantity-read [] n rest w e = cc
quantity-read (c ∷ cs) n rest w e =
    let same : b'0' + (c - b'0') ≡ c = ground arith in
    let read : read_digits 0 ((b'0' + (c - b'0')) ∷ cs) ≡ (n, rest) = rw same e in
    let step = read_digits-digit 0 (c - b'0') (c - b'0') cs (ground arith) (omega arith) in
    rw (w, sym step ∙ read)

-- A quantity that Kubernetes writes, a positive decimal numeral with one of the eleven units, is
-- read as the number times the unit: powers of 1024 for the binary units, of 1000 for the others.
pub quantity_to_bytes-print :
    (n : ℕ) (u : SizeUnit) → 0 < n → quantity_to_bytes (print n (suffix u)) ≡ return (n * factor u)
unfolding print
quantity_to_bytes-print n u pos =
    quantity-read (print_from n n (suffix u)) n (suffix u)
      (print-starts_well n n (suffix u) pos (omega arith))
      (read_digits-print n n (suffix u) (omega arith) ∙ read_digits-suffix n u)
    ∙ times-suffix n u

-- The texts that the pattern takes as units and the table lacks: `K` and `ki`.
abbrev pub unlisted : Bool → List ℕ
unlisted false = b'K' ∷ []
unlisted true = b'k' ∷ b'i' ∷ []

read_digits-unlisted : (n : ℕ) (i : Bool) → read_digits n (unlisted i) ≡ (n, unlisted i)
unfolding read_digits
read_digits-unlisted n false = refl
read_digits-unlisted n true = refl

times-unlisted : (n : ℕ) (i : Bool) → times n (read_unit (unlisted i)) ≡ raise (key_error "unit")
unfolding read_unit unit_factor
times-unlisted n false = refl
times-unlisted n true = refl

-- A positive numeral with the unit `K` or `ki` passes the pattern, and then raises a `KeyError`.
pub quantity_to_bytes-unlisted :
    (n : ℕ) (i : Bool) → 0 < n → quantity_to_bytes (print n (unlisted i)) ≡ raise (key_error "unit")
unfolding print
quantity_to_bytes-unlisted n i pos =
    quantity-read (print_from n n (unlisted i)) n (unlisted i)
      (print-starts_well n n (unlisted i) pos (omega arith))
      (read_digits-print n n (unlisted i) (omega arith) ∙ read_digits-unlisted n i)
    ∙ times-unlisted n i
