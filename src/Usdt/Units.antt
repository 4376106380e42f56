-- ===== src/Usdt/Units.antt =====
-- `toBaseUnits` and `fromBaseUnits` (src/payment/usdt.util.ts).
use oro_backend.Base.{
  ℕ, zero, suc, ◌+◌, ◌-◌, ◌*◌, ◌/◌, ◌%◌, Bool, true, false, ◌&&◌, ◌||◌, ◌==◌, Option, none, some,
  List, [], ◌∷◌, ◌++◌, ltb, leb, length, includes, if◌then◌else◌,
}

abbrev pub Text : Type 0
Text = List ℕ

abbrev pub usdt_decimals : ℕ
usdt_decimals = 6

abbrev pub scale : ℕ
scale = 1000000

abbrev pub code_zero : ℕ
code_zero = 48

abbrev pub dot : ℕ
dot = 46

abbrev pub is_digit : ℕ → Bool
is_digit c = leb code_zero c && leb c 57

abbrev pub all_digits : Text → Bool
all_digits [] = true
all_digits (c ∷ cs) = let rest = all_digits cs in is_digit c && rest

-- `\d+`.
abbrev pub is_number : Text → Bool
is_number [] = false
is_number (c ∷ cs) = all_digits (c ∷ cs)

-- The white space and line ends that `String.trim` removes.
abbrev pub is_white : ℕ → Bool
is_white c =
    ((leb 9 c && leb c 13) || (leb 8192 c && leb c 8202))
    || includes (32 ∷ 160 ∷ 5760 ∷ 8232 ∷ 8233 ∷ 8239 ∷ 8287 ∷ 12288 ∷ 65279 ∷ []) c

abbrev pub trim_start : Text → Text
trim_start [] = []
trim_start (c ∷ cs) = let rest = trim_start cs in if is_white c then rest else c ∷ cs

-- Drops the characters at the end that pass the test.
abbrev pub drop_end : (ℕ → Bool) → Text → Text
drop_end p [] = []
drop_end p (c ∷ cs) = elim (drop_end p cs) as (λ _. Text) [
  | [] ↦ if p c then [] else c ∷ []
  | (d ∷ ds) ↦ c ∷ d ∷ ds
]

unfoldable pub trim : Text → Text
trim cs = drop_end is_white (trim_start cs)

-- What stands before the first dot, and after it.
abbrev pub split_dot : Text → Text × Option Text
split_dot [] = ([], none)
split_dot (c ∷ cs) =
    let rest = split_dot cs in if c == dot then ([], some cs) else (c ∷ rest.0, rest.1)

abbrev pub is_zero_digit : ℕ → Bool
is_zero_digit c = c == code_zero

-- Trailing zeros after a dot.
unfoldable pub trim_fraction : Text → Text
trim_fraction cs = elim (split_dot cs).1 [
  | none ↦ cs
  | some fraction ↦
      if is_number (split_dot cs).0 && all_digits fraction
      then (split_dot cs).0 ++ dot ∷ drop_end is_zero_digit fraction
      else cs
]

-- One dot at the end.
unfoldable pub trim_dot : Text → Text
trim_dot [] = []
trim_dot (c ∷ cs) = elim cs as (λ _. Text) [
  | [] ↦ if c == dot then [] else c ∷ []
  | (d ∷ ds) ↦ c ∷ trim_dot cs
]

-- The number that digits stand for, `before` being what stands in front of them.
abbrev pub read_digits : ℕ → Text → ℕ
read_digits before [] = before
read_digits before (c ∷ cs) = read_digits (before * 10 + (c - code_zero)) cs

abbrev pub zero_digits : ℕ → Text
zero_digits zero = []
zero_digits (suc n) = code_zero ∷ zero_digits n

-- `none` is the refusal of a text that is no decimal of at most six places.
unfoldable pub read_amount : Text → Option ℕ
read_amount cs = elim (split_dot cs).1 [
  | none ↦
      if is_number (split_dot cs).0 then some (read_digits 0 (split_dot cs).0 * scale) else none
  | some fraction ↦
      let padded = fraction ++ zero_digits (usdt_decimals - length fraction) in
      if (is_number (split_dot cs).0 && is_number fraction) && leb (length fraction) usdt_decimals
      then some (read_digits 0 (split_dot cs).0 * scale + read_digits 0 padded)
      else none
]

unfoldable pub to_base_units : Text → Option ℕ
unfolding trim trim_fraction trim_dot read_amount
to_base_units human = read_amount (trim_dot (trim_fraction (trim human)))

-- `toString` of a whole number: at most `fuel` digits, which is enough when the number has no more.
unfoldable pub digits_of : ℕ → ℕ → Text
digits_of zero n = []
digits_of (suc fuel) n = elim (ltb n 10) [
  | true ↦ (code_zero + n) ∷ []
  | false ↦ digits_of fuel (n / 10) ++ (code_zero + n % 10) ∷ []
]

unfoldable pub print_number : ℕ → Text
unfolding digits_of
print_number n = digits_of (suc n) n

abbrev pub pad_start : Text → Text
pad_start digits = zero_digits (usdt_decimals - length digits) ++ digits

abbrev pub with_fraction : Text → Text → Text
with_fraction whole [] = whole
with_fraction whole (d ∷ ds) = whole ++ dot ∷ d ∷ ds

unfoldable pub from_base_units : ℕ → Text
from_base_units base =
    with_fraction (print_number (base / scale))
      (drop_end is_zero_digit (pad_start (print_number (base % scale))))
