-- ===== src/Usdt/RoundTrip.antt =====
-- Base units written as text and read again (src/payment/usdt.util.ts).
use oro_backend.Base.{
  ℕ, zero, suc, ◌+◌, ◌-◌, ◌*◌, ◌/◌, ◌%◌, ◌≤◌, ◌<◌, ◌≡◌, refl, sym, ap, ◌∙◌, inl, inr, Bool, true,
  false, none, some, [], ◌∷◌, ◌++◌, ltb, leb, length, All, Bool-cases, length-append, le→leb,
  list_cases, arith,
}
use oro_backend.Usdt.Units.{
  Text, usdt_decimals, scale, code_zero, dot, is_digit, all_digits, is_number, is_white, drop_end,
  trim, split_dot, is_zero_digit, trim_fraction, trim_dot, read_digits, zero_digits, read_amount,
  to_base_units, with_fraction, digits_of, print_number, from_base_units,
}

all_digits-append :
    (xs ys : Text) → all_digits xs ≡ true → all_digits ys ≡ true → all_digits (xs ++ ys) ≡ true
all_digits-append [] ys h k = k
all_digits-append (x ∷ xs) ys h k = ground (arith, all_digits-append xs ys)

read-append :
    (before : ℕ) (xs : Text) (y : ℕ)
    → read_digits before (xs ++ y ∷ []) ≡ read_digits before xs * 10 + (y - code_zero)
read-append before [] y = refl
read-append before (x ∷ xs) y = read-append (before * 10 + (x - code_zero)) xs y

digits_of_small : (fuel n : ℕ) → ltb n 10 ≡ true → digits_of (suc fuel) n ≡ (code_zero + n) ∷ []
unfolding digits_of
digits_of_small fuel n small = rw (digits_of, small) refl

digits_of_large :
    (fuel n : ℕ)
    → ltb n 10 ≡ false
    → digits_of (suc fuel) n ≡ digits_of fuel (n / 10) ++ (code_zero + n % 10) ∷ []
unfolding digits_of
digits_of_large fuel n large = rw (digits_of, large) refl

digits_of-all_digits : (fuel n : ℕ) → all_digits (digits_of fuel n) ≡ true
digits_of-all_digits zero n = unfold digits_of in refl
digits_of-all_digits (suc fuel) n = elim (Bool-cases (ltb n 10)) [
  | inl small ↦ rw (digits_of_small fuel n small) (ground arith)
  | inr large ↦ rw (digits_of_large fuel n large) (
      all_digits-append (digits_of fuel (n / 10)) _ (digits_of-all_digits fuel (n / 10))
        (ground arith))
]

digits_of-read : (fuel n : ℕ) → n < fuel → read_digits 0 (digits_of fuel n) ≡ n
digits_of-read zero n h = omega arith
digits_of-read (suc fuel) n h = elim (Bool-cases (ltb n 10)) [
  | inl small ↦ rw (digits_of_small fuel n small) (omega arith)
  | inr large ↦
      let less : n / 10 < fuel = ground arith in
      rw
        (
          digits_of_large fuel n large,
          read-append 0 (digits_of fuel (n / 10)) (code_zero + n % 10),
          digits_of-read fuel (n / 10) less,
        )
        (omega arith)
]

some_last : (xs : Text) (y : ℕ) → (x : ℕ) × (ys : Text) × (xs ++ y ∷ [] ≡ x ∷ ys)
some_last [] y = (y, [], refl)
some_last (x ∷ xs) y = (x, xs ++ y ∷ [], refl)

digits_of_some : (fuel n : ℕ) → (x : ℕ) × (ys : Text) × (digits_of (suc fuel) n ≡ x ∷ ys)
digits_of_some fuel n = elim (Bool-cases (ltb n 10)) [
  | inl small ↦ (code_zero + n, [], digits_of_small fuel n small)
  | inr large ↦
      let (x, ys, e) = some_last (digits_of fuel (n / 10)) (code_zero + n % 10) in
      (x, ys, digits_of_large fuel n large ∙ e)
]

pub print_number-is_number : (n : ℕ) → is_number (print_number n) ≡ true
unfolding print_number
print_number-is_number n =
    let (x, ys, e) = digits_of_some n n in
    let digits = digits_of-all_digits (suc n) n in rw e (sym (ap all_digits e) ∙ digits)

abbrev pow10 : ℕ → ℕ
pow10 zero = 1
pow10 (suc k) = 10 * pow10 k

digits_of-length : (k fuel n : ℕ) → n < pow10 (suc k) → length (digits_of fuel n) ≤ suc k
digits_of-length k zero n h = unfold digits_of in omega arith
digits_of-length zero (suc fuel) n h =
    let small : ltb n 10 ≡ true = ground arith in rw (digits_of_small fuel n small) (omega arith)
digits_of-length (suc k) (suc fuel) n h = elim (Bool-cases (ltb n 10)) [
  | inl small ↦ rw (digits_of_small fuel n small) (omega arith)
  | inr large ↦
      rw
        (
          digits_of_large fuel n large,
          length-append (digits_of fuel (n / 10)) ((code_zero + n % 10) ∷ []),
        )
        (omega (arith, digits_of-length k fuel (n / 10) (omega arith)))
]

read_zero_digits : (k : ℕ) (xs : Text) → read_digits 0 (zero_digits k ++ xs) ≡ read_digits 0 xs
read_zero_digits zero xs = refl
read_zero_digits (suc k) xs = read_zero_digits k xs

length-zero_digits : (k : ℕ) → length (zero_digits k) ≡ k
length-zero_digits zero = refl
length-zero_digits (suc k) = ap suc (length-zero_digits k)

zero_digits-all_digits : (k : ℕ) → all_digits (zero_digits k) ≡ true
zero_digits-all_digits zero = refl
zero_digits-all_digits (suc k) = ground (arith, zero_digits-all_digits k)

drop_end-all_digits :
    (p : ℕ → Bool) (xs : Text) → all_digits xs ≡ true → all_digits (drop_end p xs) ≡ true
drop_end-all_digits p [] h = refl
drop_end-all_digits p (x ∷ xs) h = ground (arith, drop_end-all_digits p xs)

drop_end_twice : (p : ℕ → Bool) (xs : Text) → drop_end p (drop_end p xs) ≡ drop_end p xs
drop_end_twice p [] = refl
drop_end_twice p (x ∷ xs) = ground (arith, drop_end_twice p xs)

drop_end-length : (p : ℕ → Bool) (xs : Text) → length (drop_end p xs) ≤ length xs
drop_end-length p [] = omega arith
drop_end-length p (x ∷ xs) = ground (arith, drop_end-length p xs)

-- Trailing zeros come back when the digits are filled up.
filled_up :
    (xs : Text)
    → drop_end is_zero_digit xs ++ zero_digits (length xs - length (drop_end is_zero_digit xs)) ≡ xs
filled_up [] = refl
filled_up (x ∷ xs) = ground (arith, filled_up xs)

digits_stay : (p : ℕ → Bool) (xs : Text) → All (λ c. p c ≡ false) xs → drop_end p xs ≡ xs
digits_stay p [] h = refl
digits_stay p (x ∷ xs) (h, rest) = ground (arith, digits_stay p xs rest)

split_number : (xs : Text) → all_digits xs ≡ true → split_dot xs ≡ (xs, none)
split_number [] h = refl
split_number (x ∷ xs) h = ground (arith, split_number xs)

split_decimal : (xs ys : Text) → all_digits xs ≡ true → split_dot (xs ++ dot ∷ ys) ≡ (xs, some ys)
split_decimal [] ys h = refl
split_decimal (x ∷ xs) ys h = ground (arith, split_decimal xs ys)

digit_plain : (c : ℕ) → is_digit c ≡ true → is_white c ≡ false
digit_plain c h = ground arith

abbrev IsPlain : Text → Type 0
IsPlain xs = All (λ c. is_white c ≡ false) xs

digits-IsPlain : (xs : Text) → all_digits xs ≡ true → IsPlain xs
digits-IsPlain [] h = tt
digits-IsPlain (x ∷ xs) h =
    let d : is_digit x ≡ true = ground arith in (digit_plain x d, digits-IsPlain xs (ground arith))

append-IsPlain : (xs ys : Text) → IsPlain xs → IsPlain ys → IsPlain (xs ++ ys)
append-IsPlain [] ys h k = k
append-IsPlain (x ∷ xs) ys h k = (h.0, append-IsPlain xs ys h.1 k)

plain_trim : (xs : Text) → IsPlain xs → trim xs ≡ xs
unfolding trim
plain_trim [] h = refl
plain_trim (x ∷ xs) h = rw h.0 (digits_stay is_white (x ∷ xs) h)

trim_dot-digits : (xs : Text) → all_digits xs ≡ true → trim_dot xs ≡ xs
unfolding trim_dot
trim_dot-digits [] h = refl
trim_dot-digits (x ∷ []) h = ground arith
trim_dot-digits (x ∷ y ∷ ys) h = ap (λ (t : Text). x ∷ t) (trim_dot-digits (y ∷ ys) (ground arith))

trim_dot-decimal :
    (xs : Text) (y : ℕ) (ys : Text)
    → all_digits (y ∷ ys) ≡ true
    → trim_dot (xs ++ dot ∷ y ∷ ys) ≡ xs ++ dot ∷ y ∷ ys
unfolding trim_dot
trim_dot-decimal [] y ys h = ap (λ (t : Text). dot ∷ t) (trim_dot-digits (y ∷ ys) h)
trim_dot-decimal (x ∷ []) y ys h = ap (λ (t : Text). x ∷ t) (trim_dot-decimal [] y ys h)
trim_dot-decimal (x ∷ z ∷ xs) y ys h = ap (λ (t : Text). x ∷ t) (trim_dot-decimal (z ∷ xs) y ys h)

number_digits : (xs : Text) → is_number xs ≡ true → all_digits xs ≡ true
number_digits [] h = ground arith
number_digits (x ∷ xs) h = h

read_whole : (xs : Text) → is_number xs ≡ true → to_base_units xs ≡ some (read_digits 0 xs * scale)
unfolding to_base_units
read_whole xs number =
    let digits = number_digits xs number in
    let split = split_number xs digits in
    let same : trim_fraction xs ≡ xs = rw (trim_fraction, split) refl in
    let e : trim_dot (trim_fraction (trim xs)) ≡ xs =
      ap trim_dot (ap trim_fraction (plain_trim xs (digits-IsPlain xs digits)) ∙ same)
      ∙ trim_dot-digits xs digits in
    ap read_amount e ∙ rw (read_amount, split, split, number) refl

-- A fraction of at most six digits, with any zeros at its end.
pub read_decimal :
    (xs fraction : Text) (y : ℕ) (ys : Text)
    → is_number xs ≡ true
    → all_digits fraction ≡ true
    → drop_end is_zero_digit fraction ≡ y ∷ ys
    → length (y ∷ ys) ≤ usdt_decimals
    → to_base_units (xs ++ dot ∷ fraction)
      ≡ some (
          read_digits 0 xs * scale
          + read_digits 0 ((y ∷ ys) ++ zero_digits (usdt_decimals - length (y ∷ ys))))
unfolding to_base_units
read_decimal xs fraction y ys number digits dropped short =
    let whole = number_digits xs number in
    let kept : all_digits (y ∷ ys) ≡ true =
      sym (ap all_digits dropped) ∙ drop_end-all_digits is_zero_digit fraction digits in
    let plain =
      append-IsPlain xs (dot ∷ fraction) (digits-IsPlain xs whole)
        (refl, digits-IsPlain fraction digits) in
    let split = split_decimal xs fraction whole in
    let cut : trim_fraction (xs ++ dot ∷ fraction) ≡ xs ++ dot ∷ y ∷ ys =
      rw (trim_fraction, split, split, number, digits, dropped) refl in
    let e : trim_dot (trim_fraction (trim (xs ++ dot ∷ fraction))) ≡ xs ++ dot ∷ y ∷ ys =
      ap trim_dot (ap trim_fraction (plain_trim (xs ++ dot ∷ fraction) plain) ∙ cut)
      ∙ trim_dot-decimal xs y ys kept in
    let short' : leb (length (y ∷ ys)) usdt_decimals ≡ true = le→leb _ _ short in
    ap read_amount e
    ∙ rw
        (
          read_amount,
          split_decimal xs (y ∷ ys) whole,
          split_decimal xs (y ∷ ys) whole,
          number,
          kept,
          short',
        )
        refl

-- The digits after the dot, filled up to six in front.
abbrev six : ℕ → Text
six n = zero_digits (usdt_decimals - length (print_number n)) ++ print_number n

length-six : (n : ℕ) → n < scale → length (six n) ≡ usdt_decimals
length-six n h =
    let short : length (print_number n) ≤ 6 =
      unfold print_number in digits_of-length 5 (suc n) n h in
    length-append (zero_digits (usdt_decimals - length (print_number n))) (print_number n)
    ∙ omega (arith, short, length-zero_digits (usdt_decimals - length (print_number n)))

print_number-read : (n : ℕ) → read_digits 0 (print_number n) ≡ n
unfolding print_number
print_number-read n = digits_of-read (suc n) n (omega arith)

six-read : (n : ℕ) → read_digits 0 (six n) ≡ n
six-read n =
    read_zero_digits (usdt_decimals - length (print_number n)) (print_number n)
    ∙ print_number-read n

six-all_digits : (n : ℕ) → all_digits (six n) ≡ true
six-all_digits n =
    all_digits-append (zero_digits (usdt_decimals - length (print_number n))) (print_number n)
      (zero_digits-all_digits (usdt_decimals - length (print_number n)))
      (number_digits (print_number n) (print_number-is_number n))

-- Every whole number of base units, written as a decimal text and read again, is itself.
pub to_base_units-from_base_units : (base : ℕ) → to_base_units (from_base_units base) ≡ some base
unfolding from_base_units
to_base_units-from_base_units base =
    let n = base % scale in
    let whole = print_number (base / scale) in
    let number = print_number-is_number (base / scale) in
    let filled = filled_up (six n) in
    let six_long = length-six n (omega arith) in
    elim (list_cases (drop_end is_zero_digit (six n))) [
      | inl none_left ↦
          let zeros : zero_digits usdt_decimals ≡ six n = cc (filled, none_left, six_long) in
          let nothing : n ≡ 0 = sym (six-read n) ∙ ap (read_digits 0) (sym zeros) in
          ap (λ (f : Text). to_base_units (with_fraction whole f)) none_left
          ∙ read_whole whole number
          ∙ ap some (rw (print_number-read (base / scale)) (omega (arith, nothing)))
      | inr (y, ys, left) ↦
          let digits = six-all_digits n in
          let kept : all_digits (y ∷ ys) ≡ true =
            sym (ap all_digits left) ∙ drop_end-all_digits is_zero_digit (six n) digits in
          let short : length (y ∷ ys) ≤ usdt_decimals =
            omega (arith, ap length left, six_long, drop_end-length is_zero_digit (six n)) in
          let stays : drop_end is_zero_digit (y ∷ ys) ≡ y ∷ ys =
            sym (ap (drop_end is_zero_digit) left) ∙ drop_end_twice is_zero_digit (six n) ∙ left in
          let back : (y ∷ ys) ++ zero_digits (usdt_decimals - length (y ∷ ys)) ≡ six n =
            cc (filled, left, six_long) in
          ap (λ (f : Text). to_base_units (with_fraction whole f)) left
          ∙ read_decimal whole (y ∷ ys) y ys number kept stays short
          ∙ ap some (rw (back, six-read n, print_number-read (base / scale)) (omega arith))
    ]
