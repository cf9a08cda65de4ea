-- ===== src/Prelude/Numbers.antt =====
-- Go's `int` of 64 bits, and what the program uses of `strconv` on it.
use Prim.Native.Nat.{ℕ, zero, suc, ◌+◌, ◌-◌, ◌*◌, ◌/◌, ◌%◌, ◌≤◌, ◌<◌}
use mathlib.Core.Path.{◌≡◌, refl, ◌∙◌, ap, sym}
use mathlib.Core.Logic.{◌↔◌, inl, inr}
use mathlib.Core.Bool.{Bool, true, false, ◌&&◌}
use mathlib.Core.List.{[], ◌∷◌}
use native.Mathlib.Omega.{arith}
use sshakku.Prelude.Tests.{ltb, leb, ◌==◌, if◌then◌else◌, Bool-cases, All}
use sshakku.Prelude.Texts.{Text}

-- `negsuc n` is -(n + 1).
pub data ℤ : Type 0 where
  pos : ℕ → ℤ
  negsuc : ℕ → ℤ

abbrev pub int_eq : ℤ → ℤ → Bool
int_eq (pos a) (pos b) = a == b
int_eq (pos a) (negsuc b) = false
int_eq (negsuc a) (pos b) = false
int_eq (negsuc a) (negsuc b) = a == b

pub int_eq_iff : (a b : ℤ) → (int_eq a b ≡ true) ↔ (a ≡ b)
int_eq_iff a b = ground arith

abbrev pub int_ltb : ℤ → ℤ → Bool
int_ltb (pos a) (pos b) = ltb a b
int_ltb (pos a) (negsuc b) = false
int_ltb (negsuc a) (pos b) = true
int_ltb (negsuc a) (negsuc b) = ltb b a

-- 2 ^ 63 - 1, 2 ^ 64 and the first number that ten times does not fit into 64 bits.
abbrev pub max_int : ℕ
max_int = 9223372036854775807

abbrev pub uint_mod : ℕ
uint_mod = 18446744073709551616

abbrev pub uint_cutoff : ℕ
uint_cutoff = 1844674407370955162

abbrev pub is_digit : ℕ → Bool
is_digit c = leb 48 c && leb c 57

-- What strconv.ParseUint makes of the characters: the first that does not fit decides.
pub data Digits : Type 0 where
  not_digits : Digits
  too_large : Digits
  value : ℕ → Digits

unfoldable pub read_digits : ℕ → Text → Digits
read_digits n [] = value n
read_digits n (c ∷ s) =
    let m = n * 10 + (c - 48) in
    let rest = read_digits m s in
    if is_digit c
    then (if ltb n uint_cutoff && ltb m uint_mod then rest else too_large)
    else not_digits

unfoldable pub parse_uint : Text → Digits
unfolding read_digits
parse_uint [] = not_digits
parse_uint (c ∷ s) = read_digits 0 (c ∷ s)

-- The value, and whether there was no error: with an error it is 0, or the nearest `int`.
abbrev pub positive : Digits → ℤ × Bool
positive not_digits = (pos 0, false)
positive too_large = (pos max_int, false)
positive (value n) = if leb n max_int then (pos n, true) else (pos max_int, false)

abbrev pub minus : ℕ → ℤ
minus zero = pos 0
minus (suc n) = negsuc n

abbrev pub negative : Digits → ℤ × Bool
negative not_digits = (pos 0, false)
negative too_large = (negsuc max_int, false)
negative (value n) = if leb n (max_int + 1) then (minus n, true) else (negsuc max_int, false)

-- strconv.Atoi and strconv.ParseInt in base ten with 64 bits
unfoldable pub atoi : Text → ℤ × Bool
unfolding parse_uint
atoi [] = (pos 0, false)
atoi (c ∷ s) =
    if c == b'-'
    then negative (parse_uint s)
    else if c == b'+'
    then positive (parse_uint s)
    else positive (parse_uint (c ∷ s))

-- The decimal digits of a number, in front of some text.
unfoldable pub show_fuel : ℕ → ℕ → Text → Text
show_fuel zero n s = s
show_fuel (suc fuel) n s =
    let rest = show_fuel fuel (n / 10) ((48 + n % 10) ∷ s) in
    if ltb n 10 then (48 + n) ∷ s else rest

-- `%d` of a number that is not negative
unfoldable pub show_nat : ℕ → Text
unfolding show_fuel
show_nat n = show_fuel (suc n) n []

-- `%d`
unfoldable pub show_int : ℤ → Text
unfolding show_nat
show_int (pos n) = show_nat n
show_int (negsuc n) = b'-' ∷ show_nat (suc n)

read_digits-step :
    (n d m : ℕ) (s : Text)
    → d < 10
    → n * 10 + d ≡ m
    → m < uint_mod
    → read_digits n ((48 + d) ∷ s) ≡ read_digits m s
unfolding read_digits
read_digits-step n d m s h q k =
    let e : n * 10 + (48 + d - 48) ≡ m = omega arith in rw e (ground arith)

-- The digits of a number read back as that number.
read_digits-show_fuel :
    (fuel n : ℕ) (s : Text)
    → n < fuel
    → n < uint_mod
    → read_digits 0 (show_fuel fuel n s) ≡ read_digits n s
unfolding show_fuel
read_digits-show_fuel zero n s h k = absurd (omega arith)
read_digits-show_fuel (suc fuel) n s h k = elim (Bool-cases (ltb n 10)) [
  | inl e ↦ rw e (read_digits-step 0 n n s (ground arith) (omega arith) k)
  | inr e ↦
      let big : 10 ≤ n = ground arith in
      rw e (
        read_digits-show_fuel fuel (n / 10) ((48 + n % 10) ∷ s) (omega arith) (omega arith)
        ∙ read_digits-step (n / 10) (n % 10) n s (omega arith) (omega arith) k)
]

-- Printed digits are never none, and digits only.
show_fuel-cons :
    (fuel n : ℕ) (s : Text)
    → n < fuel
    → (c : ℕ) × (r : Text) × (show_fuel fuel n s ≡ c ∷ r) × (is_digit c ≡ true)
unfolding show_fuel
show_fuel-cons zero n s h = absurd (omega arith)
show_fuel-cons (suc fuel) n s h = elim (Bool-cases (ltb n 10)) [
  | inl e ↦ (48 + n, s, rw e, ground arith)
  | inr e ↦ rw e (show_fuel-cons fuel (n / 10) ((48 + n % 10) ∷ s) (ground arith))
]

parse_uint-show_nat : (n : ℕ) → n < uint_mod → parse_uint (show_nat n) ≡ value n
unfolding parse_uint show_nat
parse_uint-show_nat n h =
    let (c, r, e, _) = show_fuel-cons (suc n) n [] (omega arith) in
    rw e (
      ap (read_digits 0) (sym e)
      ∙ read_digits-show_fuel (suc n) n [] (omega arith) h
      ∙ unfold read_digits in refl)

atoi_of_digit :
    (c : ℕ) (s : Text) → is_digit c ≡ true → atoi (c ∷ s) ≡ positive (parse_uint (c ∷ s))
unfolding atoi
atoi_of_digit c s h = let k : 48 ≤ c = ground arith in ground arith

positive_value : (n : ℕ) → n ≤ max_int → positive (value n) ≡ (pos n, true)
positive_value n h = ground arith

atoi_of_shape :
    (t : Text) (c : ℕ) (r : Text) → t ≡ c ∷ r → is_digit c ≡ true → atoi t ≡ positive (parse_uint t)
atoi_of_shape t c r e h = rw e (atoi_of_digit c r h)

atoi_of_digits :
    (t : Text) (n : ℕ)
    → parse_uint t ≡ value n
    → n ≤ max_int
    → positive (parse_uint t) ≡ (pos n, true)
atoi_of_digits t n e h = rw e (positive_value n h)

pub show_nat-cons : (n : ℕ) → (c : ℕ) × (r : Text) × (show_nat n ≡ c ∷ r) × (is_digit c ≡ true)
unfolding show_nat
show_nat-cons n = show_fuel-cons (suc n) n [] (omega arith)

-- A number that an `int` holds is printed and read back as itself.
pub atoi-show_nat : (n : ℕ) → n ≤ max_int → atoi (show_nat n) ≡ (pos n, true)
atoi-show_nat n h =
    let (c, r, e, digit) = show_nat-cons n in
    atoi_of_shape (show_nat n) c r e digit
    ∙ atoi_of_digits (show_nat n) n (parse_uint-show_nat n (omega arith)) h

show_fuel-All :
    (P : ℕ → Type 0) (fuel n : ℕ) (s : Text)
    → ((d : ℕ) → d < 10 → P (48 + d))
    → All P s
    → All P (show_fuel fuel n s)
unfolding show_fuel
show_fuel-All P zero n s p h = h
show_fuel-All P (suc fuel) n s p h = elim (Bool-cases (ltb n 10)) [
  | inl e ↦ rw e (p n (ground arith), h)
  | inr e ↦ rw e (show_fuel-All P fuel (n / 10) _ p (p (n % 10) (omega arith), h))
]

-- A property of the ten digits holds of every character of a printed number.
pub show_nat-All : (P : ℕ → Type 0) (n : ℕ) → ((d : ℕ) → d < 10 → P (48 + d)) → All P (show_nat n)
unfolding show_nat
show_nat-All P n p = show_fuel-All P (suc n) n [] p tt
