-- ===== src/Prelude/Digits.antt =====
-- Decimal texts: `strconv.FormatInt` and the verb `%d`, for numbers of at most twenty digits, which are
-- all the numbers of 64 bits.
use Prim.Native.Nat.{ℕ, zero, suc, ◌+◌, ◌-◌, ◌*◌, ◌/◌, ◌%◌, ◌≤◌, ◌<◌}
use mathlib.Core.Path.{◌≡◌, refl, ap, ◌∙◌}
use mathlib.Core.Bool.{Bool, true, false, ◌&&◌}
use mathlib.Core.Option.{Option, none, some}
use mathlib.Core.List.{[], ◌∷◌}
use native.Mathlib.Omega.{arith}
use go_judge_system.Prelude.Tests.{
  ltb, leb, if◌then◌else◌, if_cases, if_either, le→leb, lt→ltb, ltb→lt,
}
use go_judge_system.Prelude.Bytes.{Text, is_empty}
use go_judge_system.Prelude.Int.{ℤ, pos, negsuc}

unfoldable pub is_digit : ℕ → Bool
is_digit c = leb b'0' c && leb c b'9'

unfoldable pub digits_value : ℕ → Text → Option ℕ
unfolding is_digit
digits_value acc [] = some acc
digits_value acc (c ∷ s) =
    let rest = digits_value (acc * 10 + (c - b'0')) s in if is_digit c then rest else none

-- The number that a text of digits spells.
unfoldable pub parse_digits : Text → Option ℕ
unfolding digits_value
parse_digits [] = none
parse_digits (c ∷ s) = digits_value 0 (c ∷ s)

-- The digits of a number before those that are already there.
unfoldable pub push_digits : ℕ → ℕ → Text → Text
push_digits zero n s = s
push_digits (suc fuel) n s =
    let more = push_digits fuel (n / 10) ((b'0' + n % 10) ∷ s) in
    if ltb n 10 then (b'0' + n % 10) ∷ s else more

unfoldable pub show_nat : ℕ → Text
unfolding push_digits
show_nat n = push_digits 20 n []

unfoldable pub show_int : ℤ → Text
unfolding show_nat
show_int (pos n) = show_nat n
show_int (negsuc n) = b'-' ∷ show_nat (suc n)

power_of_ten : ℕ → ℕ
power_of_ten zero = 1
power_of_ten (suc k) = 10 * power_of_ten k

digits_value-digit :
    (acc d : ℕ) (s : Text)
    → d < 10
    → digits_value acc ((b'0' + d) ∷ s) ≡ digits_value (acc * 10 + d) s
unfolding digits_value is_digit
digits_value-digit acc d s h =
    rw (le→leb 48 (48 + d) (omega arith), le→leb (48 + d) 57 (omega arith))
      (ap (λ m. digits_value m s) (omega arith))

digits_value-push_digits :
    (fuel n : ℕ) (s : Text)
    → n < power_of_ten fuel
    → digits_value 0 (push_digits fuel n s) ≡ digits_value n s
unfolding digits_value push_digits power_of_ten is_digit
digits_value-push_digits zero n s h = ap (λ m. digits_value m s) (omega arith)
digits_value-push_digits (suc fuel) n s h =
    let digit = b'0' + n % 10 in
    if_cases (ltb n 10) (λ (t : Text). digits_value 0 t ≡ digits_value n s)
      (λ small.
        digits_value-digit 0 (n % 10) s (omega arith)
        ∙ ap (λ m. digits_value m s) (omega (arith, ltb→lt n 10 small)))
      (λ big.
        digits_value-push_digits fuel (n / 10) (digit ∷ s) (omega arith)
        ∙ digits_value-digit (n / 10) (n % 10) s (omega arith)
        ∙ ap (λ m. digits_value m s) (omega arith))

-- What holds of the digits that are there and of each new one holds of them all.
push_digits_all :
    (P : Text → Type 0)
    → ((d : ℕ) (s : Text) → d < 10 → P s → P ((b'0' + d) ∷ s))
    → (fuel n : ℕ) (s : Text) → P s
    → P (push_digits fuel n s)
unfolding push_digits
push_digits_all P step zero n s p = p
push_digits_all P step (suc fuel) n s p =
    let next = step (n % 10) s (omega arith) p in
    if_either (ltb n 10) P next (push_digits_all P step fuel (n / 10) _ next)

-- Whether the first digit is not 0.
unfoldable pub is_leading : Text → Bool
is_leading [] = false
is_leading (c ∷ s) = ltb b'0' c

unfoldable pub all_digits : Text → Bool
all_digits [] = true
all_digits (c ∷ s) = is_digit c && all_digits s

not_less : (a b : ℕ) → ltb a b ≡ false → b ≤ a
not_less a b h = ground arith

leading_left : (n : ℕ) → ltb n 10 ≡ false → 0 < n → 0 < n / 10
leading_left n big p = omega (arith, not_less n 10 big)

push_digits_leading :
    (fuel n : ℕ) (s : Text)
    → 0 < n
    → n < power_of_ten fuel
    → is_leading (push_digits fuel n s) ≡ true
unfolding push_digits power_of_ten is_leading
push_digits_leading zero n s p h = absurd (omega arith)
push_digits_leading (suc fuel) n s p h =
    if_cases (ltb n 10) (λ (t : Text). is_leading t ≡ true)
      (λ small. lt→ltb 48 (48 + n % 10) (omega (arith, ltb→lt n 10 small)))
      (λ big. push_digits_leading fuel (n / 10) _ (leading_left n big p) (omega arith))

is_filled : Text → Bool
is_filled [] = false
is_filled (c ∷ s) = true

show_nat_filled : (n : ℕ) → is_filled (show_nat n) ≡ true
unfolding show_nat push_digits is_filled
show_nat_filled n =
    if_either (ltb n 10) (λ (t : Text). is_filled t ≡ true) refl
      (push_digits_all (λ t. is_filled t ≡ true) (λ d t lt e. refl) 19 (n / 10) _ refl)

parse_filled : (s : Text) → is_filled s ≡ true → parse_digits s ≡ digits_value 0 s
unfolding parse_digits is_filled
parse_filled [] h = cc
parse_filled (c ∷ s) h = refl

pub parse_digits-show_nat : (n : ℕ) → n < 9223372036854775808 → parse_digits (show_nat n) ≡ some n
unfolding show_nat digits_value power_of_ten
parse_digits-show_nat n h =
    parse_filled (show_nat n) (show_nat_filled n) ∙ digits_value-push_digits 20 n [] (omega arith)

pub show_nat-all_digits : (n : ℕ) → all_digits (show_nat n) ≡ true
unfolding show_nat all_digits is_digit
show_nat-all_digits n =
    push_digits_all (λ t. all_digits t ≡ true)
      (λ d t lt e. rw (le→leb 48 (48 + d) (omega arith), le→leb (48 + d) 57 (omega arith)) e) 20 n
      [] refl

pub show_nat-is_leading : (n : ℕ) → 0 < n → n < 9223372036854775808 → is_leading (show_nat n) ≡ true
unfolding show_nat power_of_ten
show_nat-is_leading n p h = push_digits_leading 20 n [] p (omega arith)

filled-is_empty : (s : Text) → is_filled s ≡ true → is_empty s ≡ false
unfolding is_filled
filled-is_empty [] h = cc
filled-is_empty (c ∷ s) h = refl

pub show_nat-is_empty : (n : ℕ) → is_empty (show_nat n) ≡ false
show_nat-is_empty n = filled-is_empty (show_nat n) (show_nat_filled n)
