-- ===== src/Worker/Cache/Names/Fields.antt =====
-- The fields of a name, and bytes in hexadecimal digits.
use go_judge_system.Prelude.{
  ℕ, ◌/◌, ◌%◌, ◌<◌, Text, is_digit, all_digits, Bool, true, false, not, ◌&&◌, ◌≡◌, refl, ap, some,
  [], ◌∷◌, ◌++◌, if◌then◌else◌, arith,
}
use go_judge_system.Worker.Cache.Names.{
  hex_digit, hex_encode, is_lower_hex, span, hex_value, hex_decode,
}

unfoldable pub all_pass : (ℕ → Bool) → Text → Bool
all_pass p [] = true
all_pass p (c ∷ s) = p c && all_pass p s

unfoldable pub ends_field : (ℕ → Bool) → Text → Bool
ends_field p [] = true
ends_field p (c ∷ s) = not (p c)

stop_here : (b : Bool) (x y : Text × Text) → not b ≡ true → (if b then x else y) ≡ y
stop_here true x y h = cc
stop_here false x y h = refl

take_more :
    (b r : Bool) (c : ℕ) (xs ys : Text) (q z : Text × Text)
    → (b && r) ≡ true
    → (r ≡ true → q ≡ (xs, ys))
    → (if b then (c ∷ q.0, q.1) else z) ≡ (c ∷ xs, ys)
take_more true r c xs ys q z h f = ap (λ (u : Text × Text). (c ∷ u.0, u.1)) (f h)
take_more false r c xs ys q z h f = cc

and_more : (b r t : Bool) → (b && r) ≡ true → (r ≡ true → t ≡ true) → (b && t) ≡ true
and_more true r t h f = f h
and_more false r t h f = h

pub span-append :
    (p : ℕ → Bool) (xs ys : Text)
    → all_pass p xs ≡ true
    → ends_field p ys ≡ true
    → span p (xs ++ ys) ≡ (xs, ys)
unfolding span all_pass ends_field
span-append p [] [] h e = refl
span-append p [] (c ∷ ys) h e = stop_here (p c) _ _ e
span-append p (c ∷ xs) ys h e =
    take_more (p c) (all_pass p xs) c xs ys _ _ h (λ g. span-append p xs ys g e)

hex_value-hex_digit : (d : ℕ) → d < 16 → hex_value (hex_digit d) ≡ some d
unfolding hex_value hex_digit is_digit
hex_value-hex_digit d h = ground arith

hex_digit_lower : (d : ℕ) → d < 16 → is_lower_hex (hex_digit d) ≡ true
unfolding is_lower_hex hex_digit is_digit
hex_digit_lower d h = ground arith

-- The bytes of a text.
abbrev pub AllBytes : Text → Type 0
AllBytes [] = Unit {0}
AllBytes (c ∷ s) = (c < 256) × AllBytes s

pub hex_decode-hex_encode : (s : Text) → AllBytes s → hex_decode (hex_encode s) ≡ some s
unfolding hex_decode hex_encode
hex_decode-hex_encode [] h = refl
hex_decode-hex_encode (c ∷ s) (lt, h) =
    rw
      (
        hex_value-hex_digit (c / 16) (omega arith),
        hex_value-hex_digit (c % 16) (omega arith),
        hex_decode-hex_encode s h,
      )
      (ap (λ d. some (d ∷ s)) (omega arith))

pub hex_encode_lower : (s : Text) → AllBytes s → all_pass is_lower_hex (hex_encode s) ≡ true
unfolding hex_encode all_pass
hex_encode_lower [] h = refl
hex_encode_lower (c ∷ s) (lt, h) =
    rw (hex_digit_lower (c / 16) (omega arith), hex_digit_lower (c % 16) (omega arith))
      (hex_encode_lower s h)

pub digits_pass : (s : Text) → all_digits s ≡ true → all_pass is_digit s ≡ true
unfolding all_pass all_digits
digits_pass [] h = refl
digits_pass (c ∷ s) h = and_more (is_digit c) (all_digits s) _ h (digits_pass s)
