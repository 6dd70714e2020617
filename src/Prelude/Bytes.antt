-- ===== src/Prelude/Bytes.antt =====
-- Go strings: lists of bytes. `strings.TrimSpace` works on the UTF-8 encodings of Unicode white
-- space, at both ends.
use Prim.Native.Nat.{ℕ, ◌≤◌}
use Prim.Native.Char.{code}
use Prim.Native.String.{String}
use mathlib.Core.Path.{◌≡◌, refl, sym, ap, ap₂, ◌∙◌}
use mathlib.Core.Bool.{Bool, true, false, ◌&&◌, ◌||◌}
use mathlib.Core.List.{List, [], ◌∷◌, ◌++◌, reverse, reverse-append, reverse-reverse}
use mathlib.Core.Logic.{◌↔◌, ite}
use native.Mathlib.Omega.{arith}
use native.Mathlib.Decide.{ℕ_discrete}
use go_judge_system.Prelude.Lists.{length, length-append}
use go_judge_system.Prelude.Tests.{leb, ◌==◌, if◌then◌else◌}

abbrev pub Text : Type 0
Text = List ℕ

head_differs : (a b : ℕ) (s t : Text) → ¬ (a ≡ b) → ¬ (a ∷ s ≡ b ∷ t)
head_differs a b s t h e = ground arith

tail_differs : (a b : ℕ) (s t : Text) → ¬ (s ≡ t) → ¬ (a ∷ s ≡ b ∷ t)
tail_differs a b s t h e = ground arith

nil_ne_cons : (a : ℕ) (s : Text) → ¬ ([] ≡ a ∷ s)
nil_ne_cons a s e = cc

cons_byte : ℕ → Text → Text
cons_byte a s = a ∷ s

-- `==` on strings.
unfoldable pub text_dec : Discrete Text
unfolding ℕ_discrete head_differs tail_differs nil_ne_cons cons_byte
text_dec [] [] = yes refl
text_dec [] (b ∷ t) = no (nil_ne_cons b t)
text_dec (a ∷ s) [] = no (λ e. nil_ne_cons a s (sym e))
text_dec (a ∷ s) (b ∷ t) = elim (ℕ_discrete a b) [
  | no h ↦ no (head_differs a b s t h)
  | yes e ↦ elim (text_dec s t) [
    | no h ↦ no (tail_differs a b s t h)
    | yes f ↦ yes (ap₂ cons_byte e f)
  ]
]

-- The same as a Boolean test.
unfoldable pub text_eq : Text → Text → Bool
text_eq s t = ite (text_dec s t) true false

pub text_eq_iff : (s t : Text) → (text_eq s t ≡ true) ↔ (s ≡ t)
unfolding text_eq
text_eq_iff s t = ground arith

-- The bytes of an ASCII literal.
abbrev pub codes : String → Text
codes String.[] = []
codes (String.◌∷◌ c s) = code c ∷ codes s

abbrev pub is_empty : Text → Bool
is_empty [] = true
is_empty (c ∷ s) = false

-- White space at the front: how many bytes it takes, 0 for none. These are the encodings of
-- U+0009 to U+000D, U+0020, U+0085, U+00A0, U+1680, U+2000 to U+200A, U+2028, U+2029, U+202F,
-- U+205F and U+3000.
pub is_space1 : ℕ → Bool
is_space1 a = (leb 9 a && leb a 13) || a == 32

pub is_space2 : ℕ → ℕ → Bool
is_space2 a b = a == 0xc2 && (b == 0x85 || b == 0xa0)

pub is_space3 : ℕ → ℕ → ℕ → Bool
is_space3 a b c =
    (a == 0xe1 && b == 0x9a && c == 0x80)
    || (a == 0xe2
        && b == 0x80
        && ((leb 0x80 c && leb c 0x8a) || c == 0xa8 || c == 0xa9 || c == 0xaf))
    || (a == 0xe2 && b == 0x81 && c == 0x9f)
    || (a == 0xe3 && b == 0x80 && c == 0x80)

-- `strings.TrimSpace` from the left.
unfoldable pub trim_left : Text → Text
trim_left [] = []
trim_left (a ∷ []) = if is_space1 a then [] else a ∷ []
trim_left (a ∷ b ∷ []) =
    let one = trim_left (b ∷ []) in
    if is_space1 a then one else if is_space2 a b then [] else a ∷ b ∷ []
trim_left (a ∷ b ∷ c ∷ s) =
    let one = trim_left (b ∷ c ∷ s) in
    let two = trim_left (c ∷ s) in
    let three = trim_left s in
    if is_space1 a
    then one
    else if is_space2 a b
    then two
    else if is_space3 a b c
    then three
    else a ∷ b ∷ c ∷ s

-- The same from the right, on the reversed bytes.
unfoldable pub trim_back : Text → Text
trim_back [] = []
trim_back (a ∷ []) = if is_space1 a then [] else a ∷ []
trim_back (b ∷ a ∷ []) =
    let one = trim_back (a ∷ []) in
    if is_space1 b then one else if is_space2 a b then [] else b ∷ a ∷ []
trim_back (c ∷ b ∷ a ∷ s) =
    let one = trim_back (b ∷ a ∷ s) in
    let two = trim_back (a ∷ s) in
    let three = trim_back s in
    if is_space1 c
    then one
    else if is_space2 b c
    then two
    else if is_space3 a b c
    then three
    else c ∷ b ∷ a ∷ s

unfoldable pub trim_space : Text → Text
unfolding trim_left trim_back is_space1 is_space2 is_space3
trim_space s = reverse (trim_back (reverse (trim_left s)))

-- Whether the text begins with white space.
starts_space : Text → Bool
starts_space [] = false
starts_space (a ∷ []) = is_space1 a
starts_space (a ∷ b ∷ []) = is_space1 a || is_space2 a b
starts_space (a ∷ b ∷ c ∷ s) = is_space1 a || is_space2 a b || is_space3 a b c

starts_space-append : (p q : Text) → starts_space (p ++ q) ≡ false → starts_space p ≡ false
unfolding starts_space
starts_space-append [] q h = refl
starts_space-append (a ∷ []) [] h = h
starts_space-append (a ∷ []) (b ∷ []) h = ground arith
starts_space-append (a ∷ []) (b ∷ c ∷ q) h = ground arith
starts_space-append (a ∷ b ∷ []) [] h = h
starts_space-append (a ∷ b ∷ []) (c ∷ q) h = ground arith
starts_space-append (a ∷ b ∷ c ∷ p) q h = h

trim_left-starts_space : (s : Text) → starts_space (trim_left s) ≡ false
unfolding trim_left starts_space
trim_left-starts_space [] = refl
trim_left-starts_space (a ∷ []) = ground arith
trim_left-starts_space (a ∷ b ∷ []) = ground (arith, trim_left-starts_space (b ∷ []))
trim_left-starts_space (a ∷ b ∷ c ∷ s) = ground (
  arith,
  trim_left-starts_space (b ∷ c ∷ s),
  trim_left-starts_space (c ∷ s),
  trim_left-starts_space s,
)

trim_left_fixed : (s : Text) → starts_space s ≡ false → trim_left s ≡ s
unfolding trim_left starts_space
trim_left_fixed [] h = refl
trim_left_fixed (a ∷ []) h = ground arith
trim_left_fixed (a ∷ b ∷ []) h = ground arith
trim_left_fixed (a ∷ b ∷ c ∷ s) h = ground arith

trim_back_idem : (s : Text) → trim_back (trim_back s) ≡ trim_back s
unfolding trim_back
trim_back_idem [] = refl
trim_back_idem (a ∷ []) = ground arith
trim_back_idem (b ∷ a ∷ []) = ground (arith, trim_back_idem (a ∷ []))
trim_back_idem (c ∷ b ∷ a ∷ s) =
    ground (arith, trim_back_idem (b ∷ a ∷ s), trim_back_idem (a ∷ s), trim_back_idem s)

-- `trim_back` takes a front part of the reversed text away.
dropped : Text → Text
dropped [] = []
dropped (a ∷ []) = if is_space1 a then a ∷ [] else []
dropped (b ∷ a ∷ []) =
    let one = b ∷ dropped (a ∷ []) in
    if is_space1 b then one else if is_space2 a b then b ∷ a ∷ [] else []
dropped (c ∷ b ∷ a ∷ s) =
    let one = c ∷ dropped (b ∷ a ∷ s) in
    let two = c ∷ b ∷ dropped (a ∷ s) in
    let three = c ∷ b ∷ a ∷ dropped s in
    if is_space1 c
    then one
    else if is_space2 b c
    then two
    else if is_space3 a b c
    then three
    else []

dropped-append : (s : Text) → dropped s ++ trim_back s ≡ s
unfolding trim_back dropped
dropped-append [] = refl
dropped-append (a ∷ []) = ground arith
dropped-append (b ∷ a ∷ []) = ground (arith, dropped-append (a ∷ []))
dropped-append (c ∷ b ∷ a ∷ s) =
    ground (arith, dropped-append (b ∷ a ∷ s), dropped-append (a ∷ s), dropped-append s)

front_fixed :
    (s : Text)
    → starts_space s ≡ false
    → trim_left (reverse (trim_back (reverse s))) ≡ reverse (trim_back (reverse s))
front_fixed s h = trim_left_fixed (reverse (trim_back (reverse s))) (
    starts_space-append _ (reverse (dropped (reverse s))) (
      rw
        (
          ← reverse-append (dropped (reverse s)) (trim_back (reverse s)),
          dropped-append (reverse s),
          reverse-reverse s,
        )
        h))

-- Trimming twice is trimming once.
pub trim_space_idem : (s : Text) → trim_space (trim_space s) ≡ trim_space s
unfolding trim_space
trim_space_idem s = rw (
  front_fixed (trim_left s) (trim_left-starts_space s),
  reverse-reverse (trim_back (reverse (trim_left s))),
  trim_back_idem (reverse (trim_left s)),
)

pub length-reverse : (s : Text) → length (reverse s) ≡ length s
length-reverse [] = refl
length-reverse (a ∷ s) =
    ap length (reverse-append (a ∷ []) s)
    ∙ length-append (reverse s) (a ∷ [])
    ∙ omega (arith, length-reverse s)

length-trim_left : (s : Text) → length (trim_left s) ≤ length s
unfolding trim_left
length-trim_left [] = omega arith
length-trim_left (a ∷ []) = ground arith
length-trim_left (a ∷ b ∷ []) = ground (arith, length-trim_left (b ∷ []))
length-trim_left (a ∷ b ∷ c ∷ s) =
    ground (arith, length-trim_left (b ∷ c ∷ s), length-trim_left (c ∷ s), length-trim_left s)

length-trim_back : (s : Text) → length (trim_back s) ≤ length s
unfolding trim_back
length-trim_back [] = omega arith
length-trim_back (a ∷ []) = ground arith
length-trim_back (b ∷ a ∷ []) = ground (arith, length-trim_back (a ∷ []))
length-trim_back (c ∷ b ∷ a ∷ s) =
    ground (arith, length-trim_back (b ∷ a ∷ s), length-trim_back (a ∷ s), length-trim_back s)

-- Trimming never makes a text longer.
pub length-trim_space : (s : Text) → length (trim_space s) ≤ length s
unfolding trim_space
length-trim_space s = omega (
  arith,
  length-reverse (trim_back (reverse (trim_left s))),
  length-trim_back (reverse (trim_left s)),
  length-reverse (trim_left s),
  length-trim_left s,
)
