-- ===== src/Submission/Message/Bounds.antt =====
-- The error message that is stored has a bounded length.
use mathlib.Core.Option.{some-injective}
use mathlib.Core.List.{reverse}
use go_judge_system.Prelude.{
  ℕ, ◌+◌, ◌≤◌, ltb, length, length-append, length-take, length-reverse, length-trim_space, take,
  Text, is_empty, trim_space, Bool, true, false, Bool-cases, ◌≡◌, subst, inl, inr, Option, none,
  some, [], ◌∷◌, arith,
}
use go_judge_system.Submission.Message.{
  valid_utf8, to_valid_utf8, strip_control_characters, shorten, ellipsis,
  max_stored_error_message_bytes, truncated, public_text, public_error_message,
}

either_bounded :
    (b : Bool) (x y : Text) (n : ℕ)
    → length x ≤ n
    → length y ≤ n
    → length (elim b [ true ↦ x | false ↦ y ]) ≤ n
either_bounded true x y n p q = p
either_bounded false x y n p q = q

length-shorten : (s : Text) → length (shorten s) ≤ length s
unfolding shorten
length-shorten [] = omega arith
length-shorten (c ∷ s) =
    either_bounded (valid_utf8 (reverse (c ∷ s))) _ _ _ (omega (arith, length-reverse (c ∷ s)))
      (omega (arith, length-shorten s))

length-truncated : (limit : ℕ) (s : Text) → length (truncated limit s) ≤ limit + 3
unfolding truncated
length-truncated limit s = elim (Bool-cases (ltb limit (length s))) [
  | inl long ↦ rw long (
      omega (
        arith,
        length-append (trim_space (shorten (reverse (take limit s)))) ellipsis,
        length-trim_space (shorten (reverse (take limit s))),
        length-shorten (reverse (take limit s)),
        length-reverse (take limit s),
        length-take limit s,
      ))
  | inr short ↦ rw short (ground arith)
]

-- What `public_text` returns with a limit.
length-public_text :
    (hide_paths : Text → Text) (limit : ℕ) (value m : Text)
    → public_text hide_paths limit value ≡ some m
    → length m ≤ limit + 3
unfolding public_text
length-public_text hide_paths limit value m h =
    let message = trim_space (strip_control_characters (to_valid_utf8 (hide_paths value))) in
    elim (Bool-cases (is_empty message)) [
      | inl blank ↦ cc (rw blank at h)
      | inr text ↦
          subst (λ x. length x ≤ limit + 3) (some-injective _ _ (rw text at h))
            (length-truncated limit message)
    ]

-- An error message that is stored and shown has at most 4096 bytes and the three of an ellipsis,
-- whatever the worker sent and whatever the replacement of paths makes of it.
pub length-public_error_message :
    (hide_paths : Text → Text) (value : Option Text) (m : Text)
    → public_error_message hide_paths value ≡ some m
    → length m ≤ max_stored_error_message_bytes + 3
unfolding public_error_message
length-public_error_message hide_paths none m h = cc h
length-public_error_message hide_paths (some value) m h =
    length-public_text hide_paths max_stored_error_message_bytes value m h
