-- ===== src/Worker/Output/Laws.antt =====
-- A normal output is what is left of the text in one pass, and normalizing it again changes nothing.
use go_judge_system.Prelude.{
  ℕ, ◌==◌, Text, is_empty, Bool, true, false, Bool-cases, not, ◌&&◌, ◌≡◌, refl, sym, ap, ◌∙◌, inl,
  inr, List, [], ◌∷◌, ◌++◌, map, if◌then◌else◌, if_either, arith,
}
use go_judge_system.Worker.Output.{
  line_feed, carriage_return, starts_line_feed, replace_crlf, replace_cr, push_byte, split_lines,
  join_lines, trim_right, is_blank, is_line_feed, normalize_output,
}

unfoldable pub ends_line : Text → Bool
ends_line [] = true
ends_line (c ∷ s) = c == line_feed

-- Blanks go where the line ends after them.
unfoldable pub scrub : Text → Text
scrub [] = []
scrub (c ∷ s) = let rest = scrub s in if is_blank c && ends_line rest then rest else c ∷ rest

scrub_lines : List Text → Text
scrub_lines ls = join_lines (map (trim_right is_blank) ls)

-- A byte in front of a trimmed line, which is the last one, or is followed by others.
front_last :
    (b : Bool) (c : ℕ) (t : Text)
    → starts_line_feed t ≡ false
    → (if b && is_empty t then [] else c ∷ t) ≡ (if b && ends_line t then t else c ∷ t)
unfolding starts_line_feed ends_line
front_last false c t h = refl
front_last true c [] h = refl
front_last true c (d ∷ t) h = rw h refl

front_more :
    (b : Bool) (c : ℕ) (t u : Text)
    → starts_line_feed t ≡ false
    → (if b && is_empty t then [] else c ∷ t) ++ line_feed ∷ u
      ≡ (if b && ends_line (t ++ line_feed ∷ u) then t ++ line_feed ∷ u else c ∷ t ++ line_feed ∷ u)
unfolding starts_line_feed ends_line
front_more false c t u h = refl
front_more true c [] u h = refl
front_more true c (d ∷ t) u h = rw h refl

scrub_lines-cons :
    (c : ℕ) (l : Text) (ls : List Text)
    → starts_line_feed (trim_right is_blank l) ≡ false
    → let t = scrub_lines (l ∷ ls) in
      scrub_lines ((c ∷ l) ∷ ls) ≡ (if is_blank c && ends_line t then t else c ∷ t)
unfolding scrub_lines join_lines trim_right
scrub_lines-cons c l [] h = front_last (is_blank c) c (trim_right is_blank l) h
scrub_lines-cons c l (m ∷ ls) h = front_more (is_blank c) c (trim_right is_blank l) _ h

scrub_lines-nil :
    (l : Text) (ls : List Text) → scrub_lines ([] ∷ l ∷ ls) ≡ line_feed ∷ scrub_lines (l ∷ ls)
unfolding scrub_lines join_lines trim_right
scrub_lines-nil l ls = refl

head_not_line_feed :
    (c : ℕ) (l : Text)
    → (c == line_feed) ≡ false
    → starts_line_feed (trim_right is_blank (c ∷ l)) ≡ false
unfolding trim_right starts_line_feed
head_not_line_feed c l h =
    if_either (is_blank c && is_empty (trim_right is_blank l)) (λ x. starts_line_feed x ≡ false)
      refl h

scrub-line_feed : (c : ℕ) (s : Text) → (c == line_feed) ≡ true → scrub (c ∷ s) ≡ line_feed ∷ scrub s
unfolding scrub is_blank
scrub-line_feed c s h = ground arith

-- The first line of a text starts with no line feed, and the trimmed lines are the scrubbed text.
split_lines_shape :
    (s : Text)
    → (l : Text) × (ls : List Text) × (split_lines s ≡ l ∷ ls)
      × (starts_line_feed (trim_right is_blank l) ≡ false)
      × (scrub_lines (l ∷ ls) ≡ scrub s)
unfolding scrub_lines split_lines join_lines trim_right scrub starts_line_feed push_byte
split_lines_shape [] = ([], [], refl, refl, refl)
split_lines_shape (c ∷ s) =
    let (l, ls, split, first, same) = split_lines_shape s in
    elim (Bool-cases (c == line_feed)) [
      | inl feed ↦ (
        [],
        l ∷ ls,
        rw (feed, split) refl,
        refl,
        scrub_lines-nil l ls ∙ ap (λ x. line_feed ∷ x) same ∙ sym (scrub-line_feed c s feed),
      )
      | inr other ↦ (
        c ∷ l,
        ls,
        rw (other, split) refl,
        head_not_line_feed c l other,
        scrub_lines-cons c l ls first
            ∙ ap (λ x. if is_blank c && ends_line x then x else c ∷ x) same,
      )
    ]

split_lines-scrub : (s : Text) → scrub_lines (split_lines s) ≡ scrub s
split_lines-scrub s =
    let (l, ls, split, _, same) = split_lines_shape s in ap scrub_lines split ∙ same

trim_right_idem : (cut : ℕ → Bool) (s : Text) → trim_right cut (trim_right cut s) ≡ trim_right cut s
unfolding trim_right
trim_right_idem cut [] = refl
trim_right_idem cut (c ∷ s) = elim (Bool-cases (cut c && is_empty (trim_right cut s))) [
  | inl gone ↦ rw gone refl
  | inr kept ↦ rw (kept, trim_right_idem cut s, kept) refl
]

unfoldable pub is_scrubbed : Text → Bool
is_scrubbed [] = true
is_scrubbed (c ∷ s) = not (is_blank c && ends_line s) && is_scrubbed s

scrub-is_scrubbed : (s : Text) → is_scrubbed (scrub s) ≡ true
unfolding is_scrubbed scrub
scrub-is_scrubbed [] = refl
scrub-is_scrubbed (c ∷ s) = elim (Bool-cases (is_blank c && ends_line (scrub s))) [
  | inl gone ↦ rw gone (scrub-is_scrubbed s)
  | inr kept ↦ rw (kept, kept) (scrub-is_scrubbed s)
]

scrub_scrubbed : (s : Text) → is_scrubbed s ≡ true → scrub s ≡ s
unfolding is_scrubbed scrub
scrub_scrubbed [] h = refl
scrub_scrubbed (c ∷ s) h = ground (arith, scrub_scrubbed s)

trim_right-ends_line :
    (s : Text) → ends_line s ≡ false → ends_line (trim_right is_line_feed s) ≡ false
unfolding ends_line trim_right is_line_feed
trim_right-ends_line [] h = h
trim_right-ends_line (c ∷ s) h = rw h h

-- Trailing line feeds that go leave no blank at the end.
trim_right-is_scrubbed :
    (s : Text) → is_scrubbed s ≡ true → is_scrubbed (trim_right is_line_feed s) ≡ true
unfolding is_scrubbed trim_right is_line_feed is_blank ends_line
trim_right-is_scrubbed [] h = refl
trim_right-is_scrubbed (c ∷ s) h = ground (arith, trim_right-is_scrubbed s, trim_right-ends_line s)

unfoldable pub has_no_cr : Text → Bool
has_no_cr [] = true
has_no_cr (c ∷ s) = not (c == carriage_return) && has_no_cr s

replace_cr-has_no_cr : (s : Text) → has_no_cr (replace_cr s) ≡ true
unfolding has_no_cr replace_cr
replace_cr-has_no_cr [] = refl
replace_cr-has_no_cr (c ∷ s) = ground (arith, replace_cr-has_no_cr s)

pub unify_no_cr : (s : Text) → has_no_cr s ≡ true → replace_cr (replace_crlf s) ≡ s
unfolding has_no_cr replace_cr replace_crlf
unify_no_cr [] h = refl
unify_no_cr (c ∷ s) h = ground (arith, unify_no_cr s)

scrub-has_no_cr : (s : Text) → has_no_cr s ≡ true → has_no_cr (scrub s) ≡ true
unfolding has_no_cr scrub
scrub-has_no_cr [] h = refl
scrub-has_no_cr (c ∷ s) h = ground (arith, scrub-has_no_cr s)

trim_right-has_no_cr :
    (cut : ℕ → Bool) (s : Text) → has_no_cr s ≡ true → has_no_cr (trim_right cut s) ≡ true
unfolding has_no_cr trim_right
trim_right-has_no_cr cut [] h = refl
trim_right-has_no_cr cut (c ∷ s) h = ground (arith, trim_right-has_no_cr cut s)

-- Normalizing is one pass over the text with unified line ends, which drops the blanks that a line
-- ends with, and then the line feeds that the text ends with.
pub normalize_output-scrub :
    (s : Text) → normalize_output s ≡ trim_right is_line_feed (scrub (replace_cr (replace_crlf s)))
unfolding normalize_output scrub_lines
normalize_output-scrub s =
    ap (trim_right is_line_feed) (split_lines-scrub (replace_cr (replace_crlf s)))

-- A normal output is normal: normalizing twice is normalizing once.
pub normalize_output_idem : (s : Text) → normalize_output (normalize_output s) ≡ normalize_output s
normalize_output_idem s =
    let t = scrub (replace_cr (replace_crlf s)) in
    let n = trim_right is_line_feed t in
    let is = normalize_output-scrub s in
    let no_cr : has_no_cr n ≡ true =
      trim_right-has_no_cr is_line_feed t
        (scrub-has_no_cr (replace_cr (replace_crlf s)) (replace_cr-has_no_cr (replace_crlf s))) in
    let scrubbed : is_scrubbed n ≡ true =
      trim_right-is_scrubbed t (scrub-is_scrubbed (replace_cr (replace_crlf s))) in
    ap normalize_output is
    ∙ normalize_output-scrub n
    ∙ ap (λ x. trim_right is_line_feed (scrub x)) (unify_no_cr n no_cr)
    ∙ ap (trim_right is_line_feed) (scrub_scrubbed n scrubbed)
    ∙ trim_right_idem is_line_feed t
    ∙ sym is
