-- ===== src/Worker/Output/LineEnds.antt =====
-- The three kinds of line ends that an output may have, and that a verdict does not see them.
use go_judge_system.Prelude.{
  ◌==◌, Text, text_eq, true, false, ◌≡◌, refl, sym, ap, ◌∙◌, [], ◌∷◌, map, if◌then◌else◌, arith,
}
use go_judge_system.Worker.Output.{
  line_feed, carriage_return, starts_line_feed, replace_crlf, replace_cr, split_lines, join_lines,
  trim_right, is_blank, is_line_feed, normalize_output, output_equal,
}
use go_judge_system.Worker.Output.Laws.{has_no_cr, unify_no_cr}

-- \n, \r\n and \r.
pub data LineEnd : Type 0 where
  lf crlf cr : LineEnd

unfoldable pub end_line : LineEnd → Text → Text
end_line lf s = line_feed ∷ s
end_line crlf s = carriage_return ∷ line_feed ∷ s
end_line cr s = carriage_return ∷ s

-- The text with all its line feeds written as the line end.
unfoldable pub with_line_ends : LineEnd → Text → Text
unfolding end_line
with_line_ends e [] = []
with_line_ends e (c ∷ s) =
    let rest = with_line_ends e s in if c == line_feed then end_line e rest else c ∷ rest

cr-starts_line_feed : (s : Text) → starts_line_feed (with_line_ends cr s) ≡ false
unfolding starts_line_feed with_line_ends
cr-starts_line_feed [] = refl
cr-starts_line_feed (c ∷ s) = ground arith

-- Unifying the line ends gives the text back.
unify_line_ends :
    (e : LineEnd) (s : Text)
    → has_no_cr s ≡ true
    → replace_cr (replace_crlf (with_line_ends e s)) ≡ s
unfolding has_no_cr replace_cr replace_crlf with_line_ends starts_line_feed
unify_line_ends e [] h = refl
unify_line_ends lf (c ∷ s) h = ground (arith, unify_line_ends lf s)
unify_line_ends crlf (c ∷ s) h = ground (arith, unify_line_ends crlf s)
unify_line_ends cr (c ∷ s) h = ground (arith, unify_line_ends cr s, cr-starts_line_feed s)

-- What comes of a text after its line ends are unified.
abbrev after_unify : Text → Text
after_unify x = trim_right is_line_feed (join_lines (map (trim_right is_blank) (split_lines x)))

normalize-with_line_ends :
    (e : LineEnd) (s : Text)
    → has_no_cr s ≡ true
    → normalize_output (with_line_ends e s) ≡ normalize_output s
unfolding normalize_output
normalize-with_line_ends e s h = ap after_unify (unify_line_ends e s h ∙ sym (unify_no_cr s h))

-- Of two texts without carriage returns, each written with line ends of one kind, \n, \r\n or \r, the verdict
-- is that on the two texts themselves.
pub output_equal_line_ends :
    (d e : LineEnd) (actual expected : Text)
    → has_no_cr actual ≡ true
    → has_no_cr expected ≡ true
    → output_equal (with_line_ends d actual) (with_line_ends e expected)
      ≡ output_equal actual expected
unfolding output_equal
output_equal_line_ends d e actual expected h g =
    ap (λ x. text_eq x (normalize_output (with_line_ends e expected)))
      (normalize-with_line_ends d actual h)
    ∙ ap (text_eq (normalize_output actual)) (normalize-with_line_ends e expected g)
