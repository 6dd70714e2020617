-- ===== src/Worker/Cache/Eviction/Candidates.antt =====
-- The candidates for eviction: that they are free to go, and the sums over them.
use go_judge_system.Prelude.{
  ◌+◌, ◌≤◌, ℕ, true, if_either, if_cases, ◌≡◌, refl, List, [], ◌∷◌, arith,
}
use go_judge_system.Worker.Cache.{Entry}
use go_judge_system.Worker.Cache.Weights.{weigh}
use go_judge_system.Worker.Cache.Eviction.{
  Row, evicted_before, insert_candidate, sort_rows, is_eligible, eligible_rows,
}

-- Each row is of an entry that no batch uses and that is not being deleted.
abbrev pub AllEligible : List Row → Type 0
AllEligible [] = Unit {0}
AllEligible ((k, e) ∷ rows) = (is_eligible e ≡ true) × AllEligible rows

pub insert_candidate-AllEligible :
    (r : Row) (rows : List Row)
    → is_eligible r.1 ≡ true
    → AllEligible rows
    → AllEligible (insert_candidate r rows)
unfolding insert_candidate
insert_candidate-AllEligible r [] p h = (p, tt)
insert_candidate-AllEligible r (q ∷ rows) p (g, h) =
    if_either (evicted_before q r) AllEligible (g, insert_candidate-AllEligible r rows p h)
      (p, (g, h))

pub sort_rows-AllEligible : (rows : List Row) → AllEligible rows → AllEligible (sort_rows rows)
unfolding sort_rows
sort_rows-AllEligible [] h = tt
sort_rows-AllEligible ((k, e) ∷ rows) (p, h) =
    insert_candidate-AllEligible (k, e) _ p (sort_rows-AllEligible rows h)

pub eligible_rows-AllEligible : (rows : List Row) → AllEligible (eligible_rows rows)
unfolding eligible_rows
eligible_rows-AllEligible [] = tt
eligible_rows-AllEligible ((k, e) ∷ rows) =
    if_cases (is_eligible e) AllEligible (λ p. (p, eligible_rows-AllEligible rows))
      (λ p. eligible_rows-AllEligible rows)

-- The sums over the candidates.
module _ (w : Entry → ℕ) where
  weigh-insert_candidate :
      (r : Row) (rows : List Row) → weigh w (insert_candidate r rows) ≡ w r.1 + weigh w rows
  unfolding weigh insert_candidate
  weigh-insert_candidate (k, e) [] = refl
  weigh-insert_candidate (k, e) ((j, d) ∷ rows) =
      if_either (evicted_before (j, d) (k, e))
        (λ (l : List Row). weigh w l ≡ w e + (w d + weigh w rows))
        (omega (arith, weigh-insert_candidate (k, e) rows)) refl

  weigh-sort_rows : (rows : List Row) → weigh w (sort_rows rows) ≡ weigh w rows
  unfolding weigh sort_rows
  weigh-sort_rows [] = refl
  weigh-sort_rows ((k, e) ∷ rows) =
      omega (arith, weigh-insert_candidate (k, e) (sort_rows rows), weigh-sort_rows rows)

  weigh-eligible_rows : (rows : List Row) → weigh w (eligible_rows rows) ≤ weigh w rows
  unfolding weigh eligible_rows
  weigh-eligible_rows [] = omega arith
  weigh-eligible_rows ((k, e) ∷ rows) =
      if_either (is_eligible e) (λ (l : List Row). weigh w l ≤ w e + weigh w rows)
        (omega (arith, weigh-eligible_rows rows)) (omega (arith, weigh-eligible_rows rows))

  pub weigh-candidates : (rows : List Row) → weigh w (sort_rows (eligible_rows rows)) ≤ weigh w rows
  weigh-candidates rows =
      omega (arith, weigh-sort_rows (eligible_rows rows), weigh-eligible_rows rows)
