-- ===== src/Worker/Loader/Cases.antt =====
-- What is read from a directory: as many testcases as the metadata says, with positive indexes.
use go_judge_system.Prelude.{
  ℕ, suc, length, ℤ, pos, ℤ_discrete, is_positive, Text, true, ite, ◌≡◌, refl, ap, ◌∙◌, ◌⊎◌, inl,
  inr, Option, none, some, List, [], ◌∷◌,
}
use go_judge_system.Worker.Execution.{Outcome, returns, fails, ExecutionTestCase}
use go_judge_system.Worker.Sandbox.Verdicts.{AllNumbered}
use go_judge_system.Worker.Loader.{
  Disk, Files, DirEntry, sorted_indexes, cons_case, read_case, official_case, read_cases,
  counted_cases, paired_cases, with_files, with_entries,
}

-- So many testcases with positive indexes, or an error.
abbrev pub AreCases : ℕ → Outcome (List ExecutionTestCase) → Type 0
AreCases n (fails e) = Unit {0}
AreCases n (returns ts) = AllNumbered ts × (length ts ≡ n)

-- As many as the metadata says.
abbrev pub AreCounted : ℤ → Outcome (List ExecutionTestCase) → Type 0
AreCounted n (fails e) = Unit {0}
AreCounted n (returns ts) = AllNumbered ts × (pos (length ts) ≡ n)

ite_cases : {A P : Type 0} {x y : A} (d : Dec P) (Q : A → Type 0) → (P → Q x) → Q y → Q (ite d x y)
ite_cases (yes p) Q f q = f p
ite_cases (no h) Q f q = q

cons_case-AreCases :
    (t : ExecutionTestCase) (n : ℕ) (o : Outcome (List ExecutionTestCase))
    → is_positive t.index ≡ true
    → AreCases n o
    → AreCases (suc n) (cons_case t o)
unfolding cons_case
cons_case-AreCases t n (fails e) p h = tt
cons_case-AreCases t n (returns ts) p (h, l) = ((p, h), ap suc l)

index_positive : (n : ℕ) → is_positive (pos (suc n)) ≡ true
index_positive n = refl

read_case-AreCases :
    (sequence i : ℕ) (path : Text) (input output : Text ⊎ Text) (n : ℕ)
    (o : Outcome (List ExecutionTestCase))
    → AreCases n o
    → AreCases (suc n) (read_case sequence i path input output o)
unfolding read_case official_case
read_case-AreCases sequence i path (inr e) output n o h = tt
read_case-AreCases sequence i path (inl s) (inr e) n o h = tt
read_case-AreCases sequence i path (inl s) (inl t) n o h =
    cons_case-AreCases _ n o (index_positive sequence) h

module _ (disk : Disk) where
  read_cases-AreCases :
      (fs : Files) (sequence : ℕ) (indexes : List ℕ)
      → AreCases (length indexes) (read_cases disk fs sequence indexes)
  unfolding read_cases
  read_cases-AreCases fs sequence [] = (tt, refl)
  read_cases-AreCases fs sequence (i ∷ js) =
      read_case-AreCases sequence i _ _ _ (length js) _ (read_cases-AreCases fs (suc sequence) js)

  counted :
      (n : ℕ) (count : ℤ) (o : Outcome (List ExecutionTestCase))
      → pos n ≡ count
      → AreCases n o
      → AreCounted count o
  counted n count (fails e) p h = tt
  counted n count (returns ts) p (h, l) = (h, ap pos l ∙ p)

  counted_cases-AreCounted :
      (count : ℤ) (fs : Files) → AreCounted count (counted_cases disk count fs)
  unfolding counted_cases
  counted_cases-AreCounted count fs =
      ite_cases (ℤ_discrete (pos (length (sorted_indexes fs.inputs))) count) (AreCounted count)
        (λ p. counted _ count _ p (read_cases-AreCases fs 0 (sorted_indexes fs.inputs))) tt

  paired_cases-AreCounted :
      (count : ℤ) (fs : Files) (a b : Option ℕ) → AreCounted count (paired_cases disk count fs a b)
  unfolding paired_cases
  paired_cases-AreCounted count fs (some i) b = tt
  paired_cases-AreCounted count fs none (some i) = tt
  paired_cases-AreCounted count fs none none = counted_cases-AreCounted count fs

  with_files-AreCounted :
      (count : ℤ) (o : Outcome Files) → AreCounted count (with_files disk count o)
  unfolding with_files
  with_files-AreCounted count (fails e) = tt
  with_files-AreCounted count (returns fs) = paired_cases-AreCounted count fs _ _

  pub with_entries-AreCounted :
      (dir : Text) (count : ℤ) (o : List DirEntry ⊎ Text)
      → AreCounted count (with_entries disk dir count o)
  unfolding with_entries
  with_entries-AreCounted dir count (inr e) = tt
  with_entries-AreCounted dir count (inl es) = with_files-AreCounted count _
