-- ===== src/Worker/Cache/Limits.antt =====
-- The limits of the cache are hard: over every interleaving of uploads, pins, releases and removals.
use go_judge_system.Prelude.{
  ℕ, suc, ◌+◌, ◌≤◌, length, Text, text_eq, Bool, true, false, Bool-cases, not, ◌≡◌, refl, ap, ◌∙◌,
  inl, inr, Option, none, some, List, [], ◌∷◌, ◌++◌, arith, if◌then◌else◌, if_either,
}
use go_judge_system.Worker.Cache.{
  Key, same_key, Entry, Binding, Entries, find_entry, put_entry, delete_entry, Cache, with_size,
  pin_live, pin_entry, release_entry, release, uncount, remove_accounting, remove_entry,
  delete_failed_entry,
}
use go_judge_system.Worker.Cache.Weights.{
  weigh, known_size, weigh-delete_le, unsized, weigh-put_over, weigh_found, length-weigh,
}
use go_judge_system.Worker.Cache.Accounting.{IsAccounted}

unfoldable pub sum : List ℕ → ℕ
sum [] = 0
sum (n ∷ ns) = n + sum ns

pub sum-middle : (xs ys : List ℕ) (n : ℕ) → sum (xs ++ n ∷ ys) ≡ n + sum (xs ++ ys)
unfolding sum
sum-middle [] ys n = refl
sum-middle (x ∷ xs) ys n = omega (arith, sum-middle xs ys n)

pub length-middle : (xs ys : List ℕ) (n : ℕ) → length (xs ++ n ∷ ys) ≡ suc (length (xs ++ ys))
length-middle [] ys n = refl
length-middle (x ∷ xs) ys n = ap suc (length-middle xs ys n)

pub length-put_entry :
    (k : Key) (v : Entry) (es : Entries) → length (put_entry k v es) ≤ suc (length es)
unfolding put_entry
length-put_entry k v [] = omega arith
length-put_entry k v ((j, e) ∷ es) = elim (Bool-cases (same_key j k)) [
  | inl same ↦ rw same (omega arith)
  | inr other ↦ rw other (omega (arith, length-put_entry k v es))
]

pub length-put_over :
    (k : Key) (v x : Entry) (es : Entries)
    → find_entry k es ≡ some x
    → length (put_entry k v es) ≡ length es
length-put_over k v x es h =
    omega
      (arith, weigh-put_over (λ e. 1) k v x es h, length-weigh es, length-weigh (put_entry k v es))

length-delete_entry : (k : Key) (es : Entries) → length (delete_entry k es) ≤ length es
unfolding delete_entry
length-delete_entry k [] = omega arith
length-delete_entry k ((j, e) ∷ es) = elim (Bool-cases (same_key j k)) [
  | inl same ↦ rw same (omega arith)
  | inr other ↦ rw other (omega (arith, length-delete_entry k es))
]

-- A change that takes nothing more, of bytes, of entries or of reservations.
pub record Shrinks (c c' : Cache) : Type 0 where
  pub bytes : weigh known_size c'.entries ≤ weigh known_size c.entries
  pub count : length c'.entries ≤ length c.entries
  pub unknown : c'.unknown_entries ≤ c.unknown_entries
  pub held_bytes : c'.reserved_bytes ≡ c.reserved_bytes
  pub held_entries : c'.reserved_entries ≡ c.reserved_entries

pub Shrinks-refl : (c : Cache) → Shrinks c c
Shrinks-refl c = record {
  bytes = omega arith;
  count = omega arith;
  unknown = omega arith;
  held_bytes = refl;
  held_entries = refl;
}

pub Shrinks-trans : (a b c : Cache) → Shrinks a b → Shrinks b c → Shrinks a c
Shrinks-trans a b c p q = record {
  bytes = omega (arith, p.bytes, q.bytes);
  count = omega (arith, p.count, q.count);
  unknown = omega (arith, p.unknown, q.unknown);
  held_bytes = q.held_bytes ∙ p.held_bytes;
  held_entries = q.held_entries ∙ p.held_entries;
}

pub reput-Shrinks :
    (c : Cache) (k : Key) (x v : Entry)
    → find_entry k c.entries ≡ some x
    → known_size v ≡ known_size x
    → Shrinks c (record c { entries = put_entry k v c.entries })
reput-Shrinks c k x v found same = record {
  bytes = omega (arith, weigh-put_over known_size k v x c.entries found, same);
  count = omega (arith, length-put_over k v x c.entries found);
  unknown = omega arith;
  held_bytes = refl;
  held_entries = refl;
}

pub uncount-Shrinks : (b : Bool) (size : ℕ) (c : Cache) → Shrinks c (uncount b size c)
unfolding uncount
uncount-Shrinks true size c = record {
  bytes = omega arith;
  count = omega arith;
  unknown = omega arith;
  held_bytes = refl;
  held_entries = refl;
}
uncount-Shrinks false size c = record {
  bytes = omega arith;
  count = omega arith;
  unknown = omega arith;
  held_bytes = refl;
  held_entries = refl;
}

-- Where every size is known, the size of an entry that is found is.
found_known :
    (k : Key) (e : Entry) (c : Cache)
    → IsAccounted c
    → c.unknown_entries ≡ 0
    → find_entry k c.entries ≡ some e
    → e.size_known ≡ true
unfolding unsized
found_known k e c h all found = elim (Bool-cases e.size_known) [
  | inl yes_known ↦ yes_known
  | inr not_known ↦
      let one : unsized e ≡ 1 = ap (λ b. if b then 0 else 1) not_known in
      absurd (omega (arith, one, all, h.unknown, weigh_found unsized k e c.entries found))
]

pin_live-Shrinks :
    (now : ℕ) (k : Key) (size : ℕ) (e : Entry) (c : Cache) (b : Bool)
    → b ≡ true
    → find_entry k c.entries ≡ some e
    → let (e', c') = with_size b k size e c in
      Shrinks c (record c' {
        entries = put_entry k (record e' { last_used = now; in_use = suc e'.in_use }) c'.entries;
      })
unfolding with_size known_size
pin_live-Shrinks now k size e c true h found = reput-Shrinks c k e _ found refl
pin_live-Shrinks now k size e c false h found = cc h

pub pin_entry-Shrinks :
    (now : ℕ) (k : Key) (size : ℕ) (o : Option Entry) (c : Cache)
    → IsAccounted c
    → c.unknown_entries ≡ 0
    → find_entry k c.entries ≡ o
    → Shrinks c (pin_entry now k size o c).1
unfolding pin_entry pin_live
pin_entry-Shrinks now k size none c h all found = Shrinks-refl c
pin_entry-Shrinks now k size (some e) c h all found =
    if_either e.deleting (λ (r : Option Binding × Cache). Shrinks c r.1) (Shrinks-refl c)
      (pin_live-Shrinks now k size e c e.size_known (found_known k e c h all found) found)

release_entry-Shrinks :
    (now : ℕ) (b : Binding) (o : Option Entry) (c : Cache)
    → find_entry b.key c.entries ≡ o
    → Shrinks c (release_entry now b o c)
unfolding release_entry known_size
release_entry-Shrinks now b none c found = Shrinks-refl c
release_entry-Shrinks now b (some e) c found =
    if_either _ (Shrinks c) (Shrinks-refl c) (reput-Shrinks c b.key e _ found refl)

pub release-Shrinks : (now : ℕ) (bs : List Binding) (c : Cache) → Shrinks c (release now bs c)
unfolding release
release-Shrinks now [] c = Shrinks-refl c
release-Shrinks now (b ∷ bs) c =
    Shrinks-trans c _ _ (release_entry-Shrinks now b _ c refl) (release-Shrinks now bs _)

pub remove_entry-Shrinks :
    (k : Key) (file_id : Text) (o : Option Entry) (c : Cache)
    → find_entry k c.entries ≡ o
    → Shrinks c (remove_entry k file_id o c).1
unfolding remove_entry remove_accounting
remove_entry-Shrinks k file_id none c found = Shrinks-refl c
remove_entry-Shrinks k file_id (some e) c found =
    let c' = uncount e.size_known e.size_bytes c in
    let s = uncount-Shrinks e.size_known e.size_bytes c in
    let removed : Shrinks c (record c' { entries = delete_entry k c'.entries }) = record {
      bytes = omega (arith, s.bytes, weigh-delete_le known_size k c'.entries);
      count = omega (arith, s.count, length-delete_entry k c'.entries);
      unknown = s.unknown;
      held_bytes = s.held_bytes;
      held_entries = s.held_entries;
    } in
    if_either (not (text_eq e.file_id file_id)) (λ (r : Bool × Cache). Shrinks c r.1)
      (Shrinks-refl c) removed

pub delete_failed_entry-Shrinks :
    (b : Binding) (o : Option Entry) (c : Cache)
    → find_entry b.key c.entries ≡ o
    → Shrinks c (delete_failed_entry b o c)
unfolding delete_failed_entry known_size
delete_failed_entry-Shrinks b none c found = Shrinks-refl c
delete_failed_entry-Shrinks b (some e) c found =
    if_either _ (Shrinks c) (reput-Shrinks c b.key e _ found refl) (Shrinks-refl c)
