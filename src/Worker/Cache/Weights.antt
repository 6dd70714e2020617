-- ===== src/Worker/Cache/Weights.antt =====
-- Sums over the entries of the cache, and what an assignment or a deletion does to them.
use go_judge_system.Prelude.{
  ℕ, ◌+◌, ◌≤◌, length, true, Bool-cases, ◌≡◌, refl, text_eq_iff, inl, inr, none, some, [], ◌∷◌,
  arith, if◌then◌else◌,
}
use go_judge_system.Worker.Cache.{
  Key, same_key, Entry, Entries, find_entry, put_entry, delete_entry,
}

unfoldable pub weigh : (Entry → ℕ) → Entries → ℕ
weigh w [] = 0
weigh w ((k, e) ∷ es) = w e + weigh w es

unfoldable pub known_size : Entry → ℕ
known_size e = if e.size_known then e.size_bytes else 0

unfoldable pub unsized : Entry → ℕ
unsized e = if e.size_known then 0 else 1

module _ (w : Entry → ℕ) (k : Key) where
  pub weigh-put_new :
      (v : Entry) (es : Entries)
      → find_entry k es ≡ none
      → weigh w (put_entry k v es) ≡ weigh w es + w v
  unfolding weigh find_entry put_entry
  weigh-put_new v [] h = omega arith
  weigh-put_new v ((j, e) ∷ es) h = elim (Bool-cases (same_key j k)) [
    | inl same ↦ cc (rw same at h)
    | inr other ↦ rw other (omega (arith, weigh-put_new v es (rw other at h)))
  ]

  pub weigh-put_over :
      (v x : Entry) (es : Entries)
      → find_entry k es ≡ some x
      → weigh w (put_entry k v es) + w x ≡ weigh w es + w v
  unfolding weigh find_entry put_entry
  weigh-put_over v x [] h = cc
  weigh-put_over v x ((j, e) ∷ es) h = elim (Bool-cases (same_key j k)) [
    | inl same ↦ ground (arith, same)
    | inr other ↦ rw other (omega (arith, weigh-put_over v x es (rw other at h)))
  ]

  pub weigh-delete :
      (x : Entry) (es : Entries)
      → find_entry k es ≡ some x
      → weigh w (delete_entry k es) + w x ≡ weigh w es
  unfolding weigh find_entry delete_entry
  weigh-delete x [] h = cc
  weigh-delete x ((j, e) ∷ es) h = elim (Bool-cases (same_key j k)) [
    | inl same ↦ ground (arith, same)
    | inr other ↦ rw other (omega (arith, weigh-delete x es (rw other at h)))
  ]

  pub weigh_found : (x : Entry) (es : Entries) → find_entry k es ≡ some x → w x ≤ weigh w es
  weigh_found x es h = omega (arith, weigh-delete x es h)

  -- An assignment adds the weight of its entry at most.
  pub weigh-put_le : (v : Entry) (es : Entries) → weigh w (put_entry k v es) ≤ weigh w es + w v
  unfolding weigh put_entry
  weigh-put_le v [] = omega arith
  weigh-put_le v ((j, e) ∷ es) = elim (Bool-cases (same_key j k)) [
    | inl same ↦ rw same (omega arith)
    | inr other ↦ rw other (omega (arith, weigh-put_le v es))
  ]

  pub weigh-delete_le : (es : Entries) → weigh w (delete_entry k es) ≤ weigh w es
  unfolding weigh delete_entry
  weigh-delete_le [] = omega arith
  weigh-delete_le ((j, e) ∷ es) = elim (Bool-cases (same_key j k)) [
    | inl same ↦ rw same (omega arith)
    | inr other ↦ rw other (omega (arith, weigh-delete_le es))
  ]

same_key_self : (k : Key) → same_key k k ≡ true
unfolding same_key
same_key_self k = ground (arith, (text_eq_iff k.input_checksum k.input_checksum).1 refl)

pub find_entry-put : (k : Key) (v : Entry) (es : Entries) → find_entry k (put_entry k v es) ≡ some v
unfolding find_entry put_entry
find_entry-put k v [] = rw (same_key_self k) refl
find_entry-put k v ((j, e) ∷ es) = elim (Bool-cases (same_key j k)) [
  | inl same ↦ rw (same, same) refl
  | inr other ↦ rw (other, other) (find_entry-put k v es)
]

-- The number of entries is the sum of ones.
pub length-weigh : (es : Entries) → length es ≡ weigh (λ e. 1) es
unfolding weigh
length-weigh [] = refl
length-weigh ((k, e) ∷ es) = omega (arith, length-weigh es)
