-- ===== src/Worker/Cache/Eviction/Choice.antt =====
-- What the cache chooses to give up, and what that leaves.
use go_judge_system.Prelude.{
  ◌+◌, ◌≤◌, ◌<◌, length, sub_int64, exceeds, ℕ, ◌-◌, Bool, true, false, not, ◌||◌, ◌≡◌, refl, ap,
  ◌⊎◌, inl, inr, List, [], ◌∷◌, if◌then◌else◌, arith,
}
use go_judge_system.Worker.Cache.{Key, Entry, Cache, CacheConfig}
use go_judge_system.Worker.Cache.Weights.{weigh, known_size, length-weigh}
use go_judge_system.Worker.Cache.Accounting.{IsAccounted}
use go_judge_system.Worker.Cache.Eviction.{
  Row, sort_rows, is_eligible, eligible_rows, is_idle, is_within, bytes_without, Selection, chosen,
  select_rows, selection,
}
use go_judge_system.Worker.Cache.Eviction.Candidates.{
  AllEligible, sort_rows-AllEligible, eligible_rows-AllEligible, weigh-candidates,
}

-- The candidates are among what is counted, and no sum of sizes wraps.
record Fits (rows : List Row) (count bytes : ℕ) : Type 0 where
  counted : length rows ≤ count
  summed : weigh known_size rows ≤ bytes
  small : bytes < 9223372036854775808

bytes_without-known_size :
    (e : Entry) (bytes : ℕ)
    → known_size e ≤ bytes
    → bytes < 9223372036854775808
    → bytes_without e bytes + known_size e ≡ bytes
unfolding bytes_without known_size sub_int64
bytes_without-known_size e bytes h g = ground arith

Fits-less :
    (k : Key) (e : Entry) (rows : List Row) (count bytes : ℕ)
    → Fits ((k, e) ∷ rows) count bytes
    → Fits rows (count - 1) (bytes_without e bytes)
unfolding weigh
Fits-less k e rows count bytes f =
    let same = bytes_without-known_size e bytes (omega (arith, f.summed)) f.small in
    record {
      counted = omega (arith, f.counted);
      summed = omega (arith, f.summed, same);
      small = omega (arith, f.small, same);
    }

Fits-rest :
    (k : Key) (e : Entry) (rows : List Row) (count bytes : ℕ)
    → Fits ((k, e) ∷ rows) count bytes
    → Fits rows count bytes
unfolding weigh
Fits-rest k e rows count bytes f = record {
  counted = omega (arith, f.counted);
  summed = omega (arith, f.summed);
  small = f.small;
}

module _ (cfg : CacheConfig) (idle_ttl now : ℕ) where
  -- The limits, on a number of entries and of bytes.
  abbrev pub Keeps : ℕ → ℕ → Type 0
  Keeps count bytes = (count ≤ cfg.max_entries) × (bytes ≤ cfg.max_bytes)

  is_within-Keeps :
      (count bytes : ℕ)
      → bytes < 9223372036854775808
      → is_within cfg count bytes ≡ true
      → Keeps count bytes
  unfolding is_within exceeds
  is_within-Keeps count bytes small h = ground arith

  -- The count and the bytes at the end are those at the start without the chosen rows.
  record IsSelected (rows : List Row) (count bytes : ℕ) (s : Selection) : Type 0 where
    counts : s.count + length s.rows ≡ count
    sums : s.bytes + weigh known_size s.rows ≡ bytes
    enough : Keeps s.count s.bytes ⊎ (s.rows ≡ rows)

  chosen-IsSelected :
      (k : Key) (e : Entry) (rows : List Row) (count bytes : ℕ) (s : Selection)
      → Fits ((k, e) ∷ rows) count bytes
      → IsSelected rows (count - 1) (bytes_without e bytes) s
      → IsSelected ((k, e) ∷ rows) count bytes (chosen (k, e) s)
  unfolding chosen weigh
  chosen-IsSelected k e rows count bytes s f r =
      let same = bytes_without-known_size e bytes (omega (arith, f.summed)) f.small in
      record {
        counts = omega (arith, r.counts, f.counted);
        sums = omega (arith, r.sums, same);
        enough = elim r.enough [
          | inl keeps ↦ inl keeps
          | inr all_of ↦ inr (ap (λ l. (k, e) ∷ l) all_of)
        ];
      }

  kept-IsSelected :
      (k : Key) (e : Entry) (rows : List Row) (count bytes : ℕ) (s : Selection)
      → Fits ((k, e) ∷ rows) count bytes
      → is_within cfg count bytes ≡ true
      → IsSelected rows count bytes s
      → IsSelected ((k, e) ∷ rows) count bytes s
  kept-IsSelected k e rows count bytes s f w r =
      let (few, small) = is_within-Keeps count bytes f.small w in
      record {
        counts = r.counts;
        sums = r.sums;
        enough = inl (omega (arith, r.counts, few), omega (arith, r.sums, small));
      }

  step-IsSelected :
      (k : Key) (e : Entry) (rows : List Row) (count bytes : ℕ) (i w : Bool)
      → is_within cfg count bytes ≡ w
      → Fits ((k, e) ∷ rows) count bytes
      → (next : ℕ → ℕ → Selection) → ((n m : ℕ) → Fits rows n m → IsSelected rows n m (next n m))
      → let b = i || not w in
        let rest =
          next (if b then count - 1 else count) (if b then bytes_without e bytes else bytes) in
        IsSelected ((k, e) ∷ rows) count bytes (if b then chosen (k, e) rest else rest)
  step-IsSelected k e rows count bytes true w h f next ih =
      chosen-IsSelected k e rows count bytes _ f (ih _ _ (Fits-less k e rows count bytes f))
  step-IsSelected k e rows count bytes false false h f next ih =
      chosen-IsSelected k e rows count bytes _ f (ih _ _ (Fits-less k e rows count bytes f))
  step-IsSelected k e rows count bytes false true h f next ih =
      kept-IsSelected k e rows count bytes _ f h (ih _ _ (Fits-rest k e rows count bytes f))

  select_rows-IsSelected :
      (rows : List Row) (count bytes : ℕ)
      → Fits rows count bytes
      → IsSelected rows count bytes (select_rows cfg idle_ttl now rows count bytes)
  unfolding select_rows weigh
  select_rows-IsSelected [] count bytes f = record {
    counts = omega arith;
    sums = omega arith;
    enough = inr refl;
  }
  select_rows-IsSelected ((k, e) ∷ rows) count bytes f =
      step-IsSelected k e rows count bytes (is_idle idle_ttl now e) (is_within cfg count bytes) refl
        f (λ n m. select_rows cfg idle_ttl now rows n m)
        (λ n m g. select_rows-IsSelected rows n m g)

  choice-AllEligible :
      (b : Bool) (k : Key) (e : Entry) (s : Selection)
      → is_eligible e ≡ true
      → AllEligible s.rows
      → AllEligible (if b then chosen (k, e) s else s).rows
  unfolding chosen
  choice-AllEligible true k e s p h = (p, h)
  choice-AllEligible false k e s p h = h

  select_rows-AllEligible :
      (rows : List Row) (count bytes : ℕ)
      → AllEligible rows
      → AllEligible (select_rows cfg idle_ttl now rows count bytes).rows
  unfolding select_rows
  select_rows-AllEligible [] count bytes h = tt
  select_rows-AllEligible ((k, e) ∷ rows) count bytes (p, h) =
      choice-AllEligible _ k e _ p (select_rows-AllEligible rows _ _ h)

  -- The rows are of entries that are free to go; and what is left without them keeps both limits, or every
  -- such entry is given up.
  abbrev pub LeavesEnough : Cache → List Row → Type 0
  LeavesEnough c rows =
      AllEligible rows
      × (Keeps (length c.entries - length rows) (weigh known_size c.entries - weigh known_size rows)
          ⊎ (rows ≡ sort_rows (eligible_rows c.entries)))

  -- Where the counters of the cache are exact and the sum of the known sizes is an int64, the cache gives up
  -- only entries that no batch uses and that are not being deleted already; and without the entries that it
  -- gives up, the number of the others and the sum of their known sizes keep the limits, unless every such
  -- entry is given up.
  pub selection_enough :
      (c : Cache)
      → IsAccounted c
      → weigh known_size c.entries < 9223372036854775808
      → LeavesEnough c (selection cfg idle_ttl now c).rows
  unfolding selection
  selection_enough c h small =
      let candidates = sort_rows (eligible_rows c.entries) in
      let exact : c.total_bytes ≡ weigh known_size c.entries = omega (arith, h.bytes, small) in
      let f : Fits candidates (length c.entries) c.total_bytes = record {
        counted = omega (
          arith,
          weigh-candidates (λ e. 1) c.entries,
          length-weigh c.entries,
          length-weigh candidates,
        );
        summed = omega (arith, weigh-candidates known_size c.entries, exact);
        small = omega (arith, exact, small);
      } in
      let r = select_rows-IsSelected candidates (length c.entries) c.total_bytes f in
      (
        select_rows-AllEligible _ _ _
            (sort_rows-AllEligible _ (eligible_rows-AllEligible c.entries)),
        elim r.enough [
          | inl (few, bytes) ↦
              inl (omega (arith, few, r.counts), omega (arith, bytes, r.sums, exact))
          | inr all_of ↦ inr all_of
        ],
      )
