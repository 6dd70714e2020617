-- ===== src/Worker/Cache/Accounting.antt =====
-- The byte and entry counters of the cache agree with its entries after every critical section.
use go_judge_system.Prelude.{
  ℕ, suc, ◌+◌, ◌%◌, ◌<◌, add_int64, sub_int64, exceeds, ltb, leb, length, Text, text_eq, Bool, true,
  false, not, ◌&&◌, ◌||◌, ◌≡◌, refl, ap, ◌∙◌, Option, none, some, List, [], ◌∷◌, arith,
  if◌then◌else◌, if_either,
}
use go_judge_system.Worker.Cache.{
  Key, Entry, Binding, find_entry, put_entry, delete_entry, Cache, CacheConfig, empty_cache,
  reserve, release_reservation, learn_size, with_size, pin_live, pin_entry, pin, release_entry,
  release, uncount, remove_accounting, new_entry, count_in, insert_entry, store_over, store,
  remove_entry, remove_if_match, delete_failed_entry, mark_delete_failed,
}
use go_judge_system.Worker.Cache.Weights.{
  weigh, known_size, unsized, weigh-put_new, weigh-put_over, weigh-delete, weigh_found,
  find_entry-put,
}

-- The sum of the sizes that are known, as an int64, and the number of the entries without one.
pub record IsAccounted (c : Cache) : Type 0 where
  pub bytes : c.total_bytes ≡ weigh known_size c.entries % 18446744073709551616
  pub unknown : c.unknown_entries ≡ weigh unsized c.entries

pub empty_cache-IsAccounted : IsAccounted empty_cache
unfolding weigh
empty_cache-IsAccounted = record { bytes = refl; unknown = refl }

-- A change of an entry that keeps its size.
pub reput-IsAccounted :
    (c : Cache) (k : Key) (x v : Entry)
    → find_entry k c.entries ≡ some x
    → known_size v ≡ known_size x
    → unsized v ≡ unsized x
    → IsAccounted c
    → IsAccounted (record c { entries = put_entry k v c.entries })
reput-IsAccounted c k x v found same same' h = record {
  bytes = omega (arith, weigh-put_over known_size k v x c.entries found, h.bytes, same);
  unknown = omega (arith, weigh-put_over unsized k v x c.entries found, h.unknown, same');
}

learn_size-IsAccounted :
    (c : Cache) (k : Key) (size : ℕ) (e : Entry)
    → find_entry k c.entries ≡ some e
    → e.size_known ≡ false
    → IsAccounted c
    → IsAccounted (learn_size k size e c)
unfolding learn_size known_size unsized add_int64
learn_size-IsAccounted c k size e found no_size h =
    let v = record e { size_known = true; size_bytes = size } in
    let none_known : known_size e ≡ 0 = ap (λ b. if b then e.size_bytes else 0) no_size in
    let counted : unsized e ≡ 1 = ap (λ b. if b then 0 else 1) no_size in
    record {
      bytes = omega (arith, weigh-put_over known_size k v e c.entries found, h.bytes, none_known);
      unknown = omega (arith, weigh-put_over unsized k v e c.entries found, h.unknown, counted);
    }

-- The entry that `with_size` returns is the one that its cache holds.
with_size-IsAccounted :
    (b : Bool) (k : Key) (size : ℕ) (e : Entry) (c : Cache)
    → e.size_known ≡ b
    → find_entry k c.entries ≡ some e
    → IsAccounted c
    → let (e', c') = with_size b k size e c in IsAccounted c' × (find_entry k c'.entries ≡ some e')
unfolding with_size learn_size
with_size-IsAccounted true k size e c known found h = (h, found)
with_size-IsAccounted false k size e c known found h =
    (learn_size-IsAccounted c k size e found known h, find_entry-put k _ c.entries)

pin_live-IsAccounted :
    (now : ℕ) (k : Key) (size : ℕ) (e : Entry) (c : Cache)
    → find_entry k c.entries ≡ some e
    → IsAccounted c
    → IsAccounted (pin_live now k size e c).1
unfolding pin_live known_size unsized
pin_live-IsAccounted now k size e c found h =
    let (ok, here) = with_size-IsAccounted e.size_known k size e c refl found h in
    reput-IsAccounted _ k _ _ here refl refl ok

pin_entry-IsAccounted :
    (now : ℕ) (k : Key) (size : ℕ) (o : Option Entry) (c : Cache)
    → find_entry k c.entries ≡ o
    → IsAccounted c
    → IsAccounted (pin_entry now k size o c).1
unfolding pin_entry
pin_entry-IsAccounted now k size none c found h = h
pin_entry-IsAccounted now k size (some e) c found h =
    if_either e.deleting (λ (r : Option Binding × Cache). IsAccounted r.1) h
      (pin_live-IsAccounted now k size e c found h)

-- A pin keeps the counters right, the total as an int64 sum, also when it learns the size of an entry that
-- had none.
pub pin-IsAccounted :
    (now : ℕ) (k : Key) (size : ℕ) (c : Cache) → IsAccounted c → IsAccounted (pin now k size c).1
unfolding pin
pin-IsAccounted now k size c h = pin_entry-IsAccounted now k size _ c refl h

release_entry-IsAccounted :
    (now : ℕ) (b : Binding) (o : Option Entry) (c : Cache)
    → find_entry b.key c.entries ≡ o
    → IsAccounted c
    → IsAccounted (release_entry now b o c)
unfolding release_entry known_size unsized
release_entry-IsAccounted now b none c found h = h
release_entry-IsAccounted now b (some e) c found h =
    if_either _ IsAccounted h (reput-IsAccounted c b.key e _ found refl refl h)

pub release-IsAccounted :
    (now : ℕ) (bs : List Binding) (c : Cache) → IsAccounted c → IsAccounted (release now bs c)
unfolding release
release-IsAccounted now [] c h = h
release-IsAccounted now (b ∷ bs) c h =
    release-IsAccounted now bs _ (release_entry-IsAccounted now b _ c refl h)

-- The counters once an entry is no longer counted, whose place `es` takes.
uncounted :
    (b : Bool) (k : Key) (x : Entry) (c : Cache)
    → x.size_known ≡ b
    → find_entry k c.entries ≡ some x
    → IsAccounted c
    → let c' = uncount b x.size_bytes c in
      (add_int64 c'.total_bytes (known_size x) ≡ weigh known_size c.entries % 18446744073709551616)
      × (c'.total_bytes < 18446744073709551616)
      × (c'.unknown_entries + unsized x ≡ weigh unsized c.entries)
unfolding uncount known_size unsized add_int64 sub_int64
uncounted true k x c known found h =
    let size : known_size x ≡ x.size_bytes = ap (λ b. if b then x.size_bytes else 0) known in
    let one : unsized x ≡ 0 = ap (λ b. if b then 0 else 1) known in
    (
      omega (arith, size, h.bytes, weigh_found known_size k x c.entries found),
      omega arith,
      omega (arith, one, h.unknown),
    )
uncounted false k x c known found h =
    let size : known_size x ≡ 0 = ap (λ b. if b then x.size_bytes else 0) known in
    let one : unsized x ≡ 1 = ap (λ b. if b then 0 else 1) known in
    (
      omega (arith, size, h.bytes),
      omega (arith, h.bytes),
      omega (arith, one, h.unknown, weigh_found unsized k x c.entries found),
    )

-- A new entry is counted in, where the counters lack `a` and `b` against the entries before.
insert_entry-IsAccounted :
    (now : ℕ) (k : Key) (file_id : Text) (size : ℕ) (known : Bool) (c : Cache) (a b m n : ℕ)
    → let v = new_entry now file_id size known in
      (weigh known_size (put_entry k v c.entries) + a ≡ m + known_size v)
      → (weigh unsized (put_entry k (new_entry now file_id size known) c.entries) + b
          ≡ n + unsized (new_entry now file_id size known))
      → add_int64 c.total_bytes a ≡ m % 18446744073709551616
      → c.total_bytes < 18446744073709551616
      → c.unknown_entries + b ≡ n
      → IsAccounted (insert_entry now k file_id size known c)
unfolding insert_entry count_in new_entry known_size unsized add_int64
insert_entry-IsAccounted now k file_id size true c a b m n p q h l g = record {
  bytes = omega (arith, p, h, l);
  unknown = omega (arith, q, g);
}
insert_entry-IsAccounted now k file_id size false c a b m n p q h l g = record {
  bytes = omega (arith, p, h, l);
  unknown = omega (arith, q, g);
}

uncount-entries : (b : Bool) (size : ℕ) (c : Cache) → (uncount b size c).entries ≡ c.entries
unfolding uncount
uncount-entries true size c = refl
uncount-entries false size c = refl

-- The same file again: the size may become known.
again-IsAccounted :
    (b known : Bool) (k : Key) (size : ℕ) (e : Entry) (c : Cache)
    → e.size_known ≡ b
    → find_entry k c.entries ≡ some e
    → IsAccounted c
    → IsAccounted (if not b && known then learn_size k size e c else c)
again-IsAccounted true known k size e c was found h = h
again-IsAccounted false true k size e c was found h = learn_size-IsAccounted c k size e found was h
again-IsAccounted false false k size e c was found h = h

store_over-IsAccounted :
    (now : ℕ) (k : Key) (file_id : Text) (size : ℕ) (known : Bool) (o : Option Entry) (c : Cache)
    → find_entry k c.entries ≡ o
    → IsAccounted c
    → IsAccounted (store_over now k file_id size known o c)
unfolding store_over remove_accounting add_int64
store_over-IsAccounted now k file_id size known none c found h =
    insert_entry-IsAccounted now k file_id size known c 0 0 (weigh known_size c.entries)
      (weigh unsized c.entries)
      (omega (arith, weigh-put_new known_size k (new_entry now file_id size known) c.entries found))
      (omega (arith, weigh-put_new unsized k (new_entry now file_id size known) c.entries found))
      (omega (arith, h.bytes)) (omega (arith, h.bytes)) (omega (arith, h.unknown))
store_over-IsAccounted now k file_id size known (some e) c found h =
    let v = new_entry now file_id size known in
    let (lacks, small, lacks') = uncounted e.size_known k e c refl found h in
    let same = uncount-entries e.size_known e.size_bytes c in
    let replaced =
      insert_entry-IsAccounted now k file_id size known (uncount e.size_known e.size_bytes c)
        (known_size e) (unsized e) (weigh known_size c.entries) (weigh unsized c.entries)
        (ap (λ es. weigh known_size (put_entry k v es) + known_size e) same
          ∙ weigh-put_over known_size k v e c.entries found)
        (ap (λ es. weigh unsized (put_entry k v es) + unsized e) same
          ∙ weigh-put_over unsized k v e c.entries found)
        lacks small lacks' in
    if_either (text_eq e.file_id file_id) IsAccounted
      (again-IsAccounted e.size_known known k size e c refl found h) replaced

-- Storing an upload, or an entry found in the sandbox, keeps the counters right, the total as an int64
-- sum, on every branch: a new entry, the same file again with or without its size, and a file that replaces another.
pub store-IsAccounted :
    (now : ℕ) (k : Key) (file_id : Text) (size : ℕ) (known : Bool) (c : Cache)
    → IsAccounted c
    → IsAccounted (store now k file_id size known c)
unfolding store
store-IsAccounted now k file_id size known c h =
    store_over-IsAccounted now k file_id size known _ c refl h

remove_entry-IsAccounted :
    (k : Key) (file_id : Text) (o : Option Entry) (c : Cache)
    → find_entry k c.entries ≡ o
    → IsAccounted c
    → IsAccounted (remove_entry k file_id o c).1
unfolding remove_entry remove_accounting add_int64
remove_entry-IsAccounted k file_id none c found h = h
remove_entry-IsAccounted k file_id (some e) c found h =
    let c' = uncount e.size_known e.size_bytes c in
    let (lacks, small, lacks') = uncounted e.size_known k e c refl found h in
    let same = uncount-entries e.size_known e.size_bytes c in
    let removed : IsAccounted (record c' { entries = delete_entry k c'.entries }) = record {
      bytes = omega (
        arith,
        weigh-delete known_size k e c.entries found,
        lacks,
        small,
        ap (λ es. weigh known_size (delete_entry k es)) same,
      );
      unknown = omega (
        arith,
        weigh-delete unsized k e c.entries found,
        lacks',
        ap (λ es. weigh unsized (delete_entry k es)) same,
      );
    } in
    if_either (not (text_eq e.file_id file_id)) (λ (r : Bool × Cache). IsAccounted r.1) h removed

-- A removal keeps the counters right, the total as an int64 sum, whether or not the file matches.
pub remove_if_match-IsAccounted :
    (k : Key) (file_id : Text) (c : Cache)
    → IsAccounted c
    → IsAccounted (remove_if_match k file_id c).1
unfolding remove_if_match
remove_if_match-IsAccounted k file_id c h = remove_entry-IsAccounted k file_id _ c refl h

delete_failed_entry-IsAccounted :
    (b : Binding) (o : Option Entry) (c : Cache)
    → find_entry b.key c.entries ≡ o
    → IsAccounted c
    → IsAccounted (delete_failed_entry b o c)
unfolding delete_failed_entry known_size unsized
delete_failed_entry-IsAccounted b none c found h = h
delete_failed_entry-IsAccounted b (some e) c found h =
    if_either _ IsAccounted (reput-IsAccounted c b.key e _ found refl refl h) h

pub mark_delete_failed-IsAccounted :
    (b : Binding) (c : Cache) → IsAccounted c → IsAccounted (mark_delete_failed b c)
unfolding mark_delete_failed
mark_delete_failed-IsAccounted b c h = delete_failed_entry-IsAccounted b _ c refl h

pub reserve-IsAccounted :
    (cfg : CacheConfig) (size : ℕ) (c : Cache) → IsAccounted c → IsAccounted (reserve cfg size c).1
unfolding reserve
reserve-IsAccounted cfg size c h =
    let full =
      ltb 0 c.unknown_entries
      || leb cfg.max_entries (length c.entries + c.reserved_entries)
      || exceeds cfg.max_bytes (add_int64 (add_int64 c.total_bytes c.reserved_bytes) size) in
    let admitted = record c {
      reserved_bytes = add_int64 c.reserved_bytes size;
      reserved_entries = suc c.reserved_entries;
    } in
    let either_way =
      if_either {A = Bool × Cache} {x = (false, c)} {y = (true, admitted)} full
        (λ (r : Bool × Cache). IsAccounted r.1) h
        (record { bytes = h.bytes; unknown = h.unknown }) in
    if_either {A = Bool × Cache} {x = (false, c)} (ltb cfg.max_bytes size)
      (λ (r : Bool × Cache). IsAccounted r.1) h either_way

pub release_reservation-IsAccounted :
    (size : ℕ) (c : Cache) → IsAccounted c → IsAccounted (release_reservation size c)
unfolding release_reservation
release_reservation-IsAccounted size c h =
    if_either _ IsAccounted (record { bytes = h.bytes; unknown = h.unknown })
      (record { bytes = h.bytes; unknown = h.unknown })
