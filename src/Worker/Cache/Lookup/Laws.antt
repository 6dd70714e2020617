-- ===== src/Worker/Cache/Lookup/Laws.antt =====
-- What `getOrAdd` answers: an input that it gives out is in the cache, and in use.
use go_judge_system.Prelude.{ℕ, suc, ◌≡◌, Option, none, some}
use go_judge_system.Worker.Cache.{Key, Entry, Binding, Cache, CacheConfig, find_entry}
use go_judge_system.Worker.Cache.Accounting.{IsAccounted}
use go_judge_system.Worker.Sandbox.Requests.{CacheAnswer, cache_fails, cached, not_cached}
use go_judge_system.Worker.Cache.Lookup.{FileRpc}

-- The entry of the binding has its file, and is in use.
abbrev pub IsPinned : Binding → Cache → Type 0
IsPinned b c =
    (e : Entry) × (n : ℕ) × ((find_entry b.key c.entries ≡ some e)
      × ((e.file_id ≡ b.file_id) × (e.in_use ≡ suc n)))

IsBound : Key → Option Binding × Cache → Type 0
IsBound k (none, c) = Unit {0}
IsBound k (some b, c) = (b.key ≡ k) × IsPinned b c

-- A binding that is given out has the key that was asked for, and its entry is pinned.
abbrev pub IsServed : Option Key → CacheAnswer → Cache → Type 0
IsServed k (cache_fails e) c = Unit {0}
IsServed k not_cached c = Unit {0}
IsServed k (cached b) c = (some b.key ≡ k) × IsPinned b c

module _ (rpc : FileRpc) (cfg : CacheConfig) (now : ℕ) where
  IsGood : Key → CacheAnswer × Cache → Type 0
  IsGood k (a, c) = IsAccounted c × IsServed (some k) a c
