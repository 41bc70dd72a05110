-- ===== src/Cache/Lookup.antt =====
-- Which entries the methods of src/filesystem/cache.cpp find and erase.
use guthi_core.Base.{
  Bool, true, false, not, ◌&&◌, ◌≡◌, refl, inl, inr, Option, none, some, [], ◌∷◌, arith, All, Bytes,
  less, Option-cases,
}
use guthi_core.Cache.Entries.{Multimap, IsSorted, any, contains, lower_bound, any-lower_bound}
use guthi_core.Cache.{
  FileCache, FileCacheEntry, System, no_file, same_ip, any_from_other, is_file_cached, erase_from,
  remove_from_cache, first_from_other, get_cached_entry, get_cached_file, fetch,
}

abbrev pub is_some {ℓ} : {A : Type ℓ} → Option A → Bool
is_some none = false
is_some (some a) = true

abbrev from_other : Bytes → Bytes × FileCacheEntry → Bool
from_other ip (_, e) = not (same_ip ip e.ip_addr)

any_from_other-any :
    (ip : Bytes) (m : Multimap FileCacheEntry)
    → any_from_other ip m ≡ any (λ p. not (same_ip ip p.1.ip_addr)) m
unfolding any_from_other
any_from_other-any ip [] = refl
any_from_other-any ip ((k, e) ∷ m) = ground (arith, any_from_other-any ip m)

is_some-first_from_other :
    (ip : Bytes) (m : Multimap FileCacheEntry)
    → is_some (first_from_other ip m) ≡ any_from_other ip m
unfolding first_from_other any_from_other
is_some-first_from_other ip [] = refl
is_some-first_from_other ip ((k, e) ∷ m) = ground (arith, is_some-first_from_other ip m)

is_some-erase_from :
    (ip : Bytes) (m : Multimap FileCacheEntry)
    → is_some (erase_from ip m) ≡ any (λ p. same_ip ip p.1.ip_addr) m
unfolding erase_from
is_some-erase_from ip [] = refl
is_some-erase_from ip ((k, e) ∷ m) = ground (arith, is_some-erase_from ip m)

module _ (c : FileCache) (file ip : Bytes) where
  -- With the entries in order, `IsFileCached` is true exactly if some entry has the name, and some
  -- entry, of this name or a later one, comes from another address than the one asked for.
  pub is_file_cached-any :
      IsSorted c.offline_cache
      → is_file_cached c file ip ≡ (
          contains file c.offline_cache
          && any (λ p. not (less p.0 file) && not (same_ip ip p.1.ip_addr)) c.offline_cache)
  unfolding is_file_cached
  is_file_cached-any s = ground (
    arith,
    any_from_other-any ip (lower_bound file c.offline_cache),
    any-lower_bound file (λ (e : FileCacheEntry). not (same_ip ip e.ip_addr)) c.offline_cache s,
  )

  -- `GetCachedEntry` finds an entry exactly if `IsFileCached` is true.
  pub is_some-get_cached_entry : is_some (get_cached_entry c file ip) ≡ is_file_cached c file ip
  unfolding get_cached_entry is_file_cached
  is_some-get_cached_entry =
      ground (arith, is_some-first_from_other ip (lower_bound file c.offline_cache))

  -- With the entries in order, `RemoveFromCache` is true exactly if some entry has the name, and some
  -- entry, of this name or a later one, comes from the address.
  pub remove_from_cache-any :
      IsSorted c.offline_cache
      → (remove_from_cache c file ip).0 ≡ (
          contains file c.offline_cache
          && any (λ p. not (less p.0 file) && same_ip ip p.1.ip_addr) c.offline_cache)
  unfolding remove_from_cache
  remove_from_cache-any s = ground (
    arith,
    is_some-erase_from ip (lower_bound file c.offline_cache),
    any-lower_bound file (λ (e : FileCacheEntry). same_ip ip e.ip_addr) c.offline_cache s,
  )

-- All entries come from one address.
abbrev pub AllFrom : Bytes → Multimap FileCacheEntry → Type 0
AllFrom ip m = All (λ p. same_ip ip p.1.ip_addr ≡ true) m

AllFrom-none :
    (ip : Bytes) (m : Multimap FileCacheEntry) → AllFrom ip m → any_from_other ip m ≡ false
unfolding any_from_other
AllFrom-none ip [] all = refl
AllFrom-none ip ((k, e) ∷ m) all = ground (arith, AllFrom-none ip m all.1)

AllFrom-lower_bound :
    (file ip : Bytes) (m : Multimap FileCacheEntry)
    → AllFrom ip m
    → any_from_other ip (lower_bound file m) ≡ false
unfolding lower_bound any_from_other
AllFrom-lower_bound file ip [] all = refl
AllFrom-lower_bound file ip ((k, e) ∷ m) all =
    ground (arith, AllFrom-lower_bound file ip m all.1, AllFrom-none ip m all.1)

pub get_cached_file-none :
    (s : System) (c : FileCache) (file ip : Bytes)
    → get_cached_entry c file ip ≡ none
    → get_cached_file s c file ip ≡ some no_file
unfolding get_cached_file
get_cached_file-none s c file ip e = rw (e, get_cached_file)

pub get_cached_file-some :
    (s : System) (c : FileCache) (file ip : Bytes) {e : FileCacheEntry}
    → get_cached_entry c file ip ≡ some e
    → get_cached_file s c file ip ≡ fetch s file e e.location
unfolding get_cached_file
get_cached_file-some s c file ip e = rw (e, get_cached_file)

-- In a cache whose entries all come from one address, every question with this address is answered
-- as if nothing were cached, also for the names that are: `IsFileCached` is false and
-- `GetCachedFile` returns no data.
pub get_cached_file-AllFrom :
    (s : System) (c : FileCache) (file ip : Bytes)
    → AllFrom ip c.offline_cache
    → (is_file_cached c file ip ≡ false) × (get_cached_file s c file ip ≡ some no_file)
get_cached_file-AllFrom s c file ip all =
    let absent : is_file_cached c file ip ≡ false =
      unfold is_file_cached in ground (arith, AllFrom-lower_bound file ip c.offline_cache all) in
    (
      absent,
      elim (Option-cases (get_cached_entry c file ip)) [
        | inl e ↦ get_cached_file-none s c file ip e
        | inr (f, e) ↦ ground (arith, is_some-get_cached_entry c file ip)
      ],
    )
