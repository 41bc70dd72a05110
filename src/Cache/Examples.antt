-- ===== src/Cache/Examples.antt =====
-- The theorems about src/filesystem/cache.cpp at the cache of `main`, and at one of two files.
use guthi_core.Base.{
  true, false, not, ◌&&◌, ◌≡◌, refl, none, some, [], ◌∷◌, Bytes, codes, equal, less,
}
use guthi_core.Cache.Entries.{IsSorted, any, contains, lower_bound, before}
use guthi_core.Cache.Invariant.{Removed, remove_from_cache-Removed}
use guthi_core.Cache.Lookup.{
  is_some, is_file_cached-any, is_some-get_cached_entry, remove_from_cache-any,
  get_cached_file-AllFrom,
}
use guthi_core.Cache.Stored.{get_cached_file-add_file_to_cache, remove_from_cache-add_file_to_cache}
use guthi_core.Cache.{
  on_disk, RawFile, raw_file, System, FileCache, file_cache, FileCacheEntry, no_file, same_ip,
  is_file_cached, get_cached_entry, add_file_to_cache, remove_from_cache, get_cached_file,
  erase_from,
}

abbrev local : Bytes
local = 127 ∷ 0 ∷ 0 ∷ 1 ∷ []

abbrev remote : Bytes
remote = 10 ∷ 0 ∷ 0 ∷ 7 ∷ []

abbrev busy : System
busy = record {
  memory_load = 40;
  now = 1000;
  files = λ n. none;
  creatable = λ n. true;
  noise = λ i. 205;
}

abbrev my_file : RawFile
my_file = raw_file 5 (codes "CacheTest.exe") (some (codes "Hello"))

abbrev empty : FileCache
empty = file_cache (codes "./tmp")

abbrev entry : Bytes → Bytes → FileCacheEntry
entry name ip = record {
  location = on_disk;
  size = 5;
  ip_addr = ip;
  file_name = name;
  contents = none;
  timestamp = 1000;
}

-- "a" comes from here, "b" from another node.
abbrev two_files : FileCache
two_files = record empty {
  offline_cache = (codes "a", entry (codes "a") local) ∷ (codes "b", entry (codes "b") remote) ∷ [];
}

two_files_IsSorted : IsSorted two_files.offline_cache
two_files_IsSorted = unfold less in ((refl, tt), (tt, tt))

get_cached_file-add_file_to_cache_example :
    (f' : RawFile) × (c' : FileCache) × (s' : System) × (add_file_to_cache busy my_file local empty
      ≡ some (f', c', s'))
    × (get_cached_file s' c' (codes "CacheTest.exe") remote
        ≡ some (raw_file 5 (codes "CacheTest.exe") (some (codes "Hello"))))
get_cached_file-add_file_to_cache_example =
    get_cached_file-add_file_to_cache busy my_file (codes "Hello") local empty refl refl refl remote
      (unfold contains in refl) (unfold equal in refl)

remove_from_cache-add_file_to_cache_example :
    (f' : RawFile) × (c' : FileCache) × (s' : System) × (add_file_to_cache busy my_file local empty
      ≡ some (f', c', s'))
    × (remove_from_cache c' (codes "CacheTest.exe") local ≡ (true, empty))
    × (remove_from_cache empty (codes "CacheTest.exe") local ≡ (false, empty))
remove_from_cache-add_file_to_cache_example =
    remove_from_cache-add_file_to_cache busy my_file (codes "Hello") local empty refl refl refl
      (unfold lower_bound in refl)

remove_from_cache-Removed_example :
    Removed remote two_files (remove_from_cache two_files (codes "a") remote)
remove_from_cache-Removed_example = remove_from_cache-Removed two_files (codes "a") remote

-- Asked to remove "a" of the other node, which has no such file here, the method removes its "b".
removes_another :
    remove_from_cache two_files (codes "a") remote
    ≡ (true, record empty { offline_cache = (codes "a", entry (codes "a") local) ∷ [] })
unfolding remove_from_cache contains lower_bound before erase_from less equal
removes_another = refl

is_file_cached-any_test : is_file_cached two_files (codes "a") local ≡ (
    contains (codes "a") two_files.offline_cache
    && any
        (λ p. not (less p.0 (codes "a")) && not (same_ip local p.1.ip_addr))
        two_files.offline_cache)
is_file_cached-any_test = is_file_cached-any two_files (codes "a") local two_files_IsSorted

remove_from_cache-any_test : (remove_from_cache two_files (codes "a") remote).0 ≡ (
    contains (codes "a") two_files.offline_cache
    && any (λ p. not (less p.0 (codes "a")) && same_ip remote p.1.ip_addr) two_files.offline_cache)
remove_from_cache-any_test = remove_from_cache-any two_files (codes "a") remote two_files_IsSorted

is_some-get_cached_entry_test :
    is_some (get_cached_entry two_files (codes "a") local)
    ≡ is_file_cached two_files (codes "a") local
is_some-get_cached_entry_test = is_some-get_cached_entry two_files (codes "a") local

abbrev from_here : FileCache
from_here = record empty { offline_cache = (codes "a", entry (codes "a") local) ∷ [] }

-- "a" is in the cache, and is not found with the address under which it was put there.
get_cached_file-AllFrom_example :
    (is_file_cached from_here (codes "a") local ≡ false)
    × (get_cached_file busy from_here (codes "a") local ≡ some no_file)
get_cached_file-AllFrom_example =
    get_cached_file-AllFrom busy from_here (codes "a") local (unfold equal in (refl, tt))
