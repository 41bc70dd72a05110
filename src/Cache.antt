-- ===== src/Cache.antt =====
-- src/filesystem/cache.cpp, with `FileCache` and `RawFile` of src/filesystem/fs.hpp: files of other
-- nodes of the network, kept in memory or on disk under their names. `none` as the result of a
-- method is undefined behaviour: a read or write outside a buffer.
pub mod Entries
pub mod Lookup
pub mod Stored
pub mod Invariant
mod Examples
use guthi_core.Base.{
  ℕ, zero, suc, ◌+◌, ◌-◌, Bool, true, false, not, Option, none, some, List, [], ◌∷◌, ◌++◌, ltb, leb,
  length, take, if◌then◌else◌, Bytes, equal,
}
use Entries.{Multimap, insert, contains, lower_bound, before}

pub data CacheLocation : Type 0 where
  on_ram on_disk uncached : CacheLocation

-- A `uint8_t` array behind a pointer; `none` is the null pointer.
abbrev pub Buffer : Type 0
Buffer = Option Bytes

pub record FileCacheEntry : Type 0 where
  pub location : CacheLocation
  pub size : ℕ
  pub ip_addr : Bytes
  pub file_name : Bytes
  pub contents : Buffer
  pub timestamp : ℕ

pub record FileCache : Type 0 where
  pub local_cache_directory : Bytes
  pub offline_cache : Multimap FileCacheEntry

abbrev pub file_cache : Bytes → FileCache
file_cache directory = record { local_cache_directory = directory; offline_cache = [] }

pub record RawFile : Type 0 where
  pub file_size : ℕ
  pub file_name : Bytes
  pub pos : ℕ
  pub len : ℕ
  pub buffer_capacity : ℕ
  pub contents : Buffer

-- A `RawFile` with the members that its initialisers do not give.
abbrev pub raw_file : ℕ → Bytes → Buffer → RawFile
raw_file size name bs = record {
  file_size = size;
  file_name = name;
  pos = 0;
  len = 0;
  buffer_capacity = 0;
  contents = bs;
}

abbrev pub no_file : RawFile
no_file = raw_file 0 [] none

-- `DestroyFile`: the buffer is deleted, and the pointer to it stays.
abbrev pub destroy_file : RawFile → RawFile
destroy_file f = record f { file_size = 0 }

-- What the operating system answers: the memory load, the time, the files by name, the names that
-- `fopen` can create, and the byte that new memory happens to hold at an index.
pub record System : Type 0 where
  pub memory_load : ℕ
  pub now : ℕ
  pub files : Bytes → Option Bytes
  pub creatable : Bytes → Bool
  pub noise : ℕ → ℕ

-- The four bytes that `memcmp` compares and the loop of `AddFileToCache` copies.
abbrev pub same_ip : Bytes → Bytes → Bool
same_ip a b = equal (take 4 a) (take 4 b)

-- A read of `n` bytes of a buffer, as by `fwrite` and `memcpy`; none are read of a null pointer.
unfoldable pub read_bytes : ℕ → Buffer → Option Bytes
read_bytes zero b = some []
read_bytes (suc n) none = none
read_bytes (suc n) (some bs) = if ltb n (length bs) then some (take (suc n) bs) else none

-- `new uint8_t[n]` with its indices from `i` on, then `fread` into it.
unfoldable pub fill : (ℕ → ℕ) → ℕ → ℕ → Bytes → Bytes
fill noise i zero bs = []
fill noise i (suc n) [] = noise i ∷ fill noise (suc i) n []
fill noise i (suc n) (b ∷ bs) = b ∷ fill noise (suc i) n bs

-- The loop of `IsFileCached`, from the iterator on.
unfoldable pub any_from_other : Bytes → Multimap FileCacheEntry → Bool
any_from_other ip [] = false
any_from_other ip ((_, e) ∷ m) = if not (same_ip ip e.ip_addr) then true else any_from_other ip m

unfoldable pub is_file_cached : FileCache → Bytes → Bytes → Bool
unfolding any_from_other
is_file_cached c file ip =
    if contains file c.offline_cache
    then any_from_other ip (lower_bound file c.offline_cache)
    else false

abbrev pub entry_of : System → RawFile → Bytes → CacheLocation → Buffer → FileCacheEntry
entry_of s f ip loc bs = record {
  location = loc;
  size = f.file_size;
  ip_addr = take 4 ip;
  file_name = f.file_name;
  contents = bs;
  timestamp = s.now;
}

abbrev pub store : FileCache → FileCacheEntry → FileCache
store c e = record c { offline_cache = insert e.file_name e c.offline_cache }

-- `fopen(…, "wb+")`, `fwrite` and `fclose`
unfoldable pub write_file : System → Bytes → Bytes → System
write_file s name bs = record s { files = λ n. if equal n name then some bs else s.files n }

-- The branch of `AddFileToCache` for a high memory load. The file keeps its buffer.
unfoldable pub add_on_disk :
    System → RawFile → Bytes → FileCache → Option (RawFile × FileCache × System)
unfolding write_file
add_on_disk s f ip c =
    if not (s.creatable f.file_name)
    then some (f, c, s)
    else elim (read_bytes f.file_size f.contents) [
      | none ↦ none
      | some bs ↦ some (f, store c (entry_of s f ip on_disk none), write_file s f.file_name bs)
    ]

-- The load is an integer, so `memory_load > 0.75f` holds from 1 on. In memory the entry takes the
-- buffer over.
unfoldable pub add_file_to_cache :
    System → RawFile → Bytes → FileCache → Option (RawFile × FileCache × System)
unfolding add_on_disk
add_file_to_cache s f ip c =
    if ltb 0 s.memory_load
    then add_on_disk s f ip c
    else some (
      destroy_file (record f { contents = none }),
      store c (entry_of s f ip on_ram f.contents),
      s,
    )

-- The loop of `RemoveFromCache`: the entries without the one erased, or `none`.
unfoldable pub erase_from : Bytes → Multimap FileCacheEntry → Option (Multimap FileCacheEntry)
erase_from ip [] = none
erase_from ip ((k, e) ∷ m) =
    if same_ip ip e.ip_addr
    then some m
    else elim (erase_from ip m) [ none ↦ none | some r ↦ some ((k, e) ∷ r) ]

unfoldable pub remove_from_cache : FileCache → Bytes → Bytes → Bool × FileCache
remove_from_cache c file ip =
    if contains file c.offline_cache
    then elim (erase_from ip (lower_bound file c.offline_cache)) [
      | none ↦ (false, c)
      | some m ↦ (true, record c { offline_cache = before file c.offline_cache ++ m })
    ]
    else (false, c)

-- The loop of `GetCachedEntry`, from the iterator on.
unfoldable pub first_from_other : Bytes → Multimap FileCacheEntry → Option FileCacheEntry
first_from_other ip [] = none
first_from_other ip ((_, e) ∷ m) =
    if not (same_ip ip e.ip_addr) then some e else first_from_other ip m

unfoldable pub get_cached_entry : FileCache → Bytes → Bytes → Option FileCacheEntry
unfolding first_from_other
get_cached_entry c file ip =
    if contains file c.offline_cache
    then first_from_other ip (lower_bound file c.offline_cache)
    else none

-- The body of `GetCachedFile` for an entry found.
unfoldable pub fetch : System → Bytes → FileCacheEntry → CacheLocation → Option RawFile
fetch s file e on_ram = elim (read_bytes e.size e.contents) [
  | none ↦ none
  | some bs ↦ some (raw_file e.size file (some bs))
]
fetch s file e _ = some (
    raw_file e.size file
      (elim (s.files file) [ none ↦ none | some bs ↦ some (fill s.noise 0 e.size bs) ]))

unfoldable pub get_cached_file : System → FileCache → Bytes → Bytes → Option RawFile
unfolding fetch
get_cached_file s c file ip = elim (get_cached_entry c file ip) [
  | none ↦ some no_file
  | some e ↦ fetch s file e e.location
]
