-- ===== src/Cache/Stored.antt =====
-- What src/filesystem/cache.cpp keeps: the order of the entries, and each file's bytes.
use guthi_core.Base.{
  take-length, ℕ, zero, suc, true, false, ◌≡◌, refl, ap, ◌∙◌, inl, inr, none, some, [], ◌∷◌, arith,
  Bytes, equal_refl, equal_iff, less_irrefl, less_asymm, equal_of_not_less, Bool-cases, length,
  take, ltb,
}
use guthi_core.Cache.Entries.{
  Multimap, any, insert, contains, lower_bound, before, before-append-lower_bound,
}
use guthi_core.Cache.Lookup.{get_cached_file-some}
use guthi_core.Cache.{
  destroy_file, CacheLocation, on_ram, on_disk, Buffer, RawFile, raw_file, System, FileCache,
  FileCacheEntry, same_ip, read_bytes, fill, entry_of, store, write_file, add_file_to_cache,
  erase_from, remove_from_cache, get_cached_entry, fetch, get_cached_file,
}

module _ {A : Type 0} (k : Bytes) (e : A) where
  contains-insert : (m : Multimap A) → contains k (insert k e m) ≡ true
  unfolding contains insert
  contains-insert [] = rw (equal_refl k)
  contains-insert ((j, f) ∷ m) = ground (arith, equal_refl k, contains-insert m)

  lower_bound-insert :
      (m : Multimap A) → lower_bound k (insert k e m) ≡ insert k e (lower_bound k m)
  unfolding lower_bound insert
  lower_bound-insert [] = rw (less_irrefl k)
  lower_bound-insert ((j, f) ∷ m) =
      ground (arith, less_irrefl k, less_asymm j k, lower_bound-insert m)

  before-insert : (m : Multimap A) → before k (insert k e m) ≡ before k m
  unfolding before insert
  before-insert [] = rw (less_irrefl k)
  before-insert ((j, f) ∷ m) = ground (arith, less_irrefl k, less_asymm j k, before-insert m)

  -- A new name is the first that `lower_bound` finds.
  lower_bound-insert_new :
      (m : Multimap A)
      → contains k m ≡ false
      → lower_bound k (insert k e m) ≡ (k, e) ∷ lower_bound k m
  unfolding lower_bound insert contains
  lower_bound-insert_new [] new = rw (less_irrefl k)
  lower_bound-insert_new ((j, f) ∷ m) new = ground (
    arith,
    less_irrefl k,
    less_asymm k j,
    equal_iff j k,
    equal_of_not_less j k,
    lower_bound-insert_new m,
  )

-- A buffer of the length asked for is read whole.
read_bytes-all : (n : ℕ) (bs : Bytes) → length bs ≡ n → read_bytes n (some bs) ≡ some bs
unfolding read_bytes
read_bytes-all zero [] l = refl
read_bytes-all zero (b ∷ bs) l = absurd (omega arith)
read_bytes-all (suc n) bs l = ground (arith, take-length (suc n) bs l)

fill-all : (noise : ℕ → ℕ) (i n : ℕ) (bs : Bytes) → length bs ≡ n → fill noise i n bs ≡ bs
unfolding fill
fill-all noise i zero [] l = refl
fill-all noise i zero (b ∷ bs) l = absurd (omega arith)
fill-all noise i (suc n) [] l = absurd (omega arith)
fill-all noise i (suc n) (b ∷ bs) l = ap (◌∷◌ b) (fill-all noise (suc i) n bs (omega arith))

take_twice : (n : ℕ) (bs : Bytes) → take n (take n bs) ≡ take n bs
take_twice zero bs = refl
take_twice (suc n) [] = refl
take_twice (suc n) (b ∷ bs) = ap (◌∷◌ b) (take_twice n bs)

-- With the address of another node, a new entry is the one found.
get_cached_entry-store :
    (c : FileCache) (e : FileCacheEntry) (ip : Bytes)
    → contains e.file_name c.offline_cache ≡ false
    → same_ip ip e.ip_addr ≡ false
    → get_cached_entry (store c e) e.file_name ip ≡ some e
unfolding get_cached_entry
get_cached_entry-store c e ip new other = rw (
  contains-insert e.file_name e c.offline_cache,
  lower_bound-insert_new e.file_name e c.offline_cache new,
  other,
)

erase_from-none :
    (ip : Bytes) (m : Multimap FileCacheEntry)
    → any (λ p. same_ip ip p.1.ip_addr) m ≡ false
    → erase_from ip m ≡ none
unfolding erase_from
erase_from-none ip [] h = refl
erase_from-none ip ((k, e) ∷ m) h = ground (arith, erase_from-none ip m)

erase_from-insert :
    (k ip : Bytes) (e : FileCacheEntry) (m : Multimap FileCacheEntry)
    → same_ip ip e.ip_addr ≡ true
    → any (λ p. same_ip ip p.1.ip_addr) m ≡ false
    → erase_from ip (insert k e m) ≡ some m
unfolding erase_from insert
erase_from-insert k ip e [] same h = rw same
erase_from-insert k ip e ((j, f) ∷ m) same h = ground (arith, erase_from-insert k ip e m same)

remove_from_cache-none :
    (c : FileCache) (file ip : Bytes)
    → any (λ p. same_ip ip p.1.ip_addr) (lower_bound file c.offline_cache) ≡ false
    → remove_from_cache c file ip ≡ (false, c)
unfolding remove_from_cache
remove_from_cache-none c file ip h =
    rw (erase_from-none ip (lower_bound file c.offline_cache) h)
      (elim (Bool-cases (contains file c.offline_cache)) [ inl e ↦ rw e | inr e ↦ rw e ])

remove_from_cache-store :
    (c : FileCache) (e : FileCacheEntry) (ip : Bytes)
    → same_ip ip e.ip_addr ≡ true
    → any (λ p. same_ip ip p.1.ip_addr) (lower_bound e.file_name c.offline_cache) ≡ false
    → remove_from_cache (store c e) e.file_name ip ≡ (true, c)
unfolding remove_from_cache
remove_from_cache-store c e ip same h = rw (
  contains-insert e.file_name e c.offline_cache,
  lower_bound-insert e.file_name e c.offline_cache,
  erase_from-insert e.file_name ip e (lower_bound e.file_name c.offline_cache) same h,
  before-insert e.file_name e c.offline_cache,
  before-append-lower_bound e.file_name c.offline_cache,
)

same_ip_copy : (ip : Bytes) → same_ip ip (take 4 ip) ≡ true
same_ip_copy ip = rw (take_twice 4 ip, equal_refl (take 4 ip))

module _ (s : System) (f : RawFile) (bs ip : Bytes) (c : FileCache)
    (got : read_bytes f.file_size f.contents ≡ some bs) (size : length bs ≡ f.file_size)
    (creatable : s.creatable f.file_name ≡ true) where
  -- The two ways in which a file is added: where it is put, and what the system holds then.
  added :
      (loc : CacheLocation) × (b : Buffer) × (f' : RawFile) × (s' : System) × (add_file_to_cache s f
          ip c
        ≡ some (f', store c (entry_of s f ip loc b), s'))
      × (fetch s' f.file_name (entry_of s f ip loc b) loc
          ≡ some (raw_file f.file_size f.file_name (some bs)))
      × (f'.file_name ≡ f.file_name)
  unfolding add_file_to_cache fetch
  added = elim (Bool-cases (ltb 0 s.memory_load)) [
    | inl loaded ↦ (
      on_disk,
      none,
      f,
      write_file s f.file_name bs,
      rw (loaded, creatable, got),
      rw (equal_refl f.file_name, fill-all s.noise 0 f.file_size bs size),
      refl,
    )
    | inr free ↦ (
      on_ram,
      f.contents,
      destroy_file (record f { contents = none }),
      s,
      rw free,
      rw (got, fetch),
      refl,
    )
  ]

  -- A file of which the stated number of bytes can be read is found with those bytes.
  pub get_cached_file-added :
      (asked : Bytes)
      → contains f.file_name c.offline_cache ≡ false
      → same_ip asked (take 4 ip) ≡ false
      → (f' : RawFile) × (c' : FileCache) × (s' : System) × (add_file_to_cache s f ip c
          ≡ some (f', c', s'))
        × (get_cached_file s' c' f.file_name asked
            ≡ some (raw_file f.file_size f.file_name (some bs)))
        × (f'.file_name ≡ f.file_name)
  get_cached_file-added asked new other =
      let (loc, b, f', s', done, fetched, named) = added in
      let e = entry_of s f ip loc b in
      (
        f',
        store c e,
        s',
        done,
        get_cached_file-some s' (store c e) f.file_name asked
              (get_cached_entry-store c e asked new other)
            ∙ fetched,
        named,
      )

module _ (s : System) (f : RawFile) (bs ip : Bytes) (c : FileCache) (buffer : f.contents ≡ some bs)
    (size : length bs ≡ f.file_size) (creatable : s.creatable f.file_name ≡ true) where
  whole : read_bytes f.file_size f.contents ≡ some bs
  whole = rw buffer (read_bytes-all f.file_size bs size)

  -- A file whose buffer has the stated size, of a name that is new in the cache and that the system
  -- can create, is added, in memory or on disk as the memory load decides; asked for by its name
  -- with any address but the one it came from, `GetCachedFile` then returns its name, size and bytes.
  pub get_cached_file-add_file_to_cache :
      (asked : Bytes)
      → contains f.file_name c.offline_cache ≡ false
      → same_ip asked (take 4 ip) ≡ false
      → (f' : RawFile) × (c' : FileCache) × (s' : System) × (add_file_to_cache s f ip c
          ≡ some (f', c', s'))
        × (get_cached_file s' c' f.file_name asked
            ≡ some (raw_file f.file_size f.file_name (some bs)))
  get_cached_file-add_file_to_cache asked new other =
      let (f', c', s', done, found, _) =
        get_cached_file-added s f bs ip c whole size creatable asked new other in
      (f', c', s', done, found)

  -- Under the same conditions on the file, and if no entry of its name or a later one comes from its
  -- address, `RemoveFromCache` undoes `AddFileToCache`: it returns true and leaves the cache as it was
  -- before, and a second removal returns false and changes nothing.
  pub remove_from_cache-add_file_to_cache :
      any (λ p. same_ip ip p.1.ip_addr) (lower_bound f.file_name c.offline_cache) ≡ false
      → (f' : RawFile) × (c' : FileCache) × (s' : System) × (add_file_to_cache s f ip c
          ≡ some (f', c', s'))
        × (remove_from_cache c' f.file_name ip ≡ (true, c))
        × (remove_from_cache c f.file_name ip ≡ (false, c))
  remove_from_cache-add_file_to_cache none_from =
      let (loc, b, f', s', done, _, _) = added s f bs ip c whole size creatable in
      let e = entry_of s f ip loc b in
      (
        f',
        store c e,
        s',
        done,
        remove_from_cache-store c e ip (same_ip_copy ip) none_from,
        remove_from_cache-none c f.file_name ip none_from,
      )
