-- ===== src/Cache/Invariant.antt =====
-- What `RemoveFromCache` of src/filesystem/cache.cpp takes out of the cache.
use guthi_core.Base.{
  Bool, true, false, ◌≡◌, refl, sym, ap, ◌∙◌, inl, inr, some, some-injective, [], ◌∷◌, ◌++◌,
  append_assoc, arith, Bytes, Bool-cases, Option-cases,
}
use guthi_core.Cache.Entries.{Multimap, contains, lower_bound, before, before-append-lower_bound}
use guthi_core.Cache.{FileCache, FileCacheEntry, same_ip, erase_from, remove_from_cache}

-- What is left after one entry from the address was erased.
pub record Erased (ip : Bytes) (m r : Multimap FileCacheEntry) : Type 0 where
  pub front : Multimap FileCacheEntry
  pub gone : Bytes × FileCacheEntry
  pub back : Multimap FileCacheEntry
  pub splits : m ≡ front ++ gone ∷ back
  pub left : r ≡ front ++ back
  pub from : same_ip ip gone.1.ip_addr ≡ true

erase_from-Erased :
    (ip : Bytes) (m : Multimap FileCacheEntry) {r : Multimap FileCacheEntry}
    → erase_from ip m ≡ some r
    → Erased ip m r
unfolding erase_from
erase_from-Erased ip [] e = cc
erase_from-Erased ip ((k, f) ∷ m) e = elim (Bool-cases (same_ip ip f.ip_addr)) [
  | inl b ↦ record {
    front = [];
    gone = (k, f);
    back = m;
    splits = refl;
    left = ground arith;
    from = b;
  }
  | inr b ↦ elim (Option-cases (erase_from ip m)) [
    | inl n ↦ ground arith
    | inr (q, rest) ↦
        let x = erase_from-Erased ip m rest in
        record {
          front = (k, f) ∷ x.front;
          gone = x.gone;
          back = x.back;
          splits = ap (◌∷◌ (k, f)) x.splits;
          left = sym (some-injective _ _ (rw (b, rest) at e)) ∙ ap (◌∷◌ (k, f)) x.left;
          from = x.from;
        }
  ]
]

-- What `RemoveFromCache` leaves: if it returns true, the cache is the same but for one entry, which
-- came from the address; if it returns false, the cache is the same.
abbrev pub Removed : Bytes → FileCache → Bool × FileCache → Type 0
Removed ip c (true, c') =
    Erased ip c.offline_cache c'.offline_cache
    × (c'.local_cache_directory ≡ c.local_cache_directory)
Removed ip c (false, c') = c' ≡ c

Erased-behind :
    (ip : Bytes) (m r first whole : Multimap FileCacheEntry)
    → first ++ m ≡ whole
    → Erased ip m r
    → Erased ip whole (first ++ r)
Erased-behind ip m r first whole e x = record {
  front = first ++ x.front;
  gone = x.gone;
  back = x.back;
  splits = sym e ∙ ap (◌++◌ first) x.splits ∙ sym (append_assoc first x.front (x.gone ∷ x.back));
  left = ap (◌++◌ first) x.left ∙ sym (append_assoc first x.front x.back);
  from = x.from;
}

-- On every cache `RemoveFromCache` erases one entry from the given address and returns true, or
-- changes nothing and returns false.
pub remove_from_cache-Removed :
    (c : FileCache) (file ip : Bytes) → Removed ip c (remove_from_cache c file ip)
unfolding remove_from_cache
remove_from_cache-Removed c file ip = elim (Bool-cases (contains file c.offline_cache)) [
  | inr absent ↦ rw absent refl
  | inl present ↦ elim (Option-cases (erase_from ip (lower_bound file c.offline_cache))) [
    | inl e ↦ rw (present, e) refl
    | inr (r, e) ↦
        rw (present, e)
          (
            Erased-behind ip (lower_bound file c.offline_cache) r (before file c.offline_cache)
                c.offline_cache (before-append-lower_bound file c.offline_cache)
                (erase_from-Erased ip (lower_bound file c.offline_cache) e),
            refl,
          )
  ]
]
