-- ===== src/CApi/Added.antt =====
-- What `AddToFileCache` of src/core/c_api.cpp leaves.
use guthi_core.Base.{
  ℕ, ◌≤◌, ◌≡◌, refl, ap, true, false, some, [], ◌∷◌, ◌++◌, arith, ltb, ◌==◌, length, take, Bytes,
  c_string,
}
use guthi_core.Base.Runs.{ok}
use guthi_core.Cache.Entries.{contains}
use guthi_core.Cache.Stored.{get_cached_file-added}
use guthi_core.Cache.{RawFile, raw_file, System, FileCache, same_ip, read_bytes}
use guthi_core.CApi.{GlobalFs, bytes_at, fetch_cached, new_content, list_file, add_to_file_cache}
use guthi_core.Network.{FileContent, Ptr, write, load, mem, push_back}

bytes_at-ok : (n : ℕ) (bs : Bytes) → n ≤ length bs → bytes_at n bs ≡ ok (take n bs)
bytes_at-ok n bs h = let fits : ltb (length bs) n ≡ false = ground arith in rw fits refl

read_none : (bs : Bytes) → read_bytes 0 (some bs) ≡ some []
unfolding read_bytes
read_none bs = refl

-- The file system with a new file listed last.
abbrev listed : Ptr → GlobalFs → FileContent → RawFile → FileCache → GlobalFs
listed fresh g root f c = record g {
  local_cache = c;
  store =
      write (write g.store fresh (new_content f.file_name)) g.local_fs
        (record root { contents = root.contents ++ fresh ∷ [] });
}

list_file-listed :
    (fresh : Ptr) (g : GlobalFs) (root : FileContent) (f : RawFile) (c : FileCache) (s : System)
    → g.store g.local_fs ≡ some root
    → (g.local_fs == fresh) ≡ false
    → list_file fresh g (some (f, c, s)) ≡ ok (listed fresh g root f c, s)
unfolding list_file push_back mem
list_file-listed fresh g root f c s at_root apart =
    let found : load (write g.store fresh (new_content f.file_name)) g.local_fs ≡ ok root =
      rw (load, write, apart, at_root) refl in
    rw (list_file, push_back, found) refl

-- A file that is added to the cache by the C interface, under a name without a 0 that is new in the
-- cache and that the system can create, is listed last in the local file system, under its name; and
-- asked for with any address but the one it came from, the C interface then returns an empty array
-- and the size 0, whatever data it was added with.
pub fetch_cached-add_to_file_cache :
    (s : System) (fresh : Ptr) (g : GlobalFs) (name : Bytes) (n : ℕ) (ip asked content : Bytes)
    (m : ℕ) {root : FileContent}
    → n ≤ length name
    → m ≤ length content
    → c_string (take n name) ≡ take n name
    → contains (take n name) g.local_cache.offline_cache ≡ false
    → s.creatable (take n name) ≡ true
    → same_ip asked (take 4 ip) ≡ false
    → g.store g.local_fs ≡ some root
    → (g.local_fs == fresh) ≡ false
    → (g' : GlobalFs) × (s' : System) × (add_to_file_cache s fresh g name n ip content m
        ≡ ok (g', s'))
      × (fetch_cached s' g' name n asked ≡ ok (some [], 0))
      × (g'.store g'.local_fs ≡ some (record root { contents = root.contents ++ fresh ∷ [] }))
      × (g'.store fresh ≡ some (new_content (take n name)))
unfolding add_to_file_cache fetch_cached write
fetch_cached-add_to_file_cache s fresh g name n ip asked content m {root} h k no_zero new creatable
      other at_root apart =
    let file_name = take n name in
    let copied = take m content in
    let (f', c', s', done, found, named) =
      get_cached_file-added s (raw_file 0 file_name (some copied)) [] ip g.local_cache
        (read_none copied) refl creatable asked new other in
    let here : (g.local_fs == g.local_fs) ≡ true = ground arith in
    let there : (fresh == fresh) ≡ true = ground arith in
    let apart' : (fresh == g.local_fs) ≡ false = ground arith in
    (
      listed fresh g root f' c',
      s',
      rw (bytes_at-ok n name h, bytes_at-ok m content k, done)
          (list_file-listed fresh g root f' c' s' at_root apart),
      rw (bytes_at-ok n name h, no_zero, found) refl,
      rw here refl,
      rw (apart', there) (ap (λ x. some (new_content x)) named),
    )
