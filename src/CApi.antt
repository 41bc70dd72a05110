-- ===== src/CApi.antt =====
-- src/core/c_api.cpp: what other languages call, on the global file system `GFS`.
pub mod Added
mod Examples
use guthi_core.Base.{
  ℕ, ◌+◌, ◌%◌, ◌^◌, Bool, true, false, ◌||◌, Option, none, some, List, [], ◌∷◌, ltb, length, take,
  if◌then◌else◌, Bytes, c_string,
}
use guthi_core.Base.Runs.{Outcome, ok, fault, out_of_fuel, ◌>>=◌}
use guthi_core.Cache.{
  Buffer, RawFile, raw_file, System, FileCache, add_file_to_cache, get_cached_file, is_file_cached,
}
use guthi_core.Network.{FileContent, file, Ptr, Store, write, push_back}

-- The parts of `GFS` that the calls change: the cache, and the address of the local file system's root
-- in the store of contents.
pub record GlobalFs : Type 0 where
  pub local_cache : FileCache
  pub store : Store
  pub local_fs : Ptr

-- `n` bytes at a pointer.
abbrev pub bytes_at : ℕ → Bytes → Outcome Bytes
bytes_at n content = if ltb (length content) n then fault else ok (take n content)

unfoldable pub query_cached : GlobalFs → Bytes → ℕ → Bytes → Outcome Bool
query_cached g str len ip = do
  filename ← bytes_at len str
  ok (is_file_cached g.local_cache (c_string filename) ip)

abbrev pub returned : Option RawFile → Outcome (Buffer × ℕ)
returned none = fault
returned (some f) = ok (f.contents, f.file_size % 2 ^ 32)

-- `GetCachedFile`: the array returned, and the size stored.
unfoldable pub fetch_cached : System → GlobalFs → Bytes → ℕ → Bytes → Outcome (Buffer × ℕ)
fetch_cached s g name len ip = do
  filename ← bytes_at len name
  returned (get_cached_file s g.local_cache (c_string filename) ip)

abbrev pub new_content : Bytes → FileContent
new_content name = record {
  type = file;
  network_node = record { ipv4 = 0 ∷ 0 ∷ 0 ∷ 0 ∷ [] };
  name = name;
  contents = [];
}

-- The part of `AddToFileCache` behind `AddFileToCache`, given the address that `new` returns.
unfoldable pub list_file :
    Ptr → GlobalFs → Option (RawFile × FileCache × System) → Outcome (GlobalFs × System)
unfolding push_back write
list_file fresh g none = fault
list_file fresh g (some (f, c, s)) = do
  h ← push_back [] g.local_fs fresh (write g.store fresh (new_content f.file_name))
  ok (record g { local_cache = c; store = h }, s)

-- `AddToFileCache`. The size of the file stays as it is initialised, 0.
unfoldable pub add_to_file_cache :
    System → Ptr → GlobalFs → Bytes → ℕ → Bytes → Bytes → ℕ → Outcome (GlobalFs × System)
unfolding list_file
add_to_file_cache s fresh g name name_length ip content data_length = do
  file_name ← bytes_at name_length name
  copied ← bytes_at data_length content
  list_file fresh g (add_file_to_cache s (raw_file 0 file_name (some copied)) ip g.local_cache)
