-- ===== src/Demo.antt =====
-- The run of src/main.cpp up to its test of file tracking: a folder of two files is serialized and read
-- again, and a file is added to the cache and removed. What is printed is left out.
pub mod Asserts
mod Examples
use guthi_core.Base.{
  ℕ, zero, suc, Bool, true, false, not, Option, none, some, List, [], ◌∷◌, ◌++◌, if◌then◌else◌,
  length, Bytes, codes,
}
use guthi_core.Base.Runs.{Outcome}
use guthi_core.Cache.{
  RawFile, raw_file, System, FileCache, file_cache, add_file_to_cache, remove_from_cache,
}
use guthi_core.Network.{FileType, directory, file, Ptr, FileContent, Store, write, load, push_back}
use guthi_core.Serialize.{Bitsery, Parsed, serialize_local_fs, deserialize_to_file_content}
use guthi_core.Tracker.State.{Ended, ok, aborted, fault, out_of_fuel, ◌>>=◌}

-- A run of the part on trees, among the others.
abbrev pub of_outcome : {A : Type 0} → Outcome A → Ended A
of_outcome (Outcome.ok a) = ok a
of_outcome Outcome.fault = fault
of_outcome Outcome.out_of_fuel = out_of_fuel

abbrev pub new_content : FileType → Bytes → FileContent
new_content type name = record {
  type = type;
  network_node = record { ipv4 = 0 ∷ 0 ∷ 0 ∷ 0 ∷ [] };
  name = name;
  contents = [];
}

-- The addresses of `GFS.local_fs`, and of the three contents that are made.
abbrev pub local_fs : Ptr
local_fs = 0

abbrev pub content_at : Ptr
content_at = 1

abbrev pub file_at : Ptr
file_at = 2

abbrev pub file2_at : Ptr
file2_at = 3

-- The store of the contents, with the copy that `GFS.local_fs` is assigned.
unfoldable pub local_store : Ended Store
unfolding write load push_back
local_store =
    let h1 = write (λ p. none) content_at (new_content directory (codes "CGraphics")) in
    let h2 = write h1 file_at (new_content file (codes "raytraced.png")) in
    let h3 = write h2 file2_at (new_content file (codes "rasterised.png")) in
    of_outcome (push_back [] content_at file_at h3) >>= λ h4.
    of_outcome (push_back [] content_at file2_at h4) >>= λ h5.
    of_outcome (load h5 content_at) >>= λ c. ok (write h5 local_fs c)

-- An array of characters that a literal initialises, with the 0 at its end.
abbrev pub my_file : Bytes
my_file = codes "Hello this is my file." ++ 0 ∷ []

abbrev pub rfile : RawFile
rfile = raw_file (length my_file) (codes "CacheTest.exe") (some my_file)

abbrev pub ip : Bytes
ip = 127 ∷ 0 ∷ 0 ∷ 1 ∷ []

-- The two assertions on the cache; the result is the cache behind them.
unfoldable pub remove_twice : FileCache → Ended FileCache
remove_twice c =
    let (removed, c1) = remove_from_cache c (codes "CacheTest.exe") ip in
    let (again, c2) = remove_from_cache c1 (codes "CacheTest.exe") ip in
    if not removed then aborted else if again then aborted else ok c2

unfoldable pub cache_test : System → FileCache → Ended FileCache
unfolding remove_twice
cache_test s c = elim (add_file_to_cache s rfile ip c) [
  | none ↦ fault
  | some (f, c', s') ↦ remove_twice c'
]

-- The run from the call of `SerializeLocalFS` on: the content that is read, and the cache at its end.
unfoldable pub test_on : Bitsery → ℕ → System → Store → Ended (Parsed × FileCache)
unfolding cache_test
test_on b k s h = serialize_local_fs b k h local_fs >>= λ val.
    deserialize_to_file_content b k val >>= λ o. elim o [
      | none ↦ aborted
      | some deserialized ↦ cache_test s (file_cache (codes "./tmp")) >>= λ c. ok (deserialized, c)
    ]

unfoldable pub run_main : Bitsery → ℕ → System → Ended (Parsed × FileCache)
unfolding local_store test_on
run_main b k s = local_store >>= test_on b k s
