-- ===== src/CApi/Examples.antt =====
-- src/core/c_api.cpp at a file that is added to an empty cache.
use guthi_core.Base.{
  true, ◌≡◌, refl, none, some, [], ◌∷◌, ◌++◌, arith, Bytes, codes, equal, take, if◌then◌else◌, ◌==◌,
}
use guthi_core.Base.Runs.{ok}
use guthi_core.CApi.Added.{fetch_cached-add_to_file_cache}
use guthi_core.CApi.{GlobalFs, new_content, fetch_cached, add_to_file_cache}
use guthi_core.Cache.{System, file_cache}
use guthi_core.Cache.Entries.{contains}
use guthi_core.Network.{FileContent, directory}

abbrev idle : System
idle = record {
  memory_load = 0;
  now = 1000;
  files = λ n. none;
  creatable = λ n. true;
  noise = λ i. 205;
}

abbrev root_content : FileContent
root_content = record {
  type = directory;
  network_node = record { ipv4 = 0 ∷ 0 ∷ 0 ∷ 0 ∷ [] };
  name = codes "root";
  contents = [];
}

abbrev empty_fs : GlobalFs
empty_fs = record {
  local_cache = file_cache (codes "./tmp");
  store = λ p. if p == 1 then some root_content else none;
  local_fs = 1;
}

abbrev here : Bytes
here = 127 ∷ 0 ∷ 0 ∷ 1 ∷ []

abbrev there : Bytes
there = 10 ∷ 0 ∷ 0 ∷ 7 ∷ []

fetch_cached-add_to_file_cache_example :
    (g' : GlobalFs) × (s' : System) × (add_to_file_cache idle 2 empty_fs
        (codes "a.txt")
        5
        here
        (codes "Hello")
        5
      ≡ ok (g', s'))
    × (fetch_cached s' g' (codes "a.txt") 5 there ≡ ok (some [], 0))
    × (g'.store g'.local_fs ≡ some (record root_content { contents = [] ++ 2 ∷ [] }))
    × (g'.store 2 ≡ some (new_content (take 5 (codes "a.txt"))))
unfolding equal contains
fetch_cached-add_to_file_cache_example =
    fetch_cached-add_to_file_cache idle 2 empty_fs (codes "a.txt") 5 here there (codes "Hello") 5
      (omega arith) (omega arith) refl refl refl refl refl refl
