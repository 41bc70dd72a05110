-- ===== src/Demo/Asserts.antt =====
-- The assertions of src/main.cpp hold.
use guthi_core.Base.{ℕ, ◌≤◌, ◌≡◌, refl, true, [], ◌∷◌, arith, codes, All, ◌<◌, ◌^◌}
use guthi_core.Cache.Entries.{lower_bound}
use guthi_core.Cache.Stored.{remove_from_cache-add_file_to_cache}
use guthi_core.Cache.{System, file_cache}
use guthi_core.Demo.{
  local_fs, file_at, file2_at, local_store, my_file, rfile, ip, remove_twice, cache_test, run_main,
  test_on,
}
use guthi_core.Network.{directory, file, NetworkNode, Store, write, load, push_back}
use guthi_core.Network.Tree.{Tree, node, nil, cons, Holds, Distinct}
use guthi_core.Serialize.{Bitsery}
use guthi_core.Serialize.Round.{IsBitsery, value, Fits}
use guthi_core.Serialize.Trees.{deserialize-serialize}
use guthi_core.Tracker.State.{ok}

abbrev pub nowhere : NetworkNode
nowhere = record { ipv4 = 0 ∷ 0 ∷ 0 ∷ 0 ∷ [] }

-- The folder with its two files.
abbrev pub graphics : Tree
graphics = node local_fs directory nowhere (codes "CGraphics") (
    cons (node file_at file nowhere (codes "raytraced.png") nil)
      (cons (node file2_at file nowhere (codes "rasterised.png") nil) nil))

cache_test-ok :
    (s : System)
    → s.creatable (codes "CacheTest.exe") ≡ true
    → cache_test s (file_cache (codes "./tmp")) ≡ ok (file_cache (codes "./tmp"))
unfolding cache_test remove_twice lower_bound
cache_test-ok s creatable =
    let (f', c', s', added, removed, again) =
      remove_from_cache-add_file_to_cache s rfile my_file ip (file_cache (codes "./tmp")) refl refl
        creatable refl in
    rw (cache_test, added, removed, again) refl

graphics-Fits : Fits graphics
graphics-Fits =
    let four : All (λ x. x < 2 ^ 8) (0 ∷ 0 ∷ 0 ∷ 0 ∷ []) =
      (omega arith, (omega arith, (omega arith, (omega arith, tt)))) in
    (
      refl,
      four,
      omega arith,
      omega arith,
      (
        (refl, four, omega arith, omega arith, tt),
        ((refl, four, omega arith, omega arith, tt), tt),
      ),
    )

graphics-Distinct : Distinct graphics
graphics-Distinct = (refl, ((refl, tt), (λ p e. ground arith), ((refl, tt), (λ p e. refl), tt)))

test_on-ok :
    (b : Bitsery) (laws : IsBitsery b) (s : System) (k : ℕ) (h : Store)
    → Holds h graphics
    → s.creatable (codes "CacheTest.exe") ≡ true
    → 3 ≤ k
    → test_on b k s h ≡ ok (value graphics, file_cache (codes "./tmp"))
unfolding test_on
test_on-ok b laws s k h holds creatable l =
    let (val, wrote, reads) =
      deserialize-serialize b laws graphics k h holds graphics-Distinct graphics-Fits
        (omega arith) in
    rw (wrote, reads, cache_test-ok s creatable) refl

-- If the serializer library keeps its promises and the system can create the file of the test, then
-- the three assertions of `main` hold: the run up to the test of file tracking ends, the content read
-- is the folder with its two files, and the cache is as it was.
pub run_main-ok :
    (b : Bitsery) (laws : IsBitsery b) (s : System) (k : ℕ)
    → s.creatable (codes "CacheTest.exe") ≡ true
    → 3 ≤ k
    → run_main b k s ≡ ok (value graphics, file_cache (codes "./tmp"))
unfolding run_main local_store write load push_back
run_main-ok b laws s k creatable l =
    test_on-ok b laws s k _ (refl, ((refl, tt), ((refl, tt), tt))) creatable l
