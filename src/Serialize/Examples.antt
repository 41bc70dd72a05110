-- ===== src/Serialize/Examples.antt =====
-- src/filesystem/serialize_fs.cpp with a small library.
use guthi_core.Base.{
  pos, zero, suc, ◌≡◌, refl, ◌++◌, length, replicate, length-replicate, ◌⊎◌, none, some, [], ◌∷◌,
  arith, Bytes, codes,
}
use guthi_core.Network.{directory, file, NetworkNode, Store}
use guthi_core.Network.Tree.{Tree, node, nil, cons, content}
use guthi_core.Serialize.{
  serialize_fields, serialize_all, serialize_local_fs, deserialize_to_file_content,
}
use guthi_core.Serialize.Calls.{set_filesystem, set_filesystem-all}
use guthi_core.Serialize.Round.{value}
use guthi_core.Serialize.Sent.{flagged, read_shm_round-serialize_local_fs}
use guthi_core.Shared.{size_shared_mem, ShmSegment, write_data, idle, read_shm_round}
use guthi_core.Serialize.Trees.{deserialize-serialize}
use guthi_core.Tracker.State.{ok, aborted, fault}
use guthi_core.Serialize.Small.{small, small-IsBitsery}

abbrev here : NetworkNode
here = record { ipv4 = 127 ∷ 0 ∷ 0 ∷ 1 ∷ [] }

abbrev notes : Tree
notes = node 1 file here (codes "notes") nil

abbrev root : Tree
root = node 0 directory here (codes "root") (cons notes nil)

abbrev root_store : Store
root_store zero = some (content directory here (codes "root") (cons notes nil))
root_store (suc zero) = some (content file here (codes "notes") nil)
root_store _ = none

deserialize-serialize_example :
    (bytes : Bytes) × (serialize_local_fs small 3 root_store 0 ≡ ok bytes)
    × (deserialize_to_file_content small 3 bytes ≡ ok (some (value root)))
deserialize-serialize_example =
    deserialize-serialize small small-IsBitsery root 3 root_store (refl, ((refl, tt), tt))
      (refl, ((refl, tt), λ p h. refl, tt))
      (
        refl,
        (omega arith, (omega arith, (omega arith, (omega arith, tt)))),
        omega arith,
        omega arith,
        (
          (
            refl,
            (omega arith, (omega arith, (omega arith, (omega arith, tt)))),
            omega arith,
            omega arith,
            tt,
          ),
          tt,
        ),
      )
      (omega arith)

set_filesystem-all_example :
    (set_filesystem small 3 (codes "x") (pos 1) ≡ fault)
    ⊎ (set_filesystem small 3 (codes "x") (pos 1) ≡ aborted)
set_filesystem-all_example = set_filesystem-all small 3 (codes "x") (pos 1) refl

abbrev segment : ShmSegment
segment = record { count = 0; buff = replicate size_shared_mem 0 }

abbrev serialized : Bytes
serialized =
    0
    ∷ 127
    ∷ 0
    ∷ 0
    ∷ 1
    ∷ (4 ∷ codes "root" ++ 1 ∷ 0 ∷ 1 ∷ 127 ∷ 0 ∷ 0 ∷ 1 ∷ (5 ∷ codes "notes" ++ 0 ∷ []))

serialized_test : serialize_local_fs small 3 root_store 0 ≡ ok serialized
unfolding serialize_local_fs serialize_fields serialize_all
serialized_test = refl

read_shm_round-serialize_local_fs_example :
    (m' : ShmSegment) × (write_data serialized (length serialized) 1 segment ≡ some m')
    × (read_shm_round (flagged m') ≡ idle)
read_shm_round-serialize_local_fs_example =
    read_shm_round-serialize_local_fs small (λ n l. refl) 3 root_store 0 serialized segment
      serialized_test (omega arith) (omega (arith, length-replicate size_shared_mem zero))
