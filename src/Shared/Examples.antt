-- ===== src/Shared/Examples.antt =====
-- src/shared_memory/shm.cpp and src/core/read_sharedmemory.hpp at a short message.
use guthi_core.Base.{
  zero, suc, ◌+◌, ◌≡◌, refl, some, [], ◌∷◌, ◌++◌, arith, codes, length, take, drop, replicate,
  length-replicate, Option, ℕ, none,
}
use guthi_core.Shared.Attach.{
  failed, null, unset, SharedSegments, SharedMemory, attach, FileMappings, attach_win32,
  give_up_win32,
}
use guthi_core.Shared.Messages.{write_data-written, read_shm_round-message}
use guthi_core.Shared.{
  size_shared_mem, ShmSegment, data_count, strlen, set_first, write_data, idle, deserializes,
  read_shm_round,
}
use guthi_core.Tracker.State.{ok}

abbrev cleared : ShmSegment
cleared = record { count = 0; buff = replicate size_shared_mem 0 }

-- The size is that of the string behind its first byte.
data_count_test : data_count (codes "1abc" ++ 0 ∷ []) 0 ≡ some 3
unfolding data_count strlen
data_count_test = refl

write_data-written_example :
    (m' : ShmSegment) × (write_data (codes "Hello") 5 3 cleared ≡ some m')
    × (m'.count ≡ 5)
    × (length m'.buff ≡ length cleared.buff)
    × (take 5 (drop 3 m'.buff) ≡ take 5 (codes "Hello"))
    × (take 3 m'.buff ≡ take 3 (set_first 48 cleared.buff))
    × (drop 8 m'.buff ≡ drop 8 (set_first 48 cleared.buff))
    × (read_shm_round m' ≡ idle)
write_data-written_example =
    write_data-written (codes "Hello") 5 2 cleared (omega arith) (omega arith) (omega arith)
      (omega (arith, length-replicate size_shared_mem zero))

read_shm_round-message_test :
    read_shm_round (record { count = suc 2; buff = 49 ∷ 49 ∷ (7 ∷ 8 ∷ [] ++ 9 ∷ []) })
    ≡ deserializes (49 ∷ 7 ∷ 8 ∷ [])
read_shm_round-message_test = read_shm_round-message (7 ∷ 8 ∷ []) (9 ∷ []) (omega arith)

-- A system of which the memory can not be attached.
abbrev no_memory : SharedSegments
no_memory = record {
  World = ℕ;
  shmget = λ key size flags w. (some 5, w);
  shmat = λ id w. (failed, w);
  shmdt = λ segment w. w;
  shmctl_rmid = λ id w. w + 1;
}

failed_attach : attach no_memory 0 ≡ ok (record { handle = 5; shm_segment = failed }, ([], 0))
unfolding attach
failed_attach = refl

-- A system of which the memory can be created, but not mapped, and that counts the handles closed.
abbrev no_view : FileMappings
no_view = record {
  World = ℕ;
  create_file_mapping = λ size name w. (some 5, w);
  map_view_of_file = λ handle size w. (none, w);
  unmap_view_of_file = λ segment w. w;
  close_handle = λ handle w. w + 1;
}

abbrev unmapped : SharedMemory (Option ℕ)
unmapped = record { handle = some 5; shm_segment = null }

failed_view : attach_win32 no_view unset 0 ≡ (unmapped, 1)
unfolding attach_win32
failed_view = refl

-- Its handle is closed once more.
closed_twice : give_up_win32 no_view unmapped 1 ≡ ok 2
closed_twice = refl
