-- ===== src/Shared/Attach.antt =====
-- How the `SharedMemory` of src/shared_memory/shm.h is attached and given up, on both systems. The
-- messages on the standard error are lists of their texts.
use guthi_core.Base.{
  ℕ, ◌+◌, ◌≡◌, ◌≢◌, refl, ◌⊎◌, inl, inr, Option, none, some, List, [], ◌∷◌, Bytes, codes,
  Option-cases,
}
use guthi_core.Shared.{size_shared_mem}
use guthi_core.Tracker.State.{Ended, ok, exited, fault}

-- A pointer to a segment: `failed` is `(void *)-1`, and `unset` one that has not been assigned.
pub data Segment : Type 0 where
  null failed unset : Segment
  mapped : ℕ → Segment

-- The calls of Linux; `shmget` has the key, the size and the flags, and gives none for -1.
pub record SharedSegments : Type 1 where
  pub World : Type 0
  pub shmget : ℕ → ℕ → ℕ → World → Option ℕ × World
  pub shmat : ℕ → World → Segment × World
  pub shmdt : Segment → World → World
  pub shmctl_rmid : ℕ → World → World

-- `id` on Linux, `hnd` on Windows, where none is NULL.
pub record SharedMemory (H : Type 0) : Type 0 where
  pub handle : H
  pub shm_segment : Segment

abbrev pub shm_key : ℕ
shm_key = 69

-- IPC_CREAT and the rights of the user and the group.
abbrev pub shm_flags : ℕ
shm_flags = 512 + (256 + 128 + 32 + 16)

abbrev pub attach_message : Segment → List Bytes
attach_message null = codes "Memory attach error" ∷ []
attach_message failed = []
attach_message unset = []
attach_message (mapped a) = []

module _ (l : SharedSegments) where
  -- The constructor on Linux, with its messages.
  unfoldable pub attach : l.World → Ended (SharedMemory ℕ × (List Bytes × l.World))
  attach w =
      let (made, w1) = l.shmget shm_key (size_shared_mem + 2) shm_flags w in
      elim made [
        | none ↦ exited
        | some id ↦
            let (segment, w2) = l.shmat id w1 in
            ok (record { handle = id; shm_segment = segment }, (attach_message segment, w2))
      ]

  abbrev pub give_up : SharedMemory ℕ → l.World → l.World
  give_up m w = l.shmctl_rmid m.handle (l.shmdt m.shm_segment w)

  attach_message-not_null : (s : Segment) → s ≢ null → attach_message s ≡ []
  attach_message-not_null null h = absurd (h refl)
  attach_message-not_null failed h = refl
  attach_message-not_null unset h = refl
  attach_message-not_null (mapped a) h = refl

  -- As `shmat` never gives NULL, the constructor exits or tells of no error, whatever it gives.
  pub attach-untold :
      (w : l.World)
      → ((id : ℕ) (w1 : l.World) → (l.shmat id w1).0 ≢ null)
      → (attach w ≡ exited)
        ⊎ ((m : SharedMemory ℕ) × (w2 : l.World) × (attach w ≡ ok (m, ([], w2))))
  unfolding attach
  attach-untold w never =
      let (made, w1) = l.shmget shm_key (size_shared_mem + 2) shm_flags w in
      elim (Option-cases made) [
        | inl e ↦ inl (rw (attach, e) refl)
        | inr (id, e) ↦ inr (
          record { handle = id; shm_segment = (l.shmat id w1).0 },
          (l.shmat id w1).1,
          rw (attach, e, attach_message-not_null (l.shmat id w1).0 (never id w1)) refl,
        )
      ]

-- The calls of Windows; none is NULL. `create_file_mapping` has the size and the name, and
-- `map_view_of_file` the handle and the size.
pub record FileMappings : Type 1 where
  pub World : Type 0
  pub create_file_mapping : ℕ → Bytes → World → Option ℕ × World
  pub map_view_of_file : ℕ → ℕ → World → Option ℕ × World
  pub unmap_view_of_file : Segment → World → World
  pub close_handle : Option ℕ → World → World

abbrev pub mapping_size : ℕ
mapping_size = 4100

abbrev pub mapping_name : Bytes
mapping_name = codes "Guthi_Shared_memory"

module _ (f : FileMappings) where
  -- The constructor on Windows. `held` is what the pointer holds before: `null` in an object with
  -- static storage, `unset` in any other.
  unfoldable pub attach_win32 : Segment → f.World → SharedMemory (Option ℕ) × f.World
  attach_win32 held w =
      let (made, w1) = f.create_file_mapping mapping_size mapping_name w in
      elim made [
        | none ↦ (record { handle = none; shm_segment = held }, w1)
        | some hnd ↦
            let (view, w2) = f.map_view_of_file hnd (size_shared_mem + 2) w1 in
            elim view [
              | none ↦
                  (record { handle = some hnd; shm_segment = null }, f.close_handle (some hnd) w2)
              | some a ↦ (record { handle = some hnd; shm_segment = mapped a }, w2)
            ]
      ]

  -- The destructor. To read a pointer that has not been assigned is undefined.
  abbrev pub give_up_win32 : SharedMemory (Option ℕ) → f.World → Ended f.World
  give_up_win32 m w = elim m.shm_segment [
    | unset ↦ fault
    | _ ↦ ok (f.close_handle m.handle (f.unmap_view_of_file m.shm_segment w))
  ]
