-- ===== src/Serialize/Sent.antt =====
-- Trees that src/filesystem/serialize_fs.cpp serializes, in the shared memory of
-- src/shared_memory/shm.cpp as src/core/read_sharedmemory.hpp reads it.
use guthi_core.Base.{
  ℕ, zero, suc, ◌+◌, ◌^◌, ◌<◌, ◌≤◌, ◌≡◌, refl, ap, ◌∙◌, subst, false, ◌==◌, leb, ltb, inl, inr,
  some, [], ◌∷◌, ◌++◌, arith, length, take, drop, get_elem?, Bytes, Bool-cases, Option-cases,
}
use guthi_core.Network.{FileType, directory, file, Ptr, FileContent, Store}
use guthi_core.Serialize.{
  Bitsery, type_number, max_name, max_file_capacity, serialize_fields, serialize_local_fs,
  serialize_all, bytes1b,
}
use guthi_core.Shared.{
  ShmSegment, set_first, write_data, idle, message_type, read_message_of, read_shm_round,
}
use guthi_core.Shared.Messages.{write_data-written}
use guthi_core.Tracker.State.{Ended, ok, exited, aborted, fault, out_of_fuel, ◌>>=◌}

-- The other process marks the segment as a message for this one.
abbrev pub flagged : ShmSegment → ShmSegment
flagged m = record m { buff = set_first 49 m.buff }

-- The bytes that a serializer gives begin with a number that is 0 or 1.
abbrev StartsLow : Ended Bytes → Type 0
StartsLow (ok bytes) = (n : ℕ) × (n < 2) × (get_elem? bytes 0 ≡ some n)
StartsLow exited = Unit
StartsLow aborted = Unit
StartsLow fault = Unit
StartsLow out_of_fuel = Unit

StartsLow->>= :
    {A : Type 0} (m : Ended A) (f : A → Ended Bytes)
    → ((a : A) → StartsLow (f a))
    → StartsLow (m >>= f)
StartsLow->>= (ok a) f h = h a
StartsLow->>= exited f h = tt
StartsLow->>= aborted f h = tt
StartsLow->>= fault f h = tt
StartsLow->>= out_of_fuel f h = tt

first-append : (s t : Bytes) (n : ℕ) → get_elem? s 0 ≡ some n → get_elem? (s ++ t) 0 ≡ some n
first-append [] t n h = absurd (cc h)
first-append (x ∷ s) t n h = h

type_number-low : (t : FileType) → type_number t < 2
type_number-low directory = omega arith
type_number-low file = omega arith

-- The second byte, where what follows the first begins as other bytes do.
second-of :
    (n : ℕ) (xs ys : Bytes)
    → 0 < n
    → take n (drop 1 xs) ≡ take n ys
    → get_elem? xs 1 ≡ get_elem? ys 0
second-of zero xs ys l h = absurd (omega arith)
second-of (suc n) [] [] l h = refl
second-of (suc n) [] (y ∷ ys) l h = absurd (cc h)
second-of (suc n) (x ∷ []) [] l h = refl
second-of (suc n) (x ∷ []) (y ∷ ys) l h = absurd (cc h)
second-of (suc n) (x ∷ z ∷ xs) [] l h = absurd (cc h)
second-of (suc n) (x ∷ z ∷ xs) (y ∷ ys) l h = ap (λ l. get_elem? l 0) h

first-set_first : (c : ℕ) (xs : Bytes) → 0 < length xs → get_elem? (set_first c xs) 0 ≡ some c
first-set_first c [] h = absurd (omega arith)
first-set_first c (x ∷ xs) h = refl

-- A message of another type is not read as a tree.
read_shm_round-other :
    (m : ShmSegment) (n : ℕ)
    → get_elem? m.buff 0 ≡ some 49
    → 0 < m.count
    → get_elem? m.buff 1 ≡ some n
    → n < 2
    → read_shm_round m ≡ idle
unfolding read_shm_round message_type read_message_of
read_shm_round-other m n first counted second low =
    let there : ltb m.count 1 ≡ false = ground arith in
    let other : (n == 49) ≡ false = ground arith in
    rw (read_shm_round, first, there, second, other) refl

second-set_first : (c : ℕ) (xs : Bytes) → get_elem? (set_first c xs) 1 ≡ get_elem? xs 1
second-set_first c [] = refl
second-set_first c (x ∷ xs) = refl

nonempty : (s : Bytes) (n : ℕ) → get_elem? s 0 ≡ some n → 0 < length s
nonempty [] n h = absurd (cc h)
nonempty (x ∷ s) n h = omega arith

module _ (b : Bitsery) (low_first : (n : ℕ) → n < 256 → get_elem? (b.value2b n) 0 ≡ some n) where
  serialize_fields-StartsLow :
      (c : FileContent) (below : Ended (Bytes × b.Context))
      → StartsLow (serialize_fields b c >>= λ fields. below >>= λ (bs, _). ok (fields ++ bs))
  unfolding serialize_fields
  serialize_fields-StartsLow c below = elim (Bool-cases (leb (length c.name) max_name)) [
    | inr e ↦ rw e tt
    | inl e ↦ elim (Bool-cases (leb (length c.contents) max_file_capacity)) [
      | inr f ↦ rw (e, f) tt
      | inl f ↦
          let ty = type_number c.type in
          let low = type_number-low c.type in
          let behind : Bytes =
            bytes1b b c.network_node.ipv4
            ++ (b.container1b c.name ++ b.container_size (length c.contents)) in
          let number = first-append (b.value2b ty) behind ty (low_first ty (omega arith)) in
          rw (e, f)
            (StartsLow->>= below (λ (bs, _). ok ((b.value2b ty ++ behind) ++ bs))
              (λ (bs, _). (ty, low, first-append (b.value2b ty ++ behind) bs ty number)))
    ]
  ]

  serialize_local_fs-StartsLow :
      (k : ℕ) (h : Store) (root : Ptr) → StartsLow (serialize_local_fs b k h root)
  unfolding serialize_local_fs
  serialize_local_fs-StartsLow k h root = elim (Option-cases (h root)) [
    | inl e ↦ rw (serialize_local_fs, e) tt
    | inr (c, e) ↦
        rw (serialize_local_fs, e)
          (serialize_fields-StartsLow c (serialize_all b k h c.contents b.no_links))
  ]

  -- If the library writes the lowest byte of a number first, a tree that is serialized to less than
  -- 65536 bytes, and that `write_data` puts whole at the first place of the shared memory, is never
  -- read as a tree, even once the segment is marked as a message: what stands at the place of the type
  -- of the message is the first byte of the tree, and that is never the character 1.
  pub read_shm_round-serialize_local_fs :
      (k : ℕ) (h : Store) (root : Ptr) (bytes : Bytes) (m : ShmSegment)
      → serialize_local_fs b k h root ≡ ok bytes
      → length bytes < 2 ^ 16
      → length bytes + 1 ≤ length m.buff
      → (m' : ShmSegment) × (write_data bytes (length bytes) 1 m ≡ some m')
        × (read_shm_round (flagged m') ≡ idle)
  read_shm_round-serialize_local_fs k h root bytes m made small room =
      let (n, low, first) = subst StartsLow made (serialize_local_fs-StartsLow k h root) in
      let some_there : 0 < length bytes = nonempty bytes n first in
      let (m', done, counted, size, copied, before, behind, _) =
        write_data-written bytes (length bytes) 0 m some_there small (omega arith) (omega arith) in
      let second =
        second-set_first 49 m'.buff
        ∙ second-of (length bytes) m'.buff bytes some_there copied
        ∙ first in
      (
        m',
        done,
        read_shm_round-other (flagged m') n (first-set_first 49 m'.buff (omega arith)) (omega arith)
            second low,
      )
