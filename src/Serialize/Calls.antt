-- ===== src/Serialize/Calls.antt =====
-- The calls of src/core/c_api.cpp that pass serialized trees.
use guthi_core.Base.{
  ℕ, zero, suc, ◌%◌, ◌^◌, ◌≡◌, refl, inl, inr, none, some, [], ◌∷◌, ◌++◌, ltb, if◌then◌else◌,
  length, take, drop, get_elem?, Bytes, ◌⊎◌, ℤ, pos, negsuc,
}
use guthi_core.CApi.{GlobalFs}
use guthi_core.Serialize.{
  Bitsery, Parsed, read_fields, serialize_local_fs, deserialize_to_file_content,
}
use guthi_core.Tracker.State.{Ended, ok, aborted, fault, ◌>>=◌}

-- `std::vector<uint8_t>`: its elements, and for how many it has room.
pub record ByteVector : Type 0 where
  pub elements : Bytes
  pub capacity : ℕ

-- `reserve` on an empty vector. A negative size is converted to one above the greatest allowed, for
-- which an exception is thrown.
unfoldable pub reserve : ℤ → Ended ByteVector
reserve (pos n) = ok (record { elements = []; capacity = n })
reserve (negsuc n) = aborted

-- `v[i] = x`, which is defined for an element.
unfoldable pub set_element : ℕ → ℕ → ByteVector → Ended ByteVector
set_element i x v =
    if ltb i (length v.elements)
    then ok (record v { elements = take i v.elements ++ x ∷ drop (suc i) v.elements })
    else fault

-- How often the loop of `SetFilesystem` runs.
abbrev pub rounds_of : ℤ → ℕ
rounds_of (pos n) = n
rounds_of (negsuc n) = 0

-- The loop, for the rounds left, from the index `i` on; `bytes` are the bytes behind the pointer.
unfoldable pub copy_elements : ℕ → ℕ → Bytes → ByteVector → Ended ByteVector
unfolding set_element
copy_elements zero i bytes v = ok v
copy_elements (suc n) i bytes v = elim (get_elem? bytes i) [
  | none ↦ fault
  | some x ↦ set_element i x v >>= λ v'. copy_elements n (suc i) bytes v'
]

module _ (b : Bitsery) where
  -- `GetLocalFileMetadata`: the array returned, and the size stored.
  unfoldable pub get_local_file_metadata : ℕ → GlobalFs → Ended (Bytes × ℕ)
  get_local_file_metadata k g =
      serialize_local_fs b k g.store g.local_fs >>= λ ser. ok (ser, length ser % 2 ^ 32)

  -- `SetFilesystem`: the content that is printed. An exception that is not caught ends the program, as
  -- a failed assertion does.
  unfoldable pub set_filesystem : ℕ → Bytes → ℤ → Ended Parsed
  unfolding reserve copy_elements
  set_filesystem k bytes size = reserve size >>= λ serialized.
      copy_elements (rounds_of size) 0 bytes serialized >>= λ serialized'.
      deserialize_to_file_content b k serialized'.elements >>= λ o. elim o [
        | none ↦ aborted
        | some deserialized ↦ ok deserialized
      ]

  read_fields-nothing : b.read2b [] ≡ none → read_fields b [] ≡ none
  unfolding read_fields
  read_fields-nothing nothing = rw (read_fields, nothing) refl

  -- If the library reads no number where there are no bytes, then `SetFilesystem` prints no content,
  -- whatever bytes and whatever size, also a negative one, it is given: it reads beyond its bytes or
  -- writes where its vector has no element, an exception is thrown, or its assertion fails.
  pub set_filesystem-all :
      (k : ℕ) (bytes : Bytes) (size : ℤ)
      → b.read2b [] ≡ none
      → (set_filesystem k bytes size ≡ fault) ⊎ (set_filesystem k bytes size ≡ aborted)
  unfolding set_filesystem reserve copy_elements set_element deserialize_to_file_content
  set_filesystem-all k bytes (negsuc n) nothing = inr refl
  set_filesystem-all k bytes (pos zero) nothing =
      inr (rw (set_filesystem, deserialize_to_file_content, read_fields-nothing nothing) refl)
  set_filesystem-all k [] (pos (suc n)) nothing = inl refl
  set_filesystem-all k (x ∷ bytes) (pos (suc n)) nothing = inl refl
