-- ===== src/Shared/Messages.antt =====
-- What `write_data` of src/shared_memory/shm.cpp leaves in the shared memory, and what `read_shm` of
-- src/core/read_sharedmemory.hpp takes from it.
use guthi_core.Base.{
  ℕ, suc, ◌+◌, ◌^◌, ◌≤◌, ◌<◌, ◌≡◌, refl, sym, ap, ◌∙◌, false, ◌||◌, some, [], ◌∷◌, ◌++◌, arith, ltb,
  leb, length, take, drop, get_elem?, length-append, take-append, drop-append, length-take,
  length-drop, append_assoc, Bytes,
}
use guthi_core.Shared.{
  ShmSegment, copy_to, data_count, set_first, write_data, idle, deserializes, message_type,
  read_message_of, read_shm_round,
}

copy_to-copied :
    (place n : ℕ) (src buff : Bytes)
    → place + n ≤ length buff
    → n ≤ length src
    → (bs : Bytes) × (copy_to place n src buff ≡ some bs)
      × (length bs ≡ length buff)
      × (take n (drop place bs) ≡ take n src)
      × (take place bs ≡ take place buff)
      × (drop (place + n) bs ≡ drop (place + n) buff)
unfolding copy_to
copy_to-copied place n src buff h k =
    let before = take place buff in
    let copied = take n src in
    let behind = drop (place + n) buff in
    let before_length : length before ≡ place = omega (arith, length-take place buff) in
    let copied_length : length copied ≡ n = omega (arith, length-take n src) in
    let both_length : length (before ++ copied) ≡ place + n =
      omega (arith, length-append before copied) in
    let fits : (ltb (length buff) (place + n) || ltb (length src) n) ≡ false = ground arith in
    (
      before ++ (copied ++ behind),
      rw fits refl,
      length-append before (copied ++ behind)
          ∙ omega (arith, length-append copied behind, length-drop (place + n) buff),
      ap (take n) (drop-append place before (copied ++ behind) before_length)
          ∙ take-append n copied behind copied_length,
      take-append place before (copied ++ behind) before_length,
      ap (drop (place + n)) (sym (append_assoc before copied behind))
          ∙ drop-append (place + n) (before ++ copied) behind both_length,
    )

length-set_first : (c : ℕ) (bs : Bytes) → length (set_first c bs) ≡ length bs
length-set_first c [] = refl
length-set_first c (b ∷ bs) = refl

first-take : (n : ℕ) (bs : Bytes) → get_elem? (take (suc n) bs) 0 ≡ get_elem? bs 0
first-take n [] = refl
first-take n (b ∷ bs) = refl

first-set_first :
    (n c : ℕ) (bs : Bytes) → 0 < length bs → get_elem? (take (suc n) (set_first c bs)) 0 ≡ some c
first-set_first n c [] h = absurd (omega arith)
first-set_first n c (b ∷ bs) h = refl

read_shm_round-idle : (m : ShmSegment) → get_elem? m.buff 0 ≡ some 48 → read_shm_round m ≡ idle
unfolding read_shm_round
read_shm_round-idle m h = rw (read_shm_round, h) refl

data_count-size :
    (bytes : Bytes) (size : ℕ) → 0 < size → size < 2 ^ 16 → data_count bytes size ≡ some size
unfolding data_count
data_count-size [] size h k = ground arith
data_count-size (b ∷ bs) size h k = ground arith

-- Data that is there whole, of a size from 1 to 65535, written at a position from 0 on where it ends
-- inside the array, is stored one byte behind the position, with its size as the count. The array
-- keeps its length and every byte behind the data; those in front of the data are kept but for the
-- first, which is the character 0, so that a round of the reader does nothing.
pub write_data-written :
    (bytes : Bytes) (size position : ℕ) (m : ShmSegment)
    → 0 < size
    → size < 2 ^ 16
    → size ≤ length bytes
    → suc position + size ≤ length m.buff
    → (m' : ShmSegment) × (write_data bytes size (suc position) m ≡ some m')
      × (m'.count ≡ size)
      × (length m'.buff ≡ length m.buff)
      × (take size (drop (suc position) m'.buff) ≡ take size bytes)
      × (take (suc position) m'.buff ≡ take (suc position) (set_first 48 m.buff))
      × (drop (suc position + size) m'.buff ≡ drop (suc position + size) (set_first 48 m.buff))
      × (read_shm_round m' ≡ idle)
unfolding write_data
write_data-written bytes size position m positive small whole room =
    let same = length-set_first 48 m.buff in
    let (bs, done, kept, copied, before, behind) =
      copy_to-copied (suc position) size bytes (set_first 48 m.buff) (omega arith) whole in
    let first : get_elem? bs 0 ≡ some 48 =
      sym (first-take position bs)
      ∙ ap (λ b. get_elem? b 0) before
      ∙ first-set_first position 48 m.buff (omega arith) in
    let m' : ShmSegment = record { count = size; buff = bs } in
    (
      m',
      rw (write_data, data_count-size bytes size positive small, done) refl,
      refl,
      kept ∙ same,
      copied,
      before,
      behind,
      read_shm_round-idle m' first,
    )

-- A message that the other process has flagged with the character 1, of the type of a file system,
-- and counted with its type, is taken whole, its type included, whatever stands behind it.
pub read_shm_round-message :
    (payload rest : Bytes)
    → 0 < length rest
    → read_shm_round (record { count = suc (length payload); buff = 49 ∷ 49 ∷ (payload ++ rest) })
      ≡ deserializes (49 ∷ payload)
unfolding read_shm_round message_type read_message_of
read_shm_round-message payload rest h =
    let size = length-append payload rest in
    let inside : leb (suc (suc (length (payload ++ rest)))) (suc (length payload)) ≡ false =
      ground arith in
    let counted : ltb (suc (length payload)) 1 ≡ false = ground arith in
    rw (counted, inside, take-append (length payload) payload rest refl) refl
