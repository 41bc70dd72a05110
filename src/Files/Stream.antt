-- ===== src/Files/Stream.antt =====
-- A `FileBufReader` of src/filesystem/fs.hpp, seen as what is still to come from its file.
use guthi_core.Base.{
  ℕ, zero, suc, ◌+◌, ◌-◌, ◌%◌, ◌^◌, ◌<◌, ◌≤◌, ◌≡◌, refl, ap, ◌∙◌, ◌⊎◌, inl, inr, List, [], ◌∷◌,
  ◌++◌, append_assoc, arith, leb, leb→le, Bool-cases, length, take, drop, length-take, length-drop,
  take-append, take-length, Bytes,
}
use guthi_core.Files.{default_buffer_size, Blocks}
use guthi_core.Files.Copy.{copied, copy_at-copied, length-copied, take-copied}
use guthi_core.Files.Reader.{FileBufReader, unread_bytes, fetch_to, reader, refill}
use guthi_core.Tracker.State.{ok}

-- A file that gives its contents from the front while it is open.
pub record Streams {F : Type 0} (blocks : Blocks F) : Type 1 where
  pub IsOpen : F → Type 0
  pub contents : F → Bytes
  pub fetches :
      (f : F) (n : ℕ)
      → IsOpen f
      → (f' : F) × IsOpen f'
        × (blocks.fetch_block_with_size f n ≡ ok (take n (contents f), f'))
        × (contents f' ≡ drop n (contents f))

take_and_drop : {A : Type 0} (n : ℕ) (xs : List A) → take n xs ++ drop n xs ≡ xs
take_and_drop zero xs = refl
take_and_drop (suc n) [] = refl
take_and_drop (suc n) (x ∷ xs) = ap (◌∷◌ x) (take_and_drop n xs)

pub drop_all : {A : Type 0} (n : ℕ) (xs : List A) → length xs ≤ n → drop n xs ≡ []
drop_all zero [] l = refl
drop_all zero (x ∷ xs) l = absurd (omega arith)
drop_all (suc n) [] l = refl
drop_all (suc n) (x ∷ xs) l = drop_all n xs (omega arith)

module _ {F : Type 0} (blocks : Blocks F) (file : Streams blocks) where
  -- The bytes of the buffer that are not read, and those of the file behind them.
  abbrev pub to_come : FileBufReader F → Bytes
  to_come r =
      take (r.buffer.pos - r.buffer.read_ptr) (drop r.buffer.read_ptr r.buffer.data_bytes)
      ++ file.contents r.underlying_file

  pub record IsReader (r : FileBufReader F) : Type 0 where
    pub is_open : file.IsOpen r.underlying_file
    pub has_size : length r.buffer.data_bytes ≡ default_buffer_size
    pub has_capacity : r.buffer.capacity ≡ default_buffer_size
    pub in_front : r.buffer.read_ptr ≤ r.buffer.pos
    pub within : r.buffer.pos ≤ default_buffer_size
    pub eight_bits : r.buffer.read_ptr < 2 ^ 8
    pub full_or_at_end :
        (r.buffer.pos ≡ default_buffer_size) ⊎ (file.contents r.underlying_file ≡ [])

  pub unread_bytes-unwrapped :
      (r : FileBufReader F) → IsReader r → unread_bytes r.buffer ≡ r.buffer.pos - r.buffer.read_ptr
  unread_bytes-unwrapped r h = omega (arith, h.in_front, h.within)

  pub kept_size :
      (r : FileBufReader F)
      → IsReader r
      → length
          (take (r.buffer.pos - r.buffer.read_ptr) (drop r.buffer.read_ptr r.buffer.data_bytes))
        ≡ r.buffer.pos - r.buffer.read_ptr
  kept_size r h =
      let rest = drop r.buffer.read_ptr r.buffer.data_bytes in
      omega (
        arith,
        length-take (r.buffer.pos - r.buffer.read_ptr) rest,
        length-drop r.buffer.read_ptr r.buffer.data_bytes,
        h.in_front,
        h.within,
        h.has_size,
      )

  -- What a block that fills the array behind `place` bytes brings.
  abbrev block : F → ℕ → Bytes
  block f place = take (default_buffer_size - place) (file.contents f)

  record Fetched (f : F) (place : ℕ) (data_bytes bs : Bytes) (f' : F) : Type 0 where
    stays_open : file.IsOpen f'
    keeps_size : length bs ≡ default_buffer_size
    fills : place + length (block f place) ≤ default_buffer_size
    has_both : take (place + length (block f place)) bs ≡ take place data_bytes ++ block f place
    goes_on : block f place ++ file.contents f' ≡ file.contents f
    full_or_over : (place + length (block f place) ≡ default_buffer_size) ⊎ (file.contents f' ≡ [])

  fetch_to-Fetched :
      (f : F) (place : ℕ) (data_bytes : Bytes)
      → file.IsOpen f
      → length data_bytes ≡ default_buffer_size
      → place ≤ default_buffer_size
      → (bs : Bytes) × (f' : F) × (fetch_to blocks f place (default_buffer_size - place) data_bytes
          ≡ ok (bs, (length (block f place), f')))
        × Fetched f place data_bytes bs f'
  unfolding fetch_to
  fetch_to-Fetched f place data_bytes o l m =
      let n = default_buffer_size - place in
      let (f', o', e, rest) = file.fetches f n o in
      let size = length-take n (file.contents f) in
      let fits : place + length (block f place) ≤ length data_bytes = omega arith in
      (
        copied place (block f place) data_bytes,
        f',
        rw (e, copy_at-copied place (block f place) data_bytes fits) refl,
        record {
          stays_open = o';
          keeps_size = length-copied place (block f place) data_bytes fits ∙ l;
          fills = omega arith;
          has_both =
              take-copied place (length (block f place)) (block f place) data_bytes fits
                (omega arith)
              ∙ ap (◌++◌ (take place data_bytes)) (take-length _ (block f place) refl);
          goes_on = ap (◌++◌ (block f place)) rest ∙ take_and_drop n (file.contents f);
          full_or_over = elim (Bool-cases (leb n (length (file.contents f)))) [
            | inl e ↦ inl (omega (arith, leb→le n _ e))
            | inr e ↦ inr (rest ∙ drop_all n (file.contents f) (ground arith))
          ];
        },
      )

  filled-IsReader :
      (f f' : F) (place pos capacity : ℕ) (data_bytes bs : Bytes)
      → Fetched f place data_bytes bs f'
      → pos ≡ place + length (block f place)
      → capacity ≡ default_buffer_size
      → (r : FileBufReader F)
      → r ≡ record {
        underlying_file = f';
        buffer = record { data_bytes = bs; pos = pos; read_ptr = 0; capacity = capacity };
      }
      → IsReader r × (to_come r ≡ take place data_bytes ++ file.contents f)
  filled-IsReader f f' place pos capacity data_bytes bs h at_end cap r e = rw e (
    record {
      is_open = h.stays_open;
      has_size = h.keeps_size;
      has_capacity = cap;
      in_front = omega arith;
      within = omega (arith, h.fills);
      eight_bits = omega arith;
      full_or_at_end = rw at_end h.full_or_over;
    },
    let same : pos - 0 ≡ place + length (block f place) = omega arith in
        rw (same, h.has_both)
          (append_assoc (take place data_bytes) (block f place) (file.contents f')
            ∙ ap (◌++◌ (take place data_bytes)) h.goes_on),
  )

  -- The constructor reads the first block, and everything is still to come.
  pub reader-IsReader :
      (f : F) (fresh : Bytes)
      → file.IsOpen f
      → length fresh ≡ default_buffer_size
      → (r : FileBufReader F) × (reader blocks f fresh ≡ ok r)
        × IsReader r
        × (to_come r ≡ file.contents f)
  unfolding reader
  reader-IsReader f fresh o l =
      let (bs, f', e, h) = fetch_to-Fetched f 0 fresh o l (omega arith) in
      let r : FileBufReader F = record {
        underlying_file = f';
        buffer = record {
          data_bytes = bs;
          pos = length (block f 0);
          read_ptr = 0;
          capacity = default_buffer_size;
        };
      } in
      let (good, all) =
        filled-IsReader f f' 0 (length (block f 0)) default_buffer_size fresh bs h (omega arith)
          refl r refl in
      (r, rw e refl, good, all)

  pub refill-to_come :
      (r : FileBufReader F)
      → IsReader r
      → (r' : FileBufReader F) × (refill blocks r ≡ ok r')
        × IsReader r'
        × (r'.buffer.read_ptr ≡ 0)
        × (to_come r' ≡ to_come r)
  unfolding refill
  refill-to_come r h =
      let f = r.underlying_file in
      let left = r.buffer.pos - r.buffer.read_ptr in
      let kept = take left (drop r.buffer.read_ptr r.buffer.data_bytes) in
      let size = kept_size r h in
      let fits : 0 + length kept ≤ length r.buffer.data_bytes =
        omega (arith, h.has_size, h.within) in
      let moved = copied 0 kept r.buffer.data_bytes in
      let moved_size = length-copied 0 kept r.buffer.data_bytes fits in
      let front : take left moved ≡ kept =
        take-append left kept (drop (0 + length kept) r.buffer.data_bytes) size in
      let (bs, f', e, fetched) =
        fetch_to-Fetched f left moved h.is_open (moved_size ∙ h.has_size)
          (omega (arith, h.within)) in
      let asked : (2 ^ 32 + default_buffer_size - left) % 2 ^ 32 ≡ default_buffer_size - left =
        omega (arith, h.within) in
      let wraps : (left + length (block f left)) % 2 ^ 32 ≡ left + length (block f left) =
        omega (arith, fetched.fills) in
      let r' : FileBufReader F = record {
        underlying_file = f';
        buffer = record {
          data_bytes = bs;
          pos = (left + length (block f left)) % 2 ^ 32;
          read_ptr = 0;
          capacity = r.buffer.capacity;
        };
      } in
      let (good, all) =
        filled-IsReader f f' left ((left + length (block f left)) % 2 ^ 32) r.buffer.capacity moved
          bs fetched wraps h.has_capacity r' refl in
      (
        r',
        rw (unread_bytes-unwrapped r h, copy_at-copied 0 kept r.buffer.data_bytes fits, asked, e)
            refl,
        good,
        refl,
        all ∙ ap (λ xs. xs ++ file.contents f) front,
      )
