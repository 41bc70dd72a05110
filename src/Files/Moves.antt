-- ===== src/Files/Moves.antt =====
-- `Skip` and `Unread` of src/filesystem/fs.hpp.
use guthi_core.Base.{
  ℕ, zero, suc, ◌+◌, ◌-◌, ◌%◌, ◌^◌, ◌<◌, ◌≤◌, ◌≡◌, refl, sym, ap, ◌∙◌, true, false, List, [], ◌∷◌,
  ◌++◌, arith, ltb, take, drop, inl, inr, Bool-cases,
}
use guthi_core.Files.{Blocks}
use guthi_core.Files.Copy.{drop-append_less}
use guthi_core.Files.Reader.{FileBufReader, skip, unread}
use guthi_core.Files.Stream.{Streams, to_come, IsReader, kept_size}

module _ {A : Type 0} where
  take_nil : (n : ℕ) → take {A = A} n [] ≡ []
  take_nil zero = refl
  take_nil (suc n) = refl

  drop-take : (n k : ℕ) (xs : List A) → drop n (take k xs) ≡ take (k - n) (drop n xs)
  drop-take zero k xs = ap (λ i. take i xs) (omega arith)
  drop-take (suc n) zero xs = let none_left : zero - suc n ≡ 0 = omega arith in rw none_left refl
  drop-take (suc n) (suc k) [] = sym (take_nil (suc k - suc n))
  drop-take (suc n) (suc k) (x ∷ xs) = drop-take n k xs ∙ ap (λ i. take i (drop n xs)) (omega arith)

  drop_nil : (n : ℕ) → drop {A = A} n [] ≡ []
  drop_nil zero = refl
  drop_nil (suc n) = refl

  drop-drop : (n k : ℕ) (xs : List A) → drop n (drop k xs) ≡ drop (k + n) xs
  drop-drop n zero xs = ap (λ i. drop i xs) (omega arith)
  drop-drop n (suc k) [] = drop_nil n ∙ sym (drop_nil (suc k + n))
  drop-drop n (suc k) (x ∷ xs) =
      let next : suc k + n ≡ suc (k + n) = omega arith in rw next (drop-drop n k xs)

module _ {F : Type 0} (blocks : Blocks F) (file : Streams blocks) where
  skip-near :
      (n : ℕ) (r : FileBufReader F)
      → IsReader blocks file r
      → r.buffer.read_ptr + n < r.buffer.pos
      → skip n r
        ≡ record r { buffer = record r.buffer { read_ptr = (r.buffer.read_ptr + n) % 2 ^ 8 } }
  unfolding skip
  skip-near n r h l =
      let unwrapped : (r.buffer.read_ptr + n) % 2 ^ 32 ≡ r.buffer.read_ptr + n =
        omega (arith, h.within) in
      let inside : ltb (r.buffer.read_ptr + n) r.buffer.pos ≡ true = ground arith in
      rw (unwrapped, inside) refl

  moved-IsReader :
      (p : ℕ) (r : FileBufReader F)
      → IsReader blocks file r
      → p ≤ r.buffer.pos
      → p < 2 ^ 8
      → IsReader blocks file (record r { buffer = record r.buffer { read_ptr = p } })
  moved-IsReader p r h l b = record {
    is_open = h.is_open;
    has_size = h.has_size;
    has_capacity = h.has_capacity;
    in_front = l;
    within = h.within;
    eight_bits = b;
    full_or_at_end = h.full_or_at_end;
  }

  skipped-to_come :
      (n : ℕ) (r : FileBufReader F)
      → IsReader blocks file r
      → r.buffer.read_ptr + n < r.buffer.pos
      → to_come blocks file
          (record r { buffer = record r.buffer { read_ptr = r.buffer.read_ptr + n } })
        ≡ drop n (to_come blocks file r)
  skipped-to_come n r h l =
      let left = r.buffer.pos - r.buffer.read_ptr in
      let rest = drop r.buffer.read_ptr r.buffer.data_bytes in
      let less : r.buffer.pos - (r.buffer.read_ptr + n) ≡ left - n = omega arith in
      sym (
        drop-append_less n (take left rest) (file.contents r.underlying_file)
          (omega (arith, kept_size blocks file r h))
        ∙ ap (λ xs. xs ++ file.contents r.underlying_file)
            (drop-take n left rest
              ∙ rw (less, drop-drop n r.buffer.read_ptr r.buffer.data_bytes) refl))

  -- A reader is as it should be after `Skip` and after `Unread`, of any number of bytes.
  pub moves-IsReader :
      (n : ℕ) (r : FileBufReader F)
      → IsReader blocks file r
      → IsReader blocks file (skip n r) × IsReader blocks file (unread n r)
  unfolding skip unread
  moves-IsReader n r h = (
    elim (Bool-cases (ltb ((r.buffer.read_ptr + n) % 2 ^ 32) r.buffer.pos)) [
      | inl e ↦ rw e (moved-IsReader _ r h (ground arith) (omega arith))
      | inr e ↦ rw e h
    ],
    elim (Bool-cases (ltb r.buffer.read_ptr n)) [
      | inl e ↦ rw e (moved-IsReader 0 r h (omega arith) (omega arith))
      | inr e ↦ rw e (moved-IsReader _ r h (omega arith) (omega arith))
    ],
  )

  -- If the number of bytes to skip and those that were read before are less than 256 and less than the
  -- buffer has, then `Skip` takes them from what is still to come, and `Unread` of as many undoes it.
  pub unread-skip :
      (n : ℕ) (r : FileBufReader F)
      → IsReader blocks file r
      → r.buffer.read_ptr + n < r.buffer.pos
      → r.buffer.read_ptr + n < 2 ^ 8
      → (to_come blocks file (skip n r) ≡ drop n (to_come blocks file r))
        × (unread n (skip n r) ≡ r)
  unfolding unread
  unread-skip n r h l small =
      let unwrapped : (r.buffer.read_ptr + n) % 2 ^ 8 ≡ r.buffer.read_ptr + n = omega arith in
      let back : (r.buffer.read_ptr + n) - n ≡ r.buffer.read_ptr = omega arith in
      let front : ltb (r.buffer.read_ptr + n) n ≡ false = ground arith in
      rw (skip-near n r h l, unwrapped, front, back) (skipped-to_come n r h l, refl)

  -- From the front of its buffer, a reader skips only the rest of the number by 256: `read_ptr` has 8
  -- bits.
  pub skip-wraps :
      (n : ℕ) (r : FileBufReader F)
      → IsReader blocks file r
      → r.buffer.read_ptr ≡ 0
      → n < r.buffer.pos
      → skip n r ≡ skip (n % 2 ^ 8) r
  skip-wraps n r h front l =
      let same : (r.buffer.read_ptr + n) % 2 ^ 8 ≡ (r.buffer.read_ptr + n % 2 ^ 8) % 2 ^ 8 =
        omega arith in
      skip-near n r h (omega arith)
      ∙ ap (λ i. record r { buffer = record r.buffer { read_ptr = i } }) same
      ∙ sym (skip-near (n % 2 ^ 8) r h (omega arith))
