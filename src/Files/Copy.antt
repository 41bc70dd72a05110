-- ===== src/Files/Copy.antt =====
-- `memcpy` into the arrays of src/filesystem/fs.hpp.
use guthi_core.Base.{
  ℕ, zero, suc, ◌+◌, ◌≤◌, ◌≡◌, refl, ap, ◌∙◌, true, List, [], ◌∷◌, ◌++◌, arith, leb, length, take,
  drop, length-append, length-take, length-drop, take-append, Bytes,
}
use guthi_core.Files.{copy_at}
use guthi_core.Tracker.State.{ok}

module _ {ℓ} {A : Type ℓ} where
  -- A prefix that ends in the first list, or in the second.
  pub take-append_less : (n : ℕ) (xs ys : List A) → n ≤ length xs → take n (xs ++ ys) ≡ take n xs
  take-append_less zero [] ys l = refl
  take-append_less zero (x ∷ xs) ys l = refl
  take-append_less (suc n) [] ys l = absurd (omega arith)
  take-append_less (suc n) (x ∷ xs) ys l = ap (◌∷◌ x) (take-append_less n xs ys (omega arith))

  pub take-append_more :
      (n k : ℕ) (xs ys : List A) → n ≡ length xs + k → take n (xs ++ ys) ≡ xs ++ take k ys
  take-append_more n k [] ys e = ap (λ i. take i ys) (omega arith)
  take-append_more zero k (x ∷ xs) ys e = absurd (omega arith)
  take-append_more (suc n) k (x ∷ xs) ys e = ap (◌∷◌ x) (take-append_more n k xs ys (omega arith))

  pub drop-append_less :
      (n : ℕ) (xs ys : List A) → n ≤ length xs → drop n (xs ++ ys) ≡ drop n xs ++ ys
  drop-append_less zero xs ys l = refl
  drop-append_less (suc n) [] ys l = absurd (omega arith)
  drop-append_less (suc n) (x ∷ xs) ys l = drop-append_less n xs ys (omega arith)

  pub drop-append_more :
      (n k : ℕ) (xs ys : List A) → n ≡ length xs + k → drop n (xs ++ ys) ≡ drop k ys
  drop-append_more n k [] ys e = ap (λ i. drop i ys) (omega arith)
  drop-append_more zero k (x ∷ xs) ys e = absurd (omega arith)
  drop-append_more (suc n) k (x ∷ xs) ys e = drop-append_more n k xs ys (omega arith)

  pub take-take : (n k : ℕ) (xs : List A) → n ≤ k → take n (take k xs) ≡ take n xs
  take-take zero k xs l = refl
  take-take (suc n) zero xs l = absurd (omega arith)
  take-take (suc n) (suc k) [] l = refl
  take-take (suc n) (suc k) (x ∷ xs) l = ap (◌∷◌ x) (take-take n k xs (omega arith))

-- The array when the bytes have been copied.
abbrev pub copied : ℕ → Bytes → Bytes → Bytes
copied place bytes data_bytes =
    take place data_bytes ++ (bytes ++ drop (place + length bytes) data_bytes)

pub copy_at-copied :
    (place : ℕ) (bytes data_bytes : Bytes)
    → place + length bytes ≤ length data_bytes
    → copy_at place bytes data_bytes ≡ ok (copied place bytes data_bytes)
unfolding copy_at
copy_at-copied place bytes data_bytes l =
    let inside : leb (place + length bytes) (length data_bytes) ≡ true = ground arith in
    rw inside refl

pub length-copied :
    (place : ℕ) (bytes data_bytes : Bytes)
    → place + length bytes ≤ length data_bytes
    → length (copied place bytes data_bytes) ≡ length data_bytes
length-copied place bytes data_bytes l =
    let behind = drop (place + length bytes) data_bytes in
    omega (
      arith,
      length-append (take place data_bytes) (bytes ++ behind),
      length-append bytes behind,
      length-take place data_bytes,
      length-drop (place + length bytes) data_bytes,
    )

pub take-copied :
    (place n : ℕ) (bytes data_bytes : Bytes)
    → place + length bytes ≤ length data_bytes
    → n ≤ length bytes
    → take (place + n) (copied place bytes data_bytes) ≡ take place data_bytes ++ take n bytes
take-copied place n bytes data_bytes l k =
    let front = length-take place data_bytes in
    take-append_more (place + n) n (take place data_bytes) _ (omega arith)
    ∙ ap (◌++◌ (take place data_bytes)) (take-append_less n bytes _ k)

pub take-copied_front :
    (place : ℕ) (bytes data_bytes : Bytes)
    → place + length bytes ≤ length data_bytes
    → take place (copied place bytes data_bytes) ≡ take place data_bytes
take-copied_front place bytes data_bytes l =
    let front = length-take place data_bytes in
    take-append place (take place data_bytes) _ (omega arith)
