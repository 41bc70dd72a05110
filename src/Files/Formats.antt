-- ===== src/Files/Formats.antt =====
-- Formats that `Scanf` of src/filesystem/fs.hpp comes to the end of, and those it does not.
use guthi_core.Base.{
  ℕ, zero, suc, ◌+◌, ◌%◌, ◌^◌, ◌<◌, ◌≡◌, refl, ap, ◌∙◌, true, false, List, [], ◌∷◌, ◌++◌, map,
  append_assoc, append-nil, arith, ltb, ◌==◌, length, drop, Bytes,
}
use guthi_core.Files.Reader.{FileBufReader}
use guthi_core.Files.Scanf.{
  Conversions, Stored, integer, is_blank, skip_blank, convert, scan_round, scan, scanf,
}
use guthi_core.Tracker.State.{ok, out_of_fuel}

skip_blank-visible : (c : ℕ) (fmt : Bytes) → is_blank c ≡ false → skip_blank (c ∷ fmt) ≡ c ∷ fmt
unfolding skip_blank
skip_blank-visible c fmt b = rw (skip_blank, b) refl

module _ (v : Conversions) where
  round-literal :
      (input : Bytes) (c d in_pos : ℕ) (fmt : Bytes) (stored : List (Stored v.Float))
      → is_blank c ≡ false
      → (c == 37) ≡ false
      → scan_round v input (c ∷ d ∷ fmt, (in_pos, stored)) ≡ ok (c ∷ d ∷ fmt, (in_pos, stored))
  unfolding scan_round
  round-literal input c d in_pos fmt stored b p =
      rw (scan_round, skip_blank-visible c (d ∷ fmt) b, p) refl

  scan-literal :
      (k : ℕ) (input : Bytes) (c d in_pos : ℕ) (fmt : Bytes) (stored : List (Stored v.Float))
      → is_blank c ≡ false
      → (c == 37) ≡ false
      → scan v k false input (c ∷ d ∷ fmt, (in_pos, stored)) ≡ out_of_fuel
  unfolding scan
  scan-literal zero input c d in_pos fmt stored b p = refl
  scan-literal (suc k) input c d in_pos fmt stored b p =
      let more : ltb 1 (length (c ∷ d ∷ fmt)) ≡ true = ground arith in
      rw (more, round-literal input c d in_pos fmt stored b p)
        (scan-literal k input c d in_pos fmt stored b p)

  -- `Scanf` never ends, however many rounds it takes, if its format has more than one character and
  -- the first is neither white space nor `%`.
  pub scanf-literal :
      {F : Type 0} (k : ℕ) (c d : ℕ) (fmt : Bytes) (r : FileBufReader F)
      → is_blank c ≡ false
      → (c == 37) ≡ false
      → scanf v k (c ∷ d ∷ fmt) r ≡ out_of_fuel
  unfolding scanf
  scanf-literal k c d fmt r b p =
      let some_format : (length (c ∷ d ∷ fmt) == 0) ≡ false = ground arith in
      rw (some_format, scan-literal k (drop r.buffer.read_ptr r.buffer.data_bytes) c d 0 fmt [] b p)
        refl

  -- `%d` for each of the numbers.
  abbrev pub decimals : List ℕ → Bytes
  decimals [] = []
  decimals (x ∷ xs) = 37 ∷ 100 ∷ decimals xs

  -- From a position, the input reads as these numbers, up to another.
  abbrev pub ReadsAs : Bytes → ℕ → List ℕ → ℕ → Type 0
  ReadsAs input p [] q = p ≡ q
  ReadsAs input p (x ∷ xs) q =
      (taken : ℕ) × (v.strtol (drop p input) ≡ (x, suc taken))
      × (x < 2 ^ 32)
      × (p + suc taken < 2 ^ 32)
      × ReadsAs input (p + suc taken) xs q

  scan-decimals :
      (xs : List ℕ) (k : ℕ) (input : Bytes) (p q : ℕ) (stored : List (Stored v.Float))
      → length xs < k
      → ReadsAs input p xs q
      → scan v k false input (decimals xs, (p, stored)) ≡ ok ([], (q, stored ++ map integer xs))
  unfolding scan scan_round skip_blank convert
  scan-decimals xs zero input p q stored l h = absurd (omega arith)
  scan-decimals [] (suc k) input p q stored l h = rw (h, append-nil stored) refl
  scan-decimals (x ∷ xs) (suc k) input p q stored l (taken, e, small, room, h) =
      let more : ltb 1 (length (decimals (x ∷ xs))) ≡ true = ground arith in
      let kept : x % 2 ^ 32 ≡ x = omega arith in
      let there : (p + suc taken) % 2 ^ 32 ≡ p + suc taken = omega arith in
      let took : (suc taken == 0) ≡ false = ground arith in
      rw (more, e, took, kept, there)
        (scan-decimals xs k input (p + suc taken) q (stored ++ integer x ∷ []) (omega arith) h
          ∙ ap (λ s. ok ([], (q, s))) (append_assoc stored (integer x ∷ []) (map integer xs)))

  -- If the input reads as some numbers of 32 bits, one behind the other, then a format with as many
  -- `%d` stores them in their order, in as many rounds and one more, and moves the reader behind them,
  -- but for a multiple of 256.
  pub scanf-decimals :
      {F : Type 0} (x : ℕ) (xs : List ℕ) (k q : ℕ) (r : FileBufReader F)
      → suc (length xs) < k
      → ReadsAs (drop r.buffer.read_ptr r.buffer.data_bytes) 0 (x ∷ xs) q
      → scanf v k (decimals (x ∷ xs)) r
        ≡ ok (
          map integer (x ∷ xs),
          record r { buffer = record r.buffer { read_ptr = (r.buffer.read_ptr + q) % 2 ^ 8 } },
        )
  unfolding scanf
  scanf-decimals x xs k q r l h =
      let some_format : (length (decimals (x ∷ xs)) == 0) ≡ false = ground arith in
      let input = drop r.buffer.read_ptr r.buffer.data_bytes in
      rw (some_format, scan-decimals (x ∷ xs) k input 0 q [] l h) refl
