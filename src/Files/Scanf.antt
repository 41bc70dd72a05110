-- ===== src/Files/Scanf.antt =====
-- `Scanf` of `FileBufReader` in src/filesystem/fs.hpp. The format is its bytes up to the 0.
use guthi_core.Base.{
  ℕ, zero, suc, ◌+◌, ◌%◌, ◌^◌, Bool, ◌||◌, List, [], ◌∷◌, ◌++◌, ltb, ◌==◌, if◌then◌else◌, length,
  drop, Bytes,
}
use guthi_core.Files.Reader.{FileBufReader}
use guthi_core.Tracker.State.{Ended, ok, aborted, out_of_fuel, ◌>>=◌}

-- The conversions of the C library, from the front of the input: `strtol` and `strtof` give the value
-- and how many bytes they took, and `word` is what `%s` stores. A float is a value of `Float`.
pub record Conversions : Type 1 where
  pub Float : Type 0
  pub strtol : Bytes → ℕ × ℕ
  pub strtof : Bytes → Float × ℕ
  pub word : Bytes → Bytes

-- What is stored through the arguments, in their order.
pub data Stored (Float : Type 0) : Type 0 where
  integer : ℕ → Stored Float
  floating : Float → Stored Float
  string : Bytes → Stored Float

abbrev pub is_blank : ℕ → Bool
is_blank c = c == 32 || c == 9 || c == 10

-- The loop over white space in the format.
unfoldable pub skip_blank : Bytes → Bytes
skip_blank [] = []
skip_blank (c ∷ fmt) = let rest = skip_blank fmt in if is_blank c then rest else c ∷ fmt

module _ (v : Conversions) where
  -- The number is stored with 32 bits, and the position is moved behind what was taken.
  abbrev pub store_at :
      Stored v.Float → ℕ → ℕ → List (Stored v.Float) → Ended (List (Stored v.Float) × ℕ)
  store_at value taken in_pos stored =
      if taken == 0 then aborted else ok (stored ++ value ∷ [], (in_pos + taken) % 2 ^ 32)

  -- A conversion, from the input behind `in_pos`. The case for `c` falls through to that for `s`, which
  -- does not move the position; a character without a case does nothing.
  unfoldable pub convert : ℕ → Bytes → ℕ → List (Stored v.Float) → Ended (List (Stored v.Float) × ℕ)
  convert c input in_pos stored =
      let from = drop in_pos input in
      if c == 100
      then store_at (integer ((v.strtol from).0 % 2 ^ 32)) (v.strtol from).1 in_pos stored
      else if c == 102
      then store_at (floating (v.strtof from).0) (v.strtof from).1 in_pos stored
      else if c == 99 || c == 115
      then ok (stored ++ string (v.word from) ∷ [], in_pos)
      else ok (stored, in_pos)

  -- `pos < fmt_len - 1`, where `rest` is the format behind `pos`; for an empty format the difference
  -- is 2 ^ 32 - 1.
  abbrev pub goes_on : Bool → Bytes → Bool
  goes_on is_empty rest = is_empty || ltb 1 (length rest)

  -- The format behind `pos`, `in_pos` and what is stored.
  abbrev pub Scanning : Type 0
  Scanning = Bytes × (ℕ × List (Stored v.Float))

  -- A round of the loop over the format. Where it ends behind a `%`, `pos` is moved beyond its end.
  unfoldable pub scan_round : Bytes → Scanning → Ended Scanning
  unfolding skip_blank convert
  scan_round input (rest, (in_pos, stored)) = elim (skip_blank rest) [
    | [] ↦ ok ([], (in_pos, stored))
    | c ∷ fmt ↦
        if c == 37
        then elim fmt [
          | [] ↦ ok ([], (in_pos, stored))
          | d ∷ fmt' ↦ convert d input in_pos stored >>= λ (stored', p). ok (fmt', (p, stored'))
        ]
        else ok (c ∷ fmt, (in_pos, stored))
  ]

  -- The loop. The fuel bounds its rounds.
  unfoldable pub scan : ℕ → Bool → Bytes → Scanning → Ended Scanning
  unfolding scan_round
  scan zero is_empty input s = out_of_fuel
  scan (suc k) is_empty input s =
      if goes_on is_empty s.0 then (scan_round input s >>= scan k is_empty input) else ok s

  -- What is stored, and the reader behind it.
  unfoldable pub scanf :
      {F : Type 0} → ℕ → Bytes → FileBufReader F → Ended (List (Stored v.Float) × FileBufReader F)
  unfolding scan
  scanf k fmt r =
      scan k (length fmt == 0) (drop r.buffer.read_ptr r.buffer.data_bytes) (fmt, (0, [])) >>= λ s.
      ok (
        s.1.1,
        record r { buffer = record r.buffer { read_ptr = (r.buffer.read_ptr + s.1.0) % 2 ^ 8 } },
      )
