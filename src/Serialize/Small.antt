-- ===== src/Serialize/Small.antt =====
-- A serializer library for src/filesystem/serialize_fs.cpp: a byte for each number, and a mark for each
-- pointer. It shows that the promises asked of the library can be kept.
use guthi_core.Base.{
  ℕ, zero, suc, ◌≡◌, refl, Bool, true, false, ◌||◌, Option, none, some, List, [], ◌∷◌, ◌==◌,
  if◌then◌else◌, length, take, drop, Bytes, take-append, drop-append,
}
use guthi_core.Serialize.{Link, follows, known, Bitsery}
use guthi_core.Serialize.Round.{IsBitsery}

abbrev pub read_number : Bytes → Option (ℕ × Bytes)
read_number [] = none
read_number (x ∷ rest) = some (x, rest)

abbrev pub read_string : Bytes → Option (Bytes × Bytes)
read_string [] = none
read_string (n ∷ rest) = some (take n rest, drop n rest)

abbrev pub is_in : ℕ → List ℕ → Bool
is_in p [] = false
is_in p (q ∷ qs) = p == q || is_in p qs

abbrev pub read_mark : Bytes → Option (Link × (Bytes × ℕ))
read_mark (zero ∷ rest) = some (follows, (rest, 0))
read_mark (suc p ∷ rest) = some (known p, (rest, 0))
read_mark [] = none

abbrev pub small : Bitsery
small = record {
  Context = List ℕ;
  no_links = [];
  value1b = λ x. x ∷ [];
  value2b = λ x. x ∷ [];
  container1b = λ s. length s ∷ s;
  container_size = λ n. n ∷ [];
  link = λ p c. if is_in p c then (suc p ∷ [], (false, c)) else (0 ∷ [], (true, p ∷ c));
  Reading = ℕ;
  no_reads = 0;
  read1b = read_number;
  read2b = read_number;
  read_container1b = λ max s. read_string s;
  read_container_size = λ max s. read_number s;
  read_link = λ s r. read_mark s;
}

pub small-IsBitsery : IsBitsery small
small-IsBitsery = record {
  IsInStep = λ c r. r ≡ 0;
  seen = λ c p. is_in p c;
  starts = refl;
  nothing_seen = λ p. refl;
  reads1b = λ x rest l. refl;
  reads2b = λ x rest l. refl;
  reads_container1b = λ max s rest l.
      rw (take-append (length s) s rest refl, drop-append (length s) s rest refl) refl;
  reads_size = λ max n rest l. refl;
  links = λ p c r unseen step. (0 ∷ [], p ∷ c, 0, rw unseen refl, refl, λ rest. refl, λ q. refl);
}
