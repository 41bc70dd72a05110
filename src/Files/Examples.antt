-- ===== src/Files/Examples.antt =====
-- src/filesystem/fs.hpp and src/filesystem/fs.cpp over a C library whose world is the bytes of one file.
use guthi_core.Base.{
  ℕ, zero, ◌-◌, ◌%◌, ◌^◌, ◌<◌, ◌≤◌, ◌≡◌, refl, ◌⊎◌, inl, inr, true, none, some, [], ◌∷◌, ◌++◌,
  arith, length, take, drop, replicate, length-replicate, Bytes, codes,
}
use guthi_core.Files.{default_buffer_size}
use guthi_core.Files.Behind.{Readable, Writable, os_streams, os_appends}
use guthi_core.Files.Flushed.{Holds, printfs, writer-Holds, flush-printfs, flush-write}
use guthi_core.Files.Formats.{scanf-literal, scanf-decimals}
use guthi_core.Files.Moves.{unread-skip, skip-wraps}
use guthi_core.Files.Os.{opened, file_in, Stdio, OsFile, os_blocks}
use guthi_core.Files.Reader.{FileBufReader, read, skip, unread}
use guthi_core.Files.Reads.{read-to_come}
use guthi_core.Files.Scanf.{Conversions, scanf, integer}
use guthi_core.Files.Stream.{to_come, IsReader}
use guthi_core.Files.Writer.{FileBufWriter, writer, write, flush}
use guthi_core.Tracker.State.{ok, aborted, out_of_fuel, ◌>>=◌}

abbrev one_file : Stdio
one_file = record {
  World = Bytes;
  fopen = λ name how w. some (3, w);
  size = λ f w. length w;
  fread = λ f n w. (take n w, drop n w);
  fwrite = λ f bytes w. (length bytes, w ++ bytes);
  fclose = λ f w. w;
}

abbrev one_file_read : {f : ℕ} → Readable one_file f
one_file_read = record { contents = λ w. w; freads = λ n w. (drop n w, refl, refl) }

abbrev one_file_written : Writable one_file 3
one_file_written = record { written = λ w. w; fwrites = λ bytes w. (w ++ bytes, refl, refl) }

abbrev fresh : Bytes
fresh = replicate default_buffer_size 0

abbrev at_hand : OsFile
at_hand = record {
  file_ptr = some 3;
  file_size = 0;
  file_name = codes "notes";
  file_mode = file_in;
  file_status = opened;
}

abbrev hello : Bytes
hello = codes "hello"

abbrev empty_writer : FileBufWriter (OsFile × Bytes)
empty_writer = writer (at_hand, []) fresh

empty_writer-Holds : Holds [] empty_writer
empty_writer-Holds = writer-Holds (at_hand, []) fresh (length-replicate default_buffer_size zero)

flush-printfs_example :
    (w' : FileBufWriter (OsFile × Bytes)) × ((printfs true (hello ∷ hello ∷ []) empty_writer
        >>= flush (os_blocks one_file))
      ≡ ok (true, w'))
    × Holds [] w'
    × (w'.underlying_file.1 ≡ codes "hellohello")
flush-printfs_example =
    flush-printfs (os_blocks one_file) (os_appends one_file 3 one_file_written) true
      (hello ∷ hello ∷ []) empty_writer refl empty_writer-Holds (omega arith)

flush-write_test :
    (w' : FileBufWriter (OsFile × Bytes)) × ((write hello empty_writer
        >>= flush (os_blocks one_file))
      ≡ ok (true, w'))
    × (w'.underlying_file.1 ≡ [])
flush-write_test =
    flush-write (os_blocks one_file) (os_appends one_file 3 one_file_written) hello [] empty_writer
      refl empty_writer-Holds (omega arith)

abbrev hello_reader : FileBufReader (OsFile × Bytes)
hello_reader = record {
  underlying_file = (at_hand, []);
  buffer = record {
    data_bytes = hello ++ replicate 4091 0;
    pos = 5;
    read_ptr = 0;
    capacity = default_buffer_size;
  };
}

hello_reader-IsReader :
    IsReader (os_blocks one_file) (os_streams one_file 3 one_file_read) hello_reader
hello_reader-IsReader = record {
  is_open = refl;
  has_size = omega (arith, length-replicate 4091 zero);
  has_capacity = refl;
  in_front = omega arith;
  within = omega arith;
  eight_bits = omega arith;
  full_or_at_end = inr refl;
}

abbrev hello_to_come : FileBufReader (OsFile × Bytes) → Bytes
hello_to_come r = to_come (os_blocks one_file) (os_streams one_file 3 one_file_read) r

read-to_come_example :
    ((2 < 5)
      × ((r' : FileBufReader (OsFile × Bytes)) × (read (os_blocks one_file) hello_reader 2
            ≡ ok (some (codes "he"), r'))
          × IsReader (os_blocks one_file) (os_streams one_file 3 one_file_read) r'
          × (hello_to_come r' ≡ hello_to_come hello_reader)))
    ⊎ ((5 ≤ 2)
        × ((read (os_blocks one_file) hello_reader 2 ≡ ok (none, hello_reader))
            ⊎ (read (os_blocks one_file) hello_reader 2 ≡ aborted)))
read-to_come_example =
    read-to_come (os_blocks one_file) (os_streams one_file 3 one_file_read) hello_reader 2
      hello_reader-IsReader (omega arith)

unread-skip_test :
    (hello_to_come (skip 2 hello_reader) ≡ codes "llo")
    × (unread 2 (skip 2 hello_reader) ≡ hello_reader)
unread-skip_test =
    unread-skip (os_blocks one_file) (os_streams one_file 3 one_file_read) 2 hello_reader
      hello_reader-IsReader (omega arith) (omega arith)

abbrev full_reader : FileBufReader (OsFile × Bytes)
full_reader = record hello_reader {
  buffer = record hello_reader.buffer { data_bytes = fresh; pos = default_buffer_size };
}

full_reader-IsReader :
    IsReader (os_blocks one_file) (os_streams one_file 3 one_file_read) full_reader
full_reader-IsReader = record {
  is_open = refl;
  has_size = length-replicate default_buffer_size zero;
  has_capacity = refl;
  in_front = omega arith;
  within = omega arith;
  eight_bits = omega arith;
  full_or_at_end = inl refl;
}

skip-wraps_test : skip 300 full_reader ≡ skip (300 % 2 ^ 8) full_reader
skip-wraps_test =
    skip-wraps (os_blocks one_file) (os_streams one_file 3 one_file_read) 300 full_reader
      full_reader-IsReader refl (omega arith)

-- A library that reads digits one at a time.
abbrev digits : Conversions
digits = record {
  Float = ℕ;
  strtol = λ s. elim s [ [] ↦ (0, 0) | c ∷ _ ↦ (c - 48, 1) ];
  strtof = λ s. (0, 0);
  word = λ s. s;
}

scanf-literal_test : scanf digits 9 (120 ∷ 37 ∷ 100 ∷ []) hello_reader ≡ out_of_fuel
scanf-literal_test = scanf-literal digits 9 120 37 (100 ∷ []) hello_reader refl refl

abbrev digits_reader : FileBufReader (OsFile × Bytes)
digits_reader = record hello_reader {
  buffer = record hello_reader.buffer { data_bytes = 52 ∷ 55 ∷ 32 ∷ [] };
}

scanf-decimals_test :
    scanf digits 3 (37 ∷ 100 ∷ 37 ∷ 100 ∷ []) digits_reader
    ≡ ok (integer 4 ∷ integer 7 ∷ [], skip 2 digits_reader)
unfolding skip
scanf-decimals_test =
    scanf-decimals digits 4 (7 ∷ []) 3 2 digits_reader (omega arith)
      (0, refl, omega arith, omega arith, (0, refl, omega arith, omega arith, refl))
