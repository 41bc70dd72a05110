-- ===== src/Files/Flushed.antt =====
-- What a `FileBufWriter` of src/filesystem/fs.hpp submits to its file.
use guthi_core.Base.{
  ℕ, ◌+◌, ◌%◌, ◌^◌, ◌<◌, ◌≤◌, ◌≡◌, refl, sym, ◌∙◌, subst, Bool, true, false, not, ◌&&◌, List, [],
  ◌∷◌, ◌++◌, append_assoc, append-nil, arith, ltb, length, take, length-append, take-append, Bytes,
}
use guthi_core.Files.{default_buffer_size, Blocks}
use guthi_core.Files.Copy.{copied, copy_at-copied, length-copied, take-copied, take-copied_front}
use guthi_core.Files.Writer.{FileBufWriter, writer, flush, printf, room, write}
use guthi_core.Tracker.State.{Ended, ok, ◌>>=◌}

-- A file that keeps every block behind those before while it is open.
pub record Appends {F : Type 0} (blocks : Blocks F) : Type 1 where
  pub IsOpen : F → Type 0
  pub written : F → Bytes
  pub writes :
      (f : F) (bytes : Bytes)
      → IsOpen f
      → (n : ℕ) × (f' : F) × IsOpen f'
        × (blocks.write_block_with_size f bytes ≡ ok (n, f'))
        × (written f' ≡ written f ++ bytes)

abbrev pub concat : List Bytes → Bytes
concat [] = []
concat (text ∷ texts) = text ++ concat texts

no_check : (debug : Bool) → debug && not true ≡ false
no_check true = refl
no_check false = refl

module _ {F : Type 0} where
  -- The buffer has its size, and the text stands in it.
  pub record Holds (text : Bytes) (w : FileBufWriter F) : Type 0 where
    pub has_size : length w.buffer.data_bytes ≡ default_buffer_size
    pub has_capacity : w.buffer.capacity ≡ default_buffer_size
    pub at_end : w.buffer.pos ≡ length text
    pub has_text : take w.buffer.pos w.buffer.data_bytes ≡ text

  abbrev pub printfs : Bool → List Bytes → FileBufWriter F → Ended (FileBufWriter F)
  printfs debug [] w = ok w
  printfs debug (text ∷ texts) w = printf debug text w >>= printfs debug texts

  printf-Holds :
      (debug : Bool) (text before : Bytes) (w : FileBufWriter F)
      → Holds before w
      → length before + length text < default_buffer_size
      → (w' : FileBufWriter F) × (printf debug text w ≡ ok w')
        × Holds (before ++ text) w'
        × (w'.underlying_file ≡ w.underlying_file)
  unfolding printf
  printf-Holds debug text before w h l =
      let with_end = text ++ 0 ∷ [] in
      let size = length-append text (0 ∷ []) in
      let fits : w.buffer.pos + length with_end ≤ length w.buffer.data_bytes =
        omega (arith, h.has_size, h.at_end) in
      let checked : ltb ((w.buffer.pos + length text) % 2 ^ 32) w.buffer.capacity ≡ true =
        ground (arith, h.at_end, h.has_capacity) in
      let unwrapped : (w.buffer.pos + length text) % 2 ^ 32 ≡ w.buffer.pos + length text =
        omega (arith, h.at_end) in
      let bytes = copied w.buffer.pos with_end w.buffer.data_bytes in
      let same : take (w.buffer.pos + length text) bytes ≡ before ++ text =
        take-copied w.buffer.pos (length text) with_end w.buffer.data_bytes fits (omega arith)
        ∙ rw (h.has_text, take-append (length text) text (0 ∷ []) refl) refl in
      (
        record w {
          buffer = record w.buffer {
            data_bytes = bytes;
            pos = (w.buffer.pos + length text) % 2 ^ 32;
          };
        },
        rw (checked, no_check debug, copy_at-copied w.buffer.pos with_end w.buffer.data_bytes fits)
            refl,
        record {
          has_size = length-copied w.buffer.pos with_end w.buffer.data_bytes fits ∙ h.has_size;
          has_capacity = h.has_capacity;
          at_end = omega (arith, h.at_end, length-append before text);
          has_text = rw unwrapped same;
        },
        refl,
      )

  printfs-Holds :
      (debug : Bool) (texts : List Bytes) (before : Bytes) (w : FileBufWriter F)
      → Holds before w
      → length before + length (concat texts) < default_buffer_size
      → (w' : FileBufWriter F) × (printfs debug texts w ≡ ok w')
        × Holds (before ++ concat texts) w'
        × (w'.underlying_file ≡ w.underlying_file)
  printfs-Holds debug [] before w h l =
      (w, refl, subst (λ t. Holds t w) (sym (append-nil before)) h, refl)
  printfs-Holds debug (text ∷ texts) before w h l =
      let size = length-append text (concat texts) in
      let size' = length-append before text in
      let (w1, first, h1, same) = printf-Holds debug text before w h (omega arith) in
      let (w2, others, h2, same') =
        printfs-Holds debug texts (before ++ text) w1 h1 (omega arith) in
      (
        w2,
        rw first others,
        subst (λ t. Holds t w2) (append_assoc before text (concat texts)) h2,
        same' ∙ same,
      )

  write-Holds :
      (bytes text : Bytes) (w : FileBufWriter F)
      → Holds text w
      → length text + length bytes < default_buffer_size
      → (w' : FileBufWriter F) × (write bytes w ≡ ok w')
        × Holds text w'
        × (w'.underlying_file ≡ w.underlying_file)
  unfolding write
  write-Holds bytes text w h l =
      let fits : w.buffer.pos + length bytes ≤ length w.buffer.data_bytes =
        omega (arith, h.has_size, h.at_end) in
      let checked : ltb (length bytes) (room w.buffer) ≡ true =
        ground (arith, h.at_end, h.has_capacity) in
      (
        record w {
          buffer = record w.buffer { data_bytes = copied w.buffer.pos bytes w.buffer.data_bytes };
        },
        rw (checked, copy_at-copied w.buffer.pos bytes w.buffer.data_bytes fits) refl,
        record {
          has_size = length-copied w.buffer.pos bytes w.buffer.data_bytes fits ∙ h.has_size;
          has_capacity = h.has_capacity;
          at_end = h.at_end;
          has_text = take-copied_front w.buffer.pos bytes w.buffer.data_bytes fits ∙ h.has_text;
        },
        refl,
      )

  pub writer-Holds :
      (f : F) (fresh : Bytes) → length fresh ≡ default_buffer_size → Holds [] (writer f fresh)
  writer-Holds f fresh l = record {
    has_size = l;
    has_capacity = refl;
    at_end = refl;
    has_text = refl;
  }

module _ {F : Type 0} (blocks : Blocks F) (file : Appends blocks) where
  -- `Flush` hands over the text, and leaves the buffer empty.
  flush-Holds :
      (text : Bytes) (w : FileBufWriter F)
      → file.IsOpen w.underlying_file
      → Holds text w
      → length text < default_buffer_size
      → (w' : FileBufWriter F) × (flush blocks w ≡ ok (true, w'))
        × Holds [] w'
        × (file.written w'.underlying_file ≡ file.written w.underlying_file ++ text)
  unfolding flush
  flush-Holds text w o h l =
      let (n, f, o', e, grown) =
        file.writes w.underlying_file (take w.buffer.pos w.buffer.data_bytes) o in
      let inside : ltb (length w.buffer.data_bytes) w.buffer.pos ≡ false =
        ground (arith, h.has_size, h.at_end) in
      (
        record { underlying_file = f; buffer = record w.buffer { pos = 0 } },
        rw (inside, e) refl,
        record {
          has_size = h.has_size;
          has_capacity = h.has_capacity;
          at_end = refl;
          has_text = refl;
        },
        rw (grown, h.has_text) refl,
      )

  -- If what a few calls of `Printf` print has less bytes than the buffer together, and the file keeps
  -- what it is given, then no call fails, and `Flush` hands the file all that they print, in their
  -- order, and leaves the buffer ready for the next calls.
  pub flush-printfs :
      (debug : Bool) (texts : List Bytes) (w : FileBufWriter F)
      → file.IsOpen w.underlying_file
      → Holds [] w
      → length (concat texts) < default_buffer_size
      → (w' : FileBufWriter F) × ((printfs debug texts w >>= flush blocks) ≡ ok (true, w'))
        × Holds [] w'
        × (file.written w'.underlying_file ≡ file.written w.underlying_file ++ concat texts)
  flush-printfs debug texts w o h l =
      let (w1, e1, h1, same) = printfs-Holds debug texts [] w h (omega arith) in
      let (w2, e2, h2, grown) =
        flush-Holds (concat texts) w1 (subst file.IsOpen (sym same) o) h1 l in
      (
        w2,
        rw e1 e2,
        h2,
        subst (λ f. file.written w2.underlying_file ≡ file.written f ++ concat texts) same grown,
      )

  -- If the bytes given to `Write` fit behind the text that is in the buffer, then the next `Flush`
  -- hands the file that text only: the bytes are lost.
  pub flush-write :
      (bytes text : Bytes) (w : FileBufWriter F)
      → file.IsOpen w.underlying_file
      → Holds text w
      → length text + length bytes < default_buffer_size
      → (w' : FileBufWriter F) × ((write bytes w >>= flush blocks) ≡ ok (true, w'))
        × (file.written w'.underlying_file ≡ file.written w.underlying_file ++ text)
  flush-write bytes text w o h l =
      let (w1, e1, h1, same) = write-Holds bytes text w h l in
      let (w2, e2, _, grown) =
        flush-Holds text w1 (subst file.IsOpen (sym same) o) h1 (omega arith) in
      (
        w2,
        rw e1 e2,
        subst (λ f. file.written w2.underlying_file ≡ file.written f ++ text) same grown,
      )
