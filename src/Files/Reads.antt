-- ===== src/Files/Reads.antt =====
-- What `Read` of src/filesystem/fs.hpp gives of what is still to come.
use guthi_core.Base.{
  ℕ, ◌+◌, ◌-◌, ◌<◌, ◌≤◌, ◌≡◌, refl, sym, ap, ◌∙◌, subst, ◌⊎◌, inl, inr, true, false, none, some,
  arith, ltb, leb, ltb→lt, ◌==◌, if◌then◌else◌, Bool-cases, length, take, drop, length-append,
}
use guthi_core.Files.{default_buffer_size, Blocks}
use guthi_core.Files.Copy.{take-append_less, take-take}
use guthi_core.Files.Reader.{FileBufReader, unread_bytes, refill, read_buffered, read}
use guthi_core.Tracker.State.{ok, aborted, ◌>>=◌}
use guthi_core.Files.Stream.{
  Streams, to_come, IsReader, unread_bytes-unwrapped, kept_size, refill-to_come,
}

module _ {F : Type 0} (blocks : Blocks F) (file : Streams blocks) where
  read_buffered-to_come :
      (r : FileBufReader F) (size : ℕ)
      → IsReader blocks file r
      → size < r.buffer.pos - r.buffer.read_ptr
      → read_buffered blocks r size ≡ ok (some (take size (to_come blocks file r)), r)
  unfolding read_buffered
  read_buffered-to_come r size h l =
      let left = r.buffer.pos - r.buffer.read_ptr in
      let rest = drop r.buffer.read_ptr r.buffer.data_bytes in
      let checked : ltb size (unread_bytes r.buffer) ≡ true =
        ground (arith, unread_bytes-unwrapped blocks file r h) in
      let inside : leb (r.buffer.read_ptr + size) (length r.buffer.data_bytes) ≡ true =
        ground (arith, h.has_size, h.within) in
      let front : take size (to_come blocks file r) ≡ take size rest =
        take-append_less size (take left rest) _ (omega (arith, kept_size blocks file r h))
        ∙ take-take size left rest (omega arith) in
      rw (checked, inside, front) refl

  to_come_size :
      (r : FileBufReader F)
      → IsReader blocks file r
      → length (to_come blocks file r)
        ≡ (r.buffer.pos - r.buffer.read_ptr) + length (file.contents r.underlying_file)
  to_come_size r h =
      length-append (take (r.buffer.pos - r.buffer.read_ptr) _) (file.contents r.underlying_file)
      ∙ ap (λ n. n + length (file.contents r.underlying_file)) (kept_size blocks file r h)

  -- A buffer that has just been filled has what a read needs, if it is still to come.
  enough :
      (r : FileBufReader F) (size : ℕ)
      → IsReader blocks file r
      → r.buffer.read_ptr ≡ 0
      → size < default_buffer_size
      → size < length (to_come blocks file r)
      → size < r.buffer.pos - r.buffer.read_ptr
  enough r size h front l more = elim h.full_or_at_end [
    | inl full ↦ omega arith
    | inr over ↦ omega (arith, to_come_size r h, ap length over)
  ]

  read-cases :
      (r : FileBufReader F) (size : ℕ)
      → IsReader blocks file r
      → size < default_buffer_size
      → read blocks r size ≡ (
          if ltb size (r.buffer.pos - r.buffer.read_ptr)
          then read_buffered blocks r size
          else if r.buffer.pos == r.buffer.capacity
          then refill blocks r >>= (λ r'. read_buffered blocks r' size)
          else ok (none, r))
  unfolding read
  read-cases r size h l =
      let checked : ltb size default_buffer_size ≡ true = ground arith in
      rw (checked, unread_bytes-unwrapped blocks file r h) refl

  read-more :
      (r : FileBufReader F) (size : ℕ)
      → IsReader blocks file r
      → size < default_buffer_size
      → size < length (to_come blocks file r)
      → (r' : FileBufReader F) × (read blocks r size
          ≡ ok (some (take size (to_come blocks file r)), r'))
        × IsReader blocks file r'
        × (to_come blocks file r' ≡ to_come blocks file r)
  read-more r size h l more = elim (Bool-cases (ltb size (r.buffer.pos - r.buffer.read_ptr))) [
    | inl e ↦
        (r, read-cases r size h l ∙ rw e (read_buffered-to_come r size h (ground arith)), h, refl)
    | inr e ↦ elim h.full_or_at_end [
      | inr over ↦ absurd (ground (arith, to_come_size r h, ap length over))
      | inl full ↦
          let (r', filled, h', front, same) = refill-to_come blocks file r h in
          let at_end : (r.buffer.pos == r.buffer.capacity) ≡ true =
            ground (arith, h.has_capacity) in
          let more' : size < length (to_come blocks file r') =
            subst (λ xs. size < length xs) (sym same) more in
          let reads = read_buffered-to_come r' size h' (enough r' size h' front l more') in
          (
            r',
            read-cases r size h l
                ∙ rw (e, at_end, filled) (reads ∙ ap (λ xs. ok (some (take size xs), r')) same),
            h',
            same,
          )
    ]
  ]

  read-less :
      (r : FileBufReader F) (size : ℕ)
      → IsReader blocks file r
      → size < default_buffer_size
      → length (to_come blocks file r) ≤ size
      → (read blocks r size ≡ ok (none, r)) ⊎ (read blocks r size ≡ aborted)
  unfolding read_buffered
  read-less r size h l less =
      let e : ltb size (r.buffer.pos - r.buffer.read_ptr) ≡ false =
        ground (arith, to_come_size r h) in
      elim (Bool-cases (r.buffer.pos == r.buffer.capacity)) [
        | inr partial ↦ inl (read-cases r size h l ∙ rw (e, partial) refl)
        | inl at_end ↦
            let (r', filled, h', front, same) = refill-to_come blocks file r h in
            let short : ltb size (unread_bytes r'.buffer) ≡ false = ground (
              arith,
              to_come_size r' h',
              ap length same,
              unread_bytes-unwrapped blocks file r' h',
            ) in
            inr (read-cases r size h l ∙ rw (e, at_end, filled) (rw short refl))
      ]

  -- Over a file that gives its contents from the front, `Read` of less bytes than the buffer has
  -- copies the first bytes of what is still to come if that is longer, and else returns 0 or fails
  -- its assertion, even if it is just as long. It leaves all of it to come: the next call copies the
  -- same bytes again.
  pub read-to_come :
      (r : FileBufReader F) (size : ℕ)
      → IsReader blocks file r
      → size < default_buffer_size
      → ((size < length (to_come blocks file r))
          × ((r' : FileBufReader F) × (read blocks r size
                ≡ ok (some (take size (to_come blocks file r)), r'))
              × IsReader blocks file r'
              × (to_come blocks file r' ≡ to_come blocks file r)))
        ⊎ ((length (to_come blocks file r) ≤ size)
            × ((read blocks r size ≡ ok (none, r)) ⊎ (read blocks r size ≡ aborted)))
  read-to_come r size h l = elim (Bool-cases (ltb size (length (to_come blocks file r)))) [
    | inl e ↦ let more = ltb→lt size _ e in inl (more, read-more r size h l more)
    | inr e ↦
        let less : length (to_come blocks file r) ≤ size = ground arith in
        inr (less, read-less r size h l less)
  ]
