-- ===== src/Daemon/Meeting.antt =====
-- Where the daemon and its clients of src/daemon/linux_pipe.cpp meet.
use guthi_core.Base.{
  ℕ, zero, suc, ◌+◌, ◌<◌, ◌≡◌, ◌↔◌, refl, sym, ap, ◌∙◌, false, [], ◌∷◌, ◌++◌, append-nil, arith,
  ltb, ◌==◌, length, take, drop, replicate, length-append, length-replicate, take-append, Bytes,
  codes, c_string, All, inl, inr, ◌⊎◌, ◌-◌, Option-cases,
}
use guthi_core.Daemon.Setup.{
  Sockets, sun_path_size, pipe_name, strcpy, strcat, strncpy, path_to_pipe, connect_as_client,
  init_process_communication,
}
use guthi_core.Files.Copy.{take-append_more, drop-append_more}
use guthi_core.Tracker.State.{Ended, ok, exited}

-- A string without zeros, as a home directory's name is.
abbrev pub IsCString : Bytes → Type 0
IsCString s = All (λ x. (x == 0) ≡ false) s

c_string-append : (s rest : Bytes) → IsCString s → c_string (s ++ 0 ∷ rest) ≡ s
c_string-append [] rest h = refl
c_string-append (x ∷ s) rest (first, h) = rw first (ap (◌∷◌ x) (c_string-append s rest h))

c_string-alone : (s : Bytes) → IsCString s → c_string s ≡ s
c_string-alone [] h = refl
c_string-alone (x ∷ s) (first, h) = rw first (ap (◌∷◌ x) (c_string-alone s h))

c_string-zeros : (s : Bytes) (n : ℕ) → IsCString s → c_string (s ++ replicate n 0) ≡ s
c_string-zeros s zero h = ap c_string (append-nil s) ∙ c_string-alone s h
c_string-zeros s (suc n) h = c_string-append s (replicate n 0) h

IsCString-append : (s t : Bytes) → IsCString s → IsCString t → IsCString (s ++ t)
IsCString-append [] t h g = g
IsCString-append (x ∷ s) t (first, h) g = (first, IsCString-append s t h g)

drop-replicate : {A : Type 0} (a : A) (k m : ℕ) → drop k (replicate (k + m) a) ≡ replicate m a
drop-replicate a zero m = ap (λ i. replicate i a) (omega arith)
drop-replicate a (suc k) m =
    let next : suc k + m ≡ suc (k + m) = omega arith in rw next (drop-replicate a k m)

strcpy-fits :
    (dest src : Bytes)
    → length src < length dest
    → strcpy dest src ≡ ok (src ++ 0 ∷ drop (suc (length src)) dest)
unfolding strcpy
strcpy-fits dest src l =
    let fits : ltb (length dest) (suc (length src)) ≡ false = ground arith in rw fits refl

-- The array that the path of the socket is put together in.
abbrev path_array : Bytes → Bytes
path_array homedir = (homedir ++ codes "/GUTHI_PIPE") ++ 0 ∷ replicate 2 0

path_to_pipe-lem :
    (homedir : Bytes) → IsCString homedir → path_to_pipe homedir ≡ ok (path_array homedir)
unfolding path_to_pipe strcat
path_to_pipe-lem homedir h =
    let n = length homedir in
    let zeros : Bytes = replicate (n + 14) 0 in
    let room : length zeros ≡ n + 14 = length-replicate (n + 14) zero in
    let more : n + 14 ≡ suc n + 13 = omega arith in
    let behind : drop (suc n) zeros ≡ replicate 13 0 =
      ap (λ i. drop (suc n) (replicate i 0)) more ∙ drop-replicate zero (suc n) 13 in
    let named : Bytes = homedir ++ codes "/GUTHI_PIPE" in
    let named_size = length-append homedir (codes "/GUTHI_PIPE") in
    let dest : Bytes = homedir ++ 0 ∷ replicate 13 0 in
    let dest_size = length-append homedir (0 ∷ replicate 13 0) in
    let rest : drop (suc (length named)) dest ≡ replicate 2 0 =
      drop-append_more (suc (length named)) 12 homedir (0 ∷ replicate 13 0) (omega arith) in
    rw
      (
        strcpy-fits zeros homedir (omega arith),
        behind,
        c_string-append homedir (replicate 13 0) h,
        strcpy-fits dest named (omega arith),
        rest,
      )
      refl

-- The name that the system sees of a name that fits.
strncpy-fits :
    (s rest : Bytes) (n : ℕ) → IsCString s → length s < n → c_string (strncpy n (s ++ 0 ∷ rest)) ≡ s
strncpy-fits s rest zero h l = absurd (omega arith)
strncpy-fits s rest (suc n) h l =
    rw
      (
        c_string-append s rest h,
        take-append_more (suc n) (suc (n - length s)) s (0 ∷ replicate n 0) (omega arith),
      )
      (c_string-append s (take (n - length s) (replicate n 0)) h)

pipe_name-IsCString : IsCString (codes "/GUTHI_PIPE")
pipe_name-IsCString =
    (refl, (refl, (refl, (refl, (refl, (refl, (refl, (refl, (refl, (refl, (refl, tt)))))))))))

same_directory :
    (homedir : Bytes)
    → homedir ++ codes "/GUTHI_PIPE" ≡ pipe_name
    → homedir ≡ codes "/home/imsanskar"
same_directory homedir e =
    let fifteen : length homedir ≡ 15 =
      omega (arith, length-append homedir (codes "/GUTHI_PIPE"), ap length e) in
    sym (take-append 15 homedir (codes "/GUTHI_PIPE") fifteen) ∙ ap (take 15) e

module _ (s : Sockets) where
  -- If the name of the home directory leaves room for that of the pipe in `sun_path`, then
  -- `InitProcessCommunication` stays within its arrays: it exits, or gives a socket that is bound to
  -- the name `GUTHI_PIPE` in that directory.
  pub init_process_communication-name :
      (w : s.World)
      → IsCString s.pw_dir
      → length s.pw_dir + 11 < sun_path_size
      → (init_process_communication s w ≡ exited)
        ⊎ ((pipe : ℕ) × (sun_path : Bytes) × (w' : s.World) × (init_process_communication s w
              ≡ ok (pipe, (sun_path, w')))
            × (c_string sun_path ≡ s.pw_dir ++ codes "/GUTHI_PIPE"))
  unfolding init_process_communication
  init_process_communication-name w h l =
      let path = path_array s.pw_dir in
      let sun_path = strncpy sun_path_size path in
      let named : Bytes = s.pw_dir ++ codes "/GUTHI_PIPE" in
      let size = length-append s.pw_dir (codes "/GUTHI_PIPE") in
      let name =
        strncpy-fits named (replicate 2 0) sun_path_size
          (IsCString-append s.pw_dir (codes "/GUTHI_PIPE") h pipe_name-IsCString) (omega arith) in
      elim (Option-cases (s.socket w)) [
        | inl e ↦ inl (rw (init_process_communication, e) refl)
        | inr ((pipe, w1), e) ↦ elim (Option-cases (s.bind pipe sun_path (s.unlink sun_path w1))) [
          | inl f ↦ inl (rw (init_process_communication, e, path_to_pipe-lem s.pw_dir h, f) refl)
          | inr (w2, f) ↦ inr (
            pipe,
            sun_path,
            w2,
            rw (init_process_communication, e, path_to_pipe-lem s.pw_dir h, f) refl,
            name,
          )
        ]
      ]

  -- The name of the socket that a call gives.
  abbrev name_in : Ended (ℕ × (Bytes × s.World)) → Bytes
  name_in (ok (pipe, (sun_path, w))) = c_string sun_path
  name_in _ = []

  connect_as_client-name :
      (v : s.World)
      → (connect_as_client s v ≡ exited) ⊎ (name_in (connect_as_client s v) ≡ pipe_name)
  unfolding connect_as_client
  connect_as_client-name v = elim (Option-cases (s.socket v)) [
    | inl e ↦ inl (rw (connect_as_client, e) refl)
    | inr ((in_socket, v1), e) ↦
        elim (Option-cases (s.connect in_socket (strncpy sun_path_size pipe_name) v1)) [
          | inl f ↦ inl (rw (connect_as_client, e, f) refl)
          | inr (v2, f) ↦ inr (rw (connect_as_client, e, f) refl)
        ]
  ]

  -- If the name of the home directory leaves room for that of the pipe in `sun_path`, and the calls of
  -- both succeed, the daemon and a client meet exactly if it is /home/imsanskar.
  pub connect_as_client-meets :
      (w v : s.World) (pipe in_socket : ℕ) (path path' : Bytes) (w' v' : s.World)
      → IsCString s.pw_dir
      → length s.pw_dir + 11 < sun_path_size
      → init_process_communication s w ≡ ok (pipe, (path, w'))
      → connect_as_client s v ≡ ok (in_socket, (path', v'))
      → (c_string path ≡ c_string path') ↔ (s.pw_dir ≡ codes "/home/imsanskar")
  connect_as_client-meets w v pipe in_socket path path' w' v' h l server client =
      let theirs : c_string path' ≡ pipe_name = elim (connect_as_client-name v) [
        | inl e ↦ absurd (cc (e, client))
        | inr e ↦ sym (ap name_in client) ∙ e
      ] in
      let ours : c_string path ≡ s.pw_dir ++ codes "/GUTHI_PIPE" =
        elim (init_process_communication-name w h l) [
          | inl e ↦ absurd (cc (e, server))
          | inr (p, sun_path, w2, e, name) ↦ sym (ap name_in server) ∙ ap name_in e ∙ name
        ] in
      rw (ours, theirs) (same_directory s.pw_dir, λ e. rw e refl)
