-- ===== src/Serialize/Trees.antt =====
-- The trees that src/filesystem/serialize_fs.cpp serializes are read again as they were.
use guthi_core.Base.{
  ℕ, zero, suc, ◌≤◌, ◌≡◌, refl, sym, ◌∙◌, subst, inl, inr, Bool, true, false, ◌||◌, some, List, [],
  ◌∷◌, ◌++◌, append_assoc, append-nil, arith, ◌==◌, ==_iff, Bool-cases, length, Bytes,
}
use guthi_core.Network.{Ptr, FileContent, Store}
use guthi_core.Network.Tree.{
  Tree, node, Forest, nil, cons, addr, addrs, content, hass, Holds, HoldsAll, Distinct, DistinctAll,
}
use guthi_core.Serialize.{
  follows, Bitsery, Parsed, parsed, Parses, next, type_number, serialize_fields, serialize_all,
  serialize_local_fs, read_fields, read_all, deserialize_to_file_content,
}
use guthi_core.Tracker.State.{ok}
use guthi_core.Serialize.Round.{
  IsBitsery, value, values, Fits, FitsAll, nested_of, nested, fields_of, serialize_fields-lem,
  read_fields-lem,
}

no_rounds : (ks : Forest) → ¬ (nested ks ≤ 0)
no_rounds nil l = omega arith
no_rounds (cons t ts) l = omega arith

or_shuffle : (x y z w : Bool) → (x || (y || (z || w))) ≡ (((z || y) || x) || w)
or_shuffle true true true w = refl
or_shuffle true true false w = refl
or_shuffle true false true w = refl
or_shuffle true false false w = refl
or_shuffle false true true w = refl
or_shuffle false true false w = refl
or_shuffle false false true w = refl
or_shuffle false false false w = refl

module _ (b : Bitsery) (laws : IsBitsery b) where
  -- The children are read as they were written, and both contexts go on in step.
  abbrev RoundTrips : ℕ → Store → Forest → b.Context → b.Reading → Type 0
  RoundTrips k h ks c r =
      (s : Bytes) × (c' : b.Context) × (r' : b.Reading) × (serialize_all b k h (addrs ks) c
        ≡ ok (s, c'))
      × laws.IsInStep c' r'
      × ((rest : Bytes)
          → read_all b k (length (addrs ks)) (s ++ rest) r ≡ ok (some (values ks, (rest, r'))))
      × ((q : Ptr) → laws.seen c' q ≡ (hass q ks || laws.seen c q))

  abbrev Unseen : Forest → b.Context → Type 0
  Unseen ks c = (q : Ptr) → hass q ks ≡ true → laws.seen c q ≡ false

  self_seen : (a : Ptr) → (a == a) ≡ true
  self_seen a = (==_iff a a).1 refl

  Unseen-below :
      (a : Ptr) (ks ts : Forest) (c c1 : b.Context)
      → ((q : Ptr) → ((q == a || hass q ks) || hass q ts) ≡ true → laws.seen c q ≡ false)
      → hass a ks ≡ false
      → ((q : Ptr) → laws.seen c1 q ≡ (q == a || laws.seen c q))
      → Unseen ks c1
  Unseen-below a ks ts c c1 unseen own seen1 q there = elim (Bool-cases (q == a)) [
    | inl same ↦
        let absent : hass q ks ≡ false =
          subst (λ p. hass p ks ≡ false) (sym ((==_iff q a).0 same)) own in
        absurd (cc (there, absent))
    | inr other ↦ seen1 q ∙ rw other (unseen q (rw (other, there) refl))
  ]

  Unseen-behind :
      (a : Ptr) (ks ts : Forest) (c c1 c2 : b.Context)
      → ((q : Ptr) → ((q == a || hass q ks) || hass q ts) ≡ true → laws.seen c q ≡ false)
      → ((q : Ptr) → (q == a || hass q ks) ≡ true → hass q ts ≡ false)
      → ((q : Ptr) → laws.seen c1 q ≡ (q == a || laws.seen c q))
      → ((q : Ptr) → laws.seen c2 q ≡ (hass q ks || laws.seen c1 q))
      → Unseen ts c2
  Unseen-behind a ks ts c c1 c2 unseen apart seen1 seen2 q there =
      ground (arith, apart q, unseen q, seen1 q, seen2 q)

  serialize_all-node :
      (k : ℕ) (h : Store) (a : Ptr) (ps : List Ptr) (d : FileContent) (s0 fields s1 s2 : Bytes)
      (c c1 c2 c3 : b.Context)
      → h a ≡ some d
      → b.link a c ≡ (s0, (true, c1))
      → serialize_fields b d ≡ ok fields
      → serialize_all b k h d.contents c1 ≡ ok (s1, c2)
      → serialize_all b k h ps c2 ≡ ok (s2, c3)
      → serialize_all b (suc k) h (a ∷ ps) c ≡ ok (s0 ++ (fields ++ (s1 ++ s2)), c3)
  unfolding serialize_all
  serialize_all-node k h a ps d s0 fields s1 s2 c c1 c2 c3 held linked header below others =
      rw (linked, held, header) (rw (linked, below, others) refl)

  read_all-node :
      (k n m : ℕ) (make : Parses → Parsed) (below others : Parses) (s0 fields s1 s2 rest : Bytes)
      (r r1 r2 r3 : b.Reading)
      → ((tail : Bytes) → b.read_link (s0 ++ tail) r ≡ some (follows, (tail, r1)))
      → ((tail : Bytes) → read_fields b (fields ++ tail) ≡ some (make, (m, tail)))
      → ((tail : Bytes) → read_all b k m (s1 ++ tail) r1 ≡ ok (some (below, (tail, r2))))
      → ((tail : Bytes) → read_all b k n (s2 ++ tail) r2 ≡ ok (some (others, (tail, r3))))
      → read_all b (suc k) (suc n) ((s0 ++ (fields ++ (s1 ++ s2))) ++ rest) r
        ≡ ok (some (next (make below) others, (rest, r3)))
  unfolding read_all
  read_all-node k n m make below others s0 fields s1 s2 rest r r1 r2 r3 a b' c d =
      rw
        (
          append_assoc s0 (fields ++ (s1 ++ s2)) rest,
          a ((fields ++ (s1 ++ s2)) ++ rest),
          append_assoc fields (s1 ++ s2) rest,
          b' ((s1 ++ s2) ++ rest),
          append_assoc s1 s2 rest,
          c (s2 ++ rest),
          d rest,
        )
        refl

  all-RoundTrips :
      (ks : Forest) (k : ℕ) (h : Store) (c : b.Context) (r : b.Reading)
      → HoldsAll h ks
      → DistinctAll ks
      → FitsAll ks
      → Unseen ks c
      → laws.IsInStep c r
      → nested ks ≤ k
      → RoundTrips k h ks c r
  unfolding serialize_all read_all
  all-RoundTrips ks zero h c r holds distinct fits unseen step l = absurd (no_rounds ks l)
  all-RoundTrips nil (suc k) h c r holds distinct fits unseen step l =
      ([], c, r, refl, step, λ rest. refl, λ q. refl)
  all-RoundTrips (cons (node a ty net nm ks) ts) (suc k) h c r ((held, below_held), others_held)
        ((own, below_distinct), apart, others_distinct)
        ((four, small, short, few, below_fits), others_fit) unseen step l =
      let first : laws.seen c a ≡ false = unseen a (rw (self_seen a) refl) in
      let (s0, c1, r1, linked, step1, reads0, seen1) = laws.links a c r first step in
      let unseen1 : Unseen ks c1 = Unseen-below a ks ts c c1 unseen own seen1 in
      let (s1, c2, r2, below, step2, reads1, seen2) =
        all-RoundTrips ks k h c1 r1 below_held below_distinct below_fits unseen1 step1
          (omega arith) in
      let unseen2 : Unseen ts c2 = Unseen-behind a ks ts c c1 c2 unseen apart seen1 seen2 in
      let (s2, c3, r3, others, step3, reads2, seen3) =
        all-RoundTrips ts k h c2 r2 others_held others_distinct others_fit unseen2 step2
          (omega arith) in
      let fields = fields_of b laws ty net nm ks in
      (
        s0 ++ (fields ++ (s1 ++ s2)),
        c3,
        r3,
        serialize_all-node k h a (addrs ts) (content ty net nm ks) s0 fields s1 s2 c c1 c2 c3 held
            linked (serialize_fields-lem b laws ty net nm ks short few) below others,
        step3,
        λ rest.
            read_all-node k (length (addrs ts)) (length (addrs ks))
              (parsed (type_number ty) net.ipv4 nm) (values ks) (values ts) s0 fields s1 s2 rest r
              r1 r2 r3 reads0
              (λ tail. read_fields-lem b laws ty net nm tail ks four small short few) reads1 reads2,
        λ q.
            rw (seen3 q, seen2 q, seen1 q)
              (or_shuffle (hass q ts) (hass q ks) (q == a) (laws.seen c q)),
      )

  -- If the library keeps its promises, a tree that shares no node, with names of at most 64 bytes and
  -- at most 256 contents in a folder, is serialized, and the bytes are read as the same tree.
  pub deserialize-serialize :
      (t : Tree) (k : ℕ) (h : Store)
      → Holds h t
      → Distinct t
      → Fits t
      → nested_of t ≤ k
      → (bytes : Bytes) × (serialize_local_fs b k h (addr t) ≡ ok bytes)
        × (deserialize_to_file_content b k bytes ≡ ok (some (value t)))
  unfolding serialize_local_fs deserialize_to_file_content
  deserialize-serialize (node a ty net nm ks) k h (held, below_held) (own, distinct)
        (four, small, short, few, fits) l =
      let (s, c', r', wrote, step, reads, _) =
        all-RoundTrips ks k h b.no_links b.no_reads below_held distinct fits
          (λ q there. laws.nothing_seen q) laws.starts l in
      let whole =
        subst
          (λ bytes.
            read_all b k (length (addrs ks)) bytes b.no_reads ≡ ok (some (values ks, ([], r'))))
          (append-nil s) (reads []) in
      (
        fields_of b laws ty net nm ks ++ s,
        rw
            (
              addr,
              serialize_local_fs,
              held,
              serialize_fields-lem b laws ty net nm ks short few,
              wrote,
            )
            refl,
        rw
            (
              deserialize_to_file_content,
              read_fields-lem b laws ty net nm s ks four small short few,
              whole,
            )
            refl,
      )
