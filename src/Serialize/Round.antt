-- ===== src/Serialize/Round.antt =====
-- What src/filesystem/serialize_fs.hpp writes of one content is read as it was, by a library that keeps
-- its promises.
use Prim.Native.Nat.{max}
use guthi_core.Base.{
  ℕ, suc, ◌^◌, ◌<◌, ◌≤◌, ◌≡◌, refl, subst, Bool, true, false, ◌||◌, some, [], ◌∷◌, ◌++◌,
  append_assoc, arith, leb, ◌==◌, length, Bytes, All,
}
use guthi_core.Network.{FileType, directory, file, NetworkNode, Ptr}
use guthi_core.Network.Tree.{Tree, node, Forest, nil, cons, addrs, content}
use guthi_core.Serialize.{
  follows, Bitsery, Parsed, parsed, Parses, no_more, next, max_name, max_file_capacity, type_number,
  bytes1b, serialize_fields, read_bytes1b, read_fields,
}
use guthi_core.Tracker.State.{ok}

-- What the serializer library promises: each value is read as it was written, and so is a pointer
-- whose address has not been written before, by a deserializer that is in step.
pub record IsBitsery (b : Bitsery) : Type 1 where
  pub IsInStep : b.Context → b.Reading → Type 0
  pub seen : b.Context → Ptr → Bool
  pub starts : IsInStep b.no_links b.no_reads
  pub nothing_seen : (p : Ptr) → seen b.no_links p ≡ false
  pub reads1b : (x : ℕ) (rest : Bytes) → x < 2 ^ 8 → b.read1b (b.value1b x ++ rest) ≡ some (x, rest)
  pub reads2b :
      (x : ℕ) (rest : Bytes) → x < 2 ^ 16 → b.read2b (b.value2b x ++ rest) ≡ some (x, rest)
  pub reads_container1b :
      (max : ℕ) (s rest : Bytes)
      → length s ≤ max
      → b.read_container1b max (b.container1b s ++ rest) ≡ some (s, rest)
  pub reads_size :
      (max n : ℕ) (rest : Bytes)
      → n ≤ max
      → b.read_container_size max (b.container_size n ++ rest) ≡ some (n, rest)
  pub links :
      (p : Ptr) (c : b.Context) (r : b.Reading)
      → seen c p ≡ false
      → IsInStep c r
      → (bytes : Bytes) × (c1 : b.Context) × (r1 : b.Reading) × (b.link p c ≡ (bytes, (true, c1)))
        × IsInStep c1 r1
        × ((rest : Bytes) → b.read_link (bytes ++ rest) r ≡ some (follows, (rest, r1)))
        × ((q : Ptr) → seen c1 q ≡ (q == p || seen c q))

-- What a tree is read as.
abbrev mutual
  pub value : Tree → Parsed
  value (node a ty net nm ks) = parsed (type_number ty) net.ipv4 nm (values ks)

  pub values : Forest → Parses
  values nil = no_more
  values (cons t ts) = next (value t) (values ts)

-- Names and folders within the bounds, and addresses of four bytes.
abbrev mutual
  pub Fits : Tree → Type 0
  Fits (node a ty net nm ks) =
      (length net.ipv4 ≡ 4)
      × All (λ x. x < 2 ^ 8) net.ipv4
      × (length nm ≤ max_name)
      × (length (addrs ks) ≤ max_file_capacity)
      × FitsAll ks

  pub FitsAll : Forest → Type 0
  FitsAll nil = Unit {0}
  FitsAll (cons t ts) = Fits t × FitsAll ts

-- The calls that are inside each other.
abbrev mutual
  pub nested_of : Tree → ℕ
  nested_of (node a ty net nm ks) = nested ks

  pub nested : Forest → ℕ
  nested nil = 1
  nested (cons t ts) = suc (max (nested_of t) (nested ts))

module _ (b : Bitsery) (laws : IsBitsery b) where
  read_bytes1b-bytes1b :
      (xs rest : Bytes)
      → All (λ x. x < 2 ^ 8) xs
      → read_bytes1b b (length xs) (bytes1b b xs ++ rest) ≡ some (xs, rest)
  unfolding read_bytes1b
  read_bytes1b-bytes1b [] rest small = refl
  read_bytes1b-bytes1b (x ∷ xs) rest (first, small) =
      rw
        (
          append_assoc (b.value1b x) (bytes1b b xs) rest,
          laws.reads1b x (bytes1b b xs ++ rest) first,
          read_bytes1b-bytes1b xs rest small,
        )
        refl

  type_number_small : (ty : FileType) → type_number ty < 2 ^ 16
  type_number_small directory = omega arith
  type_number_small file = omega arith

  abbrev pub fields_of : FileType → NetworkNode → Bytes → Forest → Bytes
  fields_of ty net nm ks =
      b.value2b (type_number ty)
      ++ (bytes1b b net.ipv4 ++ (b.container1b nm ++ b.container_size (length (addrs ks))))

  pub serialize_fields-lem :
      (ty : FileType) (net : NetworkNode) (nm : Bytes) (ks : Forest)
      → length nm ≤ max_name
      → length (addrs ks) ≤ max_file_capacity
      → serialize_fields b (content ty net nm ks) ≡ ok (fields_of ty net nm ks)
  unfolding serialize_fields
  serialize_fields-lem ty net nm ks l m =
      let short : leb (length nm) max_name ≡ true = ground arith in
      let few : leb (length (addrs ks)) max_file_capacity ≡ true = ground arith in
      rw (short, few) refl

  pub read_fields-lem :
      (ty : FileType) (net : NetworkNode) (nm rest : Bytes) (ks : Forest)
      → length net.ipv4 ≡ 4
      → All (λ x. x < 2 ^ 8) net.ipv4
      → length nm ≤ max_name
      → length (addrs ks) ≤ max_file_capacity
      → read_fields b (fields_of ty net nm ks ++ rest)
        ≡ some (parsed (type_number ty) net.ipv4 nm, (length (addrs ks), rest))
  unfolding read_fields
  read_fields-lem ty net nm rest ks four small l m =
      let size = b.container_size (length (addrs ks)) in
      let named = b.container1b nm ++ size in
      let addressed = bytes1b b net.ipv4 ++ named in
      let ip : read_bytes1b b 4 (bytes1b b net.ipv4 ++ (named ++ rest))
          ≡ some (net.ipv4, named ++ rest) =
        subst
          (λ n.
            read_bytes1b b n (bytes1b b net.ipv4 ++ (named ++ rest))
            ≡ some (net.ipv4, named ++ rest))
          four (read_bytes1b-bytes1b net.ipv4 (named ++ rest) small) in
      rw
        (
          read_fields,
          append_assoc (b.value2b (type_number ty)) addressed rest,
          laws.reads2b (type_number ty) (addressed ++ rest) (type_number_small ty),
          append_assoc (bytes1b b net.ipv4) named rest,
          ip,
          append_assoc (b.container1b nm) size rest,
          laws.reads_container1b max_name nm (size ++ rest) l,
          laws.reads_size max_file_capacity (length (addrs ks)) rest m,
        )
        refl
