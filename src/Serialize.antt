-- ===== src/Serialize.antt =====
-- src/filesystem/serialize_fs.hpp and src/filesystem/serialize_fs.cpp, and the calls of
-- src/core/c_api.cpp that pass serialized trees. The serializer library is a parameter.
pub mod Round
pub mod Trees
pub mod Calls
pub mod Sent
pub mod Small
mod Examples
use guthi_core.Base.{
  ℕ, zero, suc, ◌+◌, ◌%◌, ◌^◌, Bool, true, false, Option, none, some, List, [], ◌∷◌, ◌++◌, ltb, leb,
  ◌==◌, if◌then◌else◌, length, Bytes,
}
use guthi_core.Network.{FileType, directory, file, NetworkNode, Ptr, FileContent, Store}
use guthi_core.Tracker.State.{Ended, ok, aborted, fault, out_of_fuel, ◌>>=◌}

-- What stands for a smart pointer that is read: a content follows, or it points to one that has been
-- read, or to none.
pub data Link : Type 0 where
  follows : Link
  known : ℕ → Link

-- The calls of the serializer library. `Context` and `Reading` are the PointerLinkingContext of a
-- serializer and of a deserializer; `link` gives what is written for a pointer, whether its content
-- is to follow, and the context behind it. A read gives none where the adapter has an error.
pub record Bitsery : Type 1 where
  pub Context : Type 0
  pub no_links : Context
  pub value1b : ℕ → Bytes
  pub value2b : ℕ → Bytes
  pub container1b : Bytes → Bytes
  pub container_size : ℕ → Bytes
  pub link : Ptr → Context → Bytes × (Bool × Context)
  pub Reading : Type 0
  pub no_reads : Reading
  pub read1b : Bytes → Option (ℕ × Bytes)
  pub read2b : Bytes → Option (ℕ × Bytes)
  pub read_container1b : ℕ → Bytes → Option (Bytes × Bytes)
  pub read_container_size : ℕ → Bytes → Option (ℕ × Bytes)
  pub read_link : Bytes → Reading → Option (Link × (Bytes × Reading))

-- A tree that has been read, as a value.
mutual
  pub data Parsed : Type 0 where
    parsed : ℕ → Bytes → Bytes → Parses → Parsed

  pub data Parses : Type 0 where
    no_more : Parses
    next : Parsed → Parses → Parses
    same : ℕ → Parses → Parses

abbrev pub max_name : ℕ
max_name = 64

abbrev pub max_file_capacity : ℕ
max_file_capacity = 256

-- The number of a type in its 2 bytes.
abbrev pub type_number : FileType → ℕ
type_number directory = 0
type_number file = 1

-- A read goes on, unless the adapter has an error.
infixl 5 ◌>>?◌
abbrev pub ◌>>?◌ {ℓ κ} :
    {A : Type ℓ} {B : Type κ} → Option A → (A → Ended (Option B)) → Ended (Option B)
none >>? f = ok none
some a >>? f = f a

infixl 5 ◌>>=?◌
abbrev pub ◌>>=?◌ {ℓ κ} :
    {A : Type ℓ} {B : Type κ} → Ended (Option A) → (A → Ended (Option B)) → Ended (Option B)
m >>=? f = m >>= λ o. o >>? f

module _ (b : Bitsery) where
  abbrev pub bytes1b : Bytes → Bytes
  bytes1b [] = []
  bytes1b (x ∷ xs) = b.value1b x ++ bytes1b xs

  -- `serialize`, up to the children. The library asserts that a container is not longer than its
  -- bound.
  unfoldable pub serialize_fields : FileContent → Ended Bytes
  serialize_fields c =
      if leb (length c.name) max_name
      then (if leb (length c.contents) max_file_capacity
          then ok (
              b.value2b (type_number c.type)
              ++ (bytes1b c.network_node.ipv4
                  ++ (b.container1b c.name ++ b.container_size (length c.contents))))
          else aborted)
      else aborted

  -- The children, by their pointers, and what stands below them. The fuel bounds the calls that are
  -- inside each other.
  unfoldable pub serialize_all : ℕ → Store → List Ptr → b.Context → Ended (Bytes × b.Context)
  unfolding serialize_fields
  serialize_all zero h ps c = out_of_fuel
  serialize_all (suc k) h [] c = ok ([], c)
  serialize_all (suc k) h (p ∷ ps) c =
      let (pointer, (is_new, c1)) = b.link p c in
      let others = serialize_all k h ps c1 >>= λ (rest, c2). ok (pointer ++ rest, c2) in
      if is_new
      then elim (h p) [
        | none ↦ fault
        | some content ↦ serialize_fields content >>= λ fields.
            serialize_all k h content.contents c1 >>= λ (below, c2).
            serialize_all k h ps c2 >>= λ (rest, c3).
            ok (pointer ++ (fields ++ (below ++ rest)), c3)
      ]
      else others

  -- `SerializeLocalFS`, for the content at an address.
  unfoldable pub serialize_local_fs : ℕ → Store → Ptr → Ended Bytes
  unfolding serialize_fields serialize_all
  serialize_local_fs k h root = elim (h root) [
    | none ↦ fault
    | some content ↦ serialize_fields content >>= λ fields.
        serialize_all k h content.contents b.no_links >>= λ (below, _). ok (fields ++ below)
  ]

  -- As many bytes as the address of a node has.
  unfoldable pub read_bytes1b : ℕ → Bytes → Option (Bytes × Bytes)
  read_bytes1b zero s = some ([], s)
  read_bytes1b (suc n) s = elim (b.read1b s) [
    | none ↦ none
    | some (x, s1) ↦ elim (read_bytes1b n s1) [ none ↦ none | some (xs, s2) ↦ some (x ∷ xs, s2) ]
  ]

  -- `serialize` for a deserializer, up to the children: the content for any, and their number.
  unfoldable pub read_fields : Bytes → Option ((Parses → Parsed) × (ℕ × Bytes))
  unfolding read_bytes1b
  read_fields s = elim (b.read2b s) [
    | none ↦ none
    | some (ty, s1) ↦ elim (read_bytes1b 4 s1) [
      | none ↦ none
      | some (ip, s2) ↦ elim (b.read_container1b max_name s2) [
        | none ↦ none
        | some (name, s3) ↦ elim (b.read_container_size max_file_capacity s3) [
          | none ↦ none
          | some (n, s4) ↦ some (parsed ty ip name, (n, s4))
        ]
      ]
    ]
  ]

  -- So many smart pointers, and what stands below them. The fuel is as for `serialize_all`.
  unfoldable pub read_all :
      ℕ → ℕ → Bytes → b.Reading → Ended (Option (Parses × (Bytes × b.Reading)))
  unfolding read_fields
  read_all zero n s r = out_of_fuel
  read_all (suc k) zero s r = ok (some (no_more, (s, r)))
  read_all (suc k) (suc n) s r = b.read_link s r >>? λ (l, (s1, r1)). elim l [
    | known i ↦ read_all k n s1 r1 >>=? λ (ks, after). ok (some (same i ks, after))
    | follows ↦ read_fields s1 >>? λ (make, (m, s2)). read_all k m s2 r1 >>=? λ (below, (s3, r3)).
        read_all k n s3 r3 >>=? λ (ks, after). ok (some (next (make below) ks, after))
  ]

  -- `DeserializeToFileContent`: the content where true is returned. What false leaves of a content is
  -- not modelled.
  unfoldable pub deserialize_to_file_content : ℕ → Bytes → Ended (Option Parsed)
  unfolding read_fields read_all
  deserialize_to_file_content k bytes = read_fields bytes >>? λ (make, (n, s)).
      read_all k n s b.no_reads >>=? λ (ks, (rest, _)).
      ok (if length rest == 0 then some (make ks) else none)
