-- ===== src/Durability/Candidate.antt =====
-- What lies at a path, as `assertCandidate`, `regularFilesInTree`, `areEquivalent` and
-- `passesValidation` of packages/durability/src/index.ts read it.
use pidex.Prelude.{Bool, true, false, ◌&&◌, Text, text_eq}

-- A directory is its entries in the order that `sort` gives their names. A link stands before what it
-- leads to; one that leads nowhere is dangling.
mutual
  pub data Node : Type 0 where
    file : Text → Node
    directory : Entries → Node
    link : Node → Node
    dangling_link special : Node

  pub data Entries : Type 0 where
    nothing : Entries
    entry : Text → Node → Entries → Entries

pub data PublicationKind : Type 0 where
  file tree : PublicationKind

-- What `statSync`, `readFileSync` and `readdirSync` see.
abbrev pub followed : Node → Node
followed (link n) = followed n
followed (file b) = file b
followed (directory es) = directory es
followed dangling_link = dangling_link
followed special = special

-- `existsSync`: a link that leads nowhere does not exist.
abbrev pub exists : Node → Bool
exists (link n) = exists n
exists (file b) = true
exists (directory es) = true
exists dangling_link = false
exists special = true

abbrev pub is_directory : Node → Bool
is_directory (directory es) = true
is_directory _ = false

abbrev pub is_file : Node → Bool
is_file (file b) = true
is_file _ = false

-- `assertCandidate`, by `lstatSync`
unfoldable pub assert_candidate : PublicationKind → Node → Bool
assert_candidate file n = is_file n
assert_candidate tree n = is_directory n

-- `regularFilesInTree` does not throw: there are files and directories only.
unfoldable mutual
  pub is_regular : Node → Bool
  is_regular (file b) = true
  is_regular (directory es) = are_regular es
  is_regular (link n) = false
  is_regular dangling_link = false
  is_regular special = false

  pub are_regular : Entries → Bool
  are_regular nothing = true
  are_regular (entry name n es) = is_regular n && are_regular es

abbrev pub entry_kind : Node → PublicationKind
entry_kind (directory es) = tree
entry_kind _ = file

abbrev pub holds_bytes : Text → Node → Bool
holds_bytes b (file c) = text_eq b c
holds_bytes b _ = false

-- The candidate on the left; a thrown error is `false`.
unfoldable mutual
  pub are_equivalent : PublicationKind → Node → Node → Bool
  are_equivalent file (file b) right = holds_bytes b (followed right)
  are_equivalent tree (file b) right = false
  are_equivalent file (directory es) right = false
  are_equivalent tree (directory es) right = elim (followed right) [
    | directory fs ↦ entries_equivalent es fs
    | _ ↦ false
  ]
  are_equivalent kind (link n) right = are_equivalent kind n right
  are_equivalent kind dangling_link right = false
  are_equivalent kind special right = false

  pub entries_equivalent : Entries → Entries → Bool
  entries_equivalent nothing nothing = true
  entries_equivalent nothing (entry name n fs) = false
  entries_equivalent (entry name n es) nothing = false
  entries_equivalent (entry name n es) (entry other m fs) =
      text_eq name other && (are_equivalent (entry_kind n) n m && entries_equivalent es fs)
