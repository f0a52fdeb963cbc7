-- ===== src/Durability/Equivalence.antt =====
-- `areEquivalent` of packages/durability/src/index.ts against the equality of what lies at two paths.
use pidex.Prelude.{◌≡◌, refl, subst, ◌↔◌, true, text_eq_refl, text_eq_sound, arith}
use pidex.Durability.Candidate.{
  Node, directory, link, dangling_link, special, Entries, nothing, entry, PublicationKind, file,
  tree, assert_candidate, is_regular, are_regular, entry_kind, are_equivalent, entries_equivalent,
}

mutual
  unfolding is_regular are_equivalent

  node_refl : (n : Node) → is_regular n ≡ true → are_equivalent (entry_kind n) n n ≡ true
  node_refl (Node.file b) r = text_eq_refl b
  node_refl (directory es) r = entries_refl es r
  node_refl (link n) r = cc
  node_refl dangling_link r = cc
  node_refl special r = cc

  entries_refl : (es : Entries) → are_regular es ≡ true → entries_equivalent es es ≡ true
  entries_refl nothing r = refl
  entries_refl (entry name n es) r = ground (arith, text_eq_refl name, node_refl n, entries_refl es)

mutual
  unfolding is_regular are_equivalent

  node_sound :
      (n m : Node)
      → is_regular n ≡ true
      → is_regular m ≡ true
      → are_equivalent (entry_kind n) n m ≡ true
      → n ≡ m
  node_sound (Node.file b) (Node.file c) r s e = let same_bytes : b ≡ c = text_eq_sound b c e in cc
  node_sound (Node.file b) (directory fs) r s e = cc
  node_sound (directory es) (Node.file c) r s e = cc
  node_sound (directory es) (directory fs) r s e =
      let inside : es ≡ fs = entries_sound es fs r s e in cc
  node_sound n (link m) r s e = cc
  node_sound n dangling_link r s e = cc
  node_sound n special r s e = cc
  node_sound (link n) m r s e = cc
  node_sound dangling_link m r s e = cc
  node_sound special m r s e = cc

  entries_sound :
      (es fs : Entries)
      → are_regular es ≡ true
      → are_regular fs ≡ true
      → entries_equivalent es fs ≡ true
      → es ≡ fs
  entries_sound nothing nothing r s e = refl
  entries_sound nothing (entry name m fs) r s e = cc
  entries_sound (entry name n es) nothing r s e = cc
  entries_sound (entry name n es) (entry other m fs) r s e =
      let same_name : name ≡ other = text_eq_sound name other (ground arith) in
      let same_node : n ≡ m = node_sound n m (ground arith) (ground arith) (ground arith) in
      let same_rest : es ≡ fs = entries_sound es fs (ground arith) (ground arith) (ground arith) in
      cc

entry_kind_of_candidate :
    (kind : PublicationKind) (n : Node) → assert_candidate kind n ≡ true → kind ≡ entry_kind n
unfolding assert_candidate
entry_kind_of_candidate file n k = ground arith
entry_kind_of_candidate tree n k = ground arith

-- Where files and directories are all there is on both sides, the candidate of a kind is found
-- equivalent to what it equals and to nothing else.
pub are_equivalent_iff :
    (kind : PublicationKind) (n m : Node)
    → assert_candidate kind n ≡ true
    → is_regular n ≡ true
    → is_regular m ≡ true
    → (are_equivalent kind n m ≡ true) ↔ (n ≡ m)
are_equivalent_iff kind n m k r s = rw (entry_kind_of_candidate kind n k) (
  node_sound n m r s,
  λ e. subst (λ x. are_equivalent (entry_kind n) n x ≡ true) e (node_refl n r),
)
