-- ===== src/Asm/Hamt.antt =====
-- src/asm/hamt.h: the tries of the assembler, `BHAMT_SEARCH` and `BHAMT_GET`, with the insertion at
-- the place that a search ends at, as in `buxn_asm_strintern` and `buxn_asm_find_or_create_symbol`.
pub mod Lookup
use buxn.Prelude.{
  ℕ, ◌+◌, ◌/◌, ◌%◌, ◌≡◌, refl, ◌∙◌, ap, Bool, true, false, Option, none, some, List, [], ◌∷◌, ◌==◌,
  if◌then◌else◌, Bool-cases, inl, inr, arith,
}

-- A node holds a key, what is stored under it, and its children, by the low bits of a hash.
pub data Trie (K V : Type 0) : Type 0 where
  empty : Trie K V
  node : (key : K) → (value : V) → (children : ℕ → Trie K V) → Trie K V

-- `BHAMT_NUM_CHILDREN`, for two bits.
abbrev pub num_children : ℕ
num_children = 4

-- `children[i] = child`
abbrev pub set_child : {K V : Type 0} → (ℕ → Trie K V) → ℕ → Trie K V → ℕ → Trie K V
set_child children i child j = if j == i then child else children j

module _ {K V : Type 0} (key_eq : K → K → Bool) where
  -- `BHAMT_SEARCH`, with the bits of the hash that are left.
  unfoldable pub search_trie : K → (hash : ℕ) → Trie K V → Option V
  search_trie k hash empty = none
  search_trie k hash (node key value children) =
      let rest = search_trie k (hash / num_children) (children (hash % num_children)) in
      if key_eq key k then some value else rest

  -- The place where a search ends is filled, unless the key was found.
  unfoldable pub insert_trie : K → V → (hash : ℕ) → Trie K V → Trie K V
  insert_trie k v hash empty = node k v (λ i. empty)
  insert_trie k v hash (node key value children) =
      let child = insert_trie k v (hash / num_children) (children (hash % num_children)) in
      if key_eq key k
      then node key value children
      else node key value (set_child children (hash % num_children) child)

  -- What a search finds or, where it finds nothing, what is then stored.
  abbrev pub or_new : Option V → V → Option V
  or_new none v = some v
  or_new (some w) v = some w

  module _ (hash : K → ℕ) where
    -- A table that is filled in order, and the first entry of a key in the list.
    abbrev pub fill : List (K × V) → Trie K V → Trie K V
    fill [] t = t
    fill ((k, v) ∷ entries) t = fill entries (insert_trie k v (hash k) t)

  abbrev pub first_entry : K → List (K × V) → Option V
  first_entry k [] = none
  first_entry k ((key, v) ∷ entries) = if key_eq key k then some v else first_entry k entries
