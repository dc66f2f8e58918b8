-- ===== src/Asm/Hamt/Lookup.antt =====
-- src/asm/hamt.h: a trie is a map, whatever the hash is.
use buxn.Prelude.{
  ℕ, ◌/◌, ◌%◌, ◌≡◌, refl, ◌∙◌, ap, sym, Bool, true, false, Option, none, some, List, [], ◌∷◌, ◌==◌,
  Bool-cases, inl, inr, arith, ◌↔◌,
}
use buxn.Asm.Hamt.{
  set_child, Trie, empty, node, search_trie, insert_trie, or_new, fill, first_entry, num_children,
}

set_child_self :
    {K V : Type 0} (children : ℕ → Trie K V) (i : ℕ) (child : Trie K V)
    → set_child children i child i ≡ child
set_child_self children i child = let e : (i == i) ≡ true = ground arith in rw e refl

key_eq_refl :
    {K : Type 0} (key_eq : K → K → Bool)
    → ((a b : K) → (key_eq a b ≡ true) ↔ (a ≡ b))
    → (k : K) → key_eq k k ≡ true
key_eq_refl key_eq iff k = (iff k k).1 refl

module _ {K V : Type 0} (key_eq : K → K → Bool) where
  -- The children of a node that an insertion passes.
  abbrev filled : K → V → ℕ → (ℕ → Trie K V) → ℕ → Trie K V
  filled k v h children =
      set_child children (h % num_children)
        (insert_trie key_eq k v (h / num_children) (children (h % num_children)))

  insert-found :
      (k : K) (v : V) (h : ℕ) (key : K) (value : V) (children : ℕ → Trie K V)
      → key_eq key k ≡ true
      → insert_trie key_eq k v h (node key value children) ≡ node key value children
  unfolding insert_trie
  insert-found k v h key value children e = rw e refl

  insert-descend :
      (k : K) (v : V) (h : ℕ) (key : K) (value : V) (children : ℕ → Trie K V)
      → key_eq key k ≡ false
      → insert_trie key_eq k v h (node key value children)
        ≡ node key value (
            set_child children
              (h % num_children)
              (insert_trie key_eq k v (h / num_children) (children (h % num_children))))
  unfolding insert_trie
  insert-descend k v h key value children e = rw e refl

  search-found :
      (k : K) (h : ℕ) (key : K) (value : V) (children : ℕ → Trie K V)
      → key_eq key k ≡ true
      → search_trie key_eq k h (node key value children) ≡ some value
  unfolding search_trie
  search-found k h key value children e = rw e refl

  search-descend :
      (k : K) (h : ℕ) (key : K) (value : V) (children : ℕ → Trie K V)
      → key_eq key k ≡ false
      → search_trie key_eq k h (node key value children)
        ≡ search_trie key_eq k (h / num_children) (children (h % num_children))
  unfolding search_trie
  search-descend k h key value children e = rw e refl

  search-insert_same :
      (k : K) (v : V) (h : ℕ) (t : Trie K V)
      → key_eq k k ≡ true
      → search_trie key_eq k h (insert_trie key_eq k v h t)
        ≡ or_new key_eq (search_trie key_eq k h t) v
  unfolding search_trie insert_trie
  search-insert_same k v h empty r = rw r refl
  search-insert_same k v h (node key value children) r = elim (Bool-cases (key_eq key k)) [
    | inl e ↦
        ap (search_trie key_eq k h) (insert-found k v h key value children e)
        ∙ search-found k h key value children e
        ∙ ap (λ o. or_new key_eq o v) (sym (search-found k h key value children e))
    | inr e ↦
        ap (search_trie key_eq k h) (insert-descend k v h key value children e)
        ∙ search-descend k h key value (filled k v h children) e
        ∙ ap (search_trie key_eq k (h / num_children))
            (set_child_self children (h % num_children) _)
        ∙ search-insert_same k v (h / num_children) (children (h % num_children)) r
        ∙ ap (λ o. or_new key_eq o v) (sym (search-descend k h key value children e))
  ]

  search-set_child :
      (l : K) (g i j : ℕ) (children : ℕ → Trie K V) (child : Trie K V)
      → search_trie key_eq l g child ≡ search_trie key_eq l g (children i)
      → search_trie key_eq l g (set_child children i child j) ≡ search_trie key_eq l g (children j)
  search-set_child l g i j children child h = elim (Bool-cases (j == i)) [
    | inl e ↦
        let q : j ≡ i = ground (arith, e) in
        rw e (h ∙ ap (λ n. search_trie key_eq l g (children n)) (sym q))
    | inr e ↦ rw e refl
  ]

  search-insert_other :
      (k l : K) (v : V) (h g : ℕ) (t : Trie K V)
      → key_eq k l ≡ false
      → search_trie key_eq l g (insert_trie key_eq k v h t) ≡ search_trie key_eq l g t
  unfolding search_trie insert_trie
  search-insert_other k l v h g empty d = rw d refl
  search-insert_other k l v h g (node key value children) d = elim (Bool-cases (key_eq key k)) [
    | inl e ↦ ap (search_trie key_eq l g) (insert-found k v h key value children e)
    | inr e ↦
        ap (search_trie key_eq l g) (insert-descend k v h key value children e)
        ∙ elim (Bool-cases (key_eq key l)) [
          | inl f ↦
              search-found l g key value (filled k v h children) f
              ∙ sym (search-found l g key value children f)
          | inr f ↦
              search-descend l g key value (filled k v h children) f
              ∙ search-set_child l (g / num_children) (h % num_children) (g % num_children) children
                  _
                  (search-insert_other k l v (h / num_children) (g / num_children)
                    (children (h % num_children)) d)
              ∙ sym (search-descend l g key value children f)
        ]
  ]

module _ {K V : Type 0} (key_eq : K → K → Bool) (hash : K → ℕ) where
  -- What a search finds: an entry of the trie, or the first that was filled in behind it.
  abbrev found : K → Option V → List (K × V) → Option V
  found k (some w) entries = some w
  found k none entries = first_entry key_eq k entries

  found_nil : (k : K) (o : Option V) → o ≡ found k o []
  found_nil k none = refl
  found_nil k (some w) = refl

  found_new :
      (k key : K) (v : V) (entries : List (K × V)) (o : Option V)
      → key_eq key k ≡ true
      → found k (or_new key_eq o v) entries ≡ found k o ((key, v) ∷ entries)
  found_new k key v entries none e = rw e refl
  found_new k key v entries (some w) e = refl

  found_other :
      (k key : K) (v : V) (entries : List (K × V)) (o : Option V)
      → key_eq key k ≡ false
      → found k o entries ≡ found k o ((key, v) ∷ entries)
  found_other k key v entries none e = rw e refl
  found_other k key v entries (some w) e = refl

  search-fill :
      (iff : (a b : K) → (key_eq a b ≡ true) ↔ (a ≡ b)) (k : K) (entries : List (K × V))
      (t : Trie K V)
      → search_trie key_eq k (hash k) (fill key_eq hash entries t)
        ≡ found k (search_trie key_eq k (hash k) t) entries
  search-fill iff k [] t = found_nil k (search_trie key_eq k (hash k) t)
  search-fill iff k ((key, v) ∷ entries) t =
      search-fill iff k entries (insert_trie key_eq key v (hash key) t)
      ∙ elim (Bool-cases (key_eq key k)) [
        | inl e ↦
            ap (λ o. found k o entries)
              (ap (λ x. search_trie key_eq k (hash k) (insert_trie key_eq x v (hash x) t))
                  ((iff key k).0 e)
                ∙ search-insert_same key_eq k v (hash k) t (key_eq_refl key_eq iff k))
            ∙ found_new k key v entries (search_trie key_eq k (hash k) t) e
        | inr e ↦
            ap (λ o. found k o entries) (search-insert_other key_eq key k v (hash key) (hash k) t e)
            ∙ found_other k key v entries (search_trie key_eq k (hash k) t) e
      ]

  -- Whatever the hash is, a search for a key in a trie that was filled in some order finds the first
  -- entry of this key, and nothing if there is none, if the test on keys is their equality.
  pub search_trie-fill :
      ((a b : K) → (key_eq a b ≡ true) ↔ (a ≡ b))
      → (k : K) (entries : List (K × V))
      → search_trie key_eq k (hash k) (fill key_eq hash entries empty)
        ≡ first_entry key_eq k entries
  unfolding search_trie
  search_trie-fill iff k entries = search-fill iff k entries empty
