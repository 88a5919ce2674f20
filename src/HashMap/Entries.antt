-- ===== src/HashMap/Entries.antt =====
-- The entries of a map as an iteration meets them: no key twice, and what a filter of them selects.
use mathlib.Core.Bool.{false≢true}
use lwproxy.Base.{
  ◌≡◌, refl, ite, Bool, true, false, List, [], ◌∷◌, map, none, some, arith, keep, Bool-cases, inl,
  inr, sym,
}
use lwproxy.HashMap.{HashMap, find, without, get, remove, insert, find-without, get-remove}

module _ {ℓ} {K V : Type ℓ} (d : Discrete K) where
  unfoldable pub IsUnique : List (K × V) → Type ℓ
  IsUnique [] = Unit
  IsUnique ((k, v) ∷ l) = (find d k l ≡ none) × IsUnique l

  -- Removes the keys in turn.
  unfoldable pub remove_all : List K → HashMap K V → HashMap K V
  remove_all [] m = m
  remove_all (k ∷ ks) m = remove_all ks (remove d m k)

  without-IsUnique : (k : K) (l : List (K × V)) → IsUnique l → IsUnique (without d k l)
  unfolding IsUnique without
  without-IsUnique k [] u = tt
  without-IsUnique k ((j, v) ∷ l) u = ground (arith, without-IsUnique k l u.1, find-without d k j l)

  pub remove-IsUnique :
      (m : HashMap K V) (k : K) → IsUnique m.entries → IsUnique (remove d m k).entries
  unfolding remove
  remove-IsUnique m k u = without-IsUnique k m.entries u

  pub insert-IsUnique :
      (m : HashMap K V) (k : K) (v : V) → IsUnique m.entries → IsUnique (insert d m k v).entries
  unfolding insert IsUnique
  insert-IsUnique m k v u =
      (ground (arith, find-without d k k m.entries), without-IsUnique k m.entries u)

  pub remove_all-IsUnique :
      (ks : List K) (m : HashMap K V) → IsUnique m.entries → IsUnique (remove_all ks m).entries
  unfolding remove_all
  remove_all-IsUnique [] m u = u
  remove_all-IsUnique (k ∷ ks) m u = remove_all-IsUnique ks (remove d m k) (remove-IsUnique m k u)

module _ {ℓ} {A : Type ℓ} (d : Discrete A) where
  unfoldable pub contains : List A → A → Bool
  contains [] a = false
  contains (x ∷ xs) a = ite (d a x) true (contains xs a)

module _ {ℓ} {K V : Type ℓ} (d : Discrete K) where
  pub get-remove_all :
      (ks : List K) (m : HashMap K V) (j : K)
      → get d (remove_all d ks m) j ≡ elim (contains d ks j) [ true ↦ none | false ↦ get d m j ]
  unfolding remove_all contains
  get-remove_all [] m j = refl
  get-remove_all (k ∷ ks) m j =
      ground (arith, get-remove_all ks (remove d m k) j, get-remove d m k j)

  -- What an iteration that keeps the entries with `p` collects.
  kept_entry {κ} :
      {C : Type κ} (e : Discrete C) (p : K × V → Bool) (f : K × V → C) (l : List (K × V)) (c : C)
      → IsUnique d l
      → contains e (map f (keep p l)) c ≡ true
      → (k : K) × (v : V) × (find d k l ≡ some v) × (p (k, v) ≡ true) × (f (k, v) ≡ c)
  unfolding IsUnique contains find
  kept_entry e p f [] c u h = absurd (false≢true h)
  kept_entry e p f ((j, w) ∷ l) c u h = elim (Bool-cases (p (j, w))) [
    | inl kept ↦ elim (e c (f (j, w))) [
      | yes q ↦ (j, w, ground arith, kept, sym q)
      | no miss ↦ further (kept_entry e p f l c u.1 (ground arith))
    ]
    | inr dropped ↦ further (kept_entry e p f l c u.1 (ground arith))
  ]
    where
      further :
          (k : K) × (v : V) × (find d k l ≡ some v) × (p (k, v) ≡ true) × (f (k, v) ≡ c)
          → (k : K) × (v : V) × (find d k ((j, w) ∷ l) ≡ some v)
            × (p (k, v) ≡ true)
            × (f (k, v) ≡ c)
      further (k, v, g, r, s) = (k, v, ground arith, r, s)

  entry_kept {κ} :
      {C : Type κ} (e : Discrete C) (p : K × V → Bool) (f : K × V → C) (l : List (K × V)) (k : K)
      (v : V)
      → find d k l ≡ some v
      → p (k, v) ≡ true
      → contains e (map f (keep p l)) (f (k, v)) ≡ true
  unfolding contains find
  entry_kept e p f [] k v h q = cc
  entry_kept e p f ((j, w) ∷ l) k v h q = ground (arith, entry_kept e p f l k v)

  -- The same of a map that is iterated over.
  pub kept {κ} :
      {C : Type κ} (e : Discrete C) (p : K × V → Bool) (f : K × V → C) (m : HashMap K V) (c : C)
      → IsUnique d m.entries
      → contains e (map f (keep p m.entries)) c ≡ true
      → (k : K) × (v : V) × (get d m k ≡ some v) × (p (k, v) ≡ true) × (f (k, v) ≡ c)
  unfolding get
  kept e p f m c u h = kept_entry e p f m.entries c u h

  pub is_kept {κ} :
      {C : Type κ} (e : Discrete C) (p : K × V → Bool) (f : K × V → C) (m : HashMap K V) (k : K)
      (v : V)
      → get d m k ≡ some v
      → p (k, v) ≡ true
      → contains e (map f (keep p m.entries)) (f (k, v)) ≡ true
  unfolding get
  is_kept e p f m k v h q = entry_kept e p f m.entries k v h q
