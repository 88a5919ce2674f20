-- ===== src/HashMap/Counts.antt =====
-- How many keys of a map pass a test.
use lwproxy.Base.{
  ℕ, ◌+◌, ◌<◌, true, ◌≡◌, refl, Bool, List, [], ◌∷◌, none, some, arith, if◌then◌else◌,
}
use lwproxy.HashMap.{HashMap, find, without, get, remove, insert}
use lwproxy.HashMap.Entries.{IsUnique}

module _ {ℓ} {K V : Type ℓ} (p : K → Bool) where
  unfoldable pub count_keys : List (K × V) → ℕ
  count_keys [] = 0
  count_keys ((k, v) ∷ l) = (if p k then 1 else 0) + count_keys l

  unfoldable pub count : HashMap K V → ℕ
  count m = count_keys m.entries

module _ {ℓ} {K V : Type ℓ} (d : Discrete K) (p : K → Bool) where
  without-absent : (k : K) (l : List (K × V)) → find d k l ≡ none → without d k l ≡ l
  unfolding find without
  without-absent k [] h = refl
  without-absent k ((j, v) ∷ l) h = ground (arith, without-absent k l)

  count_keys-without :
      (k : K) (v : V) (l : List (K × V))
      → IsUnique d l
      → find d k l ≡ some v
      → count_keys p l ≡ (if p k then 1 else 0) + count_keys p (without d k l)
  unfolding find without count_keys IsUnique
  count_keys-without k v [] u h = ground arith
  count_keys-without k v ((j, w) ∷ l) u h =
      ground (arith, without-absent k l, count_keys-without k v l u.1)

  -- A key that was not there counts once.
  pub count-insert :
      (m : HashMap K V) (k : K) (v : V)
      → get d m k ≡ none
      → count p (insert d m k v) ≡ (if p k then 1 else 0) + count p m
  unfolding get insert count count_keys
  count-insert m k v h = rw (without-absent k m.entries h)

  -- A key that was there no longer counts.
  pub count-remove :
      (m : HashMap K V) (k : K) (v : V)
      → IsUnique d m.entries
      → get d m k ≡ some v
      → count p m ≡ (if p k then 1 else 0) + count p (remove d m k)
  unfolding get remove count
  count-remove m k v u h = count_keys-without k v m.entries u h

  count_keys-pos :
      (k : K) (v : V) (l : List (K × V)) → find d k l ≡ some v → p k ≡ true → 0 < count_keys p l
  unfolding find count_keys
  count_keys-pos k v [] h q = cc
  count_keys-pos k v ((j, w) ∷ l) h q = ground (arith, count_keys-pos k v l)

  -- A key that is there counts.
  pub count-pos :
      (m : HashMap K V) (k : K) (v : V) → get d m k ≡ some v → p k ≡ true → 0 < count p m
  unfolding get count
  count-pos m k v h q = count_keys-pos k v m.entries h q

  count_keys-zero :
      (l : List (K × V)) → ((k : K) → p k ≡ true → find d k l ≡ none) → count_keys p l ≡ 0
  unfolding find count_keys
  count_keys-zero [] h = refl
  count_keys-zero ((j, w) ∷ l) h =
      ground (arith, h j, count_keys-zero l (λ k q. ground (arith, h k q)))

  pub count-zero : (m : HashMap K V) → ((k : K) → p k ≡ true → get d m k ≡ none) → count p m ≡ 0
  unfolding get count
  count-zero m h = count_keys-zero m.entries h
