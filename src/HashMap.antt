-- ===== src/HashMap.antt =====
-- `std::collections::HashMap`, over keys with a decidable equality. The order of the entries is the
-- iteration order, which the standard library leaves open. Other modules use the laws.
pub mod Entries
pub mod Counts
use lwproxy.Base.{◌≡◌, refl, ite, Bool, is_some, List, [], ◌∷◌, Option, none, some, arith}

pub record HashMap {ℓ} (K V : Type ℓ) : Type ℓ where
  pub entries : List (K × V)

module _ {ℓ} {K V : Type ℓ} where
  unfoldable pub new : HashMap K V
  new = record { entries = [] }

module _ {ℓ} {K V : Type ℓ} (d : Discrete K) where
  unfoldable pub find : K → List (K × V) → Option V
  find k [] = none
  find k ((j, v) ∷ l) = ite (d k j) (some v) (find k l)

  unfoldable pub without : K → List (K × V) → List (K × V)
  without k [] = []
  without k ((j, v) ∷ l) = let rest = without k l in ite (d k j) rest ((j, v) ∷ rest)

  unfoldable pub get : HashMap K V → K → Option V
  unfolding find
  get m k = find k m.entries

  abbrev pub contains_key : HashMap K V → K → Bool
  contains_key m k = is_some (get m k)

  unfoldable pub remove : HashMap K V → K → HashMap K V
  unfolding without
  remove m k = record { entries = without k m.entries }

  unfoldable pub insert : HashMap K V → K → V → HashMap K V
  unfolding without
  insert m k v = record { entries = (k, v) ∷ without k m.entries }

  find-without : (k j : K) (l : List (K × V)) → find j (without k l) ≡ ite (d j k) none (find j l)
  unfolding find without
  find-without k j [] = ground arith
  find-without k j ((i, v) ∷ l) = ground (arith, find-without k j l)

  pub get-remove : (m : HashMap K V) (k j : K) → get (remove m k) j ≡ ite (d j k) none (get m j)
  unfolding get remove
  get-remove m k j = find-without k j m.entries

  pub get-insert :
      (m : HashMap K V) (k j : K) (v : V) → get (insert m k v) j ≡ ite (d j k) (some v) (get m j)
  unfolding get insert
  get-insert m k j v = ground (arith, find-without k j m.entries)

  pub get-new : (k : K) → get new k ≡ none
  unfolding get new
  get-new k = refl
