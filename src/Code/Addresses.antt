-- ===== src/Code/Addresses.antt =====
-- The addresses that clients are given.
use lwproxy.Base.{
  ℕ, zero, suc, ◌+◌, ◌*◌, ◌%◌, ◌^◌, ◌<◌, ◌≤◌, ◌≡◌, ◌≢◌, true, some, arith, ltb, Bool-cases, inl,
  inr,
}
use lwproxy.Wire.{be_bytes, from_be_from, from_be_bytes}
use lwproxy.Code.{
  Rng, prefix, reserved, proxy_address, is_network_address, address_octets, random_address,
}

-- The address with these 64 random bits.
abbrev pub address_of : ℕ → ℕ
address_of low = prefix * 2 ^ 112 + low

pub from_be_bytes-address_octets :
    (low : ℕ) → low < 2 ^ 64 → from_be_bytes (address_octets low) ≡ address_of low
unfolding be_bytes from_be_from
from_be_bytes-address_octets low h = omega arith

-- An address that the proxy may hand out.
pub record IsAssignable (address : ℕ) : Type 0 where
  pub in_network : is_network_address address ≡ true
  pub above_reserved : reserved ≤ address % 2 ^ 64
  pub fits : address < 2 ^ 128

pub address_of-IsAssignable :
    (low : ℕ) → reserved ≤ low → low < 2 ^ 64 → IsAssignable (address_of low)
address_of-IsAssignable low h k = record {
  in_network = ground arith;
  above_reserved = omega arith;
  fits = omega arith;
}

module _ {S : Type 0} (rng : Rng S) where
  -- The state after so many draws.
  unfoldable pub draws : ℕ → S → S
  draws zero s = s
  draws (suc n) s = draws n (rng.random s).1

  pub random_address_lem :
      (fuel : ℕ) (s : S) {a : ℕ} {s' : S}
      → random_address rng fuel s ≡ some (a, s')
      → (low : ℕ) × (reserved ≤ low) × (low < 2 ^ 64) × (a ≡ address_of low)
  unfolding random_address
  random_address_lem zero s h = cc
  random_address_lem (suc fuel) s {s'} h = elim (Bool-cases (ltb (rng.random s).0 reserved)) [
    | inl low ↦ random_address_lem fuel (rng.random s).1 {s' = s'} (ground arith)
    | inr high ↦ (
      (rng.random s).0,
      ground arith,
      rng.random-lt s,
      ground (arith, rng.random-lt s, from_be_bytes-address_octets (rng.random s).0),
    )
  ]

  -- Every address that `random_address` gives is on the private network, has a random half of at
  -- least 256, and is not the proxy's own.
  pub random_address-IsAssignable :
      (fuel : ℕ) (s s' : S) (a : ℕ)
      → random_address rng fuel s ≡ some (a, s')
      → IsAssignable a × (a ≢ proxy_address)
  random_address-IsAssignable fuel s s' a h =
      let (low, above, small, e) = random_address_lem fuel s h in
      rw e (address_of-IsAssignable low above small, omega arith)

  -- If the first n draws are below 256 and the next is not, `random_address` gives the address with
  -- exactly that draw as its low 64 bits, within any fuel above n.
  pub random_address_total :
      (n fuel : ℕ) (s : S)
      → ((k : ℕ) → k < n → (rng.random (draws k s)).0 < reserved)
      → reserved ≤ (rng.random (draws n s)).0
      → n < fuel
      → random_address rng fuel s ≡ some (address_of (rng.random (draws n s)).0, draws (suc n) s)
  unfolding random_address draws
  random_address_total n zero s before at h = absurd (omega arith)
  random_address_total zero (suc fuel) s before at h =
      ground (arith, rng.random-lt s, from_be_bytes-address_octets (rng.random s).0)
  random_address_total (suc n) (suc fuel) s before at h = ground (
    arith,
    before 0,
    random_address_total n fuel (rng.random s).1 (λ k p. before (suc k) (omega arith)) at,
  )
