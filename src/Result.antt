-- ===== src/Result.antt =====
-- Results of fallible code: `anyhow::Result`, and a panic (a failed `unwrap`, an index or a read
-- out of bounds), which unwinds the task and is no value of the program.
use lwproxy.Base.{
  if◌then◌else◌, Bool, true, false, Option, none, some, ◌≡◌, ◌⊎◌, inl, inr, refl, ◌≢◌, arith,
}

-- The errors of src/service and of the two clients, one for each message.
pub data Error : Type 0 where
  -- net/packet.rs
  datagram_too_large frame_too_small frame_bad_magic frame_size_mismatch : Error
  -- net/code.rs
  passcode_wrong_length passcode_invalid_characters : Error
  -- net/network.rs
  bind_port_zero unknown_passcode port_already_bound assignment_missing : Error
  bad_frame_from_client channel_closed : Error
  -- dnsproxy.rs
  dns_non_ascii dns_empty_query dns_no_type dns_unknown_type dns_trailing_data : Error
  relay_closed : Error
  -- connectproxy.rs
  connect_no_header connect_non_ascii connect_missing_line connect_bad_line : Error
  connect_bad_target connect_bad_port host_not_allowed client_disconnected io_error : Error
  settings_unreadable no_endpoints tls_cert_missing tls_key_missing cert_unopened certs_unreadable
        chain_empty :
      Error
  key_unopened key_unreadable key_empty tls_refused bind_refused : Error
  -- commands.rs
  command_non_ascii command_too_long command_empty command_unrecognized : Error
  proxy_bad_args proxy_bad_protocol proxy_bad_transport proxy_udp proxy_bad_address : Error
  proxy_family_mismatch proxy_bad_port proxy_no_relay newaddr_bad_args : Error
  bind_no_relay bind_bad_args bind_bad_passcode bind_not_udp bind_bad_port : Error
  -- webtransport/client.rs, websocket/client.rs
  lease_ended relay_ended command_too_large datagram_session reliable_session : Error
  extra_stream unidirectional_stream command_late no_target already_closed : Error
  -- service.rs
  no_such_service : Error

pub data Result {ℓ} (A : Type ℓ) : Type ℓ where
  ok : A → Result A
  err : Error → Result A
  panic : Result A

infixl 5 ◌>>=◌ ◌>>◌
abbrev pub ◌>>=◌ {ℓ κ} : {A : Type ℓ} {B : Type κ} → Result A → (A → Result B) → Result B
ok a >>= f = f a
err e >>= f = err e
panic >>= f = panic

abbrev pub ◌>>◌ {ℓ} : {B : Type ℓ} → Result (Unit {0}) → Result B → Result B
m >> k = m >>= λ _. k

-- `anyhow::ensure!`
abbrev pub ensure : Bool → Error → Result (Unit {0})
ensure true e = ok tt
ensure false e = err e

-- `Option::context`, `ok_or`
abbrev pub context {ℓ} : {A : Type ℓ} → Option A → Error → Result A
context none e = err e
context (some a) e = ok a

-- `Option::unwrap`
abbrev pub unwrap {ℓ} : {A : Type ℓ} → Option A → Result A
unwrap none = panic
unwrap (some a) = ok a

-- `Result::context` on a result of this crate: the outer message is what the caller sees.
abbrev pub relabel {ℓ} : {A : Type ℓ} → Result A → Error → Result A
relabel (ok a) e = ok a
relabel (err _) e = err e
relabel panic e = panic

pub Result-cases {ℓ} :
    {A : Type ℓ} (r : Result A)
    → ((a : A) × (r ≡ ok a)) ⊎ (((e : Error) × (r ≡ err e)) ⊎ (r ≡ panic))
Result-cases (ok a) = inl (a, refl)
Result-cases (err e) = inr (inl (e, refl))
Result-cases panic = inr (inr refl)

-- What stood before in a chain of calls that succeeded.
module _ {ℓ} {A : Type ℓ} where
  pub bind_ok {κ} :
      {B : Type κ} (m : Result A) (f : A → Result B) (b : B)
      → (m >>= f) ≡ ok b
      → (a : A) × (m ≡ ok a) × (f a ≡ ok b)
  bind_ok (ok a) f b h = (a, refl, h)
  bind_ok (err e) f b h = cc
  bind_ok panic f b h = cc

  pub context_ok : (o : Option A) (e : Error) (a : A) → context o e ≡ ok a → o ≡ some a
  context_ok none e a h = cc
  context_ok (some x) e a h = cc

  pub bind_panic {κ} :
      {B : Type κ} (m : Result A) (f : A → Result B)
      → m ≢ panic
      → ((a : A) → f a ≢ panic)
      → (m >>= f) ≢ panic
  bind_panic (ok a) f h k = k a
  bind_panic (err e) f h k = ground arith
  bind_panic panic f h k = absurd (h refl)

  pub context-ne-panic : (o : Option A) (e : Error) → context o e ≢ panic
  context-ne-panic none e = ground arith
  context-ne-panic (some x) e = ground arith

pub ensure_ok : (b : Bool) (e : Error) (u : Unit {0}) → ensure b e ≡ ok u → b ≡ true
ensure_ok true e u h = refl
ensure_ok false e u h = cc

pub ensure-ne-panic : (b : Bool) (e : Error) → ensure b e ≢ panic
ensure-ne-panic true e = ground arith
ensure-ne-panic false e = ground arith

pub ok_inj : {A : Type 0} {a b : A} → Path (Result A) (ok a) (ok b) → a ≡ b
ok_inj h = cc

-- What holds on both branches holds of a test.
pub if_both {ℓ κ} :
    {A : Type ℓ} (P : A → Type κ) (b : Bool) (x y : A) → P x → P y → P (if b then x else y)
if_both P true x y h k = h
if_both P false x y h k = k

pub ensure_both {ℓ κ} :
    {A : Type ℓ} (P : Result A → Type κ) (b : Bool) (e : Error) (r : Result A)
    → P (err e)
    → P r
    → P (ensure b e >> r)
ensure_both P true e r h k = k
ensure_both P false e r h k = h

-- What holds of each way through a call and what follows it.
pub bind_both {ℓ κ ι} :
    {A : Type ℓ} {B : Type κ} (P : Result B → Type ι) (m : Result A) (k : A → Result B)
    → m ≢ panic
    → ((e : Error) → P (err e))
    → ((a : A) → m ≡ ok a → P (k a))
    → P (m >>= k)
bind_both P (ok a) k n h g = g a refl
bind_both P (err e) k n h g = h e
bind_both P panic k n h g = absurd (n refl)

pub bind_each {ℓ κ ι} :
    {A : Type ℓ} {B : Type κ} (P : Result B → Type ι) (m : Result A) (k : A → Result B)
    → P panic
    → ((e : Error) → P (err e))
    → ((a : A) → m ≡ ok a → P (k a))
    → P (m >>= k)
bind_each P (ok a) k n h g = g a refl
bind_each P (err e) k n h g = h e
bind_each P panic k n h g = n

pub if_second {ℓ κ} :
    {A : Type ℓ} (P : A → Type κ) (b : Bool) (x y : A) → b ≡ false → P y → P (if b then x else y)
if_second P true x y h k = cc
if_second P false x y h k = k

pub if_first {ℓ κ} :
    {A : Type ℓ} (P : A → Type κ) (b : Bool) (x y : A) → b ≡ true → P x → P (if b then x else y)
if_first P true x y h k = k
if_first P false x y h k = cc
