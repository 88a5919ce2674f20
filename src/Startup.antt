-- ===== src/Startup.antt =====
-- src/settings.rs, src/main.rs: the settings, the certificates and the listeners of the serve blocks.
-- What the files hold, and what the libraries make of it, is the parameter `Files`; which listeners
-- can start is another.
pub mod Listeners
use lwproxy.Base.{
  ℕ, suc, is_some, Bool, true, false, not, List, [], ◌∷◌, ◌++◌, Option, none, some, if◌then◌else◌,
  is_empty, Bytes,
}
use lwproxy.Result.{
  Result, ok, err, panic, ◌>>=◌, ◌>>◌, ensure, context, unwrap, settings_unreadable, no_endpoints,
  tls_cert_missing, tls_key_missing, cert_unopened, certs_unreadable, chain_empty, key_unopened,
  key_unreadable, key_empty,
}
use lwproxy.Net.{SocketAddr}
use lwproxy.Endpoint
use lwproxy.Endpoint.{
  TlsCert, Start, Place, socket, stream, new_socket, new_secure, new_stream, is_valid,
}
use lwproxy.Text.{text_eq}
use lwproxy.Code.{codes}

pub record ServeConfig : Type 0 where
  pub protocol : Bytes
  pub bind_address : SocketAddr
  pub tls_cert : Option Bytes
  pub tls_key : Option Bytes
  pub tls_self : Option Bool

pub record HttpProxyConfig : Type 0 where
  pub allowed_hosts : List Bytes

pub record Settings : Type 0 where
  pub serve : List ServeConfig
  pub http_proxy : HttpProxyConfig

-- The files by their paths, what `rustls_pemfile` reads in them, the settings that `config` reads at
-- a path, and the certificate and its key that each call of `rcgen` generates, a new one every time.
pub record Files : Type 0 where
  pub settings : Bytes → Option Settings
  pub open_file : Bytes → Option Bytes
  pub certs : Bytes → Option (List Bytes)
  pub private_key : Bytes → Option (Option Bytes)
  pub generate_simple_self_signed : ℕ → Option (Bytes × Bytes)

abbrev pub from_generated : Option (Bytes × Bytes) → Option TlsCert
from_generated none = none
from_generated (some (cert, key)) = some (record { chain = cert ∷ []; key = key })

-- `TLSCert::make_self_cert`, as its call with the number `n`, from 0.
unfoldable pub make_self_cert : Files → ℕ → Option TlsCert
make_self_cert files n = from_generated (files.generate_simple_self_signed n)

-- `OnceLock::get_or_init`, of an initial value that may panic.
abbrev pub get_or_init : {A : Type 0} → Option A → Result A → Result A × Option A
get_or_init (some a) init = (ok a, some a)
get_or_init none (ok a) = (ok a, some a)
get_or_init none (err e) = (err e, none)
get_or_init none panic = (panic, none)

-- `Settings::load`, on what was loaded before.
unfoldable pub load : Files → Option Settings → Bytes → Result (Option Settings)
load files loaded path = do
  settings ← context (files.settings path) settings_unreadable
  ok (get_or_init loaded (ok settings)).1

-- `Settings::get`
abbrev pub get : Option Settings → Result Settings
get = unwrap

-- `read_certs` behind its first test.
abbrev pub read_files : Files → ServeConfig → Result TlsCert
read_files files serve = do
  tls_cert ← context serve.tls_cert tls_cert_missing
  tls_key ← context serve.tls_key tls_key_missing
  chain ← context (files.open_file tls_cert) cert_unopened
  chain ← context (files.certs chain) certs_unreadable
  ensure (not (is_empty chain)) chain_empty
  keys ← context (files.open_file tls_key) key_unopened
  key ← context (files.private_key keys) key_unreadable
  key ← context key key_empty
  ok (record { chain = chain; key = key })

abbrev pub is_true : Option Bool → Bool
is_true none = false
is_true (some b) = b

-- `SELFCERT`, and how many certificates were generated.
pub record SelfCert : Type 0 where
  pub cell : Option TlsCert
  pub generated : ℕ

abbrev pub no_cert : SelfCert
no_cert = record { cell = none; generated = 0 }

-- The `get_or_init` of `read_certs`: a certificate is generated only if there is none.
abbrev pub self_cert : Files → SelfCert → Result TlsCert × SelfCert
self_cert files selfcert =
    let (r, cell) = get_or_init selfcert.cell (unwrap (make_self_cert files selfcert.generated)) in
    (
      r,
      record {
        cell = cell;
        generated = if is_some selfcert.cell then selfcert.generated else suc selfcert.generated;
      },
    )

-- `ServeConfig::read_certs`
unfoldable pub read_certs : Files → SelfCert → ServeConfig → Result TlsCert × SelfCert
read_certs files selfcert serve =
    if is_true serve.tls_self then self_cert files selfcert else (read_files files serve, selfcert)

pub data Listener : Type 0 where
  web_socket : SocketAddr → Listener
  secure_web_socket web_transport : SocketAddr → TlsCert → Listener

-- A listener is made and started; how the libraries take it is an argument.
abbrev pub place_of : Listener → Start → Result Place
place_of (web_socket addr) how = Endpoint.start (socket (new_socket addr)) how
place_of (secure_web_socket addr cert) how = do
  l ← new_secure addr cert (is_valid how)
  Endpoint.start (socket l) how
place_of (web_transport addr cert) how = Endpoint.start (stream (new_stream addr cert)) how

abbrev pub started : (Listener → Start) → Listener → Result Listener
started try listener = place_of listener (try listener) >>= λ place. ok listener

-- A listener that needs a certificate.
abbrev pub with_certs :
    (Listener → Start)
    → (TlsCert → Listener)
    → Result TlsCert × SelfCert
    → Result Listener × SelfCert
with_certs try listener (r, selfcert) = ((do cert ← r; started try (listener cert)), selfcert)

-- The listener, before those of a loop.
abbrev pub and_then :
    Result Listener → List Listener × Result (Unit {0}) → List Listener × Result (Unit {0})
and_then (ok listener) (listeners, r) = (listener ∷ listeners, r)
and_then (err e) rest = ([], err e)
and_then panic rest = ([], panic)

-- The provider of `rustls` is installed once the settings are loaded, or `main` panics.
abbrev pub initialized : Bool → Option Settings → Result Settings
initialized installs loaded = if installs then get loaded else panic

module _ (files : Files) (try : Listener → Start) where
  -- A turn of the loop of `main`.
  unfoldable pub serve_one : SelfCert → ServeConfig → Result Listener × SelfCert
  serve_one selfcert serve =
      if text_eq serve.protocol (codes "ws")
      then (started try (web_socket serve.bind_address), selfcert)
      else if text_eq serve.protocol (codes "wss")
      then with_certs try (secure_web_socket serve.bind_address) (read_certs files selfcert serve)
      else if text_eq serve.protocol (codes "wt")
      then with_certs try (web_transport serve.bind_address) (read_certs files selfcert serve)
      else (panic, selfcert)

  -- The loop: the listeners that it starts, in order, and how it ends.
  unfoldable pub serve_all : SelfCert → List ServeConfig → List Listener × Result (Unit {0})
  serve_all selfcert [] = ([], ok tt)
  serve_all selfcert (serve ∷ serves) =
      let (r, selfcert') = serve_one selfcert serve in and_then r (serve_all selfcert' serves)

  -- `main`, up to where it waits for the listeners; whether `rustls` installs its provider.
  unfoldable pub start_up : Bytes → Bool → List Listener × Result (Unit {0})
  start_up config installs = elim (load files none config >>= initialized installs) [
    | err e ↦ ([], err e)
    | panic ↦ ([], panic)
    | ok settings ↦
        let listeners = serve_all no_cert settings.serve in
        if is_empty settings.serve then ([], err no_endpoints) else listeners
  ]
