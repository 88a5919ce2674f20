-- ===== src/Startup/Listeners.antt =====
-- src/main.rs: the listeners that are started, and those that each block calls for on its own.
use lwproxy.Base.{
  ◌≡◌, ◌≢◌, refl, ◌∙◌, ap, Bool, true, false, not, ◌||◌, arith, List, [], ◌∷◌, none, some,
  Option-cases, ◌⊎◌, inl, inr, Bytes, All, if◌then◌else◌, is_empty, map,
}
use lwproxy.Result.{
  Result, ok, err, panic, ◌>>=◌, bind_panic, context-ne-panic, ensure-ne-panic, if_both,
  tls_cert_missing, tls_key_missing, cert_unopened, certs_unreadable, chain_empty, key_unopened,
  key_unreadable, key_empty,
}
use lwproxy.Text.{text_eq}
use lwproxy.Code.{codes}
use lwproxy.Endpoint.{TlsCert, Start, starts, refuses_tls, refuses_bind, start_socket, start_stream}
use lwproxy.Startup.{
  ServeConfig, Settings, Files, SelfCert, no_cert, self_cert, make_self_cert, load, read_files,
  is_true, read_certs, Listener, web_socket, secure_web_socket, web_transport, place_of, started,
  with_certs, serve_one, and_then, serve_all, start_up,
}

-- Making a listener and starting it never panics.
place_of-ne-panic : (listener : Listener) (how : Start) → place_of listener how ≢ panic
unfolding start_socket start_stream
place_of-ne-panic (web_socket addr) starts = ground arith
place_of-ne-panic (web_socket addr) refuses_tls = ground arith
place_of-ne-panic (web_socket addr) refuses_bind = ground arith
place_of-ne-panic (secure_web_socket addr cert) starts = ground arith
place_of-ne-panic (secure_web_socket addr cert) refuses_tls = ground arith
place_of-ne-panic (secure_web_socket addr cert) refuses_bind = ground arith
place_of-ne-panic (web_transport addr cert) starts = ground arith
place_of-ne-panic (web_transport addr cert) refuses_tls = ground arith
place_of-ne-panic (web_transport addr cert) refuses_bind = ground arith

-- The first listeners, up to a failure.
abbrev pub until_failure : List (Result Listener) → List Listener × Result (Unit {0})
until_failure [] = ([], ok tt)
until_failure (r ∷ rs) = and_then r (until_failure rs)

-- A block of one of the three protocols.
abbrev pub IsKnown : ServeConfig → Type 0
IsKnown serve =
    (text_eq serve.protocol (codes "ws")
      || text_eq serve.protocol (codes "wss")
      || text_eq serve.protocol (codes "wt"))
    ≡ true

module _ (files : Files) (try : Listener → Start) (cert : TlsCert) where
  -- The certificate of a block, where that which is generated is always the same.
  abbrev pub own_cert : ServeConfig → Result TlsCert
  own_cert serve = if is_true serve.tls_self then ok cert else read_files files serve

  abbrev pub own_listener : ServeConfig → Result Listener
  own_listener serve =
      if text_eq serve.protocol (codes "ws")
      then started try (web_socket serve.bind_address)
      else if text_eq serve.protocol (codes "wss")
      then (do c ← own_cert serve; started try (secure_web_socket serve.bind_address c))
      else if text_eq serve.protocol (codes "wt")
      then (do c ← own_cert serve; started try (web_transport serve.bind_address c))
      else panic

  -- Nothing was generated yet, or this certificate was kept.
  abbrev pub Holds : SelfCert → Type 0
  Holds selfcert = ((selfcert.cell ≡ none) × (selfcert.generated ≡ 0)) ⊎ (selfcert.cell ≡ some cert)

  module _ (generates : make_self_cert files 0 ≡ some cert) where
    self_cert-own :
        (selfcert : SelfCert)
        → Holds selfcert
        → ((self_cert files selfcert).0 ≡ ok cert) × Holds (self_cert files selfcert).1
    self_cert-own selfcert (inl (empty, first)) = rw (empty, first, generates) (refl, inr refl)
    self_cert-own selfcert (inr kept) = rw kept (refl, inr refl)

    choice-own :
        (b : Bool) (selfcert : SelfCert) (r : Result TlsCert)
        → Holds selfcert
        → ((if b then self_cert files selfcert else (r, selfcert)).0 ≡ (if b then ok cert else r))
          × Holds (if b then self_cert files selfcert else (r, selfcert)).1
    choice-own true selfcert r h = self_cert-own selfcert h
    choice-own false selfcert r h = (refl, h)

    read_certs-own :
        (selfcert : SelfCert) (serve : ServeConfig)
        → Holds selfcert
        → ((read_certs files selfcert serve).0 ≡ own_cert serve)
          × Holds (read_certs files selfcert serve).1
    unfolding read_certs
    read_certs-own selfcert serve h =
        choice-own (is_true serve.tls_self) selfcert (read_files files serve) h

    -- What a block needs of the ones before it.
    abbrev Own : Result Listener → Result Listener × SelfCert → Type 0
    Own r x = (x.0 ≡ r) × Holds x.1

    with_certs-Own :
        (secure : TlsCert → Listener) (x : Result TlsCert × SelfCert) (r : Result TlsCert)
        → (x.0 ≡ r) × Holds x.1
        → Own (do c ← r; started try (secure c)) (with_certs try secure x)
    with_certs-Own secure (x, selfcert) r (e, h) =
        (ap (λ y. y >>= λ c. started try (secure c)) e, h)

    if-Own :
        (b : Bool) (r r' : Result Listener) (x x' : Result Listener × SelfCert)
        → Own r x
        → Own r' x'
        → Own (if b then r else r') (if b then x else x')
    if-Own true r r' x x' h k = h
    if-Own false r r' x x' h k = k

    serve_one-Own :
        (selfcert : SelfCert) (serve : ServeConfig)
        → Holds selfcert
        → Own (own_listener serve) (serve_one files try selfcert serve)
    unfolding serve_one
    serve_one-Own selfcert serve h =
        let own = read_certs-own selfcert serve h in
        if-Own (text_eq serve.protocol (codes "ws")) _ _ _ _ (refl, h)
          (if-Own (text_eq serve.protocol (codes "wss")) _ _ _ _
            (with_certs-Own (secure_web_socket serve.bind_address) (read_certs files selfcert serve)
              (own_cert serve) own)
            (if-Own (text_eq serve.protocol (codes "wt")) _ _ _ _
              (with_certs-Own (web_transport serve.bind_address) (read_certs files selfcert serve)
                (own_cert serve) own)
              (refl, h)))

    -- Each call that generates a self-signed certificate may give another one. If the first
    -- succeeds, and none was made yet or the first is kept, the loop over the serve blocks starts
    -- the listeners that each block calls for when it is served alone with the certificate of that
    -- first call, in order and up to the first failure, which is how it ends: however many blocks
    -- ask for a self-signed certificate and however the others fare, they share the first.
    pub serve_all-own :
        (selfcert : SelfCert) (serves : List ServeConfig)
        → Holds selfcert
        → serve_all files try selfcert serves ≡ until_failure (map own_listener serves)
    unfolding serve_all
    serve_all-own selfcert [] h = refl
    serve_all-own selfcert (serve ∷ serves) h =
        let own = serve_one-Own selfcert serve h in
        ap (λ r. and_then r (serve_all files try (serve_one files try selfcert serve).1 serves))
          own.0
        ∙ ap (and_then (own_listener serve))
            (serve_all-own (serve_one files try selfcert serve).1 serves own.1)

  started-ne-panic : (listener : Listener) → started try listener ≢ panic
  started-ne-panic listener =
      bind_panic (place_of listener (try listener)) (λ place. ok listener)
        (place_of-ne-panic listener (try listener)) (λ place. ground arith)

  read_files-ne-panic : (serve : ServeConfig) → read_files files serve ≢ panic
  read_files-ne-panic serve =
      bind_panic _ _ (context-ne-panic serve.tls_cert tls_cert_missing) (λ tls_cert.
        bind_panic _ _ (context-ne-panic serve.tls_key tls_key_missing) (λ tls_key.
          bind_panic _ _ (context-ne-panic (files.open_file tls_cert) cert_unopened) (λ chain.
            bind_panic _ _ (context-ne-panic (files.certs chain) certs_unreadable) (λ chain'.
              bind_panic _ _ (ensure-ne-panic (not (is_empty chain')) chain_empty) (λ u.
                bind_panic _ _ (context-ne-panic (files.open_file tls_key) key_unopened) (λ keys.
                  bind_panic _ _ (context-ne-panic (files.private_key keys) key_unreadable) (λ key.
                    bind_panic _ _ (context-ne-panic key key_empty) (λ key'. ground arith))))))))

  own_cert-ne-panic : (serve : ServeConfig) → own_cert serve ≢ panic
  own_cert-ne-panic serve =
      if_both (λ r. r ≢ panic) (is_true serve.tls_self) _ _ (ground arith)
        (read_files-ne-panic serve)

  known-ne-panic :
      (a b c : Bool) (x y z : Result Listener)
      → (a || b || c) ≡ true
      → x ≢ panic
      → y ≢ panic
      → z ≢ panic
      → (if a then x else if b then y else if c then z else panic) ≢ panic
  known-ne-panic true b c x y z known h k l = h
  known-ne-panic false true c x y z known h k l = k
  known-ne-panic false false true x y z known h k l = l
  known-ne-panic false false false x y z known h k l = cc

  own_listener-ne-panic : (serve : ServeConfig) → IsKnown serve → own_listener serve ≢ panic
  own_listener-ne-panic serve known =
      known-ne-panic (text_eq serve.protocol (codes "ws")) (text_eq serve.protocol (codes "wss"))
        (text_eq serve.protocol (codes "wt")) _ _ _ known
        (started-ne-panic (web_socket serve.bind_address))
        (bind_panic _ _ (own_cert-ne-panic serve)
          (λ c. started-ne-panic (secure_web_socket serve.bind_address c)))
        (bind_panic _ _ (own_cert-ne-panic serve)
          (λ c. started-ne-panic (web_transport serve.bind_address c)))

  and_then-ne-panic :
      (r : Result Listener) (rest : List Listener × Result (Unit {0}))
      → r ≢ panic
      → rest.1 ≢ panic
      → (and_then r rest).1 ≢ panic
  and_then-ne-panic (ok l) rest h k = k
  and_then-ne-panic (err e) rest h k = ground arith
  and_then-ne-panic panic rest h k = absurd (h refl)

  listeners-ne-panic :
      (serves : List ServeConfig)
      → All IsKnown serves
      → (until_failure (map own_listener serves)).1 ≢ panic
  listeners-ne-panic [] known = ground arith
  listeners-ne-panic (serve ∷ serves) known =
      and_then-ne-panic (own_listener serve) _ (own_listener-ne-panic serve known.0)
        (listeners-ne-panic serves known.1)

  -- If `rustls` installs its provider, as it does for the first call in a process, the first
  -- self-signed certificate can be generated and every serve block of the settings names one of the
  -- three protocols, then start-up never panics, from where it loads the settings until it waits
  -- for the listeners, whatever files are missing or malformed and whichever listeners fail to
  -- start.
  pub start_up-ne-panic :
      (config : Bytes) (installs : Bool)
      → make_self_cert files 0 ≡ some cert
      → installs ≡ true
      → ((settings : Settings) → files.settings config ≡ some settings → All IsKnown settings.serve)
      → (start_up files try config installs).1 ≢ panic
  unfolding start_up load
  start_up-ne-panic config installs generates installed known =
      elim (Option-cases (files.settings config)) [
        | inl e ↦ rw (e, start_up, load) (ground arith)
        | inr (settings, e) ↦
            rw (e, installed, start_up, load)
              (if_both (λ (x : List Listener × Result (Unit {0})). x.1 ≢ panic)
                (is_empty settings.serve) _ _ (ground arith)
                (rw (serve_all-own generates no_cert settings.serve (inl (refl, refl)))
                  (listeners-ne-panic settings.serve (known settings e))))
      ]
