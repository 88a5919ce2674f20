-- ===== src/Tests/StartupTests.antt =====
-- Start-up: two blocks that share the certificate that is generated, and one with its own.
use mathlib.Core.Path.{subst}
use lwproxy.Base.{inl, ◌+◌, some_inj, ◌≡◌, ◌≢◌, refl, [], ◌∷◌, none, some, true, All, map}
use lwproxy.Result.{err, panic, tls_key_missing}
use lwproxy.Net.{v4, SocketAddr}
use lwproxy.Code.{codes}
use lwproxy.Endpoint.{TlsCert, Start, starts, refuses_bind}
use lwproxy.Startup.{
  ServeConfig, Settings, Files, Listener, web_socket, secure_web_socket, web_transport, serve_all,
  no_cert, start_up,
}
use lwproxy.Startup.Listeners.{
  IsKnown, own_listener, until_failure, serve_all-own, start_up-ne-panic,
}

abbrev at : SocketAddr
at = record { ip = v4 0; port = 8888 }

abbrev plain : ServeConfig
plain = record {
  protocol = codes "ws";
  bind_address = at;
  tls_cert = none;
  tls_key = none;
  tls_self = none;
}

abbrev self_signed : ServeConfig
self_signed = record plain { protocol = codes "wss"; tls_self = some true }

abbrev transport : ServeConfig
transport = record plain { protocol = codes "wt"; tls_self = some true }

abbrev keyless : ServeConfig
keyless = record plain { protocol = codes "wt"; tls_cert = some (codes "cert.pem") }

abbrev generated : TlsCert
generated = record { chain = (1 ∷ []) ∷ []; key = 2 ∷ [] }

abbrev settings : Settings
settings = record {
  serve = plain ∷ self_signed ∷ transport ∷ keyless ∷ [];
  http_proxy = record { allowed_hosts = [] };
}

abbrev files : Files
files = record {
  settings = λ path. some settings;
  open_file = λ path. some path;
  certs = λ content. some (content ∷ []);
  private_key = λ content. some (some content);
  generate_simple_self_signed = λ n. some ((1 + n) ∷ [], (2 + n) ∷ []);
}

abbrev try : Listener → Start
try listener = starts

start_up_runs : start_up files try (codes "settings.toml") true ≡ (
  web_socket at ∷ secure_web_socket at generated ∷ web_transport at generated ∷ [],
  err tls_key_missing,
)
unfolding start_up lwproxy.Startup.load serve_all lwproxy.Startup.serve_one
    lwproxy.Startup.read_certs lwproxy.Startup.make_self_cert lwproxy.Endpoint.start_socket
    lwproxy.Endpoint.start_stream
start_up_runs = refl

serve_all-own_example :
    serve_all files try no_cert settings.serve
    ≡ until_failure (map (own_listener files try generated) settings.serve)
unfolding lwproxy.Startup.make_self_cert
serve_all-own_example =
    serve_all-own files try generated refl no_cert settings.serve (inl (refl, refl))

settings-IsKnown :
    (s : Settings) → files.settings (codes "settings.toml") ≡ some s → All IsKnown s.serve
settings-IsKnown s e =
    subst (λ (x : Settings). All IsKnown x.serve) (some_inj e) (refl, (refl, (refl, (refl, tt))))

start_up-ne-panic_example : (start_up files try (codes "settings.toml") true).1 ≢ panic
unfolding lwproxy.Startup.make_self_cert
start_up-ne-panic_example =
    start_up-ne-panic files try generated (codes "settings.toml") true refl refl settings-IsKnown
