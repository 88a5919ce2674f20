-- ===== src/Listen/Serving.antt =====
-- src/websocket/runner.rs, src/webtransport/runner.rs: a server's listeners over their life, and what
-- the accept loops do to the proxy.
use lwproxy.Proxy
use lwproxy.Proxy.{Proxy}
