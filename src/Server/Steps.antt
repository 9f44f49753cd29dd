-- ===== src/Server/Steps.antt =====
-- Every callback of the event loop ends and keeps the server sound.
use sockify.Prelude.{◌≡◌, Option, none, some, []}
use sockify.Config.{ProxyConfig}
use sockify.Server.{Server}
use sockify.Server.Inv.{IsSound}
use sockify.Session.{Session}

-- A callback that ends, on a sound server with the configuration it had.
abbrev pub Served : {W : Type 0} → ProxyConfig → Option (Server × W) → Type 0
Served config none = ⊥
Served config (some (server, w)) = IsSound server × (server.config ≡ config)

-- A session as `calloc` and the parser's set-up leave it.
record IsFresh (s : Session) : Type 0 where
  not_closing : s.closing ≡ 0
  no_request : s.handshake ≡ []
