-- ===== src/Server/Builder.antt =====
-- `Builder` of xvc-server/src/server.rs: a configuration under construction.
use xvc_rs.Prelude.{ℕ}
use xvc_rs.Server.{Config, default_config}
use xvc_rs.Server.Listen
use xvc_rs.Server.Listen.{Listener}

-- `Builder::new`
abbrev pub new : Config
new = default_config

unfoldable pub max_vector_size : Config → ℕ → Config
max_vector_size c size = record c { max_vector_size = size }

unfoldable pub rw_timeout : Config → ℕ → Config
rw_timeout c timeout = record c { read_write_timeout = timeout }

-- `Builder::build`: the server, with its configuration.
unfoldable pub build : {H : Type 0} → Config → H → Config × Listener H
build config server = (config, Listen.new server)
