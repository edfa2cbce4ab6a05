-- ===== src/Server/Listen/Live.antt =====
-- The accept loop gets free again.
use xvc_rs.Prelude.{◌≡◌, ◌⊎◌, some, []}
use xvc_rs.Rw.Write.{Writer}
use xvc_rs.TokioCodec.Buffer.{Buffer}
use xvc_rs.Server.{XvcServer, Config}
use xvc_rs.Server.Listen.{Listener, Step}

module _ (b : Buffer) {H E W : Type 0} (server : XvcServer H E) (writer : Writer W)
    (config : Config) (w : W) where
  -- The state, or one that the end of a task leads to, has the hardware in the mutex and no client.
  abbrev pub GetsFree : Listener H → Type 0
  GetsFree s =
      (s' : Listener H) × ((s' ≡ s) ⊎ Step b server writer config w s s')
      × ((h : H) × (s'.free ≡ some h))
      × (s'.active ≡ [])
