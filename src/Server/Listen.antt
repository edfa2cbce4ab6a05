-- ===== src/Server/Listen.antt =====
-- `Server::listen_on` of xvc-server/src/server.rs: the accept loop, the mutex round the backend, and
-- the tasks that it spawns, in any interleaving.
pub mod Live
use xvc_rs.Prelude.{
  ℕ, ◌≡◌, ◌≢◌, refl, sym, ◌∙◌, ap, ◌⊎◌, inl, inr, Option, some, none, List, [], ◌∷◌, ◌++◌, Outcome,
  ok, err, panic,
}
use xvc_rs.Errors.{IoError}
use xvc_rs.Rw.Write.{Writer}
use xvc_rs.TokioCodec.Buffer.{Buffer}
use xvc_rs.Server.{XvcServer, Config}
use xvc_rs.Server.Session.{ReadEvent, Ended, handle_client}

-- A client's connection is what its reads come to.
abbrev pub Connection : Type 0
Connection = List ReadEvent

-- What `tokio::select!` comes to in one round of the loop. With an accepted connection comes what
-- `set_nodelay` makes of it.
pub data Turn : Type 0 where
  cancelled : Turn
  accepted : Connection → Outcome IoError (Unit {0}) → Turn
  refused : IoError → Turn

-- `Server` while it listens. The mutex holds the backend's hardware where `free` has it; a task
-- that holds the guard is in `active`. `result` is that of `listen_on`, as soon as it returns, and
-- `served` are the clients whose tasks have ended, in order.
pub record Listener (H : Type 0) : Type 0 where
  pub free : Option H
  pub active : List (Connection × H)
  pub served : List Connection
  pub result : Option (Outcome IoError (Unit {0}))

-- `Server::new`
unfoldable pub new : {H : Type 0} → H → Listener H
new h = record { free = some h; active = []; served = []; result = none }

module _ {H : Type 0} where
  -- `try_lock_owned`, `set_nodelay(true)?` and the spawned task. The guard is given back where the
  -- connection is dropped or the loop returns.
  unfoldable pub admit :
      Connection → Outcome IoError (Unit {0}) → Option H → Listener H → Listener H
  admit c no_delay none s = s
  admit c (ok _) (some h) s = record s { free = none; active = (c, h) ∷ s.active }
  admit c (err e) (some h) s = record s { result = some (err e) }
  admit c panic (some h) s = record s { result = some panic }

  -- One round of the loop.
  unfoldable pub turn : Turn → Listener H → Listener H
  unfolding admit
  turn cancelled s = record s { result = some (ok tt) }
  turn (accepted c no_delay) s = admit c no_delay s.free s
  turn (refused e) s = s

module _ (b : Buffer) {H E W : Type 0} (server : XvcServer H E) (writer : Writer W)
    (config : Config) (w : W) where
  -- What can happen next: a round of the loop while it runs, or the end of any task's client.
  pub data Step : Listener H → Listener H → Type 0 where
    turns : (s : Listener H) (t : Turn) → s.result ≡ none → Step s (turn t s)
    ends :
        (s : Listener H) (before after : List (Connection × H)) (c : Connection) (h : H) (fuel : ℕ)
        (ended : Ended H W)
        → s.active ≡ before ++ (c, h) ∷ after
        → handle_client b server writer config fuel c [] h w ≡ some ended
        → Step s (record s {
          free = some ended.hardware;
          active = before ++ after;
          served = s.served ++ c ∷ [];
        })

  pub data Reachable (h : H) : Listener H → Type 0 where
    starts : Reachable h (new h)
    steps : (s s' : Listener H) → Reachable h s → Step s s' → Reachable h s'

  -- `handle_client` on one connection after the other, each on the hardware that the last one left.
  pub data Runs : H → List Connection → H → Type 0 where
    rests : (h : H) → Runs h [] h
    runs :
        (h h' : H) (cs : List Connection) (c : Connection) (fuel : ℕ) (ended : Ended H W)
        → Runs h cs h'
        → handle_client b server writer config fuel c [] h' w ≡ some ended
        → Runs h (cs ++ c ∷ []) ended.hardware

  -- The clients that were served have had the hardware one after the other. What they left is in
  -- the mutex and no task runs, or one task has it and the mutex is locked.
  abbrev pub Serial : H → Listener H → Type 0
  Serial h s =
      (h' : H) × Runs h s.served h'
      × (((s.free ≡ some h') × (s.active ≡ []))
          ⊎ ((s.free ≡ none) × ((c : Connection) × (s.active ≡ (c, h') ∷ []))))

  admit-Serial :
      (h : H) (c : Connection) (no_delay : Outcome IoError (Unit {0})) (free : Option H)
      (s : Listener H)
      → s.free ≡ free
      → Serial h s
      → Serial h (admit c no_delay free s)
  unfolding admit
  admit-Serial h c no_delay none s e inv = inv
  admit-Serial h c (ok _) (some x) s e (h', r, inl (f, a)) = (h', r, inr (refl, (c, cc (e, f, a))))
  admit-Serial h c (ok _) (some x) s e (h', r, inr (f, a)) = cc (e, f)
  admit-Serial h c (err _) (some x) s e inv = inv
  admit-Serial h c panic (some x) s e inv = inv

  turn-Serial : (h : H) (t : Turn) (s : Listener H) → Serial h s → Serial h (turn t s)
  unfolding turn
  turn-Serial h cancelled s inv = inv
  turn-Serial h (accepted c no_delay) s inv = admit-Serial h c no_delay s.free s refl inv
  turn-Serial h (refused e) s inv = inv

  -- The only task there is.
  one_task :
      (before after : List (Connection × H)) (c c' : Connection) (h h' : H)
      → (c, h) ∷ [] ≡ before ++ (c', h') ∷ after
      → (before ++ after ≡ []) × (h ≡ h')
  one_task [] [] c c' h h' e = (refl, cc)
  one_task [] (t ∷ after) c c' h h' e = cc
  one_task (t ∷ []) after c c' h h' e = cc
  one_task (t ∷ u ∷ before) after c c' h h' e = cc

  some_task :
      (before : List (Connection × H)) (t : Connection × H) (after : List (Connection × H))
      → [] ≢ before ++ t ∷ after
  some_task [] t after e = cc e
  some_task (u ∷ before) t after e = cc e

  Step-Serial : (h : H) (s s' : Listener H) → Step s s' → Serial h s → Serial h s'
  Step-Serial h s _ (turns _ t _) inv = turn-Serial h t s inv
  Step-Serial h s _ (ends _ before after c x fuel ended a run) (h', r, inl (f, none_runs)) =
      absurd (some_task before (c, x) after (sym none_runs ∙ a))
  Step-Serial h s _ (ends _ before after c x fuel ended a run) (h', r, inr (f, (c', one))) =
      let (nothing, same) = one_task before after c' c h' x (sym one ∙ a) in
      (
        ended.hardware,
        runs h h' s.served c fuel ended r
            (ap (λ y. handle_client b server writer config fuel c [] y w) same ∙ run),
        inl (refl, nothing),
      )

  -- In every state that the accept loop and the clients' tasks reach from a new server, in any order
  -- of connections, failures of `accept` and of `set_nodelay`, ends of tasks and the shutdown, there
  -- is hardware that results from `handle_client` on the clients that were served, one after the
  -- other; and either the mutex is free and holds that hardware and no client is active, or the
  -- mutex is locked and exactly one client is active, which has that hardware.
  pub Reachable-Serial : (h : H) (s : Listener H) → Reachable h s → Serial h s
  unfolding new
  Reachable-Serial h s starts = (h, rests h, inl (refl, refl))
  Reachable-Serial h s (steps s₀ _ r step) = Step-Serial h s₀ s step (Reachable-Serial h s₀ r)
