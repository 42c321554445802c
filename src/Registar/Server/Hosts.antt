-- ===== src/Registar/Server/Hosts.antt =====
-- The hosts of internal/registar/server.go: `registerHost`, the function that it leaves to run when
-- the host's stream ends, and `Close`.
pub mod Laws
use mathlib.Core.Logic.{ite}
use native.Mathlib.Decide.{ℕ_discrete}
use star.Prelude.{ℕ, Option, none, some, List, [], ◌∷◌}
use star.Prelude.Dict.{get, put, delete}
use star.Registar.Ca.{remove_session_ca, new_session_cert}
use star.Registar.Server.{
  AddrPair, Agent, Server, Effect, reset, host_connected, host_disconnected,
  err_code_host_already_registered,
}

module _ {Key CA Addr : Type 0} (dec : Discrete Key) where
  unfoldable pub register_host :
      Server Key CA Addr → ℕ → Key → AddrPair Addr → Server Key CA Addr × List (Effect Key Addr)
  register_host s str key addrs = elim (get dec key s.hosts) [
    | some held ↦ (s, reset str err_code_host_already_registered ∷ [])
    | none ↦ (
      record s {
        hosts = put dec key (record { str = str; addrs = addrs }) s.hosts;
        watchers = put ℕ_discrete str (key, addrs) s.watchers;
      },
      host_connected key addrs ∷ [],
    )
  ]

  -- The end of a stream: its function runs, if it has one.
  unfoldable pub stream_closed :
      Server Key CA Addr → ℕ → Server Key CA Addr × List (Effect Key Addr)
  stream_closed s str = elim (get ℕ_discrete str s.watchers) [
    | none ↦ (s, [])
    | some (key, addrs) ↦ (
      record s {
        hosts = delete dec key s.hosts;
        watchers = delete ℕ_discrete str s.watchers;
        sessions = remove_session_ca dec s.sessions key;
      },
      host_disconnected key addrs ∷ [],
    )
  ]

  -- The loop of `Close`, over the entries of the table.
  close_hosts : List (Key × Agent Addr) → Server Key CA Addr → Server Key CA Addr
  close_hosts [] s = s
  close_hosts ((key, held) ∷ visited) s =
      close_hosts visited (record s {
        hosts = delete dec key s.hosts;
        sessions = remove_session_ca dec s.sessions key;
      })

  pub close : Server Key CA Addr → Server Key CA Addr
  unfolding close_hosts
  close s = close_hosts s.hosts s
