-- ===== src/Registar/Server/Register.antt =====
-- `Register` of internal/registar/server.go, the handler of `POST /host` and `POST /join`, and the
-- steps that it and the other handlers take between two locks, in any order.
pub mod Laws
pub mod Admits
pub mod Handover
use native.Mathlib.Decide.{ℕ_discrete}
use star.Prelude.{ℕ, ◌≡◌, Bool, true, false, Option, none, some, List, [], ◌∷◌, if◌then◌else◌}
use star.Prelude.Dict.{get}
use star.Registar.Ca.{new_session_cert}
use star.Registar.Server.{AddrPair, Server, Effect, new_server}
use star.Registar.Server.Hosts.{register_host, stream_closed}
use star.Registar.Server.Peers.{Exchanges, connect_peer}
use star.Registar.Server.Relays.{register_conn}
use star.Registar.Server.Relays.Laws.{Event, step}

pub record RegisterRequest (Csr Addr : Type 0) : Type 0 where
  pub csr : Csr
  pub private_addr : Addr

-- What the handler meets: the body, the making of an authority, whether the answer can be encoded,
-- the connection of the context with its remote address, and the stream, `none` if it cannot be
-- taken over.
pub record Call (CA Csr Addr : Type 0) : Type 0 where
  pub body : Option (RegisterRequest Csr Addr)
  pub fresh : Option CA
  pub encoded : Bool
  pub conn : Option (ℕ × Addr)
  pub taken : Option ℕ
  pub exchanges : Exchanges

-- A panic is the call of a method of the nil stream.
pub data Reply (Key Addr : Type 0) : Type 0 where
  http_error : ℕ → Reply Key Addr
  panicked : Reply Key Addr
  overtaken : List (Effect Key Addr) → Reply Key Addr

module _ {Key CA Csr Cert Addr : Type 0} (dec : Discrete Key) (sign : CA → Csr → Option Cert) where
  -- `NewSessionCert` for a player of the game of `key`, whether a certificate comes out or not.
  unfoldable pub certify : Server Key CA Addr → Key → Csr → Option CA → Server Key CA Addr
  certify s key csr fresh = record s {
    sessions = (new_session_cert dec sign s.sessions key csr fresh).0;
  }

  -- The end of the handler, once the answer is written.
  pub take_over :
      Server Key CA Addr
      → Key
      → Bool
      → ℕ
      → AddrPair Addr
      → Exchanges
      → Server Key CA Addr × List (Effect Key Addr)
  take_over s key true str addrs exchanges = register_host dec s str key addrs
  take_over s key false str addrs exchanges = connect_peer dec s str key addrs exchanges

  -- The part of the handler that has a certificate.
  pub admit :
      Server Key CA Addr
      → Key
      → Bool
      → RegisterRequest Csr Addr
      → Call CA Csr Addr
      → Server Key CA Addr × Reply Key Addr
  admit s key is_host req call =
      if call.encoded
      then elim call.conn [
        | none ↦ (s, http_error 500)
        | some (conn, public_addr) ↦
            let s' = register_conn s conn in
            elim call.taken [
              | none ↦ (s', panicked)
              | some str ↦
                  let addrs : AddrPair Addr = record {
                    public_addr = public_addr;
                    private_addr = req.private_addr;
                  } in
                  let result = take_over s' key is_host str addrs call.exchanges in
                  (result.0, overtaken result.1)
            ]
      ]
      else (s, http_error 500)

  pub register :
      Server Key CA Addr → Key → Bool → Call CA Csr Addr → Server Key CA Addr × Reply Key Addr
  register s key is_host call = elim call.body [
    | none ↦ (s, http_error 400)
    | some req ↦
        let s' = certify s key req.csr call.fresh in
        elim (new_session_cert dec sign s.sessions key req.csr call.fresh).1 [
          | none ↦ (s', http_error 500)
          | some issued ↦ admit s' key is_host req call
        ]
  ]

  -- One step of the open server. The stream of a new host is new.
  pub data Step : Server Key CA Addr → Server Key CA Addr → Type 0 where
    certifies :
        (s : Server Key CA Addr) (key : Key) (csr : Csr) (fresh : Option CA)
        → Step s (certify s key csr fresh)
    hosts_game :
        (s : Server Key CA Addr) (str : ℕ) (key : Key) (addrs : AddrPair Addr)
        → get ℕ_discrete str s.watchers ≡ none
        → Step s (register_host dec s str key addrs).0
    joins_game :
        (s : Server Key CA Addr) (str : ℕ) (key : Key) (addrs : AddrPair Addr) (e : Exchanges)
        → Step s (connect_peer dec s str key addrs e).0
    ends_stream : (s : Server Key CA Addr) (str : ℕ) → Step s (stream_closed dec s str).0
    relays_event : (s : Server Key CA Addr) (e : Event) → Step s (step s e)

  pub data Reachable : Server Key CA Addr → Type 0 where
    start : Reachable (new_server Key CA Addr)
    next : (s t : Server Key CA Addr) → Reachable s → Step s t → Reachable t
