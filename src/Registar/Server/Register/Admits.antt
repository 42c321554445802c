-- ===== src/Registar/Server/Register/Admits.antt =====
-- Whom `Register` of internal/registar/server.go makes a host, and which connections it registers.
use mathlib.Core.Logic.{ite}
use native.Mathlib.Decide.{ℕ_discrete}
use star.Prelude.{
  ℕ, ◌≡◌, refl, inl, inr, Bool, true, false, Option, none, some, arith, Option-cases, ap, sym,
  subst,
}
use star.Prelude.Dict.{get, put, get-put}
use star.Registar.Ca.{new_session_cert}
use star.Registar.Server.{AddrPair, Agent, Server}
use star.Registar.Server.Hosts.{register_host}
use star.Registar.Server.Peers.{Exchanges, connect_peer}
use star.Registar.Server.Peers.Laws.{connect_peer_lem}
use star.Registar.Server.Relays.{register_conn}
use star.Registar.Server.Register.{RegisterRequest, Call, certify, take_over, admit, register}

abbrev pub is_given : {A : Type 0} → Option A → Bool
is_given none = false
is_given (some a) = true

module _ {Csr Addr : Type 0} where
  -- The connection, if nothing fails before: the body is read, a certificate is issued and sent, and the
  -- context has a connection.
  abbrev pub arrived :
      Option (RegisterRequest Csr Addr) → Bool → Bool → Option (ℕ × Addr) → Option ℕ
  arrived (some req) true true (some (conn, public_addr)) = some conn
  arrived (some req) true true none = none
  arrived (some req) true false conn = none
  arrived (some req) false encoded conn = none
  arrived none issued encoded conn = none

  -- The host, if the client asks to be one, nothing fails, its stream can be taken over, and the key is
  -- free. It has the public address of its connection and the private one of its request.
  abbrev pub new_host :
      Bool
      → Option (RegisterRequest Csr Addr)
      → Bool
      → Bool
      → Option (ℕ × Addr)
      → Option ℕ
      → Bool
      → Option (Agent Addr)
  new_host true (some req) true true (some (conn, public_addr)) (some str) false = some (record {
    str = str;
    addrs = record { public_addr = public_addr; private_addr = req.private_addr };
  })
  new_host true (some req) true true (some (conn, public_addr)) (some str) true = none
  new_host true (some req) true true (some (conn, public_addr)) none held = none
  new_host true (some req) true true none taken held = none
  new_host true (some req) true false conn taken held = none
  new_host true (some req) false encoded conn taken held = none
  new_host true none issued encoded conn taken held = none
  new_host false body issued encoded conn taken held = none

-- An entry that is replaced if a value comes.
abbrev pub with_new : {K V : Type 0} → Discrete K → K → Option V → K → Option V → Option V
with_new dec key none k old = old
with_new dec key (some v) k old = ite (dec key k) (some v) old

module _ {Key CA Addr : Type 0} (dec : Discrete Key) where
  register_host_table :
      (s : Server Key CA Addr) (str : ℕ) (key k : Key) (addrs : AddrPair Addr)
      → get dec k (register_host dec s str key addrs).0.hosts ≡ elim (get dec key s.hosts) [
        | none ↦ ite (dec key k) (some (record { str = str; addrs = addrs })) (get dec k s.hosts)
        | some held ↦ get dec k s.hosts
      ]
  unfolding register_host
  register_host_table s str key k addrs = elim (Option-cases (get dec key s.hosts)) [
    | inl free ↦
        ground (arith, free, get-put dec key k (record { str = str; addrs = addrs }) s.hosts)
    | inr (held, q) ↦ ground (arith, q)
  ]

  register_host_conns :
      (s : Server Key CA Addr) (str : ℕ) (key : Key) (addrs : AddrPair Addr)
      → (register_host dec s str key addrs).0.registered_conns ≡ s.registered_conns
  unfolding register_host
  register_host_conns s str key addrs = elim (Option-cases (get dec key s.hosts)) [
    | inl free ↦ ground (arith, free)
    | inr (held, q) ↦ ground (arith, q)
  ]

  connect_peer_tables :
      (s : Server Key CA Addr) (str : ℕ) (key : Key) (addrs : AddrPair Addr) (e : Exchanges)
      → ((connect_peer dec s str key addrs e).0.hosts ≡ s.hosts)
        × ((connect_peer dec s str key addrs e).0.registered_conns ≡ s.registered_conns)
  connect_peer_tables s str key addrs e = rw (connect_peer_lem dec s str key addrs e) (refl, refl)

-- The entries of two tables, as functions of their keys.
abbrev pub Becomes :
    {Key CA Addr : Type 0}
    → Discrete Key
    → Server Key CA Addr
    → Key
    → Option (Agent Addr)
    → Option ℕ
    → Server Key CA Addr
    → Type 0
Becomes dec s key agent conn t =
    ((k : _) → get dec k t.hosts ≡ with_new dec key agent k (get dec k s.hosts))
    × ((c : ℕ)
        → get ℕ_discrete c t.registered_conns ≡ elim conn [
          | none ↦ get ℕ_discrete c s.registered_conns
          | some added ↦ ite (ℕ_discrete added c) (some tt) (get ℕ_discrete c s.registered_conns)
        ])

module _ {Key CA Csr Cert Addr : Type 0} (dec : Discrete Key) (sign : CA → Csr → Option Cert) where
  take_over-Becomes :
      (s t : Server Key CA Addr) (key : Key) (is_host : Bool) (req : RegisterRequest Csr Addr)
      (conn str : ℕ) (public_addr : Addr) (e : Exchanges)
      → t.hosts ≡ s.hosts
      → t.registered_conns ≡ put ℕ_discrete conn tt s.registered_conns
      → Becomes dec s key
          (new_host is_host
            (some req)
            true
            true
            (some (conn, public_addr))
            (some str)
            (is_given (get dec key s.hosts)))
          (some conn)
          (take_over dec sign t key is_host str
            (record { public_addr = public_addr; private_addr = req.private_addr })
            e).0
  unfolding take_over
  take_over-Becomes s t key true req conn str public_addr e h r = (
    λ k. elim (Option-cases (get dec key s.hosts)) [
      | inl free ↦ ground (
        arith,
        free,
        h,
        register_host_table dec t str key k
            (record { public_addr = public_addr; private_addr = req.private_addr }),
      )
      | inr (held, q) ↦ ground (
        arith,
        q,
        h,
        register_host_table dec t str key k
            (record { public_addr = public_addr; private_addr = req.private_addr }),
      )
    ],
    λ c. ground (
      arith,
      r,
      register_host_conns dec t str key
          (record { public_addr = public_addr; private_addr = req.private_addr }),
      get-put ℕ_discrete conn c tt s.registered_conns,
    ),
  )
  take_over-Becomes s t key false req conn str public_addr e h r =
      let same =
        connect_peer_tables dec t str key
          (record { public_addr = public_addr; private_addr = req.private_addr }) e in
      (
        λ k. ground (arith, h, same.0),
        λ c. ground (arith, r, same.1, get-put ℕ_discrete conn c tt s.registered_conns),
      )

  stays :
      (s t : Server Key CA Addr) (key : Key)
      → t.hosts ≡ s.hosts
      → t.registered_conns ≡ s.registered_conns
      → Becomes dec s key none none t
  stays s t key h r = (λ k. ground (arith, h), λ c. ground (arith, r))

  admit-Becomes :
      (s t : Server Key CA Addr) (key : Key) (is_host : Bool) (req : RegisterRequest Csr Addr)
      (body : Option (RegisterRequest Csr Addr)) (fresh : Option CA) (encoded : Bool)
      (conn : Option (ℕ × Addr)) (taken : Option ℕ) (e : Exchanges)
      → t.hosts ≡ s.hosts
      → t.registered_conns ≡ s.registered_conns
      → Becomes dec s key
          (new_host is_host (some req) true encoded conn taken (is_given (get dec key s.hosts)))
          (arrived (some req) true encoded conn)
          (admit dec sign t key is_host req (record {
            body = body;
            fresh = fresh;
            encoded = encoded;
            conn = conn;
            taken = taken;
            exchanges = e;
          })).0
  unfolding admit register_conn
  admit-Becomes s t key true req body fresh false conn taken e h r = stays s t key h r
  admit-Becomes s t key false req body fresh false conn taken e h r = stays s t key h r
  admit-Becomes s t key true req body fresh true none taken e h r = stays s t key h r
  admit-Becomes s t key false req body fresh true none taken e h r = stays s t key h r
  admit-Becomes s t key true req body fresh true (some (conn, addr)) none e h r = (
    λ k. ground (arith, h),
    λ c. ground (arith, r, get-put ℕ_discrete conn c tt s.registered_conns),
  )
  admit-Becomes s t key false req body fresh true (some (conn, addr)) none e h r = (
    λ k. ground (arith, h),
    λ c. ground (arith, r, get-put ℕ_discrete conn c tt s.registered_conns),
  )
  admit-Becomes s t key true req body fresh true (some (conn, addr)) (some str) e h r =
      take_over-Becomes s (register_conn t conn) key true req conn str addr e h
        (ap (put ℕ_discrete conn tt) r)
  admit-Becomes s t key false req body fresh true (some (conn, addr)) (some str) e h r =
      take_over-Becomes s (register_conn t conn) key false req conn str addr e h
        (ap (put ℕ_discrete conn tt) r)

  abbrev pub is_issued :
      Server Key CA Addr → Key → Option (RegisterRequest Csr Addr) → Option CA → Bool
  is_issued s key none fresh = false
  is_issued s key (some req) fresh =
      is_given (new_session_cert dec sign s.sessions key req.csr fresh).1

  unissued :
      (s t : Server Key CA Addr) (key : Key) (is_host : Bool) (req : RegisterRequest Csr Addr)
      (encoded : Bool) (conn : Option (ℕ × Addr)) (taken : Option ℕ) (held : Bool)
      → t.hosts ≡ s.hosts
      → t.registered_conns ≡ s.registered_conns
      → Becomes dec s key
          (new_host is_host (some req) false encoded conn taken held)
          (arrived (some req) false encoded conn)
          t
  unissued s t key true req encoded conn taken held h r = stays s t key h r
  unissued s t key false req encoded conn taken held h r = stays s t key h r

  register-Becomes :
      (s : Server Key CA Addr) (key : Key) (is_host : Bool)
      (body : Option (RegisterRequest Csr Addr)) (fresh : Option CA) (encoded : Bool)
      (conn : Option (ℕ × Addr)) (taken : Option ℕ) (e : Exchanges)
      → Becomes dec s key
          (new_host is_host body
            (is_issued s key body fresh)
            encoded
            conn
            taken
            (is_given (get dec key s.hosts)))
          (arrived body (is_issued s key body fresh) encoded conn)
          (register dec sign s key is_host (record {
            body = body;
            fresh = fresh;
            encoded = encoded;
            conn = conn;
            taken = taken;
            exchanges = e;
          })).0
  unfolding register certify
  register-Becomes s key true none fresh encoded conn taken e = stays s s key refl refl
  register-Becomes s key false none fresh encoded conn taken e = stays s s key refl refl
  register-Becomes s key is_host (some req) fresh encoded conn taken e =
      let call : Call CA Csr Addr = record {
        body = some req;
        fresh = fresh;
        encoded = encoded;
        conn = conn;
        taken = taken;
        exchanges = e;
      } in
      let certified = certify dec sign s key req.csr fresh in
      let held = is_given (get dec key s.hosts) in
      let Outcome = λ (b : Bool) (t : Server Key CA Addr).
        Becomes dec s key (new_host is_host (some req) b encoded conn taken held)
          (arrived (some req) b encoded conn) t in
      elim (Option-cases (new_session_cert dec sign s.sessions key req.csr fresh).1) [
        | inl bad ↦
            let p : (register dec sign s key is_host call).0 ≡ certified =
              rw (register, bad) refl in
            let q : is_issued s key (some req) fresh ≡ false = ap is_given bad in
            subst (λ b. Outcome b (register dec sign s key is_host call).0) (sym q)
              (subst (Outcome false) (sym p)
                (unissued s certified key is_host req encoded conn taken held refl refl))
        | inr (issued, ok) ↦
            let p : (register dec sign s key is_host call).0
                ≡ (admit dec sign certified key is_host req call).0 =
              rw (register, ok) refl in
            let q : is_issued s key (some req) fresh ≡ true = ap is_given ok in
            subst (λ b. Outcome b (register dec sign s key is_host call).0) (sym q)
              (subst (Outcome true) (sym p) (
                admit-Becomes s certified key is_host req (some req) fresh encoded conn taken e refl
                  refl))
      ]

  -- `Register` gives a key a host exactly if the client asks to be one, its body is read, a certificate is
  -- issued and sent, the connection is found, the stream can be taken over and the key is free: its
  -- stream, with the address of the connection and that of the request. Every other key, and the key in
  -- any other case, keeps what it has. The connection is registered exactly if the answer was sent and the
  -- connection is found.
  pub register_lem :
      (s : Server Key CA Addr) (key : Key) (is_host : Bool) (call : Call CA Csr Addr)
      → Becomes dec s key
          (new_host is_host call.body
            (is_issued s key call.body call.fresh)
            call.encoded
            call.conn
            call.taken
            (is_given (get dec key s.hosts)))
          (arrived call.body (is_issued s key call.body call.fresh) call.encoded call.conn)
          (register dec sign s key is_host call).0
  register_lem s key is_host call =
      register-Becomes s key is_host call.body call.fresh call.encoded call.conn call.taken
        call.exchanges
