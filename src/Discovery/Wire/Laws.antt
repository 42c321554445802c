-- ===== src/Discovery/Wire/Laws.antt =====
-- The wire format of internal/discovery/discovery.go: what is written is read back, and a request
-- is never taken for a response.
use star.Prelude.{
  ℕ, suc, ◌-◌, ◌/◌, ◌%◌, ◌<◌, ◌≡◌, refl, none, some, List, [], ◌∷◌, ◌++◌, length, length-append,
  get_or, take-append_length, drop-append_length, arith,
}
use star.Discovery.Wire.{
  Addr, invalid, v4, v6, AddrPort, put_uint32, uint32, addr_bytes, append_binary, read_addr,
  read_addr_port, Request, Response, marshal_request, unmarshal_request, marshal_response,
  unmarshal_response,
}

-- A request with a 16-byte id is read back; what follows it is not read.
pub unmarshal-marshal_request :
    (r : Request) (extra : List ℕ)
    → length r.tx_id ≡ 16
    → unmarshal_request (marshal_request r ++ extra) ≡ some r
unfolding unmarshal_request marshal_request put_uint32 uint32
unmarshal-marshal_request r extra h =
    ground (arith, length-append r.tx_id extra, take-append_length r.tx_id extra 16 h)

-- The addresses that `netip` makes.
abbrev pub IsAddr : Addr → Type 0
IsAddr invalid = Unit {0}
IsAddr (v4 bytes) = length bytes ≡ 4
IsAddr (v6 bytes zone) = length bytes ≡ 16

pub record IsAddrPort (a : AddrPort) : Type 0 where
  pub address : IsAddr a.addr
  pub port_range : a.port < 65536

read_addr-addr_bytes : (a : Addr) → IsAddr a → read_addr (addr_bytes a) ≡ some a
unfolding read_addr addr_bytes
read_addr-addr_bytes invalid h = refl
read_addr-addr_bytes (v4 bytes) h = ground arith
read_addr-addr_bytes (v6 bytes zone) h = ground (
  arith,
  length-append bytes zone,
  take-append_length bytes zone 16 h,
  drop-append_length bytes zone 16 h,
)

get_or-append :
    (xs : List ℕ) (a b : ℕ)
    → (get_or (xs ++ a ∷ b ∷ []) (length xs) 0 ≡ a)
      × (get_or (xs ++ a ∷ b ∷ []) (suc (length xs)) 0 ≡ b)
get_or-append [] a b = (refl, refl)
get_or-append (x ∷ xs) a b = get_or-append xs a b

-- The port's two bytes behind an address.
read_tail :
    (bytes : List ℕ) (a : Addr) (port : ℕ)
    → read_addr bytes ≡ some a
    → port < 65536
    → read_addr_port (bytes ++ port % 256 ∷ port / 256 % 256 ∷ [])
      ≡ some (record { addr = a; port = port })
unfolding read_addr_port
read_tail bytes a port h range =
    let low = port % 256 in
    let high = port / 256 % 256 in
    let p = bytes ++ low ∷ high ∷ [] in
    let size = length-append bytes (low ∷ high ∷ []) in
    let short : length p - 2 ≡ length bytes = omega (arith, size) in
    let last : length p - 1 ≡ suc (length bytes) = omega (arith, size) in
    let (one, two) = get_or-append bytes low high in
    ground (
      arith,
      size,
      take-append_length bytes (low ∷ high ∷ []) (length bytes) refl,
      one,
      two,
      short,
      last,
    )

pub read-append_binary : (a : AddrPort) → IsAddrPort a → read_addr_port (append_binary a) ≡ some a
unfolding append_binary
read-append_binary a h =
    read_tail (addr_bytes a.addr) a.addr a.port (read_addr-addr_bytes a.addr h.address) h.port_range

-- A response with a 16-byte id and an address that `netip` makes is read back as it was sent.
pub unmarshal-marshal_response :
    (r : Response)
    → length r.tx_id ≡ 16
    → IsAddrPort r.addr
    → unmarshal_response (marshal_response r) ≡ some r
unfolding unmarshal_response marshal_response put_uint32 uint32
unmarshal-marshal_response r h a = ground (
  arith,
  length-append r.tx_id (append_binary r.addr),
  take-append_length r.tx_id (append_binary r.addr) 16 h,
  drop-append_length r.tx_id (append_binary r.addr) 16 h,
  read-append_binary r.addr a,
)

-- Neither kind of message is taken for the other.
unmarshal_other :
    (q : Request) (r : Response)
    → (unmarshal_response (marshal_request q) ≡ none)
      × (unmarshal_request (marshal_response r) ≡ none)
unfolding unmarshal_response unmarshal_request marshal_request marshal_response put_uint32 uint32
unmarshal_other q r = (ground arith, ground arith)
