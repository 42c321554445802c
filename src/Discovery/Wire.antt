-- ===== src/Discovery/Wire.antt =====
-- The messages of internal/discovery/discovery.go, and the binary form of `netip.AddrPort`
-- that a response carries. A packet is a list of bytes.
pub mod Laws
use star.Prelude.{
  ℕ, ◌+◌, ◌-◌, ◌*◌, ◌/◌, ◌%◌, ◌^◌, Bool, true, false, ◌&&◌, ◌||◌, not, Option, none, some, List, [],
  ◌∷◌, ◌++◌, length, get_or, take, drop, ltb, ◌==◌, if◌then◌else◌,
}

-- `netip.Addr`: the zero value, four bytes, or sixteen bytes with a zone (empty for none).
pub data Addr : Type 0 where
  invalid : Addr
  v4 : List ℕ → Addr
  v6 : List ℕ → List ℕ → Addr

pub record AddrPort : Type 0 where
  pub addr : Addr
  pub port : ℕ

abbrev pub magic : ℕ
magic = 0x53544152

abbrev pub version : ℕ
version = 0x01

abbrev pub t_request : ℕ
t_request = 0x01

abbrev pub t_response : ℕ
t_response = 0x02

-- `binary.BigEndian.AppendUint32` and `Uint32`
pub put_uint32 : ℕ → List ℕ
put_uint32 n = n / 2 ^ 24 % 256 ∷ n / 2 ^ 16 % 256 ∷ n / 2 ^ 8 % 256 ∷ n % 256 ∷ []

pub uint32 : List ℕ → ℕ
uint32 p = get_or p 0 0 * 2 ^ 24 + get_or p 1 0 * 2 ^ 16 + get_or p 2 0 * 2 ^ 8 + get_or p 3 0

-- `Addr.AppendBinary`
addr_bytes : Addr → List ℕ
addr_bytes invalid = []
addr_bytes (v4 bytes) = bytes
addr_bytes (v6 bytes zone) = bytes ++ zone

-- `AddrPort.AppendBinary`: the port comes last, low byte first.
pub append_binary : AddrPort → List ℕ
unfolding addr_bytes
append_binary a = addr_bytes a.addr ++ a.port % 256 ∷ a.port / 256 % 256 ∷ []

-- `Addr.UnmarshalBinary`
read_addr : List ℕ → Option Addr
read_addr b =
    let n = length b in
    if n == 0
    then some invalid
    else if n == 4
    then some (v4 b)
    else if ltb n 16
    then none
    else some (v6 (take 16 b) (drop 16 b))

-- `AddrPort.UnmarshalBinary`
pub read_addr_port : List ℕ → Option AddrPort
unfolding read_addr
read_addr_port b =
    let n = length b in
    if ltb n 2 then none else elim (read_addr (take (n - 2) b)) [
      | none ↦ none
      | some a ↦ some (record { addr = a; port = get_or b (n - 2) 0 + get_or b (n - 1) 0 * 256 })
    ]

-- `Request`
pub record Request : Type 0 where
  pub tx_id : List ℕ

pub record Response : Type 0 where
  pub tx_id : List ℕ
  pub addr : AddrPort

pub marshal_request : Request → List ℕ
marshal_request r = put_uint32 magic ++ version ∷ t_request ∷ r.tx_id

-- `none` is `errInvalidResponse`. The id is `p[6:22]`.
pub unmarshal_request : List ℕ → Option Request
unmarshal_request p =
    if ltb (length p) 22
    then none
    else if not (uint32 (take 4 p) == magic)
    then none
    else if not (get_or p 4 0 == version) || not (get_or p 5 0 == t_request)
    then none
    else some (record { tx_id = take 16 (drop 6 p) })

pub marshal_response : Response → List ℕ
marshal_response r = put_uint32 magic ++ version ∷ t_response ∷ (r.tx_id ++ append_binary r.addr)

pub unmarshal_response : List ℕ → Option Response
unmarshal_response p =
    if ltb (length p) 22
    then none
    else if not (uint32 (take 4 p) == magic)
        || not (get_or p 4 0 == version)
        || not (get_or p 5 0 == t_response)
    then none
    else elim (read_addr_port (drop 22 p)) [
      | none ↦ none
      | some a ↦ some (record { tx_id = take 16 (drop 6 p); addr = a })
    ]
