-- ===== src/Text/HostPort/Laws.antt =====
-- `net.SplitHostPort` of names and of addresses in brackets.
use star.Prelude.{
  Option-cases, inl, inr, ℕ, zero, suc, ◌+◌, ◌-◌, ◌<◌, ◌≡◌, refl, true, false, ◌||◌, none, some,
  List, [], ◌∷◌, ◌++◌, arith, length, length-append, take, drop, take-append_length, get_or, ◌==◌,
  if◌then◌else◌,
}
use star.Text.HostPort.{contains, index_byte, last_index_byte, finish, split_host_port}

-- A name or a number: no colon and no bracket.
pub record IsPlain (s : List ℕ) : Type 0 where
  pub no_colon : contains s b':' ≡ false
  pub no_open : contains s b'[' ≡ false
  pub no_close : contains s b']' ≡ false

contains-append : (s t : List ℕ) (c : ℕ) → contains (s ++ t) c ≡ (contains s c || contains t c)
unfolding contains
contains-append [] t c = refl
contains-append (x ∷ s) t c = ground (arith, contains-append s t c)

last_index_byte-none : (s : List ℕ) (c : ℕ) → contains s c ≡ false → last_index_byte s c ≡ none
unfolding contains last_index_byte
last_index_byte-none [] c h = refl
last_index_byte-none (x ∷ s) c h = ground (arith, last_index_byte-none s c)

last_index_byte-append :
    (s t : List ℕ) (c : ℕ) → contains t c ≡ false → last_index_byte (s ++ c ∷ t) c ≡ some (length s)
unfolding last_index_byte
last_index_byte-append [] t c h = ground (arith, last_index_byte-none t c h)
last_index_byte-append (x ∷ s) t c h = ground (arith, last_index_byte-append s t c h)

index_byte-append :
    (s t : List ℕ) (c : ℕ) → contains s c ≡ false → index_byte (s ++ c ∷ t) c ≡ some (length s)
unfolding index_byte contains
index_byte-append [] t c h = ground arith
index_byte-append (x ∷ s) t c h = ground (arith, index_byte-append s t c)

drop_after : (s t : List ℕ) (n : ℕ) → n ≡ length s → drop n (s ++ t) ≡ t
drop_after [] t n h = ground arith
drop_after (x ∷ s) t zero h = absurd (omega arith)
drop_after (x ∷ s) t (suc n) h = drop_after s t n (omega arith)

drop_byte : (s t : List ℕ) (c n : ℕ) → n ≡ length s + 1 → drop n (s ++ c ∷ t) ≡ t
drop_byte [] t c zero h = absurd (omega arith)
drop_byte [] t c (suc n) h = drop_after [] t n (omega arith)
drop_byte (x ∷ s) t c zero h = absurd (omega arith)
drop_byte (x ∷ s) t c (suc n) h = drop_byte s t c n (omega arith)

last_colon :
    (address port : List ℕ)
    → contains port b':' ≡ false
    → last_index_byte (address ++ b']' ∷ b':' ∷ port) b':' ≡ some (length address + 1)
unfolding last_index_byte
last_colon [] port h = ground (arith, last_index_byte-none port b':' h)
last_colon (x ∷ address) port h = ground (arith, last_colon address port h)

drop_colon :
    (address port : List ℕ) (n : ℕ)
    → n ≡ length address + 3
    → drop n (b'[' ∷ (address ++ b']' ∷ b':' ∷ port)) ≡ port
drop_colon address port zero h = absurd (omega arith)
drop_colon [] port (suc zero) h = absurd (omega arith)
drop_colon [] port (suc (suc n)) h = drop_byte [] port b':' n (omega arith)
drop_colon (x ∷ address) port (suc zero) h = absurd (omega arith)
drop_colon (x ∷ address) port (suc (suc n)) h = drop_colon address port (suc n) (omega arith)

head_plain :
    (s t : List ℕ) (c : ℕ)
    → contains s c ≡ false
    → (get_or (s ++ b':' ∷ t) 0 0 == c) ≡ (if length s == 0 then b':' == c else false)
unfolding contains
head_plain [] t c h = refl
head_plain (x ∷ s) t c h = ground arith

-- A text without a colon has no port.
pub split_host_port-none : (s : List ℕ) → contains s b':' ≡ false → split_host_port s ≡ none
unfolding split_host_port
split_host_port-none s h = rw (last_index_byte-none s b':' h, split_host_port) refl

pub split_host_port_plain :
    (host port : List ℕ)
    → IsPlain host
    → IsPlain port
    → split_host_port (host ++ b':' ∷ port) ≡ some (host, port)
unfolding split_host_port finish contains
split_host_port_plain host port h p = ground (
  arith,
  h.no_colon,
  h.no_open,
  h.no_close,
  p.no_colon,
  p.no_open,
  p.no_close,
  last_index_byte-append host port b':' p.no_colon,
  head_plain host port b'[' h.no_open,
  take-append_length host (b':' ∷ port) (length host) refl,
  contains-append host (b':' ∷ port) b'[',
  contains-append host (b':' ∷ port) b']',
  drop_byte host port b':' (length host + 1) refl,
)

-- An address in brackets, with its port.
pub split_host_port_brackets :
    (address port : List ℕ)
    → contains address b'[' ≡ false
    → contains address b']' ≡ false
    → IsPlain port
    → split_host_port (b'[' ∷ (address ++ b']' ∷ b':' ∷ port)) ≡ some (address, port)
unfolding split_host_port finish contains
split_host_port_brackets address port no_open no_close p =
    let inner = address ++ b']' ∷ b':' ∷ port in
    let i = length address + 1 + 1 in
    let last : last_index_byte (b'[' ∷ inner) b':' ≡ some i =
      ground (arith, last_colon address port p.no_colon) in
    let first : index_byte (b'[' ∷ inner) b']' ≡ some (length address + 1) =
      ground (arith, index_byte-append address (b':' ∷ port) b']' no_close) in
    let host : take (length address + 1 - 1) inner ≡ address =
      take-append_length address (b']' ∷ b':' ∷ port) (length address + 1 - 1) (omega arith) in
    let colon : drop (length address + 1 + 1) (b'[' ∷ inner) ≡ b':' ∷ port =
      drop_byte (b'[' ∷ address) (b':' ∷ port) b']' (length address + 1 + 1) (omega arith) in
    let rest : drop (i + 1) (b'[' ∷ inner) ≡ port = drop_colon address port (i + 1) (omega arith) in
    let opens : contains inner b'[' ≡ false =
      ground (arith, contains-append address (b']' ∷ b':' ∷ port) b'[', p.no_open) in
    ground (arith, last, first, host, colon, rest, opens, p.no_close)

last_index_byte-lt : (s : List ℕ) (c i : ℕ) → last_index_byte s c ≡ some i → i < length s
unfolding last_index_byte
last_index_byte-lt [] c i h = absurd (ground arith)
last_index_byte-lt (x ∷ s) c i h = elim (Option-cases (last_index_byte s c)) [
  | inl q ↦ ground arith
  | inr (j, q) ↦ ground (arith, last_index_byte-lt s c j q)
]

bracket_place :
    (address : List ℕ)
    → contains address b']' ≡ false
    → index_byte (b'[' ∷ (address ++ b']' ∷ [])) b']' ≡ some (length address + 1)
unfolding index_byte
bracket_place address h = ground (arith, index_byte-append address [] b']' h)

-- An address in brackets alone has no port.
pub split_host_port_bare :
    (address : List ℕ)
    → contains address b']' ≡ false
    → split_host_port (b'[' ∷ (address ++ b']' ∷ [])) ≡ none
unfolding split_host_port
split_host_port_bare address no_close =
    let host = b'[' ∷ (address ++ b']' ∷ []) in
    let first : index_byte host b']' ≡ some (length address + 1) = bracket_place address no_close in
    elim (Option-cases (last_index_byte host b':')) [
      | inl q ↦ ground arith
      | inr (i, q) ↦
          ground (arith, last_index_byte-lt host b':' i q, length-append address (b']' ∷ []))
    ]

-- Some colon stays one in brackets.
pub contains-brackets :
    (address : List ℕ)
    → contains address b':' ≡ true
    → contains (b'[' ∷ (address ++ b']' ∷ [])) b':' ≡ true
unfolding contains
contains-brackets address h = ground (arith, contains-append address (b']' ∷ []) b':')
