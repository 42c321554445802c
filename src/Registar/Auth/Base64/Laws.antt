-- ===== src/Registar/Auth/Base64/Laws.antt =====
-- Base64 text of internal/registar/auth/token.go: decoding what was encoded.
use star.Prelude.{
  ℕ, ◌+◌, ◌*◌, ◌/◌, ◌%◌, ◌<◌, ◌≡◌, refl, ap, ◌∙◌, ◌≢◌, Bool, true, false, not, ◌||◌, none, some,
  List, [], ◌∷◌, ◌==◌, arith, holds_below, holds_below_sound,
}
use star.Registar.Auth.Base32.{strip_newlines}
use star.Registar.Auth.Base64.{symbol, digit, encode, three_bytes, quanta, decode}

reads_back : ℕ → Bool
reads_back d = elim (digit (symbol d)) [ none ↦ false | some e ↦ e == d ]

reads_back_table : holds_below reads_back 64 ≡ true
unfolding holds_below reads_back digit symbol
reads_back_table = refl

digit-symbol : (d : ℕ) → d < 64 → digit (symbol d) ≡ some d
unfolding reads_back
digit-symbol d h = ground (arith, holds_below_sound reads_back 64 reads_back_table d)

is_plain : ℕ → Bool
is_plain d = not (symbol d == b'=' || symbol d == 10 || symbol d == 13)

is_plain_table : holds_below is_plain 64 ≡ true
unfolding holds_below is_plain symbol
is_plain_table = refl

symbol-ne : (d : ℕ) → d < 64 → (symbol d ≢ b'=') × (symbol d ≢ 10) × (symbol d ≢ 13)
unfolding is_plain
symbol-ne d h = let e = holds_below_sound is_plain 64 is_plain_table d h in ground arith

abbrev pub AllBytes : List ℕ → Type 0
AllBytes [] = Unit {0}
AllBytes (b ∷ bs) = (b < 256) × AllBytes bs

strip_cons :
    (d : ℕ) (cs : List ℕ) → d < 64 → strip_newlines (symbol d ∷ cs) ≡ symbol d ∷ strip_newlines cs
unfolding strip_newlines
strip_cons d cs h = ground (arith, symbol-ne d)

strip_newlines-encode : (bs : List ℕ) → AllBytes bs → strip_newlines (encode bs) ≡ encode bs
unfolding encode
strip_newlines-encode [] h = unfold strip_newlines in refl
strip_newlines-encode (a ∷ []) h =
    rw (strip_cons (a / 4) _ (omega arith), strip_cons (a % 4 * 16) _ (omega arith))
      (unfold strip_newlines in refl)
strip_newlines-encode (a ∷ b ∷ []) h =
    rw
      (
        strip_cons (a / 4) _ (omega arith),
        strip_cons (a % 4 * 16 + b / 16) _ (omega arith),
        strip_cons (b % 16 * 4) _ (omega arith),
      )
      (unfold strip_newlines in refl)
strip_newlines-encode (a ∷ b ∷ c ∷ rest) h = rw (
  strip_cons (a / 4) _ (omega arith),
  strip_cons (a % 4 * 16 + b / 16) _ (omega arith),
  strip_cons (b % 16 * 4 + c / 64) _ (omega arith),
  strip_cons (c % 64) _ (omega arith),
  strip_newlines-encode rest h.1.1.1,
)

three_bytes-symbols :
    (a b c : ℕ)
    → a < 256
    → b < 256
    → c < 256
    → three_bytes
        (symbol (a / 4))
        (symbol (a % 4 * 16 + b / 16))
        (symbol (b % 16 * 4 + c / 64))
        (symbol (c % 64))
      ≡ some (a ∷ b ∷ c ∷ [])
unfolding three_bytes
three_bytes-symbols a b c ha hb hc =
    rw
      (
        digit-symbol (a / 4) (omega arith),
        digit-symbol (a % 4 * 16 + b / 16) (omega arith),
        digit-symbol (b % 16 * 4 + c / 64) (omega arith),
        digit-symbol (c % 64) (omega arith),
      )
      (ground arith)

quanta-encode : (bs : List ℕ) → AllBytes bs → quanta (encode bs) ≡ some bs
unfolding quanta encode
quanta-encode [] h = refl
quanta-encode (a ∷ []) h =
    ground (arith, digit-symbol (a / 4) (omega arith), digit-symbol (a % 4 * 16) (omega arith))
quanta-encode (a ∷ b ∷ []) h = ground (
  arith,
  digit-symbol (a / 4) (omega arith),
  digit-symbol (a % 4 * 16 + b / 16) (omega arith),
  digit-symbol (b % 16 * 4) (omega arith),
  symbol-ne (b % 16 * 4) (omega arith),
)
quanta-encode (a ∷ b ∷ c ∷ rest) h = ground (
  arith,
  symbol-ne (c % 64) (omega arith),
  three_bytes-symbols a b c (omega arith) (omega arith) (omega arith),
  quanta-encode rest h.1.1.1,
)

-- Any bytes, written as text, decode to themselves.
pub decode-encode : (bs : List ℕ) → AllBytes bs → decode (encode bs) ≡ some bs
unfolding decode
decode-encode bs h = ap quanta (strip_newlines-encode bs h) ∙ quanta-encode bs h
