-- ===== src/Registar/Auth/Base32/Laws.antt =====
-- The Crockford symbols and the five-byte groups of internal/registar/auth/key.go, both ways.
use star.Prelude.{
  ℕ, suc, ◌+◌, ◌-◌, ◌*◌, ◌<◌, ◌≤◌, ◌≡◌, refl, sym, ap, ◌≢◌, Bool, true, false, none, some, List, [],
  ◌∷◌, ◌++◌, map, get_or, length, ◌==◌, arith, holds_below, holds_below_sound, not, ◌||◌, ◌∙◌,
  Option-cases, inl, inr, ◌/◌, length-append, length-take-le,
}
use mathlib.Core.List.{append-nil, append_assoc}
use star.Registar.Auth.Base32.{
  alphabet, symbol, index_from, digit, Bytes5, bytes5, Digits8, digits8, split, join, symbols,
  encode, block, decode, strip_newlines, to_list, bytes_of, digits_of,
}

abbrev All32 : List ℕ → Type 0
All32 [] = Unit {0}
All32 (d ∷ ds) = (d < 32) × All32 ds

-- Eight bits each.
abbrev pub IsBytes : Bytes5 → Type 0
IsBytes (bytes5 a b c d e) = (a < 256) × (b < 256) × (c < 256) × (d < 256) × (e < 256)

-- Five bits each.
abbrev pub IsDigits : Digits8 → Type 0
IsDigits (digits8 p q r s t u v w) =
    (p < 32) × (q < 32) × (r < 32) × (s < 32) × (t < 32) × (u < 32) × (v < 32) × (w < 32)

pub split-IsDigits : (b : Bytes5) → IsBytes b → IsDigits (split b)
unfolding split
split-IsDigits (bytes5 a b c d e) h = omega arith

pub join-split : (b : Bytes5) → IsBytes b → join (split b) ≡ b
unfolding split join
join-split (bytes5 a b c d e) h = ground arith

pub split-join : (ds : Digits8) → IsDigits ds → split (join ds) ≡ ds
unfolding split join
split-join (digits8 p q r s t u v w) h = ground arith

pub join-IsBytes : (ds : Digits8) → IsDigits ds → IsBytes (join ds)
unfolding join
join-IsBytes (digits8 p q r s t u v w) h = omega arith

-- The first entry equal to `c`, from `i` on.
index_from_sound :
    (i c d : ℕ) (as' : List ℕ)
    → index_from i c as' ≡ some d
    → (i ≤ d) × (d < i + length as') × (get_or as' (d - i) 0 ≡ c)
unfolding index_from
index_from_sound i c d [] h = cc
index_from_sound i c d (a ∷ as') h = ground (arith, index_from_sound (suc i) c d as')

-- A character is the symbol of the digit that it is read as.
pub symbol_of_digit : (c d : ℕ) → digit c ≡ some d → (d < 32) × (symbol d ≡ c)
unfolding digit symbol
symbol_of_digit c d h = ground (arith, index_from_sound 0 c d alphabet h)

reads_back : ℕ → Bool
reads_back d = elim (digit (symbol d)) [ none ↦ false | some e ↦ e == d ]

reads_back_table : holds_below reads_back 32 ≡ true
unfolding holds_below reads_back digit symbol
reads_back_table = refl

pub digit-symbol : (d : ℕ) → d < 32 → digit (symbol d) ≡ some d
unfolding reads_back
digit-symbol d h = ground (arith, holds_below_sound reads_back 32 reads_back_table d)

symbol_not_padding : ℕ → Bool
symbol_not_padding d = not (symbol d == b'=' || symbol d == 10 || symbol d == 13)

symbol_not_padding_table : holds_below symbol_not_padding 32 ≡ true
unfolding holds_below symbol_not_padding symbol
symbol_not_padding_table = refl

pub symbol-ne-padding : (d : ℕ) → d < 32 → (symbol d ≢ b'=') × (symbol d ≢ 10) × (symbol d ≢ 13)
unfolding symbol_not_padding
symbol-ne-padding d h =
    let e = holds_below_sound symbol_not_padding 32 symbol_not_padding_table d h in ground arith

-- One symbol more of a block.
block_cons :
    (ds src : List ℕ) (d : ℕ)
    → d < 32
    → length ds < 8
    → block ds (symbol d ∷ src) ≡ block (ds ++ d ∷ []) src
unfolding block
block_cons ds src d h l = ground (arith, digit-symbol d, symbol-ne-padding d)

strip_cons :
    (d : ℕ) (cs : List ℕ) → d < 32 → strip_newlines (symbol d ∷ cs) ≡ symbol d ∷ strip_newlines cs
unfolding strip_newlines
strip_cons d cs h = ground (arith, symbol-ne-padding d)

digit_list : Digits8 → List ℕ
digit_list (digits8 p q r s t u v w) = p ∷ q ∷ r ∷ s ∷ t ∷ u ∷ v ∷ w ∷ []

block-symbols : (ds : Digits8) → IsDigits ds → block [] (symbols ds) ≡ some (digit_list ds)
unfolding symbols digit_list
block-symbols (digits8 p q r s t u v w) h =
    rw
      (
        block_cons [] _ p h.0 (omega arith),
        block_cons (p ∷ []) _ q h.1 (omega arith),
        block_cons (p ∷ q ∷ []) _ r h.2 (omega arith),
        block_cons (p ∷ q ∷ r ∷ []) _ s h.3 (omega arith),
        block_cons (p ∷ q ∷ r ∷ s ∷ []) _ t h.4 (omega arith),
        block_cons (p ∷ q ∷ r ∷ s ∷ t ∷ []) _ u h.5 (omega arith),
        block_cons (p ∷ q ∷ r ∷ s ∷ t ∷ u ∷ []) _ v h.6 (omega arith),
        block_cons (p ∷ q ∷ r ∷ s ∷ t ∷ u ∷ v ∷ []) _ w h.7 (omega arith),
      )
      (unfold block in refl)

pub decode-symbols : (ds : Digits8) → IsDigits ds → decode (symbols ds) ≡ some (to_list (join ds))
unfolding decode symbols digit_list
decode-symbols (digits8 p q r s t u v w) h =
    rw (block-symbols (digits8 p q r s t u v w) h, decode) refl

-- Reading what was written: the symbols of five bytes decode to these bytes.
pub decode-encode : (b : Bytes5) → IsBytes b → decode (encode b) ≡ some (to_list b)
unfolding encode
decode-encode b h =
    decode-symbols (split b) (split-IsDigits b h) ∙ ap (λ x. some (to_list x)) (join-split b h)

-- No line end stands among the symbols.
pub strip_newlines-symbols : (ds : Digits8) → IsDigits ds → strip_newlines (symbols ds) ≡ symbols ds
unfolding symbols
strip_newlines-symbols (digits8 p q r s t u v w) h =
    rw
      (
        strip_cons p _ h.0,
        strip_cons q _ h.1,
        strip_cons r _ h.2,
        strip_cons s _ h.3,
        strip_cons t _ h.4,
        strip_cons u _ h.5,
        strip_cons v _ h.6,
        strip_cons w _ h.7,
      )
      (unfold strip_newlines in refl)

-- A block that gives eight digits is the symbols of these digits.
block_full :
    (ds src out : List ℕ)
    → length ds ≤ 8
    → block ds src ≡ some out
    → length out ≡ 8
    → length ds + length src ≤ 8
    → (more : List ℕ) × (out ≡ ds ++ more)
      × (src ≡ map symbol more)
      × (length ds + length more ≡ 8)
      × All32 more
unfolding block
block_full ds [] out l h e m = ([], ground (arith, append-nil ds), refl, ground arith, tt)
block_full ds (c ∷ src) out l h e m = elim (Option-cases (digit c)) [
  | inl bad ↦ absurd (ground arith)
  | inr (d, good) ↦
      let (small, is_symbol) = symbol_of_digit c d good in
      let (more, split_out, text, count, small') =
        block_full (ds ++ d ∷ []) src out (omega (arith, length-append ds (d ∷ []))) (ground arith)
          e (omega (arith, length-append ds (d ∷ []))) in
      (
        d ∷ more,
        ◌∙◌ {b = (ds ++ d ∷ []) ++ more} {c = ds ++ d ∷ more} split_out
            (append_assoc ds (d ∷ []) more),
        cc,
        omega (arith, length-append ds (d ∷ [])),
        (small, small'),
      )
]

-- Eight digits in a list, as the digits of one group.
eight : (ds : List ℕ) → length ds ≡ 8 → All32 ds → (g : Digits8) × (ds ≡ digit_list g) × IsDigits g
unfolding digit_list
eight (p ∷ q ∷ r ∷ s ∷ t ∷ u ∷ v ∷ w ∷ []) e h = (
  digits8 p q r s t u v w,
  refl,
  (h.0, h.1.0, h.1.1.0, h.1.1.1.0, h.1.1.1.1.0, h.1.1.1.1.1.0, h.1.1.1.1.1.1.0, h.1.1.1.1.1.1.1.0),
)
eight [] e h = absurd (omega arith)
eight _ e h = absurd (omega arith)

block_len : (ds src out : List ℕ) → length ds ≤ 8 → block ds src ≡ some out → length out ≤ 8
unfolding block
block_len ds [] out l h = ground arith
block_len ds (c ∷ src) out l h = elim (Option-cases (digit c)) [
  | inl bad ↦ ground arith
  | inr (d, good) ↦ ground (arith, block_len (ds ++ d ∷ []) src out, length-append ds (d ∷ []))
]

bytes_of_full : (ds : List ℕ) → length (bytes_of ds) ≡ 5 → length ds ≤ 8 → length ds ≡ 8
unfolding bytes_of
bytes_of_full ds e l =
    omega (arith, length-take-le (length ds * 5 / 8) (to_list (join (digits_of ds))))

bytes_of-digit_list : (g : Digits8) → bytes_of (digit_list g) ≡ to_list (join g)
unfolding bytes_of digit_list join to_list
bytes_of-digit_list (digits8 p q r s t u v w) = refl

map-digit_list : (g : Digits8) → map symbol (digit_list g) ≡ symbols g
unfolding digit_list symbols
map-digit_list (digits8 p q r s t u v w) = refl

block_full_symbols :
    (src ds : List ℕ)
    → length src ≤ 8
    → block [] src ≡ some ds
    → length ds ≡ 8
    → (g : Digits8) × (ds ≡ digit_list g) × IsDigits g × (src ≡ symbols g)
block_full_symbols src ds l h e =
    let (more, out, text, n, small) = block_full [] src ds (omega arith) h e (omega arith) in
    let (g, digits, small') = eight more (omega arith) small in
    (g, out ∙ digits, small', text ∙ ap (map symbol) digits ∙ map-digit_list g)

-- Only the symbols of five bytes decode to five bytes.
pub decode_full :
    (src bytes : List ℕ)
    → length src ≤ 8
    → decode src ≡ some bytes
    → length bytes ≡ 5
    → (b : Bytes5) × (bytes ≡ to_list b) × IsBytes b × (src ≡ encode b)
unfolding decode encode
decode_full [] bytes l h e = absurd (ground arith)
decode_full (c ∷ cs) bytes l h e = elim (Option-cases (block [] (c ∷ cs))) [
  | inl bad ↦ absurd (ground arith)
  | inr (ds, good) ↦
      let same : bytes_of ds ≡ bytes = ground arith in
      let count = bytes_of_full ds (rw same e) (block_len [] (c ∷ cs) ds (omega arith) good) in
      let (g, digits, small, text) = block_full_symbols (c ∷ cs) ds l good count in
      (
        join g,
        sym same ∙ ap bytes_of digits ∙ bytes_of-digit_list g,
        join-IsBytes g small,
        text ∙ ap symbols (sym (split-join g small)),
      )
]
