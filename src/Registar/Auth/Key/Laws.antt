-- ===== src/Registar/Auth/Key/Laws.antt =====
-- The text form of the keys of internal/registar/auth/key.go: what is accepted, and as which key.
use star.Prelude.{
  ℕ, zero, suc, ◌<◌, ◌≤◌, ◌≡◌, refl, sym, ap, ◌∙◌, subst, ◌↔◌, ◌⊎◌, inl, inr, Bool, true, false,
  none, some, List, [], ◌∷◌, ◌++◌, length, get_or, take, drop, ◌==◌, if◌then◌else◌, arith,
  holds_below, holds_below_sound, take-append-drop, Option-cases,
}
use star.Registar.Auth.Base32.{
  bytes5, Digits8, digits8, symbol, symbols, split, encode, decode, strip_newlines, to_list,
}
use star.Registar.Auth.Base32.Laws.{
  IsBytes, IsDigits, split-IsDigits, decode-encode, decode_full, strip_newlines-symbols,
}
use star.Registar.Auth.Key.{
  Key, invalid_length, ok, err, crocford_map, map_text, unmarshal_binary, parse, unmarshal_text,
  marshal_text, marshal_binary, is_zero, scan, value,
}

-- The canonical symbols are what they stand for.
is_fixed : ℕ → Bool
is_fixed d = elim (crocford_map (symbol d)) [ none ↦ false | some c ↦ c == symbol d ]

is_fixed_table : holds_below is_fixed 32 ≡ true
unfolding holds_below is_fixed crocford_map symbol
is_fixed_table = refl

crocford_map-symbol : (d : ℕ) → d < 32 → crocford_map (symbol d) ≡ some (symbol d)
unfolding is_fixed
crocford_map-symbol d h = ground (arith, holds_below_sound is_fixed 32 is_fixed_table d)

map_text_cons : (d : ℕ) (rs : List ℕ) → d < 32 → map_text (symbol d ∷ rs) ≡ symbol d ∷ map_text rs
unfolding map_text
map_text_cons d rs h = ground (arith, crocford_map-symbol d)

map_text-symbols : (g : Digits8) → IsDigits g → map_text (symbols g) ≡ symbols g
unfolding symbols
map_text-symbols (digits8 p q r s t u v w) h =
    rw
      (
        map_text_cons p _ h.0,
        map_text_cons q _ h.1,
        map_text_cons r _ h.2,
        map_text_cons s _ h.3,
        map_text_cons t _ h.4,
        map_text_cons u _ h.5,
        map_text_cons v _ h.6,
        map_text_cons w _ h.7,
      )
      (unfold map_text in refl)

-- Eight characters, or nine with a dash in the middle.
abbrev pub IsShaped : List ℕ → Type 0
IsShaped text = (length text ≡ 8) ⊎ ((length text ≡ 9) × (get_or text 4 0 ≡ b'-'))

unmarshal_text_shaped : (text : List ℕ) → IsShaped text → unmarshal_text text ≡ parse text
unfolding unmarshal_text
unmarshal_text_shaped text h = ground arith

unmarshal_text_unshaped : (text : List ℕ) (k : Key) → unmarshal_text text ≡ ok k → IsShaped text
unfolding unmarshal_text
unmarshal_text_unshaped text k h = ground arith

length-map_text-le : (text : List ℕ) → length (map_text text) ≤ length text
unfolding map_text
length-map_text-le [] = omega arith
length-map_text-le (r ∷ rs) = ground (arith, length-map_text-le rs)

length-strip_newlines-le : (text : List ℕ) → length (strip_newlines text) ≤ length text
unfolding strip_newlines
length-strip_newlines-le [] = omega arith
length-strip_newlines-le (c ∷ cs) = ground (arith, length-strip_newlines-le cs)

strip_newlines_same :
    (text : List ℕ) → length text ≤ length (strip_newlines text) → strip_newlines text ≡ text
unfolding strip_newlines
strip_newlines_same [] h = refl
strip_newlines_same (c ∷ cs) h = ground (arith, strip_newlines_same cs, length-strip_newlines-le cs)

-- Five bytes, read back from the list of them.
unmarshal_binary-to_list : (k : Key) → unmarshal_binary (to_list k) ≡ ok k
unfolding unmarshal_binary to_list
unmarshal_binary-to_list (bytes5 a b c d e) = refl

unmarshal_binary_inv :
    (bytes : List ℕ) (k : Key)
    → unmarshal_binary bytes ≡ ok k
    → (length bytes ≡ 5) × (bytes ≡ to_list k)
unfolding unmarshal_binary to_list
unmarshal_binary_inv (a ∷ b ∷ c ∷ d ∷ e ∷ []) (bytes5 a' b' c' d' e') h = (refl, cc)
unmarshal_binary_inv [] k h = absurd (cc)
unmarshal_binary_inv _ k h = absurd (cc)

-- A text whose characters fold to the symbols of a key parses as this key.
parse_of_map_text :
    (text : List ℕ) (k : Key) → IsBytes k → map_text text ≡ encode k → parse text ≡ ok k
unfolding parse
parse_of_map_text text k h e =
    let stripped : strip_newlines (map_text text) ≡ encode k =
      ap strip_newlines e
      ∙ unfold encode in strip_newlines-symbols (split k) (split-IsDigits k h) in
    rw (stripped, decode-encode k h, parse) (unmarshal_binary-to_list k)

length-encode : (k : Key) → length (encode k) ≡ 8
unfolding encode symbols split
length-encode (bytes5 a b c d e) = refl

to_list-injective : (b k : Key) → to_list b ≡ to_list k → b ≡ k
unfolding to_list
to_list-injective (bytes5 a b c d e) (bytes5 a' b' c' d' e') h = cc

map_text_of_parse :
    (text : List ℕ) (k : Key)
    → length (map_text text) ≤ 8
    → parse text ≡ ok k
    → IsBytes k × (map_text text ≡ encode k)
unfolding parse
map_text_of_parse text k l h = elim (Option-cases (decode (strip_newlines (map_text text)))) [
  | inl bad ↦ absurd (ground arith)
  | inr (bytes, good) ↦
      let (five, same) = unmarshal_binary_inv bytes k (ground arith) in
      let short = length-strip_newlines-le (map_text text) in
      let (b, list, small, symbols') =
        decode_full (strip_newlines (map_text text)) bytes (omega (arith, short)) good five in
      let key : b ≡ k = to_list-injective b k (sym list ∙ same) in
      let kept : strip_newlines (map_text text) ≡ map_text text =
        strip_newlines_same (map_text text) (omega (arith, ap length symbols', length-encode b)) in
      (subst IsBytes key small, sym kept ∙ symbols' ∙ ap encode key)
]

-- A dash is dropped.
length-map_text_dash :
    (text : List ℕ) (n : ℕ) → get_or text n 0 ≡ b'-' → length (map_text text) < length text
unfolding map_text crocford_map
length-map_text_dash [] n h = absurd (omega arith)
length-map_text_dash (r ∷ rs) zero h = ground (arith, length-map_text-le rs)
length-map_text_dash (r ∷ rs) (suc n) h = ground (arith, length-map_text_dash rs n)

length-map_text_shaped : (text : List ℕ) → IsShaped text → length (map_text text) ≤ 8
length-map_text_shaped text (inl e) = omega (arith, length-map_text-le text)
length-map_text_shaped text (inr (e, dash)) = omega (arith, length-map_text_dash text 4 dash)

-- A text is accepted as the key `k` exactly when it has eight characters, or nine with a dash in
-- the middle, and its characters, with case, dashes and look-alikes folded, are the symbols of `k`.
pub unmarshal_text_iff :
    (text : List ℕ) (k : Key)
    → (unmarshal_text text ≡ ok k) ↔ (IsShaped text × IsBytes k × (map_text text ≡ encode k))
unmarshal_text_iff text k = (
  λ h.
      let shape = unmarshal_text_unshaped text k h in
      let (small, folded) =
        map_text_of_parse text k (length-map_text_shaped text shape)
          (sym (unmarshal_text_shaped text shape) ∙ h) in
      (shape, small, folded),
  λ h. unmarshal_text_shaped text h.0 ∙ parse_of_map_text text k h.1 h.2,
)

map_text-append : (xs ys : List ℕ) → map_text (xs ++ ys) ≡ map_text xs ++ map_text ys
unfolding map_text
map_text-append [] ys = refl
map_text-append (x ∷ xs) ys = ground (arith, map_text-append xs ys)

map_text_dash : (xs : List ℕ) → map_text (b'-' ∷ xs) ≡ map_text xs
unfolding map_text crocford_map
map_text_dash xs = refl

marshal_text_folds : (k : Key) → IsBytes k → map_text (marshal_text k) ≡ encode k
unfolding marshal_text
marshal_text_folds k h =
    let e = encode k in
    map_text-append (take 4 e) (b'-' ∷ drop 4 e)
    ∙ ap (λ (xs : List ℕ). map_text (take 4 e) ++ xs) (map_text_dash (drop 4 e))
    ∙ sym (map_text-append (take 4 e) (drop 4 e))
    ∙ ap map_text (take-append-drop 4 e)
    ∙ unfold encode in map_text-symbols (split k) (split-IsDigits k h)

marshal_text-IsShaped : (k : Key) → IsShaped (marshal_text k)
unfolding marshal_text encode symbols split
marshal_text-IsShaped (bytes5 a b c d e) = inr (refl, refl)

-- A key written as text is read back.
pub unmarshal-marshal_text : (k : Key) → IsBytes k → unmarshal_text (marshal_text k) ≡ ok k
unmarshal-marshal_text k h =
    (unmarshal_text_iff (marshal_text k) k).1 (marshal_text-IsShaped k, h, marshal_text_folds k h)

-- A stored key is read back from its column, whatever the variable held before.
scan-value : (old k : Key) → IsBytes k → scan old (value k) ≡ ok k
unfolding scan value
scan-value old k h = unmarshal-marshal_text k h

-- The binary form reads back as the key, but for the zero key, whose form is empty and refused.
pub unmarshal-marshal_binary :
    (k : Key)
    → unmarshal_binary (marshal_binary k) ≡ (if is_zero k then err (invalid_length 0) else ok k)
unfolding marshal_binary unmarshal_binary to_list
unmarshal-marshal_binary (bytes5 a b c d e) = ground arith
