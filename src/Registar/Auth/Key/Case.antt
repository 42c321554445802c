-- ===== src/Registar/Auth/Key/Case.antt =====
-- The case of the text form of the keys of internal/registar/auth/key.go.
use star.Prelude.{
  ℕ, ◌+◌, ◌≡◌, refl, ap, ◌∙◌, subst, ◌&&◌, List, [], ◌∷◌, get_or, leb, ◌==◌, if◌then◌else◌, arith,
  map, length-map, get_or-map,
}
use star.Registar.Auth.Key.{crocford_map, map_text, parse, unmarshal_text}

-- Lower case for upper case, as a player may type a key.
pub to_lower : ℕ → ℕ
to_lower c = if leb b'A' c && leb c b'Z' then c + 32 else c

crocford_map-to_lower : (c : ℕ) → crocford_map (to_lower c) ≡ crocford_map c
unfolding crocford_map to_lower
crocford_map-to_lower c = ground arith

map_text-to_lower : (text : List ℕ) → map_text (map to_lower text) ≡ map_text text
unfolding map_text
map_text-to_lower [] = refl
map_text-to_lower (c ∷ cs) = ground (arith, crocford_map-to_lower c, map_text-to_lower cs)

to_lower_dash : (c : ℕ) → (to_lower c == b'-') ≡ (c == b'-')
unfolding to_lower
to_lower_dash c = ground arith

parse-to_lower : (text : List ℕ) → parse (map to_lower text) ≡ parse text
unfolding parse
parse-to_lower text = rw (map_text-to_lower text, parse)

dash-to_lower :
    (text : List ℕ) → (get_or (map to_lower text) 4 0 == b'-') ≡ (get_or text 4 0 == b'-')
dash-to_lower text =
    let end : to_lower 0 ≡ 0 = unfold to_lower in refl in
    ap (λ (c : ℕ). c == b'-')
      (subst (λ d. get_or (map to_lower text) 4 d ≡ to_lower (get_or text 4 0)) end
        (get_or-map text to_lower 4 0))
    ∙ to_lower_dash (get_or text 4 0)

-- The case of a text changes nothing: it gives the same key or the same error.
unmarshal_text-to_lower : (text : List ℕ) → unmarshal_text (map to_lower text) ≡ unmarshal_text text
unfolding unmarshal_text
unmarshal_text-to_lower text =
    ground (arith, length-map text to_lower, parse-to_lower text, dash-to_lower text)
