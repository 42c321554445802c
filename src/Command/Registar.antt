-- ===== src/Command/Registar.antt =====
-- `parseConfig` of cmd/registar/main.go: the secrets come from files or from the environment.
-- Texts are ASCII.
pub mod Laws
use star.Prelude.{
  ℕ, Bool, true, false, ◌&&◌, ◌||◌, Option, none, some, List, [], ◌∷◌, leb, ◌==◌, if◌then◌else◌,
}

-- `config` and `adminConfig`, their secrets only. An unset variable is an empty text.
pub record Config : Type 0 where
  pub secret_from_file : List ℕ
  pub secret : List ℕ
  pub admin_secret_from_file : List ℕ
  pub admin_secret : List ℕ

-- Tab, the line ends, form feed and space.
unfoldable pub is_space : ℕ → Bool
is_space c = c == 32 || (leb 9 c && leb c 13)

unfoldable pub trim_left : List ℕ → List ℕ
unfolding is_space
trim_left [] = []
trim_left (c ∷ cs) = let rest = trim_left cs in if is_space c then rest else c ∷ cs

unfoldable pub trim_right : List ℕ → List ℕ
unfolding is_space
trim_right [] = []
trim_right (c ∷ cs) = elim (trim_right cs) [
  | [] ↦ if is_space c then [] else c ∷ []
  | x ∷ xs ↦ c ∷ x ∷ xs
]

-- `strings.TrimSpace`
unfoldable pub trim_space : List ℕ → List ℕ
trim_space text = trim_right (trim_left text)

-- The file takes precedence.
unfoldable pub choose : List ℕ → List ℕ → List ℕ
choose [] text = text
choose (c ∷ cs) text = c ∷ cs

unfoldable pub is_blank : List ℕ → Bool
is_blank [] = true
is_blank (c ∷ cs) = false

-- `env` is what `env.Parse` gives; `none` is an abort.
unfoldable pub parse_config : Option Config → Option Config
unfolding trim_space choose is_blank
parse_config none = none
parse_config (some env) =
    let file = trim_space env.secret_from_file in
    let admin_file = trim_space env.admin_secret_from_file in
    let admin = trim_space env.admin_secret in
    if is_blank admin_file && is_blank admin
    then none
    else some (record {
      secret_from_file = file;
      secret = choose file (trim_space env.secret);
      admin_secret_from_file = admin_file;
      admin_secret = choose admin_file admin;
    })
