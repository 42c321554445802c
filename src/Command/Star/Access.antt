-- ===== src/Command/Star/Access.antt =====
-- The commands of cmd/star against a registar of cmd/registar, and what they can start at all.
use star.Prelude.{ℕ, ◌≡◌, ap, ◌∙◌, false, Option, some, List, ◌++◌}
use star.Registar.Auth.Base32.Laws.{IsBytes}
use star.Registar.Auth.Key.{Key, is_zero}
use star.Registar.Auth.Token.{Mac, Token, new_token, string}
use star.Http.Authenticate.{authenticate, handled, authenticate-string}
use star.Command.Config.{Parsers}
use star.Command.Star.{main, token_of}
use star.Command.Star.Laws.{host_command, peer_command, main_host, main_peer}
use star.Command.Registar.{Config, parse_config}
use star.Command.Registar.Laws.{AllSpace, IsTrimmed, secret-parse_config}

-- A command has a token with which it reaches the handlers of the registar, as the game `k`.
abbrev pub Reaches : Mac → List ℕ → Key → Option Token → Type 0
Reaches m secret k token =
    (t : Token) × (token ≡ some t) × (authenticate m secret (string t) ≡ handled k)

reaches :
    (m : Mac) (secret s : List ℕ) (k : Key) (token : Option Token)
    → IsBytes k
    → secret ≡ s
    → token ≡ some (new_token m k s)
    → Reaches m secret k token
reaches m secret s k token b same h = (
  new_token m k s,
  h,
  ap (λ z. authenticate m z (string (new_token m k s))) same ∙ authenticate-string m s k b,
)

module _ (x : Parsers) (fresh : Key) where
  -- A host and a peer that are started with the text of a game's key and with a secret: the registar
  -- that has this secret in its file, with any white space around it, lets both in as this game. The
  -- key is not zero, the secret neither empty nor with white space at an end, and the URL parses.
  pub main-authenticate :
      (m : Mac) (env conf : Config) (l s r u : List ℕ) (url : x.Url) (k other : Key)
      → AllSpace l
      → IsTrimmed s
      → AllSpace r
      → env.secret_from_file ≡ l ++ (s ++ r)
      → parse_config (some env) ≡ some conf
      → IsBytes k
      → is_zero k ≡ false
      → x.parse_url u ≡ some url
      → Reaches m conf.secret k (token_of x m other (main x fresh (host_command x fresh s u k)))
        × Reaches m conf.secret k (token_of x m other (main x fresh (peer_command x fresh s u k)))
  main-authenticate m env conf l s r u url k other hl hs hr file e b z h =
      let same = secret-parse_config env conf l s r hl hs hr file e in
      (
        reaches m conf.secret s k _ b same (main_host x fresh m s u url k other b z h),
        reaches m conf.secret s k _ b same (main_peer x fresh m s u url k other b z h),
      )
