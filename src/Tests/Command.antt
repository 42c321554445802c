-- ===== src/Tests/Command.antt =====
-- The commands at concrete arguments.
use star.Prelude.{ℕ, ◌≡◌, refl, true, false, none, some, List, [], ◌∷◌, ◌++◌}
use star.Registar.Auth.Base32.{codes}
use star.Registar.Auth.Key.{is_zero}
use star.Command.Config.{Parsers}
use star.Command.Star.{main, token_of}
use star.Command.Star.Laws.{host_command, peer_command}
use star.Command.Star.Access.{Reaches, main-authenticate}
use star.Command.Star.Started.{IsStarted, main-IsStarted}
use star.Command.Registar.{
  Config, parse_config, is_space, trim_left, trim_right, trim_space, choose, is_blank,
}
use star.Tests.Auth.{sample_mac, game, game-IsBytes}

-- URLs and levels are texts, and no text is a number.
abbrev plain : Parsers
plain = record {
  Url = List ℕ;
  Level = ℕ;
  parse_url = λ text. some text;
  parse_int = λ text. none;
  parse_level = λ text. none;
  info = 0;
  Cert = List ℕ;
  read_file = λ path. none;
  decode_pem = λ text. none;
  parse_certificate = λ text. none;
}

abbrev shared_secret : List ℕ
shared_secret = codes "s3 t"

abbrev url : List ℕ
url = codes "https://star"

-- The file ends with a line end.
abbrev environment : Config
environment = record {
  secret_from_file = [] ++ (shared_secret ++ 10 ∷ []);
  secret = [];
  admin_secret_from_file = [];
  admin_secret = codes "a";
}

abbrev configuration : Config
configuration = record {
  secret_from_file = shared_secret;
  secret = shared_secret;
  admin_secret_from_file = [];
  admin_secret = codes "a";
}

environment-parse_config : parse_config (some environment) ≡ some configuration
unfolding parse_config trim_space trim_left trim_right is_space choose is_blank
environment-parse_config = refl

shared_secret-trimmed : trim_right shared_secret ≡ shared_secret
unfolding trim_right is_space
shared_secret-trimmed = refl

starts_clean : is_space 115 ≡ false
unfolding is_space
starts_clean = refl

line_end : is_space 10 ≡ true
unfolding is_space
line_end = refl

game_set : is_zero game ≡ false
unfolding is_zero
game_set = refl

main-authenticate_example :
    Reaches sample_mac shared_secret game (
      token_of plain sample_mac game
        (main plain game (host_command plain game shared_secret url game)))
    × Reaches sample_mac shared_secret game (
        token_of plain sample_mac game
          (main plain game (peer_command plain game shared_secret url game)))
main-authenticate_example =
    main-authenticate plain game sample_mac environment configuration [] shared_secret (10 ∷ []) url
      url game game tt (starts_clean, shared_secret-trimmed) (line_end, tt) refl
      environment-parse_config game-IsBytes game_set refl

-- A host without a key.
main-IsStarted_example :
    IsStarted plain game (main plain game (codes "-registar=r" ∷ codes "host" ∷ []))
main-IsStarted_example =
    main-IsStarted plain game (codes "-registar=r" ∷ codes "host" ∷ []) game_set
