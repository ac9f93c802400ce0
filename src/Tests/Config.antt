-- ===== src/Tests/Config.antt =====
-- A configuration of two lines, and one that ends behind a key.
use ntu_sp17fall.Base.{◌≡◌, refl, true, false, List, [], ◌∷◌, none, some, Text, codes, text_eq}
use ntu_sp17fall.Config.{
  get_delim, read_pairs, read_config, ServerArg, no_arg, parse_server, server_pairs, server_pair,
  set_arg,
}
use ntu_sp17fall.Config.RoundTrip.{plain_pairs, config_text, read_config-config_text}

abbrev two_pairs : List (Text × Text)
two_pairs = (codes "user", codes "b") ∷ (codes "x", []) ∷ []

read_config-config_text_example : read_config (config_text two_pairs) ≡ some two_pairs
unfolding plain_pairs
read_config-config_text_example = read_config-config_text two_pairs refl

read_config_test : read_config (codes "a=b\nc=") ≡ none
unfolding read_config read_pairs get_delim
read_config_test = refl

abbrev no_args : ServerArg
no_args = record {
  path = no_arg;
  account_path = no_arg;
  thread = no_arg;
  run_path = no_arg;
  daemonize = false;
}

-- Under a key that comes again, the tail of the longer value stays; without `thread` nothing is accepted.
parse_server_test :
    parse_server (some (codes "path=abc\npath=x\naccount_path=y\n")) none no_args
    ≡ some (
      false,
      record no_args {
        path = record { text = codes "xbc"; accepted = true };
        account_path = record { text = codes "y"; accepted = true };
      },
    )
unfolding parse_server read_config read_pairs get_delim server_pairs server_pair set_arg text_eq
parse_server_test = refl
