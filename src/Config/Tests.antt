-- ===== src/Config/Tests.antt =====
-- The configuration's theorems at a concrete environment.
use braiins_pool_exporter.Base.{◌≡◌, refl, none, some, if◌then◌else◌}
use braiins_pool_exporter.Base.Result.{ok}
use braiins_pool_exporter.Text.{Text, codes, ◌==◌}
use braiins_pool_exporter.Config.{Config, Environment, env_value, default_config}
use braiins_pool_exporter.Config.Load.{load}
use braiins_pool_exporter.Config.Laws.{IsValid, IsSource, load-IsValid}

abbrev pub as_it_is : Text → Text
as_it_is s = s

-- Nothing is set but the file of the token.
abbrev pub file_only : Environment
file_only = record {
  lookup_env =
      λ name. if name == codes "BRAIINS_POOL_TOKEN_FILE" then some (codes " /run/token") else none;
  read_file = λ path. some (codes "secret ");
  parse_flags = λ flags. some (flags, 0);
  parse_duration = λ text. none;
  parse_bool = λ text. none;
  split_port = λ address. some (codes "9108");
  parse_url = λ text. none;
}

abbrev pub loaded : Config
loaded = record default_config { token = codes "secret"; token_file = codes "/run/token" }

pub file-loaded : load file_only as_it_is ≡ ok loaded
unfolding load
file-loaded = refl

load-IsValid_example :
    IsValid file_only as_it_is loaded
    × IsSource file_only as_it_is
        (env_value (file_only.lookup_env (codes "BRAIINS_POOL_TOKEN")))
        (env_value (file_only.lookup_env (codes "BRAIINS_POOL_TOKEN_FILE")))
        (loaded.token, loaded.token_file)
load-IsValid_example = load-IsValid file_only as_it_is loaded file-loaded
