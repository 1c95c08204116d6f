-- ===== src/Config.antt =====
-- The configuration of crates/benchmark-types/src/config/mod.rs: its defaults, its validation and the
-- environment of a container. A hash map is an association list; reading a file and parsing YAML are
-- arguments. Config/RunDirs has the directory of a run.
pub mod Validity
pub mod Environment
pub mod RunDirs
pub mod EarlyRuns
pub mod ModelNames
mod Tests
use llm_benchmark.Common.{
  ℕ, Bool, true, false, String, List, [], ◌∷◌, Option, none, some, if◌then◌else◌, ltb, map, ◌||◌,
  str_eq,
}
use llm_benchmark.Text.{is_empty}
use llm_benchmark.Maps.{upsert, lookup}

-- One map of the environment.
abbrev pub Variables : Type 0
Variables = List (String × String)

pub record DockerConfig : Type 0 where
  pub image : String
  pub work_dir : String
  pub timeout : ℕ
  pub pull_timeout : ℕ
  pub memory : String
  pub per_command_timeout : ℕ
  pub environment : List Variables

pub record ServerConfig : Type 0 where
  pub port : ℕ

pub record OutputConfig : Type 0 where
  pub results_dir : String

pub record Config : Type 0 where
  pub server : ServerConfig
  pub parallelism : ℕ
  pub docker : DockerConfig
  pub output : OutputConfig
  pub model : Option String
  pub inference_endpoint : Option String
  pub api_key : Option String
  pub model_load_timeout_secs : ℕ

abbrev pub min_model_load_timeout_secs : ℕ
min_model_load_timeout_secs = 120

-- `DockerConfig::default` and `Config::default`.
abbrev pub default_docker : DockerConfig
default_docker = record {
  image = "ghcr.io/dylanschell/llm-benchmark-runner:latest";
  work_dir = "/workspace";
  timeout = 300;
  pull_timeout = 1800;
  memory = "2g";
  per_command_timeout = 600;
  environment = [];
}

abbrev pub default_config : Config
default_config = record {
  server = record { port = 8081 };
  parallelism = 1;
  docker = default_docker;
  output = record { results_dir = "../benchmark-results" };
  model = none;
  inference_endpoint = none;
  api_key = none;
  model_load_timeout_secs = 600;
}

pub data ConfigError : Type 0 where
  read parse : (path why : String) → ConfigError
  parallelism_too_low : ℕ → ConfigError
  docker_image_missing : ConfigError
  docker_timeout_too_low : (minimum value : ℕ) → ConfigError
  docker_memory_missing : ConfigError
  model_load_timeout_too_low : (minimum value : ℕ) → ConfigError
  results_dir_missing : ConfigError

-- `validate`: the first error, if there is one.
unfoldable pub validate : Config → Option ConfigError
unfolding is_empty
validate c =
    if ltb c.parallelism 1
    then some (parallelism_too_low c.parallelism)
    else if is_empty c.docker.image
    then some docker_image_missing
    else if ltb c.docker.timeout 10
    then some (docker_timeout_too_low 10 c.docker.timeout)
    else if is_empty c.docker.memory
    then some docker_memory_missing
    else if ltb c.model_load_timeout_secs min_model_load_timeout_secs
    then some (model_load_timeout_too_low min_model_load_timeout_secs c.model_load_timeout_secs)
    else if is_empty c.output.results_dir
    then some results_dir_missing
    else none

-- What reading a file gives.
pub data FileRead : Type 0 where
  content : String → FileRead
  not_found : FileRead
  unreadable : String → FileRead

-- What the YAML parser gives.
pub data Parsed : Type 0 where
  parsed : Config → Parsed
  malformed : String → Parsed

-- What a load gives: the config and whether it is that of the file.
pub data Loaded : Type 0 where
  config_of : Config → Bool → Loaded
  load_error : ConfigError → Loaded

abbrev parsed_of : String → Parsed → Loaded
parsed_of path (parsed c) = config_of c true
parsed_of path (malformed why) = load_error (parse path why)

-- `load`.
unfoldable pub load : (String → Parsed) → String → FileRead → Loaded
load yaml path (content text) = parsed_of path (yaml text)
load yaml path not_found = load_error (read path "not found")
load yaml path (unreadable why) = load_error (read path why)

unfoldable pub load_or_default : (String → Parsed) → String → FileRead → Loaded
load_or_default yaml path (content text) = parsed_of path (yaml text)
load_or_default yaml path not_found = config_of default_config false
load_or_default yaml path (unreadable why) = load_error (read path why)

-- `insert` of each variable, in the order of an iteration.
unfoldable pub extend : Variables → Variables → Variables
unfolding upsert
extend env [] = env
extend env ((k, v) ∷ entry) = extend (upsert k (λ _. v) env) entry

unfoldable pub extend_all : Variables → List Variables → Variables
unfolding extend
extend_all env [] = env
extend_all env (entry ∷ entries) = extend_all (extend env entry) entries

-- `environment_map`.
unfoldable pub environment_map : DockerConfig → Variables
unfolding extend_all
environment_map d = extend_all [] d.environment

abbrev pub default_environment : Variables
default_environment = ("OPENAI_BASE_URL", "http://host.docker.internal:8080/v1") ∷ []

abbrev pub keep_or : String → Option String → String
keep_or v none = v
keep_or v (some w) = w

-- `entry(key).or_insert_with(value)` for each default.
unfoldable pub fill_in : Variables → Variables → Variables
unfolding upsert
fill_in env [] = env
fill_in env ((k, v) ∷ defaults) = fill_in (upsert k (keep_or v) env) defaults

unfoldable pub environment_with_defaults : DockerConfig → Variables
unfolding environment_map fill_in
environment_with_defaults d = fill_in (environment_map d) default_environment

-- The variables with the name of the model.
abbrev pub is_model_variable : String → Bool
is_model_variable k =
    str_eq k "ANTHROPIC_MODEL"
    || str_eq k "ANTHROPIC_DEFAULT_HAIKU_MODEL"
    || str_eq k "ANTHROPIC_DEFAULT_OPUS_MODEL"
    || str_eq k "ANTHROPIC_DEFAULT_SONNET_MODEL"

-- `if let Some(v) = get_mut(key) { *v = value }`.
unfoldable pub set_if_there : String → String → Variables → Variables
set_if_there key value [] = []
set_if_there key value ((k, v) ∷ m) =
    if str_eq k key then (k, value) ∷ m else (k, v) ∷ set_if_there key value m

unfoldable pub set_model : String → Variables → Variables
unfolding set_if_there
set_model model m = set_if_there "ANTHROPIC_DEFAULT_SONNET_MODEL" model (
    set_if_there "ANTHROPIC_DEFAULT_OPUS_MODEL" model
      (set_if_there "ANTHROPIC_DEFAULT_HAIKU_MODEL" model (set_if_there "ANTHROPIC_MODEL" model m)))

-- `update_model_environment`.
unfoldable pub update_model_environment : String → DockerConfig → DockerConfig
unfolding set_model
update_model_environment model d = record d { environment = map (set_model model) d.environment }
