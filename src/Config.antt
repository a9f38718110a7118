-- ===== src/Config.antt =====
-- The configuration of config/env.go. `loadConfig` goes over the fields of a struct by reflection: a struct
-- is the list of its fields here, each with its tags and its value. The environment, the splitting at
-- commas, `strconv.ParseBool` and `strconv.Atoi` are parameters; what is logged is left out.
pub mod Loaded
use thoth.Base.{
  ℤ, pos, negsuc, ℕ, Bool, true, false, Option, none, some, List, [], ◌∷◌, Bytes, codes,
}

-- The kinds of a field that the loader tells apart.
pub data Value : Type 0 where
  slice : List Bytes → Value
  text : Bytes → Value
  flag : Bool → Value
  int : ℤ → Value

-- `default` is `default_value` here.
pub record Tags : Type 0 where
  pub env : Bytes
  pub default_value : Bytes

mutual
  pub data Field : Type 0 where
    leaf : Tags → Value → Field
    struct : Fields → Field

  pub data Fields : Type 0 where
    done : Fields
    next : Field → Fields → Fields

pub record Environment : Type 0 where
  pub getenv : Bytes → Bytes
  pub split : Bytes → List Bytes
  pub parse_bool : Bytes → Option Bool
  pub atoi : Bytes → Option ℤ

abbrev pub or_default : Bytes → Bytes → Bytes
or_default [] default_value = default_value
or_default (c ∷ value) default_value = c ∷ value

-- A value that does not parse leaves the field as it is.
abbrev pub set_bool : Value → Option Bool → Value
set_bool v none = v
set_bool v (some b) = Value.flag b

abbrev pub set_int : Value → Option ℤ → Value
set_int v none = v
set_int v (some i) = Value.int i

-- The `switch` over the kind of the field.
abbrev pub set_field : Environment → Bytes → Value → Value
set_field e config_value (Value.slice xs) = Value.slice (e.split config_value)
set_field e config_value (Value.text s) = Value.text config_value
set_field e config_value (Value.flag b) = set_bool (Value.flag b) (e.parse_bool config_value)
set_field e config_value (Value.int i) = set_int (Value.int i) (e.atoi config_value)

-- A field without a value is left as it is.
abbrev pub set_unless_empty : Environment → Value → Bytes → Value
set_unless_empty e v [] = v
set_unless_empty e v (c ∷ config_value) = set_field e (c ∷ config_value) v

-- The `err` that is returned is the one declared first: each `err` of the cases is another variable.
unfoldable pub load_config_field : Environment → Tags → Value → Value × Option Bytes
load_config_field e tags v =
    (set_unless_empty e v (or_default (e.getenv tags.env) tags.default_value), none)

-- The error is that of the last field.
unfoldable mutual
  pub load_config : Environment → Fields → Option Bytes → Fields × Option Bytes
  load_config e done err = (done, err)
  load_config e (next f fs) err =
      let (f', err') = load_one e f in
      let (fs', err'') = load_config e fs err' in (next f' fs', err'')

  pub load_one : Environment → Field → Field × Option Bytes
  load_one e (leaf tags v) = let (v', err) = load_config_field e tags v in (leaf tags v', err)
  load_one e (struct fs) = let (fs', err) = load_config e fs none in (struct fs', err)

abbrev field : Bytes → Bytes → Value → Field
field env default_value v = leaf (record { env = env; default_value = default_value }) v

-- `Configuration` as `&Configuration{}` makes it; the two fields of `Cluster` have no tag of the loader.
abbrev pub configuration : Fields
configuration = next (field (codes "WORKER_NUM") (codes "1024") (Value.int (pos 0))) (
    next (field (codes "PORT") (codes "1883") (Value.int (pos 0))) (
      next (field (codes "WS_PORT") (codes "1443") (Value.int (pos 0))) (
        next (struct (next (field [] [] (Value.text [])) (next (field [] [] (Value.text [])) done)))
          (next (field (codes "AMQP_URL") [] (Value.text [])) (
            next (field (codes "BRIDGE_ENABLED") (codes "false") (Value.flag false)) (
              next (field (codes "HEIMDALLR_HOST") [] (Value.text [])) (
                next (field (codes "HEIMDALLR_PORT") (codes "7001") (Value.int (pos 0)))
                  (next (field (codes "HEIMDALLR_KEY") [] (Value.text [])) done))))))))

-- `Setup` stores the configuration and only logs an error.
unfoldable pub setup : Environment → Fields
setup e = (load_config e configuration none).0

-- `GetConfig`: the first call sets the configuration up, for the calls after it as well. The state is the
-- configuration that is stored.
unfoldable pub get_config : Environment → Option Fields → Fields × Option Fields
get_config e none = (setup e, some (setup e))
get_config e (some config) = (config, some config)
