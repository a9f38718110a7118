-- ===== src/Config/Loaded.antt =====
-- What loading the configuration does: config/env.go.
use thoth.Base.{◌≡◌, refl, ap, ◌∙◌, Bool, Option, none, some, List, [], ◌∷◌, Bytes}
use thoth.Config.{
  Value, Tags, Field, leaf, struct, Fields, done, next, Environment, or_default, set_bool, set_int,
  set_field, set_unless_empty, load_config_field, load_config, load_one, configuration, setup,
  get_config,
}

set_bool-twice :
    (b : Bool) (o : Option Bool)
    → set_bool (set_bool (Value.flag b) o) o ≡ set_bool (Value.flag b) o
set_bool-twice b none = refl
set_bool-twice b (some c) = refl

set_field-twice :
    (e : Environment) (s : Bytes) (v : Value) → set_field e s (set_field e s v) ≡ set_field e s v
set_field-twice e s (Value.slice xs) = refl
set_field-twice e s (Value.text x) = refl
set_field-twice e s (Value.flag b) = of_bool (e.parse_bool s) refl
  where
    of_bool :
        (o : Option Bool)
        → e.parse_bool s ≡ o
        → set_field e s (set_bool (Value.flag b) o) ≡ set_bool (Value.flag b) o
    of_bool none h = ap (set_bool (Value.flag b)) h
    of_bool (some c) h = ap (set_bool (Value.flag c)) h
set_field-twice e s (Value.int i) = of_int (e.atoi s) refl
  where
    of_int :
        (o : Option _)
        → e.atoi s ≡ o
        → set_field e s (set_int (Value.int i) o) ≡ set_int (Value.int i) o
    of_int none h = ap (set_int (Value.int i)) h
    of_int (some c) h = ap (set_int (Value.int c)) h

set_unless_empty-twice :
    (e : Environment) (v : Value) (s : Bytes)
    → set_unless_empty e (set_unless_empty e v s) s ≡ set_unless_empty e v s
set_unless_empty-twice e v [] = refl
set_unless_empty-twice e v (c ∷ s) = set_field-twice e (c ∷ s) v

load_config_field-twice :
    (e : Environment) (tags : Tags) (v : Value)
    → (load_config_field e tags (load_config_field e tags v).0).0 ≡ (load_config_field e tags v).0
unfolding load_config_field
load_config_field-twice e tags v =
    set_unless_empty-twice e v (or_default (e.getenv tags.env) tags.default_value)

mutual
  unfolding load_config load_one load_config_field

  load_config-fine : (e : Environment) (fs : Fields) → (load_config e fs none).1 ≡ none
  load_config-fine e done = refl
  load_config-fine e (next f fs) =
      ap (λ x. (load_config e fs x).1) (load_one-fine e f) ∙ load_config-fine e fs

  load_one-fine : (e : Environment) (f : Field) → (load_one e f).1 ≡ none
  load_one-fine e (leaf tags v) = refl
  load_one-fine e (struct fs) = load_config-fine e fs

mutual
  unfolding load_config load_one

  fields-twice :
      (e : Environment) (fs : Fields) (x y : Option Bytes)
      → (load_config e (load_config e fs x).0 y).0 ≡ (load_config e fs x).0
  fields-twice e done x y = refl
  fields-twice e (next f fs) x y =
      ap
        (λ g.
          next g
            (load_config e (load_config e fs (load_one e f).1).0 (load_one e (load_one e f).0).1).0)
        (one-twice e f)
      ∙ ap (next (load_one e f).0)
          (fields-twice e fs (load_one e f).1 (load_one e (load_one e f).0).1)

  one-twice : (e : Environment) (f : Field) → (load_one e (load_one e f).0).0 ≡ (load_one e f).0
  one-twice e (leaf tags v) = ap (leaf tags) (load_config_field-twice e tags v)
  one-twice e (struct fs) = ap struct (fields-twice e fs none none)

-- Each struct, with any fields and values, is loaded without an error, whatever does not parse, and a second
-- time under the same environment nothing changes.
pub load_config-twice :
    (e : Environment) (fs : Fields)
    → ((load_config e fs none).1 ≡ none)
      × ((load_config e (load_config e fs none).0 none).0 ≡ (load_config e fs none).0)
load_config-twice e fs = (load_config-fine e fs, fields-twice e fs none none)

-- The configurations that calls of `GetConfig` return, each under its environment.
abbrev pub get_configs : List Environment → Option Fields → List Fields
get_configs [] o = []
get_configs (e ∷ es) o = (get_config e o).0 ∷ get_configs es (get_config e o).1

abbrev pub copies : List Environment → Fields → List Fields
copies [] c = []
copies (e ∷ es) c = c ∷ copies es c

get_configs-same : (es : List Environment) (c : Fields) → get_configs es (some c) ≡ copies es c
unfolding get_config
get_configs-same [] c = refl
get_configs-same (e ∷ es) c = ap (◌∷◌ c) (get_configs-same es c)

-- From the start, all calls of `GetConfig` return the configuration loaded under the environment of the first,
-- whatever the environment is later; loading that one again there would change nothing.
pub get_config-once :
    (e : Environment) (es : List Environment)
    → (get_configs (e ∷ es) none ≡ copies (e ∷ es) (setup e))
      × ((load_config e (setup e) none).0 ≡ setup e)
unfolding setup get_config
get_config-once e es =
    (ap (◌∷◌ (setup e)) (get_configs-same es (setup e)), fields-twice e configuration none none)
