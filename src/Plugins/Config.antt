-- ===== src/Plugins/Config.antt =====
-- read_multiple_backends_config of barbican/plugin/util/multiple_backends.py. `section` gives the
-- values of the configuration group of a name; the groups themselves are registered by oslo.config.
use barbican.Shared.{
  Bool-cases, inl, inr, ℕ, suc, ◌+◌, String, ◌≡◌, ◌∙◌, Bool, true, false, not, ◌&&◌, Option, none,
  some, List, [], ◌∷◌, ◌++◌, map, arith, str_eq, ◌==◌, if◌then◌else◌,
}
use mathlib.Core.List.{append_assoc, append-nil}
use barbican.Shared.Result.{Result, ok, raised}

pub record StoreSection : Type 0 where
  pub secret_store_plugin : Option String
  pub crypto_plugin : Option String
  pub global_default : Bool

pub record StoreConf : Type 0 where
  pub store_plugin : String
  pub crypto_plugin : Option String
  pub global_default : Bool

pub data ConfigError : Type 0 where
  -- MultipleSecretStoreLookupFailed, MultipleStorePluginValueMissing
  lookup_failed store_plugin_value_missing : ConfigError
  -- MultipleStoreIncorrectGlobalDefault
  incorrect_global_default : ℕ → ConfigError

abbrev pub lookup_plugins_prefix : String
lookup_plugins_prefix = "secretstore:"

abbrev pub count_if : Bool → ℕ → ℕ
count_if true n = suc n
count_if false n = n

abbrev pub plugin_text : Option String → String
plugin_text none = ""
plugin_text (some s) = s

abbrev pub conf_of : StoreSection → StoreConf
conf_of s = record {
  store_plugin = plugin_text s.secret_store_plugin;
  crypto_plugin = s.crypto_plugin;
  global_default = s.global_default;
}

-- The loop over the groups; a missing name and an empty one are both refused.
unfoldable pub parse_stores :
    List StoreSection → List StoreConf → ℕ → Result ConfigError (List StoreConf × ℕ)
parse_stores [] parsed count = ok (parsed, count)
parse_stores (s ∷ ss) parsed count =
    let rest = parse_stores ss (parsed ++ conf_of s ∷ []) (count_if s.global_default count) in
    if str_eq (plugin_text s.secret_store_plugin) ""
    then raised store_plugin_value_missing
    else rest

abbrev pub check_default :
    Result ConfigError (List StoreConf × ℕ) → Result ConfigError (Option (List StoreConf))
check_default (raised x) = raised x
check_default (ok (parsed, count)) =
    if count == 1 then ok (some parsed) else raised (incorrect_global_default count)

-- `enabled` is is_multiple_backends_enabled().
unfoldable pub read_multiple_backends_config :
    Bool → List String → (String → StoreSection) → Result ConfigError (Option (List StoreConf))
unfolding parse_stores
read_multiple_backends_config false suffix_list section = ok none
read_multiple_backends_config true [] section = raised lookup_failed
read_multiple_backends_config true (x ∷ xs) section = check_default (
    parse_stores
      (map (λ suffix. section (Prim.Native.String.◌++◌ lookup_plugins_prefix suffix)) (x ∷ xs)) []
      0)

unfoldable pub all_named : List StoreSection → Bool
all_named [] = true
all_named (s ∷ ss) = not (str_eq (plugin_text s.secret_store_plugin) "") && all_named ss

unfoldable pub defaults : List StoreSection → ℕ
defaults [] = 0
defaults (s ∷ ss) = count_if s.global_default (defaults ss)

parse_stores_lem :
    (ss : List StoreSection) (parsed : List StoreConf) (count : ℕ)
    → parse_stores ss parsed count ≡ (
        if all_named ss
        then ok (parsed ++ map conf_of ss, count + defaults ss)
        else raised store_plugin_value_missing)
unfolding parse_stores all_named defaults
parse_stores_lem [] parsed count = ground (arith, append-nil parsed)
parse_stores_lem (s ∷ ss) parsed count =
    elim (Bool-cases (str_eq (plugin_text s.secret_store_plugin) "")) [
      | inl e ↦ rw e
      | inr e ↦ rw e (
          parse_stores_lem ss (parsed ++ conf_of s ∷ []) (count_if s.global_default count)
          ∙ ground (arith, append_assoc parsed (conf_of s ∷ []) (map conf_of ss)))
    ]

abbrev pub sections_of : List String → (String → StoreSection) → List StoreSection
sections_of suffixes section =
    map (λ suffix. section (Prim.Native.String.◌++◌ lookup_plugins_prefix suffix)) suffixes

-- What the sections come to.
abbrev outcome : List StoreSection → Result ConfigError (Option (List StoreConf))
outcome ss =
    if not (all_named ss)
    then raised store_plugin_value_missing
    else if defaults ss == 1
    then ok (some (map conf_of ss))
    else raised (incorrect_global_default (defaults ss))

-- With several backends enabled and at least one suffix, the configuration is read exactly when
-- every section names a store plugin and one section is the global default: the result lists the
-- sections in the order of the suffixes. A missing name is reported before a wrong number of
-- defaults, and that error tells the number.
pub read_multiple_backends_config_lem :
    (x : String) (xs : List String) (section : String → StoreSection)
    → read_multiple_backends_config true (x ∷ xs) section ≡ outcome (sections_of (x ∷ xs) section)
unfolding read_multiple_backends_config
read_multiple_backends_config_lem x xs section =
    let ss : List StoreSection = sections_of (x ∷ xs) section in
    let z : 0 + defaults ss ≡ defaults ss = omega arith in
    rw (parse_stores_lem ss [] 0)
      (elim (Bool-cases (all_named ss)) [ inl e ↦ rw (e, z) | inr e ↦ rw e ])
