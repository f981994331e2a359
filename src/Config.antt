-- ===== src/Config.antt =====
-- src/config.c: the validators of the options, and the options that are passed on when they
-- change, to the share of subscriptions of src/client.c.
use quick_io.Common.{
  ℕ, Bool, true, false, ◌||◌, ◌==◌, ltb, if◌then◌else◌, Option, none, some, Bytes, [], ◌∷◌,
}

-- The options of `_cfg` that are numbers, and what is kept of the public address.
pub record Settings : Type 0 where
  pub broadcast_threads : ℕ
  pub clients_cb_max_age : ℕ
  pub clients_subs_total : ℕ
  pub clients_subs_pressure : ℕ
  pub clients_subs_min : ℕ
  pub periodic_threads : ℕ
  pub public_address : Option Bytes
  pub run_app_tests : Bool
  pub sub_min_size : ℕ

-- The `defval` of each.
abbrev pub defaults : Settings
defaults = record {
  broadcast_threads = 2;
  clients_cb_max_age = 15;
  clients_subs_total = 4_194_304;
  clients_subs_pressure = 60;
  clients_subs_min = 128;
  periodic_threads = 8;
  public_address = none;
  run_app_tests = false;
  sub_min_size = 8_192;
}

-- The names of the options that a running server may change.
pub data Setting : Type 0 where
  broadcast_threads clients_cb_max_age clients_subs_total : Setting
  clients_subs_pressure clients_subs_min periodic_threads sub_min_size : Setting

-- The validators say whether `*error` stays NULL.
unfoldable pub validate_client_cb_max_age : ℕ → Bool
validate_client_cb_max_age val = if val == 0 then false else true

unfoldable pub validate_sub_min_size : ℕ → ℕ → Bool
validate_sub_min_size max_clients val = if val == 0 || ltb max_clients val then false else true

-- `resolves` is whether `getaddrinfo` finds the address; the value may be replaced by NULL.
unfoldable pub validate_public_address : (Bytes → Bool) → Option Bytes → Option Bytes × Bool
validate_public_address resolves none = (none, true)
validate_public_address resolves (some []) = (none, true)
validate_public_address resolves (some (c ∷ s)) = (some (c ∷ s), resolves (c ∷ s))

-- The `validate` of an option; most have none.
unfoldable pub validate : ℕ → Setting → ℕ → Bool
unfolding validate_client_cb_max_age validate_sub_min_size
validate max_clients Setting.clients_cb_max_age val = validate_client_cb_max_age val
validate max_clients Setting.sub_min_size val = validate_sub_min_size max_clients val
validate max_clients option val = true

-- What quick-event's `struct qev_fair` was told.
pub record Fair : Type 0 where
  pub total : ℕ
  pub pressure : ℕ
  pub min : ℕ

-- `client_update_subs_config`; `_fair_subs` is NULL before `client_init`.
unfoldable pub client_update_subs_config : Option Fair → ℕ → ℕ → ℕ → Option Fair
client_update_subs_config none total pressure min = none
client_update_subs_config (some fair) total pressure min =
    some (record { total = total; pressure = pressure; min = min })

-- The part of `client_init` that makes the share.
unfoldable pub client_init_fair : Settings → Option Fair
client_init_fair s = some (record {
  total = s.clients_subs_total;
  pressure = s.clients_subs_pressure;
  min = s.clients_subs_min;
})

unfoldable pub update_client_subs_total : Settings → Option Fair → ℕ → Option Fair
unfolding client_update_subs_config
update_client_subs_total s fair new_val =
    client_update_subs_config fair new_val s.clients_subs_pressure s.clients_subs_min

unfoldable pub update_client_subs_pressure : Settings → Option Fair → ℕ → Option Fair
unfolding client_update_subs_config
update_client_subs_pressure s fair new_val =
    client_update_subs_config fair s.clients_subs_total new_val s.clients_subs_min

unfoldable pub update_client_subs_min : Settings → Option Fair → ℕ → Option Fair
unfolding client_update_subs_config
update_client_subs_min s fair new_val =
    client_update_subs_config fair s.clients_subs_total s.clients_subs_pressure new_val

-- The `cb` of an option.
unfoldable pub changed : Settings → Option Fair → Setting → ℕ → Option Fair
unfolding update_client_subs_total update_client_subs_pressure update_client_subs_min
changed s fair Setting.clients_subs_total val = update_client_subs_total s fair val
changed s fair Setting.clients_subs_pressure val = update_client_subs_pressure s fair val
changed s fair Setting.clients_subs_min val = update_client_subs_min s fair val
changed s fair option val = fair
