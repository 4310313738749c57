-- ===== src/Examples/Callbacks.antt =====
-- OAuth callbacks and storage keys.
use invoices_codex.Prelude.{
  ◌≡◌, refl, false, none, List, [], ◌∷◌, ◌==◌, filter, arith, Bool-cases, inl, inr,
}
use invoices_codex.Env.{Dict, object, array, invalid, Json}
use invoices_codex.Models.{ProviderConfig}
use invoices_codex.Store.{World, raised, provider_error}
use invoices_codex.Providers.Fields.{provider_config_payload, provider_row_or_error}
use invoices_codex.Providers.OAuth.{
  complete_provider_oauth_callback, expected_state, finish_callback, state_hash,
  clear_provider_oauth_state,
}
use invoices_codex.Providers.OAuth.Callback.{
  Connected, LoadsDumped, complete_provider_oauth_callback-Connected,
  complete_provider_oauth_callback_once,
}
use invoices_codex.Providers.Tokens.{refresh_provider_oauth, revoke_provider_oauth}
use invoices_codex.Providers.Tokens.Revoked.{revoke_ends_refresh}
use invoices_codex.Worker.Storage.{normalize_key}
use invoices_codex.Worker.Storage.Keys.{has_dots, starts_with, normalize_key-IsInside}
use invoices_codex.Examples.Base.{env, env-reads, empty_db, world_of, value_or}

abbrev provider : ProviderConfig
provider = record {
  id = "p";
  tenant_id = "t";
  provider_type = "gmail";
  display_name = none;
  connection_status = "disconnected";
  config_json = "state";
  token_expires_at = none;
  last_successful_sync_at = none;
  last_error_code = none;
  last_error_message = none;
  oauth_access_token_enc = none;
  oauth_refresh_token_enc = none;
  created_at = 1;
  updated_at = 1;
}

abbrev started : World
started = world_of (record empty_db { providers = provider ∷ [] })

abbrev connected : ProviderConfig
connected =
    value_or provider (complete_provider_oauth_callback env 5 "t" "p" "s" "c" none none started).0

complete_provider_oauth_callback-Connected_example :
    Connected env 5 "t" "p" "s" connected started
      (complete_provider_oauth_callback env 5 "t" "p" "s" "c" none none started).1
unfolding complete_provider_oauth_callback provider_row_or_error provider_config_payload
    expected_state finish_callback state_hash filter
complete_provider_oauth_callback-Connected_example =
    complete_provider_oauth_callback-Connected env 5 "t" "p" "s" "c" none none connected started
      refl

object_path : (c d : Dict) → object c ≡ object d → c ≡ d
object_path c d h = ground arith

array_path : (c : List Json) (d : Dict) → ¬ (array c ≡ object d)
array_path c d h = ground arith

invalid_path : (d : Dict) → ¬ (invalid ≡ object d)
invalid_path d h = ground arith

-- Of the texts that the examples load, each one has no entry but the state's, or is left as `{}` is read.
env-LoadsDumped : LoadsDumped env
unfolding clear_provider_oauth_state
env-LoadsDumped t d h = elim (Bool-cases (t == "state")) [
  | inl state ↦ let e = rw state at h in rw (← object_path _ d e) (_, refl, λ k. refl)
  | inr n1 ↦ elim (Bool-cases (t == "providers")) [
    | inl providers ↦ absurd (array_path _ d (rw (n1, providers) at h))
    | inr n2 ↦ elim (Bool-cases (t == "formats")) [
      | inl formats ↦ absurd (array_path _ d (rw (n1, n2, formats) at h))
      | inr n3 ↦ elim (Bool-cases (t == "claimset")) [
        | inl claimset ↦
            let e = rw (n1, n2, n3, claimset) at h in rw (← object_path _ d e) (_, refl, λ k. refl)
        | inr n4 ↦ elim (Bool-cases (t == "{}")) [
          | inl empty ↦
              let e = rw (n1, n2, n3, n4, empty) at h in
              rw (← object_path _ d e) (_, refl, λ k. refl)
          | inr n5 ↦ absurd (invalid_path d (rw (n1, n2, n3, n4, n5) at h))
        ]
      ]
    ]
  ]
]

complete_provider_oauth_callback_once_example :
    complete_provider_oauth_callback env 6 "t" "p" "s" "c" none none
      (complete_provider_oauth_callback env 5 "t" "p" "s" "c" none none started).1
    ≡ (
      raised (provider_error "PROVIDER_OAUTH_STATE_INVALID" "oauth state is missing or invalid"),
      (complete_provider_oauth_callback env 5 "t" "p" "s" "c" none none started).1,
    )
unfolding complete_provider_oauth_callback provider_row_or_error provider_config_payload
    expected_state finish_callback state_hash filter
complete_provider_oauth_callback_once_example =
    complete_provider_oauth_callback_once env env-reads env-LoadsDumped 5 6 "t" "p" "s" "c" "s" "c"
      none none connected started (tt, tt) refl refl refl

normalize_key-IsInside_example :
    (has_dots (normalize_key "//../../etc/passwd") ≡ false)
    × (starts_with b'/' (normalize_key "//../../etc/passwd") ≡ false)
normalize_key-IsInside_example = normalize_key-IsInside "//../../etc/passwd"

abbrev revoked : ProviderConfig
revoked = value_or provider (revoke_provider_oauth env 5 "t" "p" none none started).0

revoke_ends_refresh_example :
    ((refresh_provider_oauth env 6 "t" "p" none none
        (revoke_provider_oauth env 5 "t" "p" none none started).1).0
      ≡ raised (provider_error "PROVIDER_OAUTH_NOT_CONNECTED" "provider is not connected"))
    × ((refresh_provider_oauth env 6 "t" "p" none none
          (revoke_provider_oauth env 5 "t" "p" none none started).1).1.db.providers
        ≡ (revoke_provider_oauth env 5 "t" "p" none none started).1.db.providers)
unfolding revoke_provider_oauth provider_row_or_error provider_config_payload filter
revoke_ends_refresh_example =
    revoke_ends_refresh env env-reads 5 6 "t" "p" none none revoked started (tt, tt) refl
