-- ===== src/Providers/Tokens/Revoked.antt =====
-- `refresh_provider_oauth` of service.py after `revoke_provider_oauth`.
use invoices_codex.Prelude.{
  ℕ, String, ◌≡◌, refl, ap, ◌∙◌, Option, none, inl, inr, arith, filter_holds, filter-save_kept,
  IsKeyed,
}
use invoices_codex.Env.{Env, Dict, found, ReadsRows, filter_of_found, found_of_filter}
use invoices_codex.Models.{ProviderConfig}
use invoices_codex.Store.{
  World, ok, raised, provider_error, save_provider, Selected-cases, Outcome-cases,
}
use invoices_codex.Providers.Fields.{provider_config_payload, provider_row_or_error}
use invoices_codex.Providers.OAuth.Callback.{is_provider}
use invoices_codex.Providers.Tokens.{
  refresh_row, refresh_provider_oauth, revoked_provider, revoke_provider_oauth,
}

record Revoked (env : Env) (now : ℕ) (tenant_id provider_id : String) (r : ProviderConfig)
    (w w' : World) : Type 0 where
  pub old : ProviderConfig
  pub payload : Dict
  pub was_found : env.one_or_none (is_provider tenant_id provider_id) w.db.providers ≡ found old
  pub returned : r ≡ revoked_provider env now old payload
  pub saved : w'.db.providers ≡ save_provider r w.db.providers

revoke_provider_oauth-Revoked :
    (env : Env) (now : ℕ) (tenant_id provider_id : String) (actor request_id : Option String)
    (r : ProviderConfig) (w : World)
    → (revoke_provider_oauth env now tenant_id provider_id actor request_id w).0 ≡ ok r
    → Revoked env now tenant_id provider_id r w
        (revoke_provider_oauth env now tenant_id provider_id actor request_id w).1
unfolding revoke_provider_oauth provider_row_or_error
revoke_provider_oauth-Revoked env now tenant_id provider_id actor request_id r w h =
    elim (Selected-cases (env.one_or_none (is_provider tenant_id provider_id) w.db.providers)) [
      | inl none_found ↦ absurd (ground arith)
      | inr (inr several) ↦ absurd (ground arith)
      | inr (inl (old, e)) ↦ elim (Outcome-cases (provider_config_payload env old)) [
        | inr (x, e') ↦ absurd (ground arith)
        | inl (payload, e') ↦ record {
          old = old;
          payload = payload;
          was_found = e;
          returned = ground arith;
          saved = ground arith;
        }
      ]
    ]

revoked_provider-read :
    (env : Env) (now : ℕ) (old : ProviderConfig) (payload : Dict) (tenant_id provider_id : String)
    → ((revoked_provider env now old payload).id ≡ old.id)
      × (is_provider tenant_id provider_id (revoked_provider env now old payload)
          ≡ is_provider tenant_id provider_id old)
      × ((revoked_provider env now old payload).oauth_refresh_token_enc ≡ none)
      × ((revoked_provider env now old payload).connection_status ≡ "disconnected")
unfolding revoked_provider
revoked_provider-read env now old payload tenant_id provider_id = (refl, refl, refl, refl)

refresh-not_connected :
    (env : Env) (now : ℕ) (tenant_id provider_id : String) (actor request_id : Option String)
    (row : ProviderConfig) (w : World)
    → env.one_or_none (is_provider tenant_id provider_id) w.db.providers ≡ found row
    → row.oauth_refresh_token_enc ≡ none
    → ((refresh_provider_oauth env now tenant_id provider_id actor request_id w).0
        ≡ raised (provider_error "PROVIDER_OAUTH_NOT_CONNECTED" "provider is not connected"))
      × ((refresh_provider_oauth env now tenant_id provider_id actor request_id w).1.db.providers
          ≡ w.db.providers)
unfolding refresh_provider_oauth refresh_row provider_row_or_error
refresh-not_connected env now tenant_id provider_id actor request_id row w known no_token =
    (ground arith, ground arith)

-- After a revocation that returned, a refresh of the provider's tokens is refused as not connected, and
-- leaves the provider rows as they are.
pub revoke_ends_refresh :
    (env : Env) (reads : ReadsRows env) (now later : ℕ) (tenant_id provider_id : String)
    (actor request_id : Option String) (r : ProviderConfig) (w : World)
    → IsKeyed (λ (p : ProviderConfig). p.id) w.db.providers
    → (revoke_provider_oauth env now tenant_id provider_id actor request_id w).0 ≡ ok r
    → ((refresh_provider_oauth env later tenant_id provider_id actor request_id
          (revoke_provider_oauth env now tenant_id provider_id actor request_id w).1).0
        ≡ raised (provider_error "PROVIDER_OAUTH_NOT_CONNECTED" "provider is not connected"))
      × ((refresh_provider_oauth env later tenant_id provider_id actor request_id
            (revoke_provider_oauth env now tenant_id provider_id actor request_id
              w).1).1.db.providers
          ≡ (revoke_provider_oauth env now tenant_id provider_id actor request_id w).1.db.providers)
unfolding save_provider
revoke_ends_refresh env reads now later tenant_id provider_id actor request_id r w keyed h =
    let d = revoke_provider_oauth-Revoked env now tenant_id provider_id actor request_id r w h in
    let p = is_provider tenant_id provider_id in
    let one = filter_of_found reads p w.db.providers d.old d.was_found in
    let read = revoked_provider-read env now d.old d.payload tenant_id provider_id in
    let still = found_of_filter reads p _ r (
      rw d.saved (
        filter-save_kept p (λ (q : ProviderConfig). q.id) d.old r w.db.providers
          (ap p d.returned ∙ read.1 ∙ filter_holds p d.old w.db.providers one)
          (ap (λ (q : ProviderConfig). q.id) d.returned ∙ read.0) keyed one)) in
    refresh-not_connected env later tenant_id provider_id actor request_id r _ still
      (ap (λ (q : ProviderConfig). q.oauth_refresh_token_enc) d.returned ∙ read.2)
