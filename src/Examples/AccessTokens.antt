-- ===== src/Examples/AccessTokens.antt =====
-- An access token, made and read back.
use invoices_codex.Prelude.{◌≡◌, refl}
use invoices_codex.Env.{Env, object}
use invoices_codex.Auth.AccessToken.{
  claims, decode_access_token, issue_access_token, token_payload, b64url_encode, rstrip_eq,
}
use invoices_codex.Auth.AccessToken.RoundTrip.{claims_of, decode-issue}
use invoices_codex.Examples.Base.{env}

abbrev token_env : Env
token_env = record env {
  dumps_compact = λ d. "payload0";
  loads = λ t. object (token_payload env (claims_of "u" "t" "m" "s" 90000000) "j");
}

decode-issue_example :
    decode_access_token token_env
      (issue_access_token token_env "key" "u" "t" "m" "s" 90000000 "j")
      "key"
      5
    ≡ claims (claims_of "u" "t" "m" "s" 90000000)
unfolding b64url_encode rstrip_eq
decode-issue_example =
    decode-issue token_env "key" "key" "u" "t" "m" "s" "j" 90000000 5
      (record { body = "payload0"; padded = refl; no_pads = refl; no_dots = refl; decoded = refl })
      (record { body = "sign"; padded = refl; no_pads = refl; no_dots = refl; decoded = refl }) refl
