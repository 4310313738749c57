-- ===== src/Auth/AccessToken.antt =====
-- Access tokens: `issue_access_token` and `decode_access_token` of saas/auth.py.
pub mod RoundTrip
use Prim.Native.Char.{code}
use Prim.Native.String.{◌++◌, len}
use invoices_codex.Prelude.{
  ℕ, String, ◌/◌, ◌%◌, ◌-◌, Bool, not, Option, none, some, [], ◌∷◌, ◌==◌, leb, eqb, if◌then◌else◌,
}
use invoices_codex.Env.{Env, Dict, text, num, get, Loaded, object}

-- The claims of a token; `exp` is in seconds.
pub record AccessTokenClaims : Type 0 where
  pub user_id : String
  pub tenant_id : String
  pub membership_id : String
  pub session_id : String
  pub exp : ℕ

-- The errors that `decode_access_token` names.
pub data TokenError : Type 0 where
  missing invalid expired : TokenError

pub data Decoded : Type 0 where
  claims : AccessTokenClaims → Decoded
  refused : TokenError → Decoded

-- One split of `text.split(".")`: what stands before the first dot and behind it.
unfoldable pub split_dot : String → Option (String × String)
split_dot String.[] = none
split_dot (String.◌∷◌ c s) = elim (eqb (code c) b'.') [
  | Bool.true ↦ some ("", s)
  | Bool.false ↦ elim (split_dot s) [ none ↦ none | some (a, b) ↦ some (String.◌∷◌ c a, b) ]
]

-- `text.rstrip("=")`
unfoldable pub rstrip_eq : String → String
rstrip_eq String.[] = ""
rstrip_eq (String.◌∷◌ c s) =
    let rest = rstrip_eq s in
    if rest == "" then (if eqb (code c) b'=' then "" else String.◌∷◌ c "") else String.◌∷◌ c rest

-- `"=" * n` for the pads that occur, of 0 to 3 signs.
abbrev pad_signs : ℕ → String
pad_signs n = if eqb n 0 then "" else if eqb n 1 then "=" else if eqb n 2 then "==" else "==="

module _ (env : Env) where
  unfoldable pub b64url_encode : String → String
  unfolding rstrip_eq
  b64url_encode raw = rstrip_eq (env.urlsafe_b64encode raw)

  unfoldable pub b64url_decode : String → Option String
  b64url_decode raw = env.urlsafe_b64decode (raw ++ pad_signs ((4 - len raw % 4) % 4))

  -- `str(payload[k])`; a missing key raises.
  abbrev pub text_claim : String → Dict → Option String
  text_claim k d = elim (get k d) [
    | none ↦ none
    | some (text s) ↦ some s
    | some j ↦ some (env.str_json j)
  ]

  -- `int(payload[k])`
  abbrev pub number_claim : String → Dict → Option ℕ
  number_claim k d = elim (get k d) [
    | none ↦ none
    | some (num n) ↦ some n
    | some j ↦ env.int_json j
  ]

  abbrev pub payload_claims : Dict → Option AccessTokenClaims
  payload_claims d = elim (text_claim "sub" d) [
    | none ↦ none
    | some sub ↦ elim (text_claim "tid" d) [
      | none ↦ none
      | some tid ↦ elim (text_claim "mid" d) [
        | none ↦ none
        | some mid ↦ elim (text_claim "sid" d) [
          | none ↦ none
          | some sid ↦ elim (number_claim "exp" d) [
            | none ↦ none
            | some exp ↦ some (record {
              user_id = sub;
              tenant_id = tid;
              membership_id = mid;
              session_id = sid;
              exp = exp;
            })
          ]
        ]
      ]
    ]
  ]

  abbrev pub loaded_claims : Loaded → Option AccessTokenClaims
  loaded_claims (object d) = payload_claims d
  loaded_claims _ = none

  -- The `try` block: `none` is an exception or a return of `"invalid"`.
  unfoldable pub verified_claims : String → String → Option AccessTokenClaims
  verified_claims token secret = elim (split_dot token) [
    | none ↦ none
    | some (version, rest) ↦ elim (split_dot rest) [
      | none ↦ none
      | some (payload_b64, signature_b64) ↦
          if not (version == "v1") then none else elim (b64url_decode signature_b64) [
            | none ↦ none
            | some parsed_sig ↦
                if not (env.hmac_sha256 secret payload_b64 == parsed_sig)
                then none
                else elim (b64url_decode payload_b64) [
                  | none ↦ none
                  | some raw ↦ loaded_claims (env.loads raw)
                ]
          ]
    ]
  ]

  -- `now_ts` is the present time in seconds.
  unfoldable pub decode_access_token : String → String → ℕ → Decoded
  unfolding verified_claims
  decode_access_token token secret now_ts =
      if token == "" then refused missing else elim (verified_claims token secret) [
        | none ↦ refused invalid
        | some c ↦ if leb c.exp now_ts then refused expired else claims c
      ]

  -- `expires_at` is an instant in microseconds; `jti` is the text that `secrets.token_hex` draws. The
  -- payload stands in the order of its sorted keys.
  abbrev pub token_payload : AccessTokenClaims → String → Dict
  token_payload c jti =
      ("exp", num c.exp)
      ∷ ("jti", text jti)
      ∷ ("mid", text c.membership_id)
      ∷ ("sid", text c.session_id)
      ∷ ("sub", text c.user_id)
      ∷ ("tid", text c.tenant_id)
      ∷ ("v", num 1)
      ∷ []

  unfoldable pub issue_access_token :
      String → String → String → String → String → ℕ → String → String
  unfolding b64url_encode
  issue_access_token secret user_id tenant_id membership_id session_id expires_at jti =
      let c : AccessTokenClaims = record {
        user_id = user_id;
        tenant_id = tenant_id;
        membership_id = membership_id;
        session_id = session_id;
        exp = expires_at / 1000000;
      } in
      let payload_b64 = b64url_encode (env.dumps_compact (token_payload c jti)) in
      let signature_b64 = b64url_encode (env.hmac_sha256 secret payload_b64) in
      "v1." ++ (payload_b64 ++ ("." ++ signature_b64))
