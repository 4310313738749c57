-- ===== src/Auth/AccessToken/RoundTrip.antt =====
-- `decode_access_token` of a token that `issue_access_token` made.
use Prim.Native.Char.{Char}
use Prim.Native.String.{◌++◌, len}
use text.Mathlib.TextLemmas.{nil-append, cons-append, cons-ne-nil, append_assoc}
use invoices_codex.Prelude.{
  ℕ, String, ◌/◌, ◌%◌, ◌-◌, ◌≡◌, refl, sym, ap, ◌∙◌, true, false, none, some, inl, inr, arith, ◌==◌,
  leb, eqb, eq_iff, if◌then◌else◌, Bool-cases,
}
use invoices_codex.Prelude.Texts.{lacks}
use invoices_codex.Env.{Env, Dict, object}
use invoices_codex.Auth.AccessToken.{
  AccessTokenClaims, claims, refused, expired, invalid, split_dot, rstrip_eq, pad_signs,
  b64url_encode, b64url_decode, token_payload, payload_claims, verified_claims, decode_access_token,
  issue_access_token,
}

-- What is documented of base64 in the URL alphabet, for one text: its code is a body of the alphabet's signs and the
-- pads that bring the length to a multiple of four, and decoding takes it back.
pub record IsCoded (env : Env) (raw : String) : Type 0 where
  pub body : String
  pub padded : env.urlsafe_b64encode raw ≡ body ++ pad_signs ((4 - len body % 4) % 4)
  pub no_pads : lacks b'=' body ≡ true
  pub no_dots : lacks b'.' body ≡ true
  pub decoded : env.urlsafe_b64decode (env.urlsafe_b64encode raw) ≡ some raw

split_dot-append : (a b : String) → lacks b'.' a ≡ true → split_dot (a ++ ("." ++ b)) ≡ some (a, b)
unfolding split_dot
split_dot-append String.[] b h =
    rw (nil-append ("." ++ b), cons-append "." "" b) (rw (split_dot, nil-append b) refl)
split_dot-append (String.◌∷◌ c a) b h =
    rw (cons-append c a ("." ++ b)) (ground (arith, split_dot-append a b))

rstrip_eq-append :
    (a pads : String) → lacks b'=' a ≡ true → rstrip_eq pads ≡ "" → rstrip_eq (a ++ pads) ≡ a
unfolding rstrip_eq
rstrip_eq-append String.[] pads h p = rw (nil-append pads) p
rstrip_eq-append (String.◌∷◌ c a) pads h p =
    let rest = rstrip_eq-append a pads (ground arith) p in
    rw (cons-append c a pads) (rw (rstrip_eq, rest) (ground (arith, eq_iff a "")))

rstrip_eq-pad_signs : (n : ℕ) → rstrip_eq (pad_signs n) ≡ ""
unfolding rstrip_eq
rstrip_eq-pad_signs n = elim (Bool-cases (eqb n 0)) [
  | inl zero ↦ rw zero refl
  | inr more ↦ elim (Bool-cases (eqb n 1)) [
    | inl one ↦ rw (more, one) refl
    | inr others ↦ elim (Bool-cases (eqb n 2)) [
      | inl two ↦ rw (more, others, two) refl
      | inr three ↦ rw (more, others, three) refl
    ]
  ]
]

cons-ne-empty : (c : Char) (s : String) → (String.◌∷◌ c s == "") ≡ false
cons-ne-empty c s = elim (Bool-cases (String.◌∷◌ c s == "")) [
  | inr other ↦ other
  | inl same ↦
      let e : String.◌∷◌ c s ≡ "" = ground (arith, eq_iff (String.◌∷◌ c s) "") in
      absurd (cons-ne-nil c s e)
]

abbrev pub claims_of : String → String → String → String → ℕ → AccessTokenClaims
claims_of user_id tenant_id membership_id session_id expires_at = record {
  user_id = user_id;
  tenant_id = tenant_id;
  membership_id = membership_id;
  session_id = session_id;
  exp = expires_at / 1000000;
}

module _ (env : Env) where
  encode-body : (raw : String) (coded : IsCoded env raw) → b64url_encode env raw ≡ coded.body
  unfolding b64url_encode
  encode-body raw coded =
      let n = (4 - len coded.body % 4) % 4 in
      ap rstrip_eq coded.padded
      ∙ rstrip_eq-append coded.body (pad_signs n) coded.no_pads (rstrip_eq-pad_signs n)

  decode-encode :
      (raw : String) → IsCoded env raw → b64url_decode env (b64url_encode env raw) ≡ some raw
  unfolding b64url_decode
  decode-encode raw coded =
      ap (b64url_decode env) (encode-body raw coded)
      ∙ ap env.urlsafe_b64decode (sym coded.padded)
      ∙ coded.decoded

  -- The parts of a token are what was put together.
  split_token : (t : String) → split_dot ("v1." ++ t) ≡ some ("v1", t)
  split_token t = ap split_dot (append_assoc "v1" "." t) ∙ split_dot-append "v1" t refl

  split_payload :
      (x y : String)
      → IsCoded env x
      → split_dot (b64url_encode env x ++ ("." ++ b64url_encode env y))
        ≡ some (b64url_encode env x, b64url_encode env y)
  split_payload x y coded =
      split_dot-append (b64url_encode env x) (b64url_encode env y)
        (ap (lacks b'.') (encode-body x coded) ∙ coded.no_dots)

  -- The signature of an encoded text, and the token of both.
  abbrev pub signature : String → String → String
  signature secret raw = env.hmac_sha256 secret (b64url_encode env raw)

  abbrev token_of : String → String → String
  token_of raw sig = "v1." ++ (b64url_encode env raw ++ ("." ++ b64url_encode env sig))

  -- A token is read back with a secret that gives its signature, and with no other.
  verified-signed :
      (secret secret' raw : String) (c : AccessTokenClaims) (d : Dict)
      → IsCoded env raw
      → IsCoded env (signature secret raw)
      → env.loads raw ≡ object d
      → payload_claims env d ≡ some c
      → verified_claims env (token_of raw (signature secret raw)) secret'
        ≡ (if signature secret' raw == signature secret raw then some c else none)
  unfolding verified_claims
  verified-signed secret secret' raw c d coded signed read made =
      let sig = signature secret raw in
      ground (
        arith,
        split_token (b64url_encode env raw ++ ("." ++ b64url_encode env sig)),
        split_payload raw sig coded,
        decode-encode sig signed,
        decode-encode raw coded,
        read,
        made,
      )

  version-ne-empty : (t : String) → ("v1." ++ t == "") ≡ false
  version-ne-empty t = rw (cons-append "v" "1." t) (cons-ne-empty "v" ("1." ++ t))

  -- The text of the payload that `issue_access_token` encodes.
  abbrev pub payload_text : AccessTokenClaims → String → String
  payload_text c jti = env.dumps_compact (token_payload env c jti)

  -- A token that `issue_access_token` made with a secret is decoded, with a secret that gives its payload the same
  -- signature, to the claims that it was made of, or refused as expired from the second on in which it expires. With a
  -- secret that gives another signature it is refused as invalid. The codes of payload and signature are base64's, and
  -- `json.loads` reads back the payload.
  pub decode-issue :
      (secret secret' user_id tenant_id membership_id session_id jti : String)
      (expires_at now_ts : ℕ)
      → IsCoded env
          (payload_text (claims_of user_id tenant_id membership_id session_id expires_at) jti)
      → IsCoded env (
          signature secret
            (payload_text (claims_of user_id tenant_id membership_id session_id expires_at) jti))
      → env.loads
          (payload_text (claims_of user_id tenant_id membership_id session_id expires_at) jti)
        ≡ object (
            token_payload env (claims_of user_id tenant_id membership_id session_id expires_at) jti)
      → decode_access_token env
          (issue_access_token env secret user_id tenant_id membership_id session_id expires_at jti)
          secret'
          now_ts
        ≡ (if signature secret'
                (payload_text (claims_of user_id tenant_id membership_id session_id expires_at) jti)
              == signature secret (
                  payload_text
                    (claims_of user_id tenant_id membership_id session_id expires_at)
                    jti)
            then (if leb (expires_at / 1000000) now_ts
                then refused expired
                else claims (claims_of user_id tenant_id membership_id session_id expires_at))
            else refused invalid)
  unfolding decode_access_token issue_access_token
  decode-issue secret secret' user_id tenant_id membership_id session_id jti expires_at now_ts coded
        signed read =
      let c = claims_of user_id tenant_id membership_id session_id expires_at in
      let raw = payload_text c jti in
      let v =
        verified-signed secret secret' raw c (token_payload env c jti) coded signed read refl in
      let named =
        version-ne-empty
          (b64url_encode env raw ++ ("." ++ b64url_encode env (signature secret raw))) in
      ground (arith, v, named)
