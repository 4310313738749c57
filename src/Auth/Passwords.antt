-- ===== src/Auth/Passwords.antt =====
-- `hash_password` and `verify_password` of saas/auth.py.
use Prim.Native.Char.{code}
use invoices_codex.Prelude.{
  ℕ, String, ◌≡◌, Bool, true, false, not, Option, none, some, inl, inr, ◌==◌, arith, eqb, joined,
  if◌then◌else◌, Bool-cases, Option-cases,
}
use invoices_codex.Prelude.Decimal.{decimal}
use invoices_codex.Env.{Env}

-- One split of `text.split("$", maxsplit=3)`: what stands before the first sign and behind it.
unfoldable pub split_dollar : String → Option (String × String)
split_dollar String.[] = none
split_dollar (String.◌∷◌ c s) = elim (eqb (code c) b'$') [
  | Bool.true ↦ some ("", s)
  | Bool.false ↦ elim (split_dollar s) [ none ↦ none | some (a, b) ↦ some (String.◌∷◌ c a, b) ]
]

-- The four parts of an encoded hash.
pub record HashParts : Type 0 where
  pub algo : String
  pub iter_raw : String
  pub salt_raw : String
  pub digest_raw : String

unfoldable pub hash_parts : String → Option HashParts
unfolding split_dollar
hash_parts encoded_hash = elim (split_dollar encoded_hash) [
  | none ↦ none
  | some (algo, rest) ↦ elim (split_dollar rest) [
    | none ↦ none
    | some (iter_raw, rest') ↦ elim (split_dollar rest') [
      | none ↦ none
      | some (salt_raw, digest_raw) ↦ some (record {
        algo = algo;
        iter_raw = iter_raw;
        salt_raw = salt_raw;
        digest_raw = digest_raw;
      })
    ]
  ]
]

module _ (env : Env) where
  -- The hash of a password that is not empty, with 120000 iterations.
  unfoldable pub hash_password : String → String → String
  hash_password password salt = joined "pbkdf2_sha256$" (
      joined (decimal 120000) (
        joined "$" (
          joined (env.urlsafe_b64encode salt)
            (joined "$" (env.urlsafe_b64encode (env.pbkdf2_hmac password salt 120000))))))

  unfoldable pub matches_parts : String → HashParts → Bool
  matches_parts password parts =
      if not (parts.algo == "pbkdf2_sha256") then false else elim (env.int_text parts.iter_raw) [
        | none ↦ false
        | some iterations ↦ elim (env.urlsafe_b64decode parts.salt_raw) [
          | none ↦ false
          | some salt ↦ elim (env.urlsafe_b64decode parts.digest_raw) [
            | none ↦ false
            | some expected ↦ env.pbkdf2_hmac password salt iterations == expected
          ]
        ]
      ]

  unfoldable pub verify_password : String → String → Bool
  unfolding hash_parts matches_parts
  verify_password password encoded_hash = elim (hash_parts encoded_hash) [
    | none ↦ false
    | some parts ↦ matches_parts password parts
  ]

  -- A password that is the right one for an encoded hash: its digest under the salt and the iterations of the hash is
  -- the digest in the hash.
  pub record IsRightPassword (password encoded_hash : String) : Type 0 where
    pub parts : HashParts
    pub iterations : ℕ
    pub salt : String
    pub expected : String
    pub split : hash_parts encoded_hash ≡ some parts
    pub known_algo : (parts.algo == "pbkdf2_sha256") ≡ true
    pub iterations_read : env.int_text parts.iter_raw ≡ some iterations
    pub salt_read : env.urlsafe_b64decode parts.salt_raw ≡ some salt
    pub digest_read : env.urlsafe_b64decode parts.digest_raw ≡ some expected
    pub same_digest : (env.pbkdf2_hmac password salt iterations == expected) ≡ true

  pub verify_password-IsRightPassword :
      (password encoded_hash : String)
      → verify_password password encoded_hash ≡ true
      → IsRightPassword password encoded_hash
  unfolding verify_password matches_parts
  verify_password-IsRightPassword password encoded_hash h =
      elim (Option-cases (hash_parts encoded_hash)) [
        | inl short ↦ absurd (ground arith)
        | inr (parts, split) ↦ elim (Bool-cases (parts.algo == "pbkdf2_sha256")) [
          | inr other ↦ absurd (ground arith)
          | inl known ↦ elim (Option-cases (env.int_text parts.iter_raw)) [
            | inl bad ↦ absurd (ground arith)
            | inr (iterations, e₁) ↦ elim (Option-cases (env.urlsafe_b64decode parts.salt_raw)) [
              | inl bad ↦ absurd (ground arith)
              | inr (salt, e₂) ↦ elim (Option-cases (env.urlsafe_b64decode parts.digest_raw)) [
                | inl bad ↦ absurd (ground arith)
                | inr (expected, e₃) ↦ record {
                  parts = parts;
                  iterations = iterations;
                  salt = salt;
                  expected = expected;
                  split = split;
                  known_algo = known;
                  iterations_read = e₁;
                  salt_read = e₂;
                  digest_read = e₃;
                  same_digest = ground arith;
                }
              ]
            ]
          ]
        ]
      ]
