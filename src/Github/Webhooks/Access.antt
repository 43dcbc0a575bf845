-- ===== src/Github/Webhooks/Access.antt =====
-- provider/github/webhook.go under internal/daemon/webhook.go: who can make the daemon do something.
use gh_runner_scaler.Prelude.{
  ℕ, ◌<◌, ◌≡◌, refl, sym, ap, ◌∙◌, ◌↔◌, ◌⊎◌, inl, inr, true, false, Option, none, some, [], ◌++◌,
  arith, Bool-cases, length, drop, length-append, ◌==◌, beq_refl, nat_eq, Text, text_eq,
}
use gh_runner_scaler.Prelude.Strings.{text, has_prefix, has_prefix-append}
use gh_runner_scaler.Daemon.Handler.{Request, Config, handle_webhook}
use gh_runner_scaler.Daemon.Handler.Access.{handle_webhook-IsAuthentic, drop_prefix}
use gh_runner_scaler.Github.Webhooks.{Crypto, is_empty, validate_webhook_payload, provider}

-- The signature is the keyed hash of the payload under a secret that is set.
pub record IsSigned (crypto : Crypto) (secret : Option Text) (payload signature : Text)
    : Type 0 where
  pub key : Text
  pub configured : secret ≡ some key
  pub nonempty : is_empty key ≡ false
  pub hashed : signature ≡ text "sha256=" ++ crypto.hmac_sha256 key payload

validate-IsSigned :
    (crypto : Crypto) (secret : Option Text) (payload signature : Text)
    → validate_webhook_payload crypto secret payload signature ≡ true
    → IsSigned crypto secret payload signature
unfolding validate_webhook_payload
validate-IsSigned crypto none payload signature h = cc
validate-IsSigned crypto (some key) payload signature h =
    elim (Bool-cases (has_prefix signature (text "sha256="))) [
      | inl prefixed ↦
          let same : crypto.hmac_sha256 key payload ≡ drop 7 signature =
            (text_eq.beq_iff (crypto.hmac_sha256 key payload) (drop 7 signature)).0
              (ground (arith, prefixed, h)) in
          record {
            key = key;
            configured = refl;
            nonempty = ground (arith, h);
            hashed =
                drop_prefix signature (text "sha256=") prefixed
                ∙ ap (λ s. text "sha256=" ++ s) (sym same);
          }
      | inr other ↦ ground (arith, other, h, beq_refl signature)
    ]

longer : (p s : Text) → 0 < length p → (s == p ++ s) ≡ false
longer p s h = elim (Bool-cases (s == p ++ s)) [
  | inr other ↦ other
  | inl same ↦
      let e : length s ≡ length (p ++ s) = ap length ((text_eq.beq_iff s (p ++ s)).0 same) in
      absurd (omega (arith, e, length-append p s, h))
]

accepted :
    (crypto : Crypto) (key payload : Text)
    → is_empty key ≡ false
    → validate_webhook_payload crypto
        (some key)
        payload
        (text "sha256=" ++ crypto.hmac_sha256 key payload)
      ≡ true
unfolding validate_webhook_payload
accepted crypto key payload nonempty =
    let hash = crypto.hmac_sha256 key payload in
    ground (
      arith,
      nonempty,
      has_prefix-append (text "sha256=") hash,
      longer (text "sha256=") hash (omega arith),
      beq_refl hash,
    )

IsSigned-validate :
    (crypto : Crypto) (secret : Option Text) (payload signature : Text)
    → IsSigned crypto secret payload signature
    → validate_webhook_payload crypto secret payload signature ≡ true
IsSigned-validate crypto secret payload signature s =
    rw (s.configured, s.hashed) (accepted crypto s.key payload s.nonempty)

-- The signature of a payload is accepted exactly if a secret is configured that is not empty and
-- the signature is `sha256=` with the keyed hash of the payload.
pub validate_webhook_payload_iff :
    (crypto : Crypto) (secret : Option Text) (payload signature : Text)
    → (validate_webhook_payload crypto secret payload signature ≡ true)
      ↔ IsSigned crypto secret payload signature
validate_webhook_payload_iff crypto secret payload signature = (
  validate-IsSigned crypto secret payload signature,
  IsSigned-validate crypto secret payload signature,
)

-- With the provider for GitHub, a request has an effect only if it is a POST that bears the keyed
-- hash of its body under the secret, which is set and not empty.
pub handle_webhook-IsSigned :
    (cfg : Config) (crypto : Crypto) (secret : Option Text) (clock : ℕ → ℕ) (r : Request)
    → (r.method ≡ text "POST") × IsSigned crypto secret r.body r.signature
      ⊎ ((handle_webhook cfg (provider crypto secret) clock r).1 ≡ [])
unfolding provider
handle_webhook-IsSigned cfg crypto secret clock r =
    elim (handle_webhook-IsAuthentic cfg (provider crypto secret) clock r) [
      | inl (authentic, e) ↦
          inl
            (authentic.is_post, validate-IsSigned crypto secret r.body r.signature authentic.signed)
      | inr (nothing, e) ↦ inr nothing
    ]
