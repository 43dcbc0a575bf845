-- ===== src/Daemon/Handler/Access.antt =====
-- internal/daemon/webhook.go: whose requests have an effect.
use gh_runner_scaler.Prelude.{
  ℕ, ◌≤◌, ◌≡◌, refl, ◌↔◌, ◌⊎◌, inl, inr, true, false, ◌||◌, [], ◌∷◌, ◌++◌, arith, ltb, nat_beq_iff,
  Bool-cases, length, drop, ◌==◌, beq_refl, nat_eq, Text, text_eq,
}
use gh_runner_scaler.Prelude.Strings.{text, trim_space, has_prefix, has_prefix-append}
use gh_runner_scaler.Daemon.Routing.{is_empty}
use gh_runner_scaler.Daemon.Handler.{
  Request, Provider, Config, handle_webhook, handle_parsed, max_webhook_body_bytes,
  authorize_logs_request,
}

-- A POST to the root whose body is within the limit and bears a valid signature.
pub record IsAuthentic (ci : Provider) (r : Request) : Type 0 where
  pub to_root : r.path ≡ text "/"
  pub is_post : r.method ≡ text "POST"
  pub was_read : r.body_fails ≡ false
  pub within_limit : length r.body ≤ max_webhook_body_bytes
  pub signed : ci.is_valid_signature r.body r.signature ≡ true

-- A request either is authentic (a POST to the root, with a body that was read, within the limit
-- and with a valid signature), and then its payload is handled and the answer is 200, or it has no
-- effect, and then the answer is 200 only to a GET of the root.
pub handle_webhook-IsAuthentic :
    (cfg : Config) (ci : Provider) (clock : ℕ → ℕ) (r : Request)
    → (IsAuthentic ci r
        × (handle_webhook cfg ci clock r
            ≡ (200, handle_parsed cfg clock r.event (ci.parse r.event r.body))))
      ⊎ (((handle_webhook cfg ci clock r).1 ≡ [])
          × ((handle_webhook cfg ci clock r).0 ≡ 200
              → (r.path ≡ text "/") × (r.method ≡ text "GET")))
unfolding handle_webhook
handle_webhook-IsAuthentic cfg ci clock r = elim (Bool-cases (r.path == text "/")) [
  | inr elsewhere ↦ inr (rw elsewhere (refl, λ e. ground (arith, e)))
  | inl root ↦ elim (Bool-cases (r.method == text "GET")) [
    | inl get ↦ inr (
        rw root (
          rw get (
            refl,
            λ e. (
              (text_eq.beq_iff r.path (text "/")).0 root,
              (text_eq.beq_iff r.method (text "GET")).0 get,
            ),
          )))
    | inr not_get ↦ elim (Bool-cases (r.method == text "POST")) [
      | inr other ↦ inr (rw root (rw not_get (rw other (refl, λ e. ground (arith, e)))))
      | inl post ↦ elim (Bool-cases (r.body_fails || ltb max_webhook_body_bytes (length r.body))) [
        | inl failed ↦
            inr (rw root (rw not_get (rw post (rw failed (refl, λ e. ground (arith, e))))))
        | inr was_read ↦ elim (Bool-cases (ci.is_valid_signature r.body r.signature)) [
          | inr unsigned ↦ inr (
              rw root
                (rw not_get (rw post (rw was_read (rw unsigned (refl, λ e. ground (arith, e)))))))
          | inl signed ↦ inl (
            record {
              to_root = (text_eq.beq_iff r.path (text "/")).0 root;
              is_post = (text_eq.beq_iff r.method (text "POST")).0 post;
              was_read = ground (arith, was_read);
              within_limit = ground (arith, was_read);
              signed = signed;
            },
            rw root (rw not_get (rw post (rw was_read (rw signed refl)))),
          )
        ]
      ]
    ]
  ]
]

pub drop_prefix : (s p : Text) → has_prefix s p ≡ true → s ≡ p ++ drop (length p) s
unfolding has_prefix
drop_prefix s [] h = refl
drop_prefix [] (p ∷ ps) h = ground (arith, h)
drop_prefix (c ∷ s) (p ∷ ps) h = ground (arith, drop_prefix s ps, nat_beq_iff c p)

-- The logs are open exactly to the header that is Bearer and the token configured, up to the space
-- around the header and around the token, and to nobody when the token is blank.
pub authorize_logs_request_iff :
    (logs_token authorization : Text)
    → (authorize_logs_request logs_token authorization ≡ true) ↔ (
        (is_empty (trim_space logs_token) ≡ false)
        × (trim_space authorization ≡ text "Bearer " ++ trim_space logs_token))
unfolding authorize_logs_request
authorize_logs_request_iff logs_token authorization = (
  λ h. ground (
    arith,
    drop_prefix (trim_space authorization) (text "Bearer "),
    text_eq.beq_iff (drop 7 (trim_space authorization)) (trim_space logs_token),
  ),
  λ h. ground (
    arith,
    h.1,
    has_prefix-append (text "Bearer ") (trim_space logs_token),
    beq_refl (trim_space logs_token),
  ),
)
