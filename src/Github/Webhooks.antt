-- ===== src/Github/Webhooks.antt =====
-- provider/github/webhook.go: the signature of a webhook and its event. The keyed hash and the
-- decoding of the JSON payload are arguments.
pub mod Access
use gh_runner_scaler.Prelude.{
  ℕ, Bool, true, false, Option, none, some, List, [], ◌∷◌, ◌++◌, if◌then◌else◌, length, take, drop,
  ◌==◌, nat_eq, Text, text_eq,
}
use gh_runner_scaler.Prelude.Strings.{text, has_prefix}
use gh_runner_scaler.Domain.{
  WebhookEvent, WebhookEventType, event_job_queued, event_job_in_progress, event_job_completed,
  event_push,
}
use gh_runner_scaler.Daemon.Handler.{Parsed, parse_error, ignored, parsed, Provider}

-- gh.WorkflowJobEvent with its workflow job, as far as it is read.
pub record WorkflowJobEvent : Type 0 where
  pub action : Text
  pub repo : Text
  pub head_branch : Text
  pub head_sha : Text
  pub workflow_name : Text
  pub name : Text
  pub id : ℕ
  pub runner_name : Text
  pub status : Text
  pub conclusion : Text
  pub run_id : ℕ
  pub run_attempt : ℕ
  pub labels : List Text

pub record PushEvent : Type 0 where
  pub ref : Text
  pub repo : Text
  pub default_branch : Text
  pub after : Text

-- `hmac_sha256` is the hexadecimal HMAC of a payload under a secret; a decoder gives `none` for a
-- payload that the package cannot parse.
pub record Crypto : Type 0 where
  pub hmac_sha256 : Text → Text → Text
  pub decode_workflow_job : Text → Option WorkflowJobEvent
  pub decode_push : Text → Option PushEvent

abbrev pub is_empty : Text → Bool
is_empty [] = true
is_empty (c ∷ s) = false

-- strings.TrimPrefix
abbrev pub trim_prefix : Text → Text → Text
trim_prefix s prefix = if has_prefix s prefix then drop (length prefix) s else s

-- Whether there is no error. A provider without a validator is one whose secret is `none`.
unfoldable pub validate_webhook_payload : Crypto → Option Text → Text → Text → Bool
validate_webhook_payload crypto none payload signature = false
validate_webhook_payload crypto (some secret) payload signature =
    let sig = trim_prefix signature (text "sha256=") in
    if is_empty secret
    then false
    else if sig == signature
    then false
    else crypto.hmac_sha256 secret payload == sig

abbrev pub job_event_type : Text → Option WebhookEventType
job_event_type action =
    if action == text "queued"
    then some event_job_queued
    else if action == text "completed"
    then some event_job_completed
    else if action == text "in_progress"
    then some event_job_in_progress
    else none

abbrev pub in_parentheses : Text → Text
in_parentheses [] = []
in_parentheses (c ∷ s) = text " (" ++ ((c ∷ s) ++ text ")")

abbrev pub with_runner : Text → Text
with_runner [] = []
with_runner (c ∷ s) = text " runner=" ++ (c ∷ s)

abbrev pub job_detail : WorkflowJobEvent → Text
job_detail e =
    (e.action ++ (text ": " ++ (e.repo ++ (text " / " ++ e.name))))
    ++ (in_parentheses (take 7 e.head_sha) ++ with_runner e.runner_name)

abbrev pub job_event : WorkflowJobEvent → WebhookEventType → WebhookEvent
job_event e kind = record {
  kind = kind;
  event_type = text "workflow_job";
  action = e.action;
  repo = e.repo;
  ref = [];
  default_branch = [];
  branch = e.head_branch;
  commit = e.head_sha;
  workflow = e.workflow_name;
  job = e.name;
  job_id = e.id;
  runner = e.runner_name;
  status = e.status;
  conclusion = e.conclusion;
  run_id = e.run_id;
  run_attempt = e.run_attempt;
  detail = job_detail e;
  labels = e.labels;
}

unfoldable pub parse_workflow_job : Option WorkflowJobEvent → Parsed
parse_workflow_job none = parse_error
parse_workflow_job (some e) = elim (job_event_type e.action) [
  | none ↦ ignored
  | some kind ↦ parsed (job_event e kind)
]

unfoldable pub parse_push : Option PushEvent → Parsed
parse_push none = parse_error
parse_push (some e) = parsed (record {
  kind = event_push;
  event_type = text "push";
  action = text "push";
  repo = e.repo;
  ref = e.ref;
  default_branch = e.default_branch;
  branch = trim_prefix e.ref (text "refs/heads/");
  commit = e.after;
  workflow = [];
  job = [];
  job_id = 0;
  runner = [];
  status = [];
  conclusion = [];
  run_id = 0;
  run_attempt = 0;
  detail =
      text "push "
      ++ (e.ref ++ (text " to " ++ (e.repo ++ (text " (" ++ (take 7 e.after ++ text ")")))));
  labels = [];
})

unfoldable pub parse_webhook_event : Crypto → Text → Text → Parsed
parse_webhook_event crypto event_type payload =
    if event_type == text "workflow_job"
    then parse_workflow_job (crypto.decode_workflow_job payload)
    else if event_type == text "push"
    then parse_push (crypto.decode_push payload)
    else ignored

-- The provider that the webhook handler asks.
unfoldable pub provider : Crypto → Option Text → Provider
provider crypto secret = record {
  is_valid_signature = validate_webhook_payload crypto secret;
  parse = parse_webhook_event crypto;
}
