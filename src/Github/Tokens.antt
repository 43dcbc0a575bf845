-- ===== src/Github/Tokens.antt =====
-- provider/github/ci.go: the cache of the registration token and that of the removal token, which
-- differ in the call of the API only.
use gh_runner_scaler.Prelude.{
  ℕ, ◌+◌, ◌<◌, ◌≡◌, refl, sym, subst, ◌⊎◌, inl, inr, Bool, true, false, ◌||◌, Option, none, some,
  [], ◌∷◌, ◌++◌, arith, ltb, nat_beq, if◌then◌else◌, Option-cases, nat_eq, Text, text_eq,
}
use gh_runner_scaler.Github.Inventory.{RunnerInventoryCache, suspend_runner_inventory}

-- A time of expiry that is 0 is the zero time.
pub record CachedToken : Type 0 where
  pub value : Text
  pub expires_at : ℕ

abbrev pub is_empty : Text → Bool
is_empty [] = true
is_empty (c ∷ s) = false

-- Five minutes
abbrev pub token_refresh_padding : ℕ
token_refresh_padding = 300000000000

unfoldable pub usable_cached_token : ℕ → CachedToken → Option Text
usable_cached_token now token =
    if is_empty token.value || nat_beq token.expires_at 0
    then none
    else if ltb (now + token_refresh_padding) token.expires_at
    then some token.value
    else none

-- What the API replies: a token with its expiry, 0 where it gives none, or an error.
pub data TokenReply : Type 0 where
  granted : Text → ℕ → TokenReply
  refused : Text → TokenReply

pub record Tokens : Type 0 where
  pub token : CachedToken
  pub inventory : RunnerInventoryCache

-- GetRegistrationToken, GetRemoveToken. The mutex of the fetch makes a second caller wait and look
-- at the cache again; that look is the first one of a call that begins then. `inr` is the error.
unfoldable pub get_token : Text → ℕ → TokenReply → Tokens → (Text ⊎ Text) × Tokens
get_token action now reply t = elim (usable_cached_token now t.token) [
  | some value ↦ (inl value, record t { inventory = suspend_runner_inventory t.inventory })
  | none ↦ elim reply [
    | refused message ↦ (inr (action ++ message), t)
    | granted value expires_at ↦ (
      inl value,
      record {
        token = record { value = value; expires_at = expires_at };
        inventory = suspend_runner_inventory t.inventory;
      },
    )
  ]
]

-- A value that was handed out: from the cache, with the token good for more than the padding, or
-- from the API, and then the cache holds it; and the inventory is suspended.
pub record IsHandedOut (now : ℕ) (reply : TokenReply) (before after : Tokens) (value : Text)
    : Type 0 where
  pub origin :
      ((value ≡ before.token.value) × (now + token_refresh_padding < before.token.expires_at))
      ⊎ ((expires_at : ℕ) × (reply ≡ granted value expires_at)
          × (after.token ≡ record { value = value; expires_at = expires_at }))
  pub suspended : after.inventory ≡ suspend_runner_inventory before.inventory

-- An outcome of a call: a value handed out, or an error and no change.
abbrev pub IsSound : ℕ → TokenReply → Tokens → (Text ⊎ Text) × Tokens → Type 0
IsSound now reply before (inl value, after) = IsHandedOut now reply before after value
IsSound now reply before (inr message, after) = after ≡ before

usable_lem :
    (now : ℕ) (token : CachedToken) (value : Text)
    → usable_cached_token now token ≡ some value
    → (value ≡ token.value) × (now + token_refresh_padding < token.expires_at)
unfolding usable_cached_token
usable_lem now token value h = (ground (arith, h), ground (arith, h))

from_cache :
    (action : Text) (now : ℕ) (reply : TokenReply) (t : Tokens) (value : Text)
    → usable_cached_token now t.token ≡ some value
    → get_token action now reply t
      ≡ (inl value, record t { inventory = suspend_runner_inventory t.inventory })
unfolding get_token
from_cache action now reply t value e = ground (arith, e)

abbrev from_reply : Text → TokenReply → Tokens → (Text ⊎ Text) × Tokens
from_reply action (refused message) t = (inr (action ++ message), t)
from_reply action (granted value expires_at) t = (
  inl value,
  record {
    token = record { value = value; expires_at = expires_at };
    inventory = suspend_runner_inventory t.inventory;
  },
)

from_api :
    (action : Text) (now : ℕ) (reply : TokenReply) (t : Tokens)
    → usable_cached_token now t.token ≡ none
    → get_token action now reply t ≡ from_reply action reply t
unfolding get_token
from_api action now reply t e = ground (arith, e)

from_reply-IsSound :
    (action : Text) (now : ℕ) (reply : TokenReply) (t : Tokens)
    → IsSound now reply t (from_reply action reply t)
from_reply-IsSound action now (refused message) t = refl
from_reply-IsSound action now (granted value expires_at) t = record {
  origin = inr (expires_at, refl, refl);
  suspended = refl;
}

-- A token that is handed out was either granted by the API in this call, and is then cached, or
-- comes from the cache and stays good for more than the padding; in both cases the inventory is
-- suspended. A call that ends in an error changes nothing.
pub get_token-IsSound :
    (action : Text) (now : ℕ) (reply : TokenReply) (t : Tokens)
    → IsSound now reply t (get_token action now reply t)
get_token-IsSound action now reply t = elim (Option-cases (usable_cached_token now t.token)) [
  | inl e ↦
      subst (IsSound now reply t) (sym (from_api action now reply t e))
        (from_reply-IsSound action now reply t)
  | inr (value, e) ↦
      subst (IsSound now reply t) (sym (from_cache action now reply t value e))
        (record { origin = inl (usable_lem now t.token value e); suspended = refl })
]
