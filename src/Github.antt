-- ===== src/Github.antt =====
-- provider/github: the provider for GitHub Actions. The REST client is not modelled: what a call of
-- it returns is an argument.
pub mod Inventory
pub mod Tokens
pub mod Pages
pub mod Repos
pub mod Queue
pub mod Webhooks
pub mod Failures
pub mod Workflows
