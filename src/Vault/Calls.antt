-- ===== src/Vault/Calls.antt =====
-- Sequences of calls of a vault, each at a value of the clock, with the results left aside.
use haechi.Prelude.{ℕ, List, [], ◌∷◌, Option, Text, Fields}
use haechi.Vault.{Provider, VaultConfig, Vault}
use haechi.Vault.Tokenize.{tokenize}
use haechi.Vault.Operations.{reveal, detokenize, purge, purge_expired}

pub data Call : Type 0 where
  tokenizing : ℕ → Text → Text → Fields → Fields → Call
  revealing : Text → Option Fields → Call
  detokenizing : List Text → Call
  purging : Text → Call
  purging_expired : Call

module _ (provider : Provider) (config : VaultConfig) where
  unfoldable pub run_call : ℕ → Call → Vault provider → Vault provider
  unfolding tokenize reveal detokenize purge purge_expired
  run_call now (tokenizing seed plaintext type context metadata) v =
      (tokenize provider config now seed plaintext type context metadata v).1
  run_call now (revealing token context) v = (reveal provider config now token context v).1
  run_call now (detokenizing tokens) v = (detokenize provider config now tokens v).1
  run_call now (purging token) v = (purge provider config now token v).1
  run_call now purging_expired v = (purge_expired provider config now v).1

  unfoldable pub run_calls : List (ℕ × Call) → Vault provider → Vault provider
  unfolding run_call
  run_calls [] v = v
  run_calls (c ∷ cs) v = run_calls cs (run_call c.0 c.1 v)
