-- ===== src/Rpc/Errors.antt =====
-- pyleaner/rpc_session.py, lines 22 to 86: the errors of an RPC and `classify_rpc_error`.
use py_leaner.Base.{ℕ, Bool, false, ◌||◌, Option, some, ◌==◌, if◌then◌else◌}
use py_leaner.Base.Text.{Text, codes, contains}
use py_leaner.Task.{Error}

-- An integer: `pos n` is n, and `negsuc n` is -(n + 1).
pub data ℤ : Type 0 where
  pos negsuc : ℕ → ℤ

-- `error.get("code")` and `error.get("message", "")`, and what `str(error)` gives.
pub record ErrorObject : Type 0 where
  pub code : Option ℤ
  pub message : Text
  pub shown : Text

-- The classes below `RpcError`, and `RpcError` itself, each with its `error`.
pub data RpcError : Type 0 where
  needs_reconnect worker_restarted content_modified request_cancelled rpc_error :
      ErrorObject → RpcError

-- `code == -(n + 1)`
abbrev is_code : ℕ → Option ℤ → Bool
is_code n (some (negsuc m)) = m == n
is_code n _ = false

unfoldable pub classify_rpc_error : ErrorObject → RpcError
classify_rpc_error o =
    if is_code 32_899 o.code || contains (codes "Outdated RPC session") o.message
    then needs_reconnect o
    else if is_code 32_900 o.code || is_code 32_901 o.code
    then worker_restarted o
    else if is_code 32_800 o.code
    then content_modified o
    else if is_code 32_799 o.code
    then request_cancelled o
    else rpc_error o

-- What a method of the session raises.
pub data Failure : Type 0 where
  rpc : RpcError → Failure
  raised : Error → Failure
