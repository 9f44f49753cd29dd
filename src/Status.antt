-- ===== src/Status.antt =====
-- The result codes of include/sockify/core.h and include/sockify/tls.h. Every function that returns
-- one of them as an `int` returns a `Status` here.
use sockify.Prelude.{Bool, true, false}

pub data Status : Type 0 where
  ok : Status
  err_invalid : Status
  err_nomem : Status
  err_overflow : Status
  err_again : Status
  err_closed : Status
  err_sys : Status
  err_protocol : Status
  err_unsupported : Status
  err_tls_handshake : Status
  err_tls_verify : Status

-- `rc == SOCKIFY_OK`
abbrev pub is_ok : Status → Bool
is_ok ok = true
is_ok _ = false

-- `rc == SOCKIFY_ERR_AGAIN`
abbrev pub is_again : Status → Bool
is_again err_again = true
is_again _ = false
