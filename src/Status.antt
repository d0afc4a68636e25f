-- ===== src/Status.antt =====
-- include/proximight/pmx_error.h and src/core/pmx_error.c: the status codes that operations return.
use mathlib.Core.Bool.{Bool, true, false}
use proxi_might.Prelude.Bytes.{Bytes, codes}

-- `pmx_status` without the counter at its end.
pub data Status : Type 0 where
  ok : Status
  err_invalid_arg err_no_memory err_state err_unsupported err_not_found err_exists : Status
  err_io err_parse err_crypto : Status
  err_net err_timeout err_conn_refused err_dns : Status
  err_proxy_handshake err_proxy_auth err_proxy_refused : Status
  err_backend err_firewall err_permission : Status

abbrev pub is_ok : Status → Bool
is_ok ok = true
is_ok _ = false

-- pmx_status_str
unfoldable pub status_str : Status → Bytes
status_str ok = codes "OK"
status_str err_invalid_arg = codes "invalid argument"
status_str err_no_memory = codes "out of memory"
status_str err_state = codes "invalid state"
status_str err_unsupported = codes "unsupported"
status_str err_not_found = codes "not found"
status_str err_exists = codes "already exists"
status_str err_io = codes "I/O error"
status_str err_parse = codes "parse error"
status_str err_crypto = codes "encryption/decryption failed"
status_str err_net = codes "network error"
status_str err_timeout = codes "timed out"
status_str err_conn_refused = codes "connection refused"
status_str err_dns = codes "DNS resolution failed"
status_str err_proxy_handshake = codes "proxy handshake failed"
status_str err_proxy_auth = codes "proxy authentication failed"
status_str err_proxy_refused = codes "proxy refused the target"
status_str err_backend = codes "backend error"
status_str err_firewall = codes "firewall error"
status_str err_permission = codes "insufficient privilege"
