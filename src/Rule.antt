-- ===== src/Rule.antt =====
-- include/proximight/pmx_rule.h and src/core/pmx_rule.c: rules and the matching of connections.
use proxi_might.Prelude.{false, ◌&&◌, ℕ, Bool, true, ◌||◌, not, Option, [], ◌∷◌, if◌then◌else◌}
use proxi_might.Prelude.Bytes.{Bytes, codes}
pub mod Glob
pub mod Patterns
pub mod Ports
pub mod Matching
mod Tests
use Patterns.{is_empty, glob_list_match}
use Ports.{port_spec_match}

pub data Action : Type 0 where
  direct proxy block : Action

pub data TargetKind : Type 0 where
  no_target proxy_target chain_target : TargetKind

pub record Rule : Type 0 where
  pub id : ℕ
  pub name : Bytes
  pub enabled : Bool
  pub app_pattern : Bytes
  pub host_pattern : Bytes
  pub port_spec : Bytes
  pub action : Action
  pub target_kind : TargetKind
  pub target_id : ℕ

-- pmx_rule_init
unfoldable pub init : Rule
init = record {
  id = 0;
  name = codes "New rule";
  enabled = true;
  app_pattern = [];
  host_pattern = [];
  port_spec = [];
  action = direct;
  target_kind = no_target;
  target_id = 0;
}

-- A connection to be classified; a text that is `none` is a NULL pointer.
pub record ConnQuery : Type 0 where
  pub app_name : Option Bytes
  pub app_path : Option Bytes
  pub host : Option Bytes
  pub port : ℕ

-- pmx_rule_matches on a rule and a query that are not NULL; the early returns, one by one.
unfoldable pub rule_matches : Rule → ConnQuery → Bool
rule_matches r q =
    if not (is_empty r.app_pattern)
      && not (
          glob_list_match r.app_pattern q.app_name true
          || glob_list_match r.app_pattern q.app_path true)
    then false
    else if not (is_empty r.host_pattern) && not (glob_list_match r.host_pattern q.host true)
    then false
    else if not (is_empty r.port_spec) && not (port_spec_match r.port_spec q.port)
    then false
    else true
