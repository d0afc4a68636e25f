-- ===== src/Rule/Matching.antt =====
-- src/core/pmx_rule.c: pmx_rule_matches and its three criteria, each by its specification.
use proxi_might.Rule.Patterns.Reference.{list_spec}
use proxi_might.Rule.Patterns.Segments.{glob_list_match-eq-list_spec}
use proxi_might.Rule.Ports.Printed.{Item, print, covers, IsPorts}
use proxi_might.Rule.Ports.Correct.{port_spec_match-print}
use proxi_might.Prelude.{List, ℕ, Option, ◌≡◌, refl, Bool, true, ◌||◌, ◌&&◌, [], ◌∷◌, arith}
use proxi_might.Prelude.Bytes.{Bytes}
use proxi_might.Rule.{Rule, ConnQuery, rule_matches}
use proxi_might.Rule.Patterns.{is_empty, glob_list_match}
use proxi_might.Rule.Ports.{port_spec_match}

glob_list_match-is_empty :
    (l : Bytes) (t : Option Bytes) (ci : Bool) → is_empty l ≡ true → glob_list_match l t ci ≡ true
unfolding glob_list_match
glob_list_match-is_empty [] t ci h = refl
glob_list_match-is_empty (c ∷ s) t ci h = cc

port_spec_match-is_empty :
    (l : Bytes) (port : ℕ) → is_empty l ≡ true → port_spec_match l port ≡ true
unfolding port_spec_match
port_spec_match-is_empty [] port h = refl
port_spec_match-is_empty (c ∷ s) port h = cc

-- The tests in one conjunction; an empty criterion, which is skipped, always matches.
rule_matches-eq-and :
    (r : Rule) (q : ConnQuery)
    → rule_matches r q ≡ (
        (glob_list_match r.app_pattern q.app_name true
          || glob_list_match r.app_pattern q.app_path true)
        && glob_list_match r.host_pattern q.host true
        && port_spec_match r.port_spec q.port)
unfolding rule_matches
rule_matches-eq-and r q = ground (
  arith,
  glob_list_match-is_empty r.app_pattern q.app_name true,
  glob_list_match-is_empty r.app_pattern q.app_path true,
  glob_list_match-is_empty r.host_pattern q.host true,
  port_spec_match-is_empty r.port_spec q.port,
)

-- No items allow every port.
abbrev pub ports_spec : List Item → ℕ → Bool
ports_spec [] port = true
ports_spec (i ∷ is) port = covers (i ∷ is) port

port_spec_match-eq-ports_spec :
    (is : List Item) (port : ℕ) → IsPorts is → port_spec_match (print is) port ≡ ports_spec is port
port_spec_match-eq-ports_spec [] port h =
    port_spec_match-is_empty (print []) port (unfold print in refl)
port_spec_match-eq-ports_spec (i ∷ is) port h = port_spec_match-print i is port h

-- The three criteria, each by its specification.
unfoldable pub rule_spec : Rule → List Item → ConnQuery → Bool
unfolding list_spec
rule_spec r is q =
    (list_spec r.app_pattern q.app_name true || list_spec r.app_pattern q.app_path true)
    && list_spec r.host_pattern q.host true
    && ports_spec is q.port

-- A rule whose port specification is the printed text of a list of port items, each within 0 to
-- 65535, matches a connection exactly if its application patterns match the file name or the full
-- path, its host patterns match the host, both without regard to case and by the specification of
-- pattern lists, and one of the items covers the port or there are none.
pub rule_matches-eq-rule_spec :
    (r : Rule) (is : List Item) (q : ConnQuery)
    → IsPorts is
    → r.port_spec ≡ print is
    → rule_matches r q ≡ rule_spec r is q
unfolding rule_spec
rule_matches-eq-rule_spec r is q hp e =
    rw
      (
        rule_matches-eq-and r q,
        glob_list_match-eq-list_spec r.app_pattern q.app_name true,
        glob_list_match-eq-list_spec r.app_pattern q.app_path true,
        glob_list_match-eq-list_spec r.host_pattern q.host true,
        e,
        port_spec_match-eq-ports_spec is q.port hp,
      )
      refl
