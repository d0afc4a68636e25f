-- ===== src/Rule/Tests.antt =====
-- Patterns, port specifications and rules evaluated, and the lemmas on them applied.
use proxi_might.Prelude.{any, ◌≡◌, refl, true, false, none, some, [], ◌∷◌, arith}
use proxi_might.Prelude.Bytes.{codes}
use proxi_might.Prelude.Decimal.{decimal, strtol}
use proxi_might.Status.{ok, err_parse}
use proxi_might.Rule.{Rule, ConnQuery, init, rule_matches}
use proxi_might.Rule.Matching.{rule_matches-eq-rule_spec, rule_spec}
use proxi_might.Rule.Glob.{glob_match}
use proxi_might.Rule.Glob.Reference.{glob_spec}
use proxi_might.Rule.Glob.Correct.{glob_match-eq-glob_spec}
use proxi_might.Rule.Patterns.{glob_list_match, host_pattern_needs_names}
use proxi_might.Rule.Patterns.Segments.{
  host_pattern_needs_names-eq-any, glob_list_match-eq-list_spec,
}
use proxi_might.Rule.Patterns.Reference.{segments, needs_name, list_spec}
use proxi_might.Rule.Ports.{port_spec_match, port_spec_validate}
use proxi_might.Rule.Ports.Printed.{Item, print, covers}
use proxi_might.Rule.Ports.Correct.{port_spec_validate-print, port_spec_match-print}

glob_samples :
    (glob_match (codes "*.Example.com") (codes "api.example.COM") true ≡ true)
    × (glob_match (codes "*.Example.com") (codes "api.example.COM") false ≡ false)
    × (glob_match (codes "c?rome*") (codes "chrome.exe") true ≡ true)
    × (glob_match (codes "a*b*c") (codes "aXXbYYbZc") true ≡ true)
    × (glob_match (codes "*.com") (codes "example.org") true ≡ false)
unfolding glob_match
glob_samples = (refl, refl, refl, refl, refl)

list_samples :
    (glob_list_match (codes "firefox.exe; chrome.exe ;") (some (codes "chrome.exe")) true ≡ true)
    × (glob_list_match (codes "firefox.exe; chrome.exe") (some (codes "edge.exe")) true ≡ false)
    × (glob_list_match (codes ";") none true ≡ false)
    × (host_pattern_needs_names (codes "10.*;*.example.com") ≡ true)
    × (host_pattern_needs_names (codes "10.*;fe80::1") ≡ false)
unfolding glob_list_match host_pattern_needs_names glob_match
list_samples = (refl, refl, refl, refl, refl)

port_samples :
    (port_spec_match (codes "80,443,8000 - 8080") 8050 ≡ true)
    × (port_spec_match (codes "80,443,8000-8080") 81 ≡ false)
    × (port_spec_match (codes "x90-80") 85 ≡ true)
    × (port_spec_validate (codes "80, 443 ,8000-8080") ≡ ok)
    × (port_spec_validate (codes "80,70000") ≡ err_parse)
    × (port_spec_validate (codes ",") ≡ err_parse)
unfolding port_spec_match port_spec_validate strtol
port_samples = (refl, refl, refl, refl, refl, refl)

glob_match-eq-glob_spec_example :
    glob_match (codes "a*b") (codes "aXb") true ≡ glob_spec true (codes "a*b") (codes "aXb")
glob_match-eq-glob_spec_example = glob_match-eq-glob_spec (codes "a*b") (codes "aXb") true

glob_list_match-eq-list_spec_example :
    glob_list_match (codes "a; b") (some (codes "b")) true
    ≡ list_spec (codes "a; b") (some (codes "b")) true
glob_list_match-eq-list_spec_example =
    glob_list_match-eq-list_spec (codes "a; b") (some (codes "b")) true

-- The description evaluated: blanks, empty segments, case and a missing text.
described :
    (list_spec (codes "firefox.exe; chrome.exe ;") (some (codes "Chrome.exe")) true ≡ true)
    × (list_spec (codes "firefox.exe; chrome.exe") (some (codes "edge.exe")) true ≡ false)
    × (list_spec (codes " ; ") (some []) true ≡ false)
    × (list_spec [] none true ≡ true)
unfolding list_spec glob_spec glob_match
described = (refl, refl, refl, refl)

host_pattern_needs_names-eq-any_example :
    host_pattern_needs_names (codes "10.*") ≡ any needs_name (segments (codes "10.*"))
host_pattern_needs_names-eq-any_example = host_pattern_needs_names-eq-any (codes "10.*")

-- "80, 9000 - 8000"
abbrev first : Item
first = record { lead = 0; low = 80; upper = none; trail = 0 }

abbrev second : Item
second = record {
  lead = 1;
  low = 9000;
  upper = some (record { before = 1; after = 1; high = 8000 });
  trail = 0;
}

printed : print (first ∷ second ∷ []) ≡ codes "80, 9000 - 8000"
unfolding print decimal
printed = refl

port_spec_validate-print_example : port_spec_validate (print (first ∷ second ∷ [])) ≡ ok
port_spec_validate-print_example = port_spec_validate-print first (second ∷ []) (omega arith)

port_spec_match-print_example :
    port_spec_match (print (first ∷ second ∷ [])) 8500 ≡ covers (first ∷ second ∷ []) 8500
port_spec_match-print_example = port_spec_match-print first (second ∷ []) 8500 (omega arith)

abbrev query : ConnQuery
query = record {
  app_name = some (codes "chrome.exe");
  app_path = none;
  host = some (codes "10.0.0.1");
  port = 443;
}

fresh_rule_matches : rule_matches init query ≡ true
unfolding rule_matches init
fresh_rule_matches = refl

-- The rule for the browser on the ports of the two items.
abbrev browser : Rule
browser = record init {
  app_pattern = codes "firefox.exe; chrome.exe";
  host_pattern = codes "10.*";
  port_spec = print (first ∷ second ∷ []);
}

rule_matches-eq-rule_spec_example :
    rule_matches browser query ≡ rule_spec browser (first ∷ second ∷ []) query
rule_matches-eq-rule_spec_example =
    rule_matches-eq-rule_spec browser (first ∷ second ∷ []) query (omega arith) refl
