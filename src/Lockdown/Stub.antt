-- ===== src/Lockdown/Stub.antt =====
-- src/core/pmx_lockdown.c: what the controller relies on of a firewall, and the stub that the source
-- provides, which only records its state.
use proxi_might.Prelude.{◌≡◌, refl, Bool, true, false, List, [], take}
use proxi_might.Status.{Status, ok}
use proxi_might.Lockdown.{Policy, Endpoint, Firewall, max_allowlist}

-- The contract in pmx_lockdown.h: `engage` installs the posture or reports an error, a renewed
-- `engage` only updates the allowlist, and `disengage` removes all rules.
pub record IsFirewall {F : Type 0} (api : Firewall F) : Type 0 where
  pub engages :
      (f : F) (eps : List Endpoint) (p : Policy)
      → (api.engage f eps p).1 ≡ ok
      → api.is_engaged (api.engage f eps p).0 ≡ true
  pub stays :
      (f : F) (eps : List Endpoint) (p : Policy)
      → api.is_engaged f ≡ true
      → api.is_engaged (api.engage f eps p).0 ≡ true
  pub releases : (f : F) → api.is_engaged (api.disengage f) ≡ false

pub record StubFw : Type 0 where
  pub engaged : Bool
  pub allow : List Endpoint

unfoldable pub stub_engage : StubFw → List Endpoint → Policy → StubFw × Status
stub_engage fw eps p = (record { engaged = true; allow = take max_allowlist eps }, ok)

unfoldable pub stub_disengage : StubFw → StubFw
stub_disengage fw = record { engaged = false; allow = [] }

unfoldable pub stub_is_engaged : StubFw → Bool
stub_is_engaged fw = fw.engaged

abbrev pub stub : Firewall StubFw
stub = record { engage = stub_engage; disengage = stub_disengage; is_engaged = stub_is_engaged }

-- The stub keeps the contract.
pub stub-IsFirewall : IsFirewall stub
unfolding stub_engage stub_disengage stub_is_engaged
stub-IsFirewall = record {
  engages = λ f eps p h. refl;
  stays = λ f eps p h. refl;
  releases = λ f. refl;
}
