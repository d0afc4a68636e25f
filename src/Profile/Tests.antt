-- ===== src/Profile/Tests.antt =====
-- A profile edited and validated, and the theorem on dangling rules applied.
use proxi_might.Prelude.{inr, ◌⊎◌, true, some, inl, ◌≡◌, refl, [], ◌∷◌}
use proxi_might.Prelude.Bytes.{Bytes, codes}
use proxi_might.Prelude.Decimal.{strtol}
use proxi_might.Status.{err_crypto, Status, ok, err_parse}
use proxi_might.Proxy.{Proxy}
use proxi_might.Proxy as ProxyModule
use proxi_might.Rule.{Rule, proxy, proxy_target}
use proxi_might.Rule as RuleModule
use proxi_might.Rule.Ports.{port_spec_validate}
use proxi_might.Profile.{Profile, next_id}
use proxi_might.Profile as ProfileModule
use proxi_might.Profile.Edits.{add_proxy, remove_proxy}
use proxi_might.Profile.Seed.{seed_defaults}
use proxi_might.Vpn.Text.{split_first}
use proxi_might.Profile.Sealed.{Protect, container_of, save_text, stored_text}
use proxi_might.Profile.Sealed.Saved.{stored_text-save_text}
use proxi_might.Profile.Validate.{validate}
use proxi_might.Profile.Dangling.{remove_proxy-validate}

abbrev tor : Proxy
tor = record ProxyModule.init { id = 1; port = 9050 }

abbrev web : Rule
web = record RuleModule.init {
  id = 2;
  port_spec = codes "443";
  action = proxy;
  target_kind = proxy_target;
  target_id = 1;
}

abbrev office : Profile
office = record ProfileModule.init { proxies = tor ∷ []; rules = web ∷ []; next_id = 3 }

office_valid : validate office ≡ ok
unfolding validate port_spec_validate strtol ProxyModule.init RuleModule.init ProfileModule.init
office_valid = refl

takes_next_id : (add_proxy office).1 ≡ 3
unfolding add_proxy ProfileModule.init
takes_next_id = refl

tor_removed : (remove_proxy office 1).1 ≡ ok
unfolding remove_proxy ProxyModule.init ProfileModule.init
tor_removed = refl

remove_proxy-validate_example : validate (remove_proxy office 1).0 ≡ err_parse
unfolding RuleModule.init ProfileModule.init
remove_proxy-validate_example = remove_proxy-validate office 0 web refl refl refl tor_removed

seed_valid : validate seed_defaults ≡ ok
unfolding seed_defaults validate port_spec_validate strtol ProxyModule.init RuleModule.init
    ProfileModule.init
seed_valid = refl

-- A provider that puts one byte before the text.
unseal_toy : Bytes → Bytes ⊎ Status
unseal_toy [] = inr err_crypto
unseal_toy (b ∷ text) = inl text

abbrev toy : Protect
toy = record { available = true; seal = λ text. inl (7 ∷ text); unseal = unseal_toy }

unseal_toy-seal : (text sealed : Bytes) → toy.seal text ≡ inl sealed → unseal_toy sealed ≡ inl text
unfolding unseal_toy
unseal_toy-seal text [] e = absurd cc
unseal_toy-seal text (b ∷ rest) e = cc

writes_container : (save_text toy (λ _. ok) (codes "{}")).1 ≡ some (container_of (7 ∷ codes "{}"))
unfolding save_text
writes_container = refl

stored_text-save_text_example : stored_text toy (container_of (7 ∷ codes "{}")) ≡ inl (codes "{}")
unfolding split_first
stored_text-save_text_example =
    stored_text-save_text toy (λ _. ok) (codes "}") (container_of (7 ∷ codes "{}")) refl
      unseal_toy-seal writes_container
