-- ===== src/Tests/Resolver.antt =====
-- implementations/grant_store.py and implementations/secrets.py at a concrete grant.
use agentsecure_community.Base.{
  ◌≡◌, refl, true, Option, none, some, [], ◌∷◌, arith, ◌==◌, if◌then◌else◌,
}
use agentsecure_community.Base.Computing.{computing}
use agentsecure_community.Base.Text.{Text, lit, text_eq}
use agentsecure_community.Base.Dict
use agentsecure_community.Model.{SecretGrant, SecretBinding, rule_for}
use agentsecure_community.Grants.{Grants, get_by_virtual_token, revoke}
use agentsecure_community.Resolver.{Context, stored_secret, grant_resolve, policy_resolve, is_found}
use agentsecure_community.Resolver.Active.{IsLive, grant_resolve-IsLive}
use agentsecure_community.Resolver.Approval.{MayUse, policy_resolve-MayUse}
use agentsecure_community.Resolver.Privacy.{log-policy_resolve}

abbrev grant : SecretGrant
grant = record {
  env_name = lit "API_KEY";
  virtual_token = lit "virt_openai_x";
  secret_ref = lit "local:openai_1";
  provider = lit "openai";
  inject_as = lit "authorization_bearer";
  created_at = 100;
  expires_at = 200;
  status = lit "active";
  alias_id = [];
  scope = lit "project";
  project_id = [];
  run_id = [];
}

abbrev grants : Grants
grants = (lit "virt_openai_x", grant) ∷ []

abbrev store : Text → Option Text
store name = if name == lit "openai_1" then some (lit "sk-real") else none

abbrev other_store : Text → Option Text
other_store name = if name == lit "openai_1" then some (lit "sk-other") else none

abbrev no_alias : Text → Option Text
no_alias name = none

abbrev here : Context
here = record { host = lit "api.openai.com"; project_id = []; run_id = [] }

resolves :
    (grant_resolve store no_alias grants [] (lit "virt_openai_x") here 150 []).0
    ≡ some (lit "sk-real")
unfolding grant_resolve get_by_virtual_token computing
resolves = refl

expired : (grant_resolve store no_alias grants [] (lit "virt_openai_x") here 200 []).0 ≡ none
unfolding grant_resolve get_by_virtual_token computing
expired = refl

has_grant : get_by_virtual_token grants (lit "virt_openai_x") ≡ some grant
unfolding get_by_virtual_token computing
has_grant = refl

grant_resolve-IsLive_example :
    IsLive grant here 150 × (stored_secret store no_alias grant ≡ some (lit "sk-real"))
grant_resolve-IsLive_example =
    (grant_resolve-IsLive store no_alias grants [] (lit "virt_openai_x") here 150 [] grant
        (lit "sk-real") has_grant).0
      resolves

was_revoked : (revoke grants (lit "virt_openai_x")).0 ≡ true
unfolding revoke computing
was_revoked = refl

abbrev binding : SecretBinding
binding = record {
  env_name = lit "API_KEY";
  virtual_token = lit "virt_openai_x";
  real_secret_env = [];
  real_secret_ref = lit "local:openai_1";
  inject_as = lit "authorization_bearer";
  provider = lit "openai";
  expires_at = none;
  alias_id = lit "openai";
  approved_hosts = lit "*.openai.com" ∷ [];
}

has_binding : Dict.lookup (lit "virt_openai_x") ((lit "virt_openai_x", binding) ∷ []) ≡ some binding
unfolding computing
has_binding = refl

approved :
    (policy_resolve
      (grant_resolve store no_alias grants [])
      []
      ((lit "virt_openai_x", binding) ∷ [])
      (lit "virt_openai_x")
      here
      150
      []).0
    ≡ some (lit "sk-real")
unfolding policy_resolve grant_resolve get_by_virtual_token agentsecure_community.Network.covers
    rule_for computing
approved = refl

elsewhere :
    (policy_resolve
      (grant_resolve store no_alias grants [])
      []
      ((lit "virt_openai_x", binding) ∷ [])
      (lit "virt_openai_x")
      (record here { host = lit "evil.com" })
      150
      []).0
    ≡ none
unfolding policy_resolve grant_resolve get_by_virtual_token agentsecure_community.Network.covers
    rule_for computing
elsewhere = refl

policy_resolve-MayUse_example :
    MayUse (grant_resolve store no_alias grants []) [] binding (lit "api.openai.com")
    × ((grant_resolve store no_alias grants [] (lit "virt_openai_x") here 150 []).0
        ≡ some (lit "sk-real"))
policy_resolve-MayUse_example =
    (policy_resolve-MayUse (grant_resolve store no_alias grants []) []
        ((lit "virt_openai_x", binding) ∷ []) binding (lit "virt_openai_x") here 150 []
        (lit "sk-real") has_binding).0
      approved

same_names : (name : Text) → is_found (store name) ≡ is_found (other_store name)
same_names name = ground arith

log-policy_resolve_example :
    (policy_resolve
      (grant_resolve store no_alias grants [])
      []
      ((lit "virt_openai_x", binding) ∷ [])
      (lit "virt_openai_x")
      here
      150
      []).1
    ≡ (policy_resolve
        (grant_resolve other_store no_alias grants [])
        []
        ((lit "virt_openai_x", binding) ∷ [])
        (lit "virt_openai_x")
        here
        150
        []).1
log-policy_resolve_example =
    log-policy_resolve store no_alias other_store no_alias same_names (λ name. refl) [] []
      (λ token. refl) grants [] ((lit "virt_openai_x", binding) ∷ []) (lit "virt_openai_x") here 150
      []
