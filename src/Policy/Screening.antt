-- ===== src/Policy/Screening.antt =====
-- agentsecure/core/policy_mutation.py: the texts that a change may write.
use agentsecure_community.Base.{
  ◌≡◌, refl, Bool, false, Option, some, List, [], ◌∷◌, ◌++◌, arith, ◌∙◌, sym,
}
use agentsecure_community.Base.Lists.{All}
use agentsecure_community.Base.Text.{Text, lit, text_eq}
use agentsecure_community.Base.Dict
use agentsecure_community.Base.Dict.{Dict}
use agentsecure_community.Base.Exec.{Result, ok, ◌>>=◌}
use agentsecure_community.Base.Json.{
  Json, null, boolean, number, text, array, object, Fields, end, entries, members, get_or,
  to_fields, Python,
}
use agentsecure_community.Network.{Ip}
use agentsecure_community.Config.Values.{Url, bind-ok}
use agentsecure_community.Policy.Validation.{
  env_policy_fields, capability_fields, validate_fields, extract_policy_payload,
  looks_like_raw_secret_value, refuse_text, refuse_items, reject_raw_secret_value,
}
use agentsecure_community.Policy.{
  Mutation, dict_or_empty, with_section, section_of, rule_field, capability_field, merge_fields,
  merge_entries, merge_section, merge_env_policy, merge_capabilities, load_raw_config,
  build_mutation,
}

module _ (url_password : Text → Bool) where
  -- A text that does not look like a raw secret; other values have no text of their own.
  abbrev pub IsPlain : Json → Type 0
  IsPlain (text t) = looks_like_raw_secret_value url_password t ≡ false
  IsPlain _ = Unit

  -- The same for the members of a list.
  abbrev pub IsClean : Json → Type 0
  IsClean (array items) = All IsPlain (members items)
  IsClean value = IsPlain value

  -- The fields of an entry of a section.
  abbrev pub AreClean : Json → Type 0
  AreClean (object fields) = All (λ field. IsClean field.1) (entries fields)
  AreClean _ = Unit

  refuse_text-IsPlain : (path t : Text) → refuse_text url_password path t ≡ ok tt → IsPlain (text t)
  refuse_text-IsPlain path t h = ground arith

  refuse_items-IsPlain :
      (path : Text) (items : List Json)
      → refuse_items url_password path items ≡ ok tt
      → All IsPlain items
  refuse_items-IsPlain path [] h = tt
  refuse_items-IsPlain path (text t ∷ items) h =
      let (done, here, later) = bind-ok (refuse_text url_password path t) _ tt h in
      (refuse_text-IsPlain path t here, refuse_items-IsPlain path items later)
  refuse_items-IsPlain path (null ∷ items) h = (tt, refuse_items-IsPlain path items h)
  refuse_items-IsPlain path (boolean b ∷ items) h = (tt, refuse_items-IsPlain path items h)
  refuse_items-IsPlain path (number n ∷ items) h = (tt, refuse_items-IsPlain path items h)
  refuse_items-IsPlain path (array nested ∷ items) h = (tt, refuse_items-IsPlain path items h)
  refuse_items-IsPlain path (object fields ∷ items) h = (tt, refuse_items-IsPlain path items h)

  reject_raw_secret_value-IsClean :
      (path : Text) (value : Json)
      → reject_raw_secret_value url_password path value ≡ ok tt
      → IsClean value
  unfolding reject_raw_secret_value
  reject_raw_secret_value-IsClean path (array items) h = refuse_items-IsPlain path (members items) h
  reject_raw_secret_value-IsClean path (text t) h = (refuse_items-IsPlain path (text t ∷ []) h).0
  reject_raw_secret_value-IsClean path _ h = tt

  module _ (py : Python) where
    rule_field-IsClean :
        (path name : Text) (value converted : Json)
        → rule_field py url_password path name value ≡ ok converted
        → IsClean value
    unfolding rule_field
    rule_field-IsClean path name value converted h =
        let (done, checked, later) =
          bind-ok (reject_raw_secret_value url_password path value) _ converted h in
        reject_raw_secret_value-IsClean path value checked

    capability_field-IsClean :
        (path name : Text) (value converted : Json)
        → capability_field py url_password path name value ≡ ok converted
        → IsClean value
    unfolding capability_field
    capability_field-IsClean path name value converted h =
        let (done, checked, later) =
          bind-ok (reject_raw_secret_value url_password path value) _ converted h in
        reject_raw_secret_value-IsClean path value checked

    module _ (convert : Text → Text → Json → Result Json)
        (clean : (path name : Text) (value converted : Json)
          → convert path name value ≡ ok converted
          → IsClean value) where
      merge_fields-IsClean :
          (path : Text) (fields next merged : Dict Text Json)
          → merge_fields py url_password convert path fields next ≡ ok merged
          → All (λ field. IsClean field.1) fields
      unfolding merge_fields
      merge_fields-IsClean path [] next merged h = tt
      merge_fields-IsClean path ((name, value) ∷ rest) next merged h =
          let (converted, here, later) =
            bind-ok (convert (path ++ lit "." ++ name) name value) _ merged h in
          (
            clean (path ++ lit "." ++ name) name value converted here,
            merge_fields-IsClean path rest (Dict.insert name converted next) merged later,
          )

      merge_entries-AreClean :
          (allowed : List Text) (section : Text) (updates current merged : Dict Text Json)
          → merge_entries py url_password convert allowed section updates current ≡ ok merged
          → All (λ entry. AreClean entry.1) updates
      unfolding merge_entries
      merge_entries-AreClean allowed section [] current merged h = tt
      merge_entries-AreClean allowed section ((name, object fields) ∷ rest) current merged h =
          let path = section ++ lit "." ++ name in
          let old = dict_or_empty (get_or name (object end) current) in
          let (done, valid, h1) =
            bind-ok (validate_fields path (entries fields) allowed) _ merged h in
          let (next, here, h2) =
            bind-ok (merge_fields py url_password convert path (entries fields) old) _ merged h1 in
          (
            merge_fields-IsClean path (entries fields) old next here,
            merge_entries-AreClean allowed section rest
                (Dict.insert name (object (to_fields next)) current) merged h2,
          )
      merge_entries-AreClean allowed section ((name, _) ∷ rest) current merged h = cc

      merge_section-AreClean :
          (allowed : List Text) (section : Text) (mutation config merged : Dict Text Json)
          (updates : Fields)
          → merge_section py url_password convert allowed section mutation config ≡ ok merged
          → Dict.lookup section mutation ≡ some (object updates)
          → All (λ entry. AreClean entry.1) (entries updates)
      unfolding merge_section
      merge_section-AreClean allowed section mutation config merged updates h e =
          let opened : merge_section py url_password convert allowed section mutation config ≡ (
              section_of section config >>= λ current.
              merge_entries py url_password convert allowed section (entries updates) current
              >>= λ merged. ok (with_section section merged config)) =
            rw (merge_section, e) refl in
          let (current, e1, h1) = bind-ok (section_of section config) _ merged (sym opened ∙ h) in
          let (entered, e2, h2) =
            bind-ok
              (merge_entries py url_password convert allowed section (entries updates) current) _
              merged h1 in
          merge_entries-AreClean allowed section (entries updates) current entered e2

  -- The entries of a section of a change.
  abbrev pub IsCleanSection : Option Json → Type 0
  IsCleanSection (some (object updates)) = All (λ entry. AreClean entry.1) (entries updates)
  IsCleanSection _ = Unit

  abbrev pub IsScreened : Dict Text Json → Type 0
  IsScreened mutation =
      IsCleanSection (Dict.lookup (lit "env_policy") mutation)
      × IsCleanSection (Dict.lookup (lit "capabilities") mutation)

  found_IsCleanSection :
      (found : Option Json)
      → ((updates : Fields)
          → found ≡ some (object updates)
          → All (λ entry. AreClean entry.1) (entries updates))
      → IsCleanSection found
  found_IsCleanSection (some (object updates)) all = all updates refl
  found_IsCleanSection _ all = tt

module _ (py : Python) (ip_address : Text → Option Ip) (urlsplit : Text → Option Url)
    (url_path : Text → Option Text) (quote : Text → Option Text) (url_password : Text → Bool)
    (canonical : Json → Text) where
  -- A change that is built has no text that looks like a raw secret, neither as a field of a rule
  -- or of a capability nor in a list that is such a field.
  pub build_mutation-IsScreened :
      (file : Option Json) (payload : Json) (m : Mutation)
      → build_mutation py ip_address urlsplit url_path quote url_password canonical file payload
        ≡ ok m
      → (mutation : Dict Text Json) × (extract_policy_payload payload ≡ ok mutation)
        × IsScreened url_password mutation
  unfolding build_mutation merge_env_policy merge_capabilities
  build_mutation-IsScreened file payload m h =
      let (current, e1, h1) = bind-ok (load_raw_config file) _ m h in
      let (mutation, e2, h2) = bind-ok (extract_policy_payload payload) _ m h1 in
      let (ruled, e3, h3) = bind-ok (merge_env_policy py url_password mutation current) _ m h2 in
      let (merged, e4, h4) = bind-ok (merge_capabilities py url_password mutation ruled) _ m h3 in
      (
        mutation,
        e2,
        (
          found_IsCleanSection url_password (Dict.lookup (lit "env_policy") mutation)
              (λ updates found.
                merge_section-AreClean url_password py (rule_field py url_password)
                  (rule_field-IsClean url_password py) env_policy_fields (lit "env_policy") mutation
                  current ruled updates e3 found),
          found_IsCleanSection url_password (Dict.lookup (lit "capabilities") mutation)
              (λ updates found.
                merge_section-AreClean url_password py (capability_field py url_password)
                  (capability_field-IsClean url_password py) capability_fields (lit "capabilities")
                  mutation ruled merged updates e4 found),
        ),
      )
