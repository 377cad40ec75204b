-- ===== src/Guard/Commands/Checked.antt =====
-- agentsecure/guard/network.py: what a command that is let through reaches.
use agentsecure_community.Base.{
  ◌≡◌, refl, ap, sym, ◌∙◌, ◌⊎◌, inl, inr, true, Option, none, some, List, [], ◌∷◌, contains, arith,
  Bool-cases, Option-cases,
}
use agentsecure_community.Base.Lists.{All}
use agentsecure_community.Base.Text.{Text, text_eq}
use agentsecure_community.Base.Event.{Log}
use agentsecure_community.Base.Exec.{ok, raised, Result-cases}
use agentsecure_community.Model.{Destination, NetworkPolicy}
use agentsecure_community.Network.{Ip, validate, evaluate_network}
use agentsecure_community.Config.Values.{Url}
use agentsecure_community.Guard.Commands.{
  network_tools, has_visible_credentials, urls, destination_of, decide, validate_urls,
  validate_command,
}

module _ (ip_address : Text → Option Ip) (getaddrinfo : Text → Option (List Text))
    (urlsplit : Text → Option Url) (policy : NetworkPolicy) (session_id : Text) where
  -- A URL without a host, or one whose destination the policy allows with credentials.
  abbrev pub IsLet : Text → Type 0
  IsLet url =
      (destination_of ip_address getaddrinfo urlsplit policy session_id url ≡ ok none)
      ⊎ ((d : Destination) × (destination_of ip_address getaddrinfo urlsplit policy session_id url
            ≡ ok (some d))
          × ((validate ip_address getaddrinfo policy d).allowed ≡ true))

  decide_validates :
      (d : Destination) (log : Log)
      → (decide ip_address getaddrinfo urlsplit policy session_id d log).0
        ≡ validate ip_address getaddrinfo policy d
  unfolding evaluate_network
  decide_validates d log = refl

  validate_urls-IsLet :
      (tool : Text) (args : List Text) (log : Log)
      → (validate_urls ip_address getaddrinfo urlsplit policy session_id tool args log).0 ≡ ok none
      → All IsLet args
  unfolding validate_urls
  validate_urls-IsLet tool [] log h = tt
  validate_urls-IsLet tool (url ∷ rest) log h =
      elim (Result-cases (destination_of ip_address getaddrinfo urlsplit policy session_id url)) [
        | inl (error, e) ↦
            let shape : (validate_urls ip_address getaddrinfo urlsplit policy session_id tool
                  (url ∷ rest) log).0
                ≡ raised error =
              rw (validate_urls, e) refl in
            absurd (cc (h, shape))
        | inr (found, e) ↦ elim (Option-cases found) [
          | inl n ↦
              let none_found : destination_of ip_address getaddrinfo urlsplit policy session_id url
                  ≡ ok none =
                e ∙ ap ok n in
              let shape : (validate_urls ip_address getaddrinfo urlsplit policy session_id tool
                    (url ∷ rest) log).0
                  ≡ (validate_urls ip_address getaddrinfo urlsplit policy session_id tool rest
                      log).0 =
                rw (validate_urls, none_found) refl in
              (inl none_found, validate_urls-IsLet tool rest log (sym shape ∙ h))
          | inr (d, n) ↦
              let some_found : destination_of ip_address getaddrinfo urlsplit policy session_id url
                  ≡ ok (some d) =
                e ∙ ap ok n in
              elim (Bool-cases
                (decide ip_address getaddrinfo urlsplit policy session_id d log).0.allowed) [
                  | inl a ↦
                      let shape : (validate_urls ip_address getaddrinfo urlsplit policy session_id
                            tool (url ∷ rest) log).0
                          ≡ (validate_urls ip_address getaddrinfo urlsplit policy session_id tool
                              rest
                              (decide ip_address getaddrinfo urlsplit policy session_id d
                                log).1).0 =
                        rw (validate_urls, some_found, a) refl in
                      (
                        inr (d, some_found, ap (λ p. p.allowed) (sym (decide_validates d log)) ∙ a),
                        validate_urls-IsLet tool rest
                            (decide ip_address getaddrinfo urlsplit policy session_id d log).1
                            (sym shape ∙ h),
                      )
                  | inr a ↦ absurd (ground (arith, h, some_found, a))
                ]
        ]
      ]

  -- A command of `curl` or `wget` with visible credentials that is let through reaches, by each URL
  -- among its arguments, a destination that the policy allows, or has no host there.
  pub validate_command-IsLet :
      (tool : Text) (args : List Text) (log : Log)
      → contains network_tools tool ≡ true
      → has_visible_credentials args ≡ true
      → (validate_command ip_address getaddrinfo urlsplit policy session_id tool args log).0
        ≡ ok none
      → All IsLet (urls args)
  unfolding validate_command
  validate_command-IsLet tool args log known visible h =
      let shape : (validate_command ip_address getaddrinfo urlsplit policy session_id tool args
            log).0
          ≡ (validate_urls ip_address getaddrinfo urlsplit policy session_id tool (urls args)
              log).0 =
        rw (validate_command, known, visible) refl in
      validate_urls-IsLet tool (urls args) log (sym shape ∙ h)
