-- ===== src/Mesh/Messages/Listing.antt =====
-- agentsecure/mesh/service.py: which messages an agent is shown.
use agentsecure_community.Base.{
  ◌≡◌, refl, sym, ap, ◌∙◌, ◌↔◌, ◌⊎◌, inl, inr, Bool, true, false, List, [], ◌∷◌, arith, leb,
  Bool-cases,
}
use agentsecure_community.Base.Lists.{keep}
use agentsecure_community.Base.Text.{Text, lit, text_eq}
use agentsecure_community.Base.Dict
use agentsecure_community.Base.Exec.{ok}
use agentsecure_community.Mesh.{MeshMessage, MeshState}
use agentsecure_community.Mesh.Redaction.{required_id}
use agentsecure_community.Mesh.Messages.{is_listed, insert_message, newest_first, list_messages}

-- Membership, as a choice of a position.
abbrev pub In : MeshMessage → List MeshMessage → Type 0
In message [] = ⊥
In message (other ∷ rest) = (message ≡ other) ⊎ In message rest

on_right : {A B C : Type 0} → (B → C) → A ⊎ B → A ⊎ C
on_right f (inl a) = inl a
on_right f (inr b) = inr (f b)

swap : {A B C D : Type 0} → (D → A ⊎ C) → B ⊎ D → A ⊎ B ⊎ C
swap f (inl b) = inr (inl b)
swap f (inr d) = on_right inr (f d)

swap_back : {A B C D : Type 0} → (A ⊎ C → D) → A ⊎ B ⊎ C → B ⊎ D
swap_back f (inl a) = inr (f (inl a))
swap_back f (inr (inl b)) = inl b
swap_back f (inr (inr c)) = inr (f (inr c))

insert_message-In :
    (m other : MeshMessage) (ms : List MeshMessage)
    → In m (insert_message other ms) ↔ ((m ≡ other) ⊎ In m ms)
unfolding insert_message
insert_message-In m other [] = (λ h. h, λ h. h)
insert_message-In m other (first ∷ rest) =
    elim (Bool-cases (leb first.created_at other.created_at)) [
      | inl e ↦ rw e (λ h. h, λ h. h)
      | inr e ↦ rw e (
        λ h. swap (insert_message-In m other rest).0 h,
        λ h. swap_back (insert_message-In m other rest).1 h,
      )
    ]

newest_first-In : (m : MeshMessage) (ms : List MeshMessage) → In m (newest_first ms) ↔ In m ms
unfolding newest_first
newest_first-In m [] = (λ h. h, λ h. h)
newest_first-In m (first ∷ rest) =
    let (to, from) = insert_message-In m first (newest_first rest) in
    let (down, up) = newest_first-In m rest in
    (λ h. on_right down (to h), λ h. from (on_right up h))

kept :
    (test : MeshMessage → Bool) (m first : MeshMessage) (rest : List MeshMessage)
    → test first ≡ true
    → (In m (keep test rest) → In m rest × (test m ≡ true))
    → (m ≡ first) ⊎ In m (keep test rest)
    → ((m ≡ first) ⊎ In m rest) × (test m ≡ true)
kept test m first rest e f (inl p) = (inl p, ap test p ∙ e)
kept test m first rest e f (inr i) = (inr (f i).0, (f i).1)

dropped :
    (test : MeshMessage → Bool) (m first : MeshMessage) (rest : List MeshMessage)
    → test first ≡ false
    → (In m rest × (test m ≡ true) → In m (keep test rest))
    → (m ≡ first) ⊎ In m rest
    → test m ≡ true
    → In m (keep test rest)
dropped test m first rest e f (inl p) t = absurd (cc (sym t ∙ ap test p ∙ e))
dropped test m first rest e f (inr i) t = f (i, t)

keep-In :
    (test : MeshMessage → Bool) (m : MeshMessage) (ms : List MeshMessage)
    → In m (keep test ms) ↔ (In m ms × (test m ≡ true))
unfolding keep
keep-In test m [] = (λ h. absurd h, λ (h, _). h)
keep-In test m (first ∷ rest) = elim (Bool-cases (test first)) [
  | inl e ↦ rw e (
    λ h. kept test m first rest e (keep-In test m rest).0 h,
    λ (h, t). on_right (λ i. (keep-In test m rest).1 (i, t)) h,
  )
  | inr e ↦ rw e (
    λ h. let (i, t) = (keep-In test m rest).0 h in (inr i, t),
    λ (h, t). dropped test m first rest e (keep-In test m rest).1 h t,
  )
]

-- The agent that asks, and whether the message is for it and still to be read or asked for.
abbrev pub IsFor : Text → Bool → MeshMessage → Type 0
IsFor agent include_read m =
    (m.to ≡ agent) × ((include_read ≡ true) ⊎ ((m.status ≡ lit "read") → ⊥))

is_listed-IsFor :
    (agent : Text) (include_read : Bool) (m : MeshMessage)
    → (is_listed agent include_read m ≡ true) ↔ IsFor agent include_read m
unfolding is_listed
is_listed-IsFor agent true m = (λ h. (ground arith, inl refl), λ (a, b). ground arith)
is_listed-IsFor agent false m = (
  λ h. (ground arith, inr (λ p. ground arith)),
  λ (a, b). elim b [ inl q ↦ cc | inr q ↦ ground (arith, q) ],
)

pub listed :
    (state : MeshState) (agent_id agent : Text) (include_read : Bool)
    → required_id agent_id (lit "agent_id") ≡ ok agent
    → list_messages state agent_id include_read
      ≡ ok (newest_first (keep (is_listed agent include_read) (Dict.values state.messages)))
unfolding list_messages
listed state agent_id agent include_read e = ground arith

-- For an agent whose id is not blank, the listing succeeds, and a message is in it exactly if it
-- is stored, is addressed to the agent, and was not read, unless read messages are asked for.
pub list_messages-IsFor :
    (state : MeshState) (agent_id agent : Text) (include_read : Bool) (m : MeshMessage)
    → required_id agent_id (lit "agent_id") ≡ ok agent
    → (shown : List MeshMessage) × (list_messages state agent_id include_read ≡ ok shown)
      × (In m shown ↔ (In m (Dict.values state.messages) × IsFor agent include_read m))
list_messages-IsFor state agent_id agent include_read m e =
    let values = Dict.values state.messages in
    let test = is_listed agent include_read in
    let (sorted_to, sorted_from) = newest_first-In m (keep test values) in
    let (keep_to, keep_from) = keep-In test m values in
    let (is_to, is_from) = is_listed-IsFor agent include_read m in
    (
      _,
      listed state agent_id agent include_read e,
      (
        λ h. let (i, t) = keep_to (sorted_to h) in (i, is_to t),
        λ (i, f). sorted_from (keep_from (i, is_from f)),
      ),
    )
