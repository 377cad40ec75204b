-- ===== src/Mesh/Saved.antt =====
-- agentsecure/mesh/store.py: what `save` writes is what `load` finds.
use agentsecure_community.Base.{◌≡◌, refl, true, some, [], ◌∷◌, arith, ◌==◌, if◌then◌else◌}
use agentsecure_community.Base.Text.{Text, text_eq, text_leb}
use agentsecure_community.Base.Dict
use agentsecure_community.Base.Dict.{Dict}
use agentsecure_community.Mesh.{insert_entry, saved}

text_leb_refl : (s : Text) → text_leb s s ≡ true
text_leb_refl [] = refl
text_leb_refl (c ∷ s) = ground (arith, text_leb_refl s)

module _ {ℓ} {V : Type ℓ} where
  lookup-insert_entry :
      (name key : Text) (value : V) (d : Dict Text V)
      → Dict.lookup name (insert_entry key value d)
        ≡ (if name == key then some value else Dict.lookup name d)
  unfolding insert_entry
  lookup-insert_entry name key value [] = Dict.lookup-cons name key value []
  lookup-insert_entry name key value ((other, found) ∷ rest) = ground (
    arith,
    lookup-insert_entry name key value rest,
    text_leb_refl key,
    Dict.lookup-cons name key value ((other, found) ∷ rest),
    Dict.lookup-cons name other found rest,
    Dict.lookup-cons name other found (insert_entry key value rest),
  )

  -- A state that is saved and loaded has the same entries.
  pub lookup-saved :
      (name : Text) (d : Dict Text V) → Dict.lookup name (saved d) ≡ Dict.lookup name d
  unfolding saved
  lookup-saved name [] = refl
  lookup-saved name ((key, value) ∷ rest) = ground (
    arith,
    lookup-saved name rest,
    lookup-insert_entry name key value (saved rest),
    Dict.lookup-cons name key value rest,
  )

  -- The entries behind an assignment that is saved.
  pub lookup-saved-insert :
      (name key : Text) (value : V) (d : Dict Text V)
      → Dict.lookup name (saved (Dict.insert key value d))
        ≡ (if name == key then some value else Dict.lookup name d)
  lookup-saved-insert name key value d =
      ground
        (arith, lookup-saved name (Dict.insert key value d), Dict.lookup-insert name key value d)
