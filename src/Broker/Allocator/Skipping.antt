-- ===== src/Broker/Allocator/Skipping.antt =====
-- agentsecure/core/policy_ports.py: the search for a port that is not used ends.
use agentsecure_community.Base.{
  ℕ, zero, suc, ◌≤◌, ◌<◌, ◌≡◌, true, false, List, [], ◌∷◌, arith, nat_eq, leb, contains,
  if◌then◌else◌,
}
use agentsecure_community.Base.Lists.{length}
use agentsecure_community.Broker.Allocator.{skip_used}

-- The used ports from a port on.
abbrev above : ℕ → List ℕ → ℕ
above port [] = 0
above port (other ∷ used) = let rest = above port used in if leb port other then suc rest else rest

above_is_bounded : (port : ℕ) (used : List ℕ) → above port used ≤ length used
above_is_bounded port [] = omega arith
above_is_bounded port (other ∷ used) = ground (arith, above_is_bounded port used)

above_shrinks : (port : ℕ) (used : List ℕ) → above (suc port) used ≤ above port used
above_shrinks port [] = omega arith
above_shrinks port (other ∷ used) = ground (arith, above_shrinks port used)

-- Past a used port there are fewer.
above_used :
    (port : ℕ) (used : List ℕ) → contains used port ≡ true → above (suc port) used < above port used
above_used port [] h = cc
above_used port (other ∷ used) h = ground (arith, above_used port used, above_shrinks port used)

skip_used_free :
    (fuel next_port : ℕ) (used : List ℕ)
    → above next_port used ≤ fuel
    → (contains used (skip_used fuel next_port used) ≡ false)
      × (next_port ≤ skip_used fuel next_port used)
unfolding skip_used
skip_used_free zero next_port used h = ground (arith, above_used next_port used)
skip_used_free (suc fuel) next_port used h =
    ground (arith, above_used next_port used, skip_used_free fuel (suc next_port) used)

-- The search for a port ends: at most as many steps as there are used ports lead from a port to
-- one that is not used, and that is no lower.
pub skip_used_ends :
    (next_port : ℕ) (used : List ℕ)
    → (contains used (skip_used (length used) next_port used) ≡ false)
      × (next_port ≤ skip_used (length used) next_port used)
skip_used_ends next_port used =
    skip_used_free (length used) next_port used (above_is_bounded next_port used)
