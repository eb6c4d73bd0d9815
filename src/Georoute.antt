-- ===== src/Georoute.antt =====
-- internal/georoute/georoute.go: how far an exit country is thought to be from an entry country.
pub mod Costs
use global_egress.Shared.{
  ℕ, ◌≡◌, Bool, true, false, ◌||◌, List, [], ◌∷◌, Option, none, some, Bytes, codes, bytes_eq,
  bytes_beq, refl, Eq, nat_eq, ◌==◌, nat_beq_iff, arith, if◌then◌else◌, Map, lookup, or_default,
  get_elem?, to_lower, trim_space, ◌↔◌, ap, ◌∙◌, sym,
}

pub data Region : Type 0 where
  unknown east_asia south_asia oceania europe middle_east africa north_america south_america :
      Region

abbrev region_index : Region → ℕ
region_index unknown = 0
region_index east_asia = 1
region_index south_asia = 2
region_index oceania = 3
region_index europe = 4
region_index middle_east = 5
region_index africa = 6
region_index north_america = 7
region_index south_america = 8

abbrev pub regions : List Region
regions =
    unknown ∷ east_asia ∷ south_asia ∷ oceania ∷ europe ∷ middle_east ∷ africa ∷ north_america
    ∷ south_america ∷ []

abbrev region_at : ℕ → Region
region_at n = or_default (get_elem? regions n) unknown

region_at-index : (r : Region) → region_at (region_index r) ≡ r
region_at-index unknown = refl
region_at-index east_asia = refl
region_at-index south_asia = refl
region_at-index oceania = refl
region_at-index europe = refl
region_at-index middle_east = refl
region_at-index africa = refl
region_at-index north_america = refl
region_at-index south_america = refl

pub region_beq_iff : (a b : Region) → (region_index a == region_index b ≡ true) ↔ (a ≡ b)
region_beq_iff a b = (
  λ h.
      sym (region_at-index a)
      ∙ ap region_at ((nat_beq_iff (region_index a) (region_index b)).0 h)
      ∙ region_at-index b,
  λ h. (nat_beq_iff (region_index a) (region_index b)).1 (ap region_index h),
)

instance abbrev pub region_eq : Eq Region
region_eq = record { beq = λ a b. region_index a == region_index b; beq_iff = region_beq_iff }

abbrev country_region : Map Bytes Region
country_region =
    (codes "jp", east_asia)
    ∷ (codes "hk", east_asia)
    ∷ (codes "tw", east_asia)
    ∷ (codes "kr", east_asia)
    ∷ (codes "sg", south_asia)
    ∷ (codes "my", south_asia)
    ∷ (codes "th", south_asia)
    ∷ (codes "id", south_asia)
    ∷ (codes "ph", south_asia)
    ∷ (codes "vn", south_asia)
    ∷ (codes "in", south_asia)
    ∷ (codes "au", oceania)
    ∷ (codes "nz", oceania)
    ∷ (codes "al", europe)
    ∷ (codes "at", europe)
    ∷ (codes "be", europe)
    ∷ (codes "bg", europe)
    ∷ (codes "ch", europe)
    ∷ (codes "cy", europe)
    ∷ (codes "cz", europe)
    ∷ (codes "de", europe)
    ∷ (codes "dk", europe)
    ∷ (codes "ee", europe)
    ∷ (codes "es", europe)
    ∷ (codes "fi", europe)
    ∷ (codes "fr", europe)
    ∷ (codes "gb", europe)
    ∷ (codes "gr", europe)
    ∷ (codes "hr", europe)
    ∷ (codes "hu", europe)
    ∷ (codes "ie", europe)
    ∷ (codes "it", europe)
    ∷ (codes "lt", europe)
    ∷ (codes "lu", europe)
    ∷ (codes "lv", europe)
    ∷ (codes "md", europe)
    ∷ (codes "nl", europe)
    ∷ (codes "no", europe)
    ∷ (codes "pl", europe)
    ∷ (codes "pt", europe)
    ∷ (codes "ro", europe)
    ∷ (codes "rs", europe)
    ∷ (codes "se", europe)
    ∷ (codes "si", europe)
    ∷ (codes "sk", europe)
    ∷ (codes "ua", europe)
    ∷ (codes "il", middle_east)
    ∷ (codes "tr", middle_east)
    ∷ (codes "ae", middle_east)
    ∷ (codes "za", africa)
    ∷ (codes "ng", africa)
    ∷ (codes "ke", africa)
    ∷ (codes "us", north_america)
    ∷ (codes "ca", north_america)
    ∷ (codes "mx", north_america)
    ∷ (codes "ar", south_america)
    ∷ (codes "br", south_america)
    ∷ (codes "cl", south_america)
    ∷ (codes "co", south_america)
    ∷ (codes "pe", south_america)
    ∷ []

-- RegionOf
unfoldable pub region_of : Bytes → Region
unfolding lookup to_lower trim_space bytes_beq
region_of country = or_default (lookup (to_lower (trim_space country)) country_region) unknown

abbrev distance : Map Region (Map Region ℕ)
distance =
    (
      east_asia,
      (east_asia, 0)
          ∷ (south_asia, 1)
          ∷ (oceania, 2)
          ∷ (north_america, 3)
          ∷ (middle_east, 4)
          ∷ (europe, 5)
          ∷ (south_america, 6)
          ∷ (africa, 6)
          ∷ [],
    )
    ∷ (
      south_asia,
      (south_asia, 0)
          ∷ (east_asia, 1)
          ∷ (oceania, 2)
          ∷ (middle_east, 3)
          ∷ (europe, 4)
          ∷ (north_america, 4)
          ∷ (africa, 5)
          ∷ (south_america, 7)
          ∷ [],
    )
    ∷ (
      oceania,
      (oceania, 0)
          ∷ (east_asia, 2)
          ∷ (south_asia, 2)
          ∷ (north_america, 4)
          ∷ (europe, 6)
          ∷ (middle_east, 6)
          ∷ (south_america, 6)
          ∷ (africa, 7)
          ∷ [],
    )
    ∷ (
      europe,
      (europe, 0)
          ∷ (middle_east, 1)
          ∷ (africa, 2)
          ∷ (north_america, 3)
          ∷ (south_asia, 4)
          ∷ (east_asia, 5)
          ∷ (south_america, 5)
          ∷ (oceania, 6)
          ∷ [],
    )
    ∷ (
      middle_east,
      (middle_east, 0)
          ∷ (europe, 1)
          ∷ (africa, 2)
          ∷ (south_asia, 3)
          ∷ (east_asia, 4)
          ∷ (north_america, 4)
          ∷ (south_america, 6)
          ∷ (oceania, 6)
          ∷ [],
    )
    ∷ (
      africa,
      (africa, 0)
          ∷ (europe, 2)
          ∷ (middle_east, 2)
          ∷ (south_asia, 5)
          ∷ (north_america, 5)
          ∷ (south_america, 5)
          ∷ (east_asia, 6)
          ∷ (oceania, 7)
          ∷ [],
    )
    ∷ (
      north_america,
      (north_america, 0)
          ∷ (south_america, 2)
          ∷ (europe, 3)
          ∷ (east_asia, 3)
          ∷ (south_asia, 4)
          ∷ (oceania, 4)
          ∷ (middle_east, 4)
          ∷ (africa, 5)
          ∷ [],
    )
    ∷ (
      south_america,
      (south_america, 0)
          ∷ (north_america, 2)
          ∷ (europe, 5)
          ∷ (africa, 5)
          ∷ (middle_east, 6)
          ∷ (east_asia, 6)
          ∷ (south_asia, 7)
          ∷ (oceania, 6)
          ∷ [],
    )
    ∷ []

-- The cost between two regions.
unfoldable pub region_cost : Region → Region → ℕ
unfolding lookup
region_cost from to =
    if from == unknown || to == unknown
    then 4
    else elim (lookup from distance) [ none ↦ 4 | some row ↦ or_default (lookup to row) 4 ]

-- Cost
unfoldable pub cost : Bytes → Bytes → ℕ
unfolding region_of region_cost
cost entry_country exit_country = region_cost (region_of entry_country) (region_of exit_country)
