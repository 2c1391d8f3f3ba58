-- ===== src/Dunes/Constants.antt =====
-- Constants of runes/dunes/mod.rs, chain.rs and dune.rs.
use maestro_dogecoin_indexer.Prelude.{ℕ, ◌-◌, ◌^◌, List, [], ◌∷◌}

abbrev pub claim_bit : ℕ
claim_bit = 2 ^ 48

abbrev pub max_divisibility : ℕ
max_divisibility = 38

-- `u64::MAX as u128`
abbrev pub max_limit : ℕ
max_limit = 2 ^ 64 - 1

abbrev pub reserved_start : ℕ
reserved_start = 6402364363415443603228541259936211926

pub data Chain : Type 0 where
  mainnet testnet signet regtest : Chain

abbrev pub first_dune_height : Chain → ℕ
first_dune_height mainnet = 5084000
first_dune_height regtest = 0
first_dune_height signet = 0
first_dune_height testnet = 4250000

-- The first name of each length.
abbrev pub steps : List ℕ
steps =
    0 ∷ 26 ∷ 702 ∷ 18278 ∷ 475254 ∷ 12356630 ∷ 321272406 ∷ 8353082582 ∷ 217180147158 ∷ 5646683826134
    ∷ 146813779479510 ∷ 3817158266467286 ∷ 99246114928149462 ∷ 2580398988131886038
    ∷ 67090373691429037014 ∷ 1744349715977154962390 ∷ 45353092615406029022166
    ∷ 1179180408000556754576342 ∷ 30658690608014475618984918 ∷ 797125955808376366093607894
    ∷ 20725274851017785518433805270 ∷ 538857146126462423479278937046
    ∷ 14010285799288023010461252363222 ∷ 364267430781488598271992561443798
    ∷ 9470953200318703555071806597538774 ∷ 246244783208286292431866971536008150
    ∷ 6402364363415443603228541259936211926 ∷ 166461473448801533683942072758341510102 ∷ []
