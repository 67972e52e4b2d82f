-- ===== src/Matchers.antt =====
-- src/matchers: how features of AllThePlaces and of OpenStreetMap are compared.
pub mod Tags
pub mod MatchMask
pub mod Score
pub mod Infrastructure
pub mod Transit
pub mod Phones
pub mod Address
