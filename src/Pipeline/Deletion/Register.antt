-- ===== src/Pipeline/Deletion/Register.antt =====
-- src/pipeline/conflate/deletion.rs: the home area of the Swiss register of public transport.
use Prim.Native.String.{String}
use text.Mathlib.Text.{◌==◌ as str_eq}
use osmdiffs.Base.{ℕ, Bool, false, ◌&&◌, ◌||◌, Option, none, some, List, [], ◌∷◌}
use osmdiffs.Base.Search.{any}

-- By its two-letter code.
abbrev pub Country : Type 0
Country = String

-- Longitude and latitude, in units of 10^-5 degrees, of the corners.
abbrev pub Ring : Type 0
Ring = List (ℕ × ℕ)

pub record Enclave : Type 0 where
  pub country : Country
  pub ring : Ring

pub record TransitRegister : Type 0 where
  pub countries : List Country
  pub enclaves : List Enclave

unfoldable pub buesingen : Ring
buesingen =
    (865822, 4769171)
    ∷ (865797, 4769046)
    ∷ (865917, 4769013)
    ∷ (865920, 4768918)
    ∷ (866217, 4768786)
    ∷ (866345, 4768774)
    ∷ (866295, 4768546)
    ∷ (866962, 4768439)
    ∷ (867198, 4768470)
    ∷ (867885, 4768714)
    ∷ (868537, 4769106)
    ∷ (868856, 4769428)
    ∷ (869018, 4769493)
    ∷ (869164, 4769482)
    ∷ (869942, 4769251)
    ∷ (870454, 4768992)
    ∷ (870753, 4768912)
    ∷ (871492, 4768919)
    ∷ (871854, 4769070)
    ∷ (871772, 4769229)
    ∷ (871826, 4769273)
    ∷ (871823, 4769513)
    ∷ (871216, 4769662)
    ∷ (871244, 4770190)
    ∷ (870954, 4770436)
    ∷ (870707, 4771122)
    ∷ (870524, 4771363)
    ∷ (870340, 4771498)
    ∷ (870132, 4771564)
    ∷ (869827, 4771542)
    ∷ (869697, 4771411)
    ∷ (868933, 4771210)
    ∷ (868902, 4771165)
    ∷ (868966, 4770979)
    ∷ (868618, 4770903)
    ∷ (868422, 4770915)
    ∷ (868155, 4771019)
    ∷ (868070, 4771076)
    ∷ (868202, 4771161)
    ∷ (868188, 4771268)
    ∷ (867804, 4771360)
    ∷ (867392, 4771309)
    ∷ (867131, 4771147)
    ∷ (866598, 4771347)
    ∷ (866425, 4771372)
    ∷ (866543, 4770766)
    ∷ (867301, 4770459)
    ∷ (867571, 4769810)
    ∷ (867364, 4769818)
    ∷ (867303, 4769537)
    ∷ (867216, 4769537)
    ∷ (866764, 4769356)
    ∷ (866764, 4769251)
    ∷ (865822, 4769171)
    ∷ []

unfoldable pub campione : Ring
campione =
    (895792, 4596493)
    ∷ (895832, 4596439)
    ∷ (896797, 4596262)
    ∷ (896787, 4596183)
    ∷ (896830, 4596149)
    ∷ (897103, 4596118)
    ∷ (897277, 4596156)
    ∷ (897616, 4596137)
    ∷ (897756, 4596365)
    ∷ (897797, 4596783)
    ∷ (897884, 4596825)
    ∷ (898001, 4597101)
    ∷ (897800, 4597197)
    ∷ (897698, 4597593)
    ∷ (897708, 4597954)
    ∷ (897821, 4598256)
    ∷ (897765, 4598340)
    ∷ (896718, 4598460)
    ∷ (896656, 4598442)
    ∷ (896425, 4597993)
    ∷ (896352, 4597629)
    ∷ (896087, 4597252)
    ∷ (895792, 4596493)
    ∷ []

unfoldable pub swiss_register : TransitRegister
unfolding buesingen campione
swiss_register = record {
  countries = "CH" ∷ ("LI" ∷ []);
  enclaves =
      (record { country = "DE"; ring = buesingen })
      ∷ ((record { country = "IT"; ring = campione }) ∷ []);
}

-- What the crates for country borders, S2 cells and polygons tell of a place on earth.
pub record World (Location : Type 0) : Type 0 where
  pub country : Location → Option Country
  pub contains : Ring → Location → Bool
  pub cell_at : Location → ℕ
  pub center : ℕ → Location
  pub parent : ℕ → ℕ
  pub neighbors : ℕ → List ℕ

-- A country whose stops the register lists, all of them.
unfoldable pub is_home_country : Country → Bool
unfolding swiss_register
is_home_country c = any (λ d. str_eq d c) (swiss_register.countries)

module _ {Location : Type 0} (world : World Location) where
  unfoldable pub in_swiss_home : Option Country → Location → Bool
  unfolding is_home_country
  in_swiss_home none location = false
  in_swiss_home (some c) location =
      is_home_country c
      || any (λ e. str_eq (e.country) c && world.contains (e.ring) location)
          (swiss_register.enclaves)
