-- ===== src/Startup.antt =====
-- The start of the process by src/startup.rs and src/identity.rs, with `parse_profile` of
-- src/config.rs and `parse_catalog` of src/scenario.rs. Files, YAML and SHA-256 are a parameter.
pub mod Loaded
mod Tests
use c37_118_simulator.Prelude.{
  ℕ, zero, suc, Bool, true, false, not, ◌&&◌, ◌||◌, Option, none, some, List, [], ◌∷◌, length, ltb,
  leb, ◌==◌, if◌then◌else◌,
}
use c37_118_simulator.Prelude.Text.{Bytes, is_empty, any, is_ascii_control}
use c37_118_simulator.Scenario.Types.{ScenarioCatalog}
use c37_118_simulator.Scenario.Catalog as Catalog
use c37_118_simulator.Scenario.Catalog.{CatalogResult, RawScenarioCatalog, compile_catalog}
use c37_118_simulator.Config as Config
use c37_118_simulator.Config.{Floats, Profile, Configured, is_within}
use c37_118_simulator.Config.Compile.{CompiledProfile, compile_profile}

-- Whether a file is there at a turn, what serde_yaml makes of a text, and the digest of sha2 as
-- lower-case hexadecimal digits.
pub record Libraries : Type 0 where
  pub floats : Floats
  pub read : ℕ → Bytes → Option Bytes
  pub profile_from_str : Bytes → Option Profile
  pub catalog_from_str : Bytes → Option RawScenarioCatalog
  pub hex_digest : Bytes → Bytes

pub data Input : Type 0 where
  deployment_label image_reference profile_input catalog_input : Input

pub data StartupError : Type 0 where
  text_out_of_range cannot_read not_utf8 not_yaml : Input → StartupError
  invalid_profile : Config.ConfigError → StartupError
  invalid_catalog : Catalog.ScenarioCatalogError → StartupError

-- A `Result`, or the end of the process at an `expect` of the profile.
pub data Loading (A : Type 0) : Type 0 where
  ok : A → Loading A
  err : StartupError → Loading A
  panicked : Loading A

infixl 5 ◌>>=◌ ◌>>◌
abbrev pub ◌>>=◌ : {A B : Type 0} → Loading A → (A → Loading B) → Loading B
ok a >>= f = f a
err e >>= f = err e
panicked >>= f = panicked

abbrev pub ◌>>◌ : {B : Type 0} → Loading (Unit {0}) → Loading B → Loading B
m >> k = m >>= λ _. k

abbrev pub guard : Bool → StartupError → Loading (Unit {0})
guard true e = ok tt
guard false e = err e

abbrev pub ok_or : {A : Type 0} → Option A → StartupError → Loading A
ok_or none e = err e
ok_or (some a) e = ok a

pub record RuntimeIdentity : Type 0 where
  pub image_ref : Bytes
  pub profile_sha256 : Bytes
  pub scenario_catalog_sha256 : Bytes

pub record Startup : Type 0 where
  pub profile : CompiledProfile
  pub scenario_catalog : ScenarioCatalog
  pub runtime_identity : RuntimeIdentity
  pub label : Bytes

-- What `str::from_utf8` expects after a byte: how many bytes follow, and the range of the next.
pub record Follow : Type 0 where
  pub left : ℕ
  pub low : ℕ
  pub high : ℕ

abbrev pub follow : ℕ → Option Follow
follow b =
    if ltb b 0x80
    then some (record { left = 0; low = 0; high = 0 })
    else if is_within 0xC2 0xDF b
    then some (record { left = 1; low = 0x80; high = 0xBF })
    else if b == 0xE0
    then some (record { left = 2; low = 0xA0; high = 0xBF })
    else if b == 0xED
    then some (record { left = 2; low = 0x80; high = 0x9F })
    else if is_within 0xE1 0xEF b
    then some (record { left = 2; low = 0x80; high = 0xBF })
    else if b == 0xF0
    then some (record { left = 3; low = 0x90; high = 0xBF })
    else if is_within 0xF1 0xF3 b
    then some (record { left = 3; low = 0x80; high = 0xBF })
    else if b == 0xF4
    then some (record { left = 3; low = 0x80; high = 0x8F })
    else none

abbrev pub step_utf8 : Follow → ℕ → Option Follow
step_utf8 f b = continue f.left
  where
    continue : ℕ → Option Follow
    continue zero = follow b
    continue (suc n) =
        if is_within f.low f.high b
        then some (record { left = n; low = 0x80; high = 0xBF })
        else none

abbrev pub utf8_from : Option Follow → Bytes → Bool
utf8_from none bs = false
utf8_from (some f) [] = f.left == 0
utf8_from (some f) (b ∷ bs) = utf8_from (step_utf8 f b) bs

unfoldable pub is_utf8 : Bytes → Bool
is_utf8 bs = utf8_from (some (record { left = 0; low = 0; high = 0 })) bs

unfoldable pub validate_text : Input → Bytes → ℕ → Loading (Unit {0})
validate_text name value maximum_bytes =
    guard (not (is_empty value || ltb maximum_bytes (length value) || any is_ascii_control value))
      (text_out_of_range name)

module _ (lib : Libraries) where
  abbrev pub read_file : ℕ → Bytes → Input → Loading Bytes
  read_file turn path kind = ok_or (lib.read turn path) (cannot_read kind)

  abbrev pub profile_result : Configured CompiledProfile → Loading CompiledProfile
  profile_result (Config.ok p) = ok p
  profile_result (Config.err e) = err (invalid_profile e)
  profile_result Config.panicked = panicked

  abbrev pub parse_profile : Bytes → Loading CompiledProfile
  parse_profile contents = do
    profile ← ok_or (lib.profile_from_str contents) (not_yaml profile_input)
    profile_result (compile_profile lib.floats profile)

  abbrev pub catalog_result : CatalogResult ScenarioCatalog → Loading ScenarioCatalog
  catalog_result (Catalog.ok c) = ok c
  catalog_result (Catalog.err e) = err (invalid_catalog e)

  abbrev pub parse_catalog : Bytes → Loading ScenarioCatalog
  parse_catalog contents = do
    catalog ← ok_or (lib.catalog_from_str contents) (not_yaml catalog_input)
    catalog_result (compile_catalog catalog)

  abbrev pub sha256_hex : Bytes → Bytes
  sha256_hex contents = lib.hex_digest contents

  -- `RuntimeIdentity::new`
  abbrev pub new_identity : Bytes → Bytes → Bytes → RuntimeIdentity
  new_identity image profile catalog = record {
    image_ref = image;
    profile_sha256 = sha256_hex profile;
    scenario_catalog_sha256 = sha256_hex catalog;
  }

  -- The end of `load_startup`, from the contents of the files on.
  unfoldable pub load_contents : Bytes → Bytes → Bytes → Bytes → Loading Startup
  load_contents label image profile_contents catalog_contents = do
    guard (is_utf8 profile_contents) (not_utf8 profile_input)
    guard (is_utf8 catalog_contents) (not_utf8 catalog_input)
    profile ← parse_profile profile_contents
    catalog ← parse_catalog catalog_contents
    ok (record {
      profile = profile;
      scenario_catalog = catalog;
      runtime_identity = new_identity image profile_contents catalog_contents;
      label = label;
    })

  unfoldable pub load_startup : Bytes → Bytes → Bytes → Bytes → Loading Startup
  load_startup profile_path catalog_path label image = do
    validate_text deployment_label label 128
    validate_text image_reference image 255
    profile_contents ← read_file 0 profile_path profile_input
    catalog_contents ← read_file 1 catalog_path catalog_input
    load_contents label image profile_contents catalog_contents
