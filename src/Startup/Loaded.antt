-- ===== src/Startup/Loaded.antt =====
-- What a process that src/startup.rs has loaded is made of.
use c37_118_simulator.Prelude.{
  ℕ, ◌≤◌, ◌≡◌, refl, ap, subst, Bool, true, false, Option, none, some, length, All, arith,
}
use c37_118_simulator.Prelude.Text.{Bytes, any, is_ascii_control}
use c37_118_simulator.Scenario.Types.{ScenarioCatalog}
use c37_118_simulator.Scenario.Catalog as Catalog
use c37_118_simulator.Scenario.Catalog.{CatalogResult, RawScenarioCatalog, compile_catalog}
use c37_118_simulator.Scenario.Catalog.Compiled.{IsCompiled, Distinct, compile_catalog_lem}
use c37_118_simulator.Config as Config
use c37_118_simulator.Config.{Profile, Configured}
use c37_118_simulator.Config.Compile.{CompiledProfile, compile_profile}
use c37_118_simulator.Config.Ranges.{Compiled, compile_profile-Compiled}
use c37_118_simulator.Startup.{
  Libraries, Input, StartupError, Loading, ok, err, panicked, ◌>>=◌, guard, ok_or, deployment_label,
  image_reference, profile_input, catalog_input, not_utf8, Startup, is_utf8, validate_text,
  read_file, profile_result, parse_profile, catalog_result, parse_catalog, load_contents,
  load_startup,
}

-- The value that a first step hands on to the second, where both succeed.
record Passed {A B : Type 0} (first : Loading A) (second : A → Loading B) (last : B) : Type 0 where
  value : A
  first_ok : first ≡ ok value
  second_ok : second value ≡ ok last

>>=-Passed :
    {A B : Type 0} {last : B} (first : Loading A) (second : A → Loading B)
    → (first >>= second) ≡ ok last
    → Passed first second last
>>=-Passed (ok found) second same = record { value = found; first_ok = refl; second_ok = same }
>>=-Passed (err reason) second same = absurd (ground (arith, same))
>>=-Passed panicked second same = absurd (ground (arith, same))

ok_or-some : {A : Type 0} (o : Option A) (e : StartupError) (a : A) → ok_or o e ≡ ok a → o ≡ some a
ok_or-some none e a h = absurd cc
ok_or-some (some b) e a h = cc

guard-true : (b : Bool) (e : StartupError) (u : Unit {0}) → guard b e ≡ ok u → b ≡ true
guard-true true e u h = refl
guard-true false e u h = absurd cc

-- A text of 1 to `most` bytes, none of which is a control character.
pub record IsText (most : ℕ) (t : Bytes) : Type 0 where
  pub sized : (1 ≤ length t) × (length t ≤ most)
  pub printed : any is_ascii_control t ≡ false

validate_text-IsText :
    (name : Input) (t : Bytes) (most : ℕ) (u : Unit {0})
    → validate_text name t most ≡ ok u
    → IsText most t
unfolding validate_text
validate_text-IsText name t most u h = record {
  sized = ground (arith, h);
  printed = ground (arith, h);
}

-- A compiled profile that the contents of a file describe.
pub record ProfileOf (lib : Libraries) (contents : Bytes) (c : CompiledProfile) : Type 0 where
  pub source : Profile
  pub described : lib.profile_from_str contents ≡ some source
  pub compiled : Compiled source c

-- A compiled catalog that the contents of a file describe.
pub record CatalogOf (lib : Libraries) (contents : Bytes) (c : ScenarioCatalog) : Type 0 where
  pub raw : RawScenarioCatalog
  pub listed : lib.catalog_from_str contents ≡ some raw
  pub complete : length c.scenarios ≡ length raw.scenarios
  pub all_compiled : All IsCompiled c.scenarios
  pub distinct : Distinct c.scenarios

profile_result-ok :
    (lib : Libraries) (r : Configured CompiledProfile) (c : CompiledProfile)
    → profile_result lib r ≡ ok c
    → r ≡ Config.ok c
profile_result-ok lib (Config.ok p) c h = ap Config.ok (ok_inj h)
  where
    ok_inj : {a b : CompiledProfile} → Loading.ok a ≡ Loading.ok b → a ≡ b
    ok_inj h = cc
profile_result-ok lib (Config.err e) c h = absurd cc
profile_result-ok lib Config.panicked c h = absurd cc

catalog_result-ok :
    (lib : Libraries) (r : CatalogResult ScenarioCatalog) (c : ScenarioCatalog)
    → catalog_result lib r ≡ ok c
    → r ≡ Catalog.ok c
catalog_result-ok lib (Catalog.ok p) c h = ap Catalog.ok (ok_inj h)
  where
    ok_inj : {a b : ScenarioCatalog} → Loading.ok a ≡ Loading.ok b → a ≡ b
    ok_inj h = cc
catalog_result-ok lib (Catalog.err e) c h = absurd cc

parse_profile-ProfileOf :
    (lib : Libraries) (contents : Bytes) (c : CompiledProfile)
    → parse_profile lib contents ≡ ok c
    → ProfileOf lib contents c
parse_profile-ProfileOf lib contents c h =
    let read = >>=-Passed (ok_or (lib.profile_from_str contents) _) _ h in
    record {
      source = read.value;
      described = ok_or-some (lib.profile_from_str contents) _ read.value read.first_ok;
      compiled =
          compile_profile-Compiled lib.floats read.value c
            (profile_result-ok lib (compile_profile lib.floats read.value) c read.second_ok);
    }

parse_catalog-CatalogOf :
    (lib : Libraries) (contents : Bytes) (c : ScenarioCatalog)
    → parse_catalog lib contents ≡ ok c
    → CatalogOf lib contents c
parse_catalog-CatalogOf lib contents c h =
    let read = >>=-Passed (ok_or (lib.catalog_from_str contents) _) _ h in
    let (version, same, some_left, few, all, distinct) =
      compile_catalog_lem read.value c
        (catalog_result-ok lib (compile_catalog read.value) c read.second_ok) in
    record {
      raw = read.value;
      listed = ok_or-some (lib.catalog_from_str contents) _ read.value read.first_ok;
      complete = same;
      all_compiled = all;
      distinct = distinct;
    }

-- What the contents of the two files have become.
pub record Contents (lib : Libraries) (label image profile catalog : Bytes) (s : Startup)
    : Type 0 where
  pub encoded : (is_utf8 profile ≡ true) × (is_utf8 catalog ≡ true)
  pub of_profile : ProfileOf lib profile s.profile
  pub of_catalog : CatalogOf lib catalog s.scenario_catalog
  pub image_kept : s.runtime_identity.image_ref ≡ image
  pub profile_digest : s.runtime_identity.profile_sha256 ≡ lib.hex_digest profile
  pub catalog_digest : s.runtime_identity.scenario_catalog_sha256 ≡ lib.hex_digest catalog
  pub labelled : s.label ≡ label

load_contents-Contents :
    (lib : Libraries) (label image profile catalog : Bytes) (s : Startup)
    → load_contents lib label image profile catalog ≡ ok s
    → Contents lib label image profile catalog s
unfolding load_contents
load_contents-Contents lib label image profile catalog s h =
    let first = >>=-Passed (guard (is_utf8 profile) (not_utf8 profile_input)) _ h in
    let second = >>=-Passed (guard (is_utf8 catalog) (not_utf8 catalog_input)) _ first.second_ok in
    let third = >>=-Passed (parse_profile lib profile) _ second.second_ok in
    let fourth = >>=-Passed (parse_catalog lib catalog) _ third.second_ok in
    let made : _ ≡ s = ok_inj fourth.second_ok in
    subst (Contents lib label image profile catalog) made (record {
      encoded = (
        guard-true (is_utf8 profile) _ first.value first.first_ok,
        guard-true (is_utf8 catalog) _ second.value second.first_ok,
      );
      of_profile = parse_profile-ProfileOf lib profile third.value third.first_ok;
      of_catalog = parse_catalog-CatalogOf lib catalog fourth.value fourth.first_ok;
      image_kept = refl;
      profile_digest = refl;
      catalog_digest = refl;
      labelled = refl;
    })
  where
    ok_inj : {a b : Startup} → Loading.ok a ≡ Loading.ok b → a ≡ b
    ok_inj h = cc

-- What a process that starts was given, and what it has made of it.
pub record Started (lib : Libraries) (profile_path catalog_path label image : Bytes) (s : Startup)
    : Type 0 where
  pub label_text : IsText 128 label
  pub image_text : IsText 255 image
  pub profile_contents : Bytes
  pub catalog_contents : Bytes
  pub profile_read : lib.read 0 profile_path ≡ some profile_contents
  pub catalog_read : lib.read 1 catalog_path ≡ some catalog_contents
  pub contents : Contents lib label image profile_contents catalog_contents s

-- Where the process starts, its label and its image reference are texts of at most 128 and 255 bytes
-- without control characters, and both files were there, in UTF-8. Its profile and its catalog are
-- compiled from what those files describe, with the bounds and the distinct names that compilation
-- assures, and its identity has the digests of the very contents that were compiled.
pub load_startup-Started :
    (lib : Libraries) (profile_path catalog_path label image : Bytes) (s : Startup)
    → load_startup lib profile_path catalog_path label image ≡ ok s
    → Started lib profile_path catalog_path label image s
unfolding load_startup
load_startup-Started lib profile_path catalog_path label image s h =
    let first = >>=-Passed (validate_text deployment_label label 128) _ h in
    let second = >>=-Passed (validate_text image_reference image 255) _ first.second_ok in
    let third = >>=-Passed (read_file lib 0 profile_path profile_input) _ second.second_ok in
    let fourth = >>=-Passed (read_file lib 1 catalog_path catalog_input) _ third.second_ok in
    record {
      label_text = validate_text-IsText deployment_label label 128 first.value first.first_ok;
      image_text = validate_text-IsText image_reference image 255 second.value second.first_ok;
      profile_contents = third.value;
      catalog_contents = fourth.value;
      profile_read = ok_or-some (lib.read 0 profile_path) _ third.value third.first_ok;
      catalog_read = ok_or-some (lib.read 1 catalog_path) _ fourth.value fourth.first_ok;
      contents = load_contents-Contents lib label image third.value fourth.value s fourth.second_ok;
    }
