-- ===== src/Startup/Tests.antt =====
-- The start of src/startup.rs from two small files.
use c37_118_simulator.Prelude.{◌≡◌, refl, some, if◌then◌else◌, ◌==◌, ◌++◌, [], ◌∷◌}
use c37_118_simulator.Prelude.Text.{codes}
use c37_118_simulator.Scenario.Tests.{raw_catalog, catalog, raw_catalog_compiles}
use c37_118_simulator.Config.Tests.{whole_numbers, profile, one_endpoint, profile_compiles}
use c37_118_simulator.Startup.{
  Libraries, Startup, ok, is_utf8, validate_text, load_contents, load_startup,
}
use c37_118_simulator.Startup.Loaded.{Started, load_startup-Started}

-- Each text is read as the same profile and the same catalog, and is its own digest.
abbrev two_files : Libraries
two_files = record {
  floats = whole_numbers;
  read = λ turn path.
      if turn == 0 then some (codes "seed: 7") else some (codes "version: 1 # " ++ 195 ∷ 169 ∷ []);
  profile_from_str = λ contents. some profile;
  catalog_from_str = λ contents. some raw_catalog;
  hex_digest = λ contents. contents;
}

abbrev loaded : Startup
loaded = record {
  profile = one_endpoint;
  scenario_catalog = catalog;
  runtime_identity = record {
    image_ref = codes "local-build";
    profile_sha256 = codes "seed: 7";
    scenario_catalog_sha256 = (codes "version: 1 # " ++ 195 ∷ 169 ∷ []);
  };
  label = codes "lab";
}

two_files_load :
    load_startup two_files
      (codes "profile.yaml")
      (codes "catalog.yaml")
      (codes "lab")
      (codes "local-build")
    ≡ ok loaded
unfolding load_startup load_contents validate_text is_utf8
two_files_load = rw (profile_compiles, raw_catalog_compiles) refl

load_startup-Started_example :
    Started two_files
      (codes "profile.yaml")
      (codes "catalog.yaml")
      (codes "lab")
      (codes "local-build")
      loaded
load_startup-Started_example =
    load_startup-Started two_files (codes "profile.yaml") (codes "catalog.yaml") (codes "lab")
      (codes "local-build") loaded two_files_load
