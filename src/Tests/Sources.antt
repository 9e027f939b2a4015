-- ===== src/Tests/Sources.antt =====
-- Instances of the theorems on package ids, specs and indices, and runs of them.
use elba.Prelude.{Bool, true, false, ◌&&◌, none, some, [], ◌∷◌, ◌≡◌, refl, some_inj, subst}
use elba.Prelude.IndexMap.{IndexMap, insert}
use elba.Prelude.Outcome.{ok, err, ambiguous_spec}
use elba.Prelude.Text.{codes, Lacks, text_eqb}
use elba.Package.Name.{
  Unicode, Name, ascii_alphanumeric, new, normalize_char, name_eqb, normalized_group,
  normalized_name,
}
use elba.Package.Name.Normal.{name_eqb-normalized}
use elba.Package.PackageId.{PackageId}
use elba.Package.Spec.{Spec, matches}
use elba.Package.Spec.Forms.{IsReadableSpec}
use elba.Package
use elba.Remote.DirectRes.{DirectRes, git, dir, tar, git_readable, dir_readable, direct_eqb}
use elba.Remote.Index.{Index, RawEntry, Indices, entries, select_by_spec}
use elba.Remote.Index.Chosen.{matches-select_by_spec}
use elba.Remote.Index.Loaded.{Answers, entries-Answers}
use elba.Remote.IndexRes.{IndexRes}
use elba.Remote.Resolution.{Resolution, direct_res, index_res, IsReadableRes}
use elba.Remote
use elba.Resolve.Incompat.{Summary}
use elba.Samples.{masks, mask, Ver, v1, v2, Mask}
use elba.Prelude.{◌++◌}
use elba.Prelude.Text.{Text, split}
use elba.Prelude.Paths.{components}
use elba.Package.Manifest.{Manifest, registry, local_dep, deps}
use elba.Package.Manifest.Named.{Added, asked, deps-Asked}
use elba.Samples.Graphs.{Net, nets}
use elba.Update.{update_lines, old_lines, new_lines, removing, adding}
use elba.Update.Lines.{added, removed, added-update_lines}
use elba.Samples.Urls.{
  Url, home, crate, laws, IsPlain, url_eq, ver_eq, before, before-IsOrder, versions,
}

abbrev ascii : Unicode
ascii = record { is_alphanumeric = ascii_alphanumeric; on_ascii = λ c h. refl }

-- `Some_lib/core`, and the same in another spelling.
abbrev pub lib : Name
lib = record {
  serialization = codes "Some_lib/core";
  normalization = codes "some-lib/core";
  group = codes "Some_lib";
  name = codes "core";
}

abbrev pub spelled : Name
spelled = record {
  serialization = codes "some-lib/Core";
  normalization = codes "some-lib/core";
  group = codes "some-lib";
  name = codes "Core";
}

lib_made : new ascii lib.group lib.name ≡ ok lib
unfolding new normalize_char
lib_made = refl

spelled_made : new ascii spelled.group spelled.name ≡ ok spelled
unfolding new normalize_char
spelled_made = refl

name_eqb-normalized_example : name_eqb lib spelled ≡ (
    text_eqb (normalized_group lib) (normalized_group spelled)
    && text_eqb (normalized_name lib) (normalized_name spelled))
name_eqb-normalized_example =
    name_eqb-normalized ascii lib spelled (lib.group, lib.name, lib_made)
      (spelled.group, spelled.name, spelled_made)

-- `Some_lib/core@git+https://a.b#v1`
abbrev tagged : Resolution Url
tagged = direct_res (git (record { site = home; fragment = none }) (codes "v1"))

abbrev lib_id : PackageId Url
lib_id = record { name = lib; resolution = tagged }

from_str-package_text_example :
    Package.PackageId.from_str ascii crate (Package.PackageId.to_text ascii crate lib_id)
    ≡ ok lib_id
from_str-package_text_example =
    Package.PackageId.from_str-package_text ascii crate laws lib_id (lib.group, lib.name, lib_made)
      (git_readable refl tt)

abbrev wanted : Spec Url Ver
wanted = record { name = lib; resolution = some tagged; version = some v2 }

wanted-IsReadableSpec : IsReadableSpec crate versions ascii laws wanted
unfolding Remote.Resolution.to_text Remote.DirectRes.to_text versions text_eqb
wanted-IsReadableSpec = record {
  made = (lib.group, lib.name, lib_made);
  resolution_readable =
      λ r h. subst (IsReadableRes crate IsPlain) (some_inj h) (git_readable refl tt);
  no_bar = λ r h. subst (λ x. Lacks b'|' (Remote.Resolution.to_text crate x)) (some_inj h) refl;
  version_readable =
      λ v h. subst (λ x. versions.parse (versions.show x) ≡ some x) (some_inj h) refl;
}

from_str-spec_text_example :
    Package.Spec.from_str crate versions ascii (Package.Spec.to_text crate versions wanted)
    ≡ ok wanted
from_str-spec_text_example =
    Package.Spec.Forms.from_str-spec_text crate versions ascii laws wanted wanted-IsReadableSpec

-- An index with two versions of the package, the newer one first and the newest one yanked.
abbrev pub index_at : IndexRes Url
index_at = record { res = dir (codes "/ix") }

abbrev published : Ver → Bool → RawEntry Url Ver Mask
published ver yanked = record {
  name = lib;
  version = ver;
  dependencies = [];
  yanked = yanked;
  location = some (dir (codes "/lib"));
}

abbrev local_index : Index Url Ver Mask
local_index = record {
  id = index_at;
  dependencies = [];
  lines = λ n. some (ok (published v2 true) ∷ ok (published v1 false) ∷ []);
}

abbrev all_indices : Indices Url Ver Mask
all_indices = record { indices = (index_at, local_index) ∷ []; cache = [] }

abbrev indexed : PackageId Url
indexed = record { name = lib; resolution = index_res index_at }

entries-Answers_example : Answers before indexed (entries before indexed all_indices)
entries-Answers_example = entries-Answers before before-IsOrder indexed all_indices tt

abbrev any_version : Spec Url Ver
any_version = record { name = lib; resolution = none; version = none }

abbrev chosen : Summary (PackageId Url) Ver
chosen = record { id = indexed; version = v1 }

is_chosen : select_by_spec all_indices any_version ≡ ok chosen
unfolding select_by_spec insert
is_chosen = refl

matches-select_by_spec_example : matches any_version chosen ≡ true
matches-select_by_spec_example = matches-select_by_spec all_indices any_version chosen is_chosen

-- A spec that two indices have something for is ambiguous.
abbrev two_indices : Indices Url Ver Mask
two_indices = record {
  indices = (index_at, local_index) ∷ (record { res = dir (codes "/jx") }, local_index) ∷ [];
  cache = [];
}

both_match : select_by_spec two_indices any_version ≡ err ambiguous_spec
unfolding select_by_spec insert
both_match = refl

-- Separators at the end or twice do not count in the comparison of directories.
abbrev directory : Text → DirectRes Url
directory p = dir p

same_directory : direct_eqb (directory (codes "/a//b/./")) (directory (codes "/a/b")) ≡ true
unfolding direct_eqb components split
same_directory = refl

other_directory : direct_eqb (directory (codes "./a")) (directory (codes "/a")) ≡ false
unfolding direct_eqb components split
other_directory = refl

abbrev newer : Summary (PackageId Url) Ver
newer = record { id = indexed; version = v2 }

abbrev newer_net : Net (Summary (PackageId Url) Ver)
newer_net = record { nodes = newer ∷ []; edges = [] }

-- A package that is only in the new solution is not reported; one that is only in the old lockfile is
-- reported as removed and as added.
nothing_added : update_lines nets newer_net [] ≡ []
unfolding update_lines old_lines new_lines
nothing_added = refl

removed_and_added :
    update_lines nets (record { nodes = []; edges = [] }) (chosen ∷ [])
    ≡ removing chosen ∷ adding chosen ∷ []
unfolding update_lines old_lines new_lines
removed_and_added = refl

added-update_lines_example :
    added (update_lines nets newer_net (chosen ∷ []))
    ≡ removed (update_lines nets newer_net (chosen ∷ []))
added-update_lines_example = added-update_lines nets newer_net (chosen ∷ [])

-- A dependency of the default index, and one in a directory, of a package that is in a directory.
abbrev sample_manifest : Manifest Url Mask
sample_manifest = record {
  dependencies = (lib, registry (mask true true)) ∷ [];
  dev_dependencies = (spelled, local_dep (codes "test")) ∷ [];
}

abbrev in_directory : PackageId Url
in_directory = record { name = lib; resolution = direct_res (dir (codes "/p")) }

abbrev sample_join : Text → Text → Text
sample_join a b = a ++ codes "/" ++ b

abbrev sample_ixmap : IndexMap Text (IndexRes Url)
sample_ixmap = (codes "default", index_at) ∷ []

deps-Asked_example :
    Added masks crate sample_join sample_ixmap in_directory
      (asked sample_manifest true)
      []
      (deps masks crate sample_join sample_ixmap in_directory sample_manifest true)
deps-Asked_example =
    deps-Asked masks crate sample_join sample_ixmap in_directory sample_manifest true
