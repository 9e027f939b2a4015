-- ===== src/Package/Manifest.antt =====
-- package/manifest.rs: what the dependencies of a manifest are.
pub mod Named
use elba.Prelude.{
  Bool, true, false, Option, none, some, List, [], ◌∷◌, get_elem?, Eq, if◌then◌else◌,
}
use elba.Prelude.IndexMap.{IndexMap, get, insert}
use elba.Prelude.Outcome.{Result, ok, err, and_ok, or_error, no_default_index, parent_not_local}
use elba.Prelude.Text.{Text, text_eq}
use elba.Package.Name.{Name, name_eq}
use elba.Package.PackageId.{PackageId, package_eq}
use elba.Remote.DirectRes.{DirectRes, git, dir}
use elba.Remote.IndexRes.{IndexRes}
use elba.Remote.Resolution.{Resolution, direct_res, index_res}
use elba.Remote.Url.{UrlCrate}
use elba.Remote
use elba.Semver.{Semver}

pub data DepReq (Url C : Type 0) : Type 0 where
  registry : (c : C) → DepReq Url C
  reg_long : (version : C) (index : Text) → DepReq Url C
  local_dep : (path : Text) → DepReq Url C
  git_dep : (repo : Url) (tag : Text) → DepReq Url C

-- The fields of `Manifest` that `deps` reads.
pub record Manifest (Url C : Type 0) : Type 0 where
  pub dependencies : List (Name × DepReq Url C)
  pub dev_dependencies : List (Name × DepReq Url C)

module _ {Url : Type 0} where
  abbrev pub mapped_index : UrlCrate Url → Text → Option (IndexRes Url) → Result (IndexRes Url)
  mapped_index crate index (some mapped) = ok mapped
  mapped_index crate index none = Remote.IndexRes.from_str crate index

  -- The directory of a parent that is one.
  abbrev pub parent_root : Resolution Url → Option Text
  parent_root (direct_res (dir path)) = some path
  parent_root _ = none

-- `join` is `Path::join` of the standard library.
module _ {Url V C : Type 0} ⦃e : Eq Url⦄ (sv : Semver V C) (crate : UrlCrate Url)
    (join : Text → Text → Text) (ixmap : IndexMap Text (IndexRes Url))
    (parent_pkg : PackageId Url) where
  abbrev of_index : Name → C → IndexRes Url → PackageId Url × C
  of_index n c ix = (record { name = n; resolution = index_res ix }, c)

  unfoldable pub into_dep : DepReq Url C → Name → Result (PackageId Url × C)
  into_dep (registry c) n =
      and_ok (or_error no_default_index (get_elem? ixmap 0))
        λ def_index. ok (of_index n c def_index.1)
  into_dep (reg_long version index) n =
      and_ok (mapped_index crate index (get index ixmap)) λ ix. ok (of_index n version ix)
  into_dep (local_dep path) n =
      and_ok (or_error parent_not_local (parent_root parent_pkg.resolution))
        λ root. ok (record { name = n; resolution = direct_res (dir (join root path)) }, sv.any)
  into_dep (git_dep repo tag) n =
      ok (record { name = n; resolution = direct_res (git repo tag) }, sv.any)

  -- One of the loops of `deps`.
  unfoldable pub add_dependencies :
      List (Name × DepReq Url C) → IndexMap (PackageId Url) C → Result (IndexMap (PackageId Url) C)
  unfolding into_dep insert
  add_dependencies [] deps = ok deps
  add_dependencies ((n, dep) ∷ rest) deps =
      and_ok (into_dep dep n) λ (pid, c). add_dependencies rest (insert pid c deps)

  unfoldable pub deps : Manifest Url C → Bool → Result (IndexMap (PackageId Url) C)
  unfolding add_dependencies
  deps m dev_deps =
      and_ok (add_dependencies m.dependencies [])
        λ found. if dev_deps then add_dependencies m.dev_dependencies found else ok found
