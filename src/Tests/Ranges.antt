-- ===== src/Tests/Ranges.antt =====
-- Instances of the theorems on the version that is chosen and on the range of an incompatibility.
use elba.Prelude.{
  true, false, arith, Option, none, some, [], ◌∷◌, ◌++◌, ◌≡◌, refl, some_inj, subst, sym,
}
use elba.Prelude.Outcome.{ok}
use elba.Prelude.Text.{codes, text_eqb}
use elba.Remote.DirectRes.{dir}
use elba.Remote.Index.{Dep, Entries, ResolvedEntry}
use elba.Remote.IndexRes.{IndexRes}
use elba.Remote
use elba.Retrieve.Choose.{pick}
use elba.Retrieve.Best.{IsBest, with_entries, pick-IsBest}
use elba.Retrieve.Incompats.{Place, Ranges, find_place, span, widen}
use elba.Retrieve.Incompats.Widening.{Reaches, covered, widen-Reaches}
use elba.Retrieve.Incompats.Within.{RangeLaws, span-covered}
use elba.Samples.{masks, mask, holds, Ver, v1, v2, Mask}
use elba.Samples.Urls.{Url, url_eq, ver_eq, before}
use elba.Tests.Sources.{lib, spelled, index_at}

-- A dependency on any version, and an older entry that asks for version 1 of the same package.
abbrev on_any : Dep (IndexRes Url) Mask
on_any = record { name = lib; index = index_at; req = mask true true }

abbrev older_entry : ResolvedEntry Url Ver Mask
older_entry = record {
  name = spelled;
  version = v1;
  dependencies = record { name = spelled; index = index_at; req = mask true false } ∷ [];
  yanked = false;
  location = dir (codes "/old");
}

abbrev older : Entries Url Ver Mask
older = (v1, older_entry) ∷ []

-- Both versions, the older one first; the newer one is yanked, and depends on nothing.
abbrev both : Entries Url Ver Mask
both =
    older
    ++ (
      v2,
      record {
        name = spelled;
        version = v2;
        dependencies = [];
        yanked = true;
        location = dir (codes "/new");
      },
    )
      ∷ []

never_before : (x : Ver) → before x x ≡ false
never_before v1 = refl
never_before v2 = refl

yanked_picked : pick masks (mask true true) false both ≡ ok v2
unfolding pick
yanked_picked = refl

pick-IsBest_example :
    IsBest masks before (mask true true) both v2
    × ((f : ResolvedEntry Url Ver Mask → ResolvedEntry Url Ver Mask)
        → pick masks (mask true true) false (with_entries f both) ≡ ok v2)
pick-IsBest_example =
    pick-IsBest masks before never_before (mask true true) both v2 ((refl, tt), (tt, tt))
      yanked_picked

widen-Reaches_example : Reaches masks on_any v2 both (widen masks on_any v2 both)
widen-Reaches_example = widen-Reaches masks on_any v2 both

-- The bound is moved to the older version, and the entry without the dependency ends the run.
stopped : widen masks on_any v2 both ≡ (v1, false)
unfolding widen text_eqb Remote.DirectRes.direct_eqb
stopped = refl

widened : widen masks on_any v2 older ≡ (v1, true)
unfolding widen text_eqb Remote.DirectRes.direct_eqb
widened = refl

-- Ranges of the two versions.
abbrev closed_mask : Ver → Ver → Option Mask
closed_mask v1 v1 = some (mask true false)
closed_mask v1 v2 = some (mask true true)
closed_mask v2 v1 = none
closed_mask v2 v2 = some (mask false true)

abbrev mask_ranges : Ranges Ver Mask
mask_ranges = record { closed = closed_mask; unbounded = mask true true }

mask_ranges-RangeLaws : RangeLaws masks mask_ranges before
mask_ranges-RangeLaws = record { above = above; below = below; itself = λ c. ground arith }
  where
    above :
        (l u x : Ver) (c : Mask) → closed_mask l u ≡ some c → holds c x ≡ true → before x l ≡ false
    above v1 u v1 c h s = refl
    above v1 u v2 c h s = refl
    above v2 v1 x c h s = cc
    above v2 v2 v1 c h s =
        absurd (ground (arith, subst (λ d. holds d v1 ≡ true) (sym (some_inj h)) s))
    above v2 v2 v2 c h s = refl

    below :
        (l u x : Ver) (c : Mask) → closed_mask l u ≡ some c → holds c x ≡ true → before u x ≡ false
    below l v2 v1 c h s = refl
    below l v2 v2 c h s = refl
    below v2 v1 x c h s = cc
    below v1 v1 v2 c h s =
        absurd (ground (arith, subst (λ d. holds d v2 ≡ true) (sym (some_inj h)) s))
    below v1 v1 v1 c h s = refl

-- The newer version has the dependency too.
abbrev newer_entry : ResolvedEntry Url Ver Mask
newer_entry = record {
  name = spelled;
  version = v2;
  dependencies = on_any ∷ [];
  yanked = false;
  location = dir (codes "/new");
}

abbrev at_newer : Place Url Ver Mask
at_newer = record { earlier = older; version = v2; entry = newer_entry; later = [] }

found_newer : find_place v2 [] (older ++ (v2, newer_entry) ∷ []) ≡ some at_newer
unfolding find_place
found_newer = refl

spanned : span masks mask_ranges at_newer on_any ≡ some (mask true true)
unfolding span text_eqb Remote.DirectRes.direct_eqb
spanned = refl

span-covered_example : covered masks on_any older_entry.dependencies ≡ true
span-covered_example =
    span-covered masks mask_ranges before mask_ranges-RangeLaws on_any v2 at_newer (mask true true)
      [] ((v2, newer_entry) ∷ []) v1 older_entry ((refl, tt), (tt, tt)) found_newer [] [] refl
      spanned refl

-- The entry without the dependency is left out of the range.
spanned_part :
    span masks mask_ranges
      (record {
        earlier = [];
        version = v1;
        entry = older_entry;
        later = (v2, record newer_entry { dependencies = [] }) ∷ [];
      })
      (record { name = spelled; index = index_at; req = mask true false })
    ≡ some (mask true false)
unfolding span text_eqb Remote.DirectRes.direct_eqb
spanned_part = refl
