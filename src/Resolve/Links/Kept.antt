-- ===== src/Resolve/Links/Kept.antt =====
-- Every method keeps the links.
use elba.Prelude.{
  ℕ, some, List, [], ◌∷◌, ◌++◌, ◌≡◌, refl, Eq, arith, reverse, sym, subst, length, get_elem?, All,
  All-append, All-append_left, All-map_of,
}
use elba.Prelude.IndexMap.{IndexMap}
use elba.Prelude.Outcome.{Keeps}
use elba.Semver.{Semver}
use elba.Retriever.{Retriever}
use elba.Resolve.Assignment.{Assignment, AssignmentType}
use elba.Resolve.Backtrack.{Unwound, unwind, rewound}
use elba.Resolve.Frames.{Rest, rest, rest-register, rest-rewound}
use elba.Resolve.Incompat.{Incompatibility}
use elba.Resolve.Links.{
  Caused, Caused-mono, Sourced, Sourced-snoc, Mentions, Mentions-mono, Indexed, index_terms-Indexed,
  keys_found,
}
use elba.Resolve.Preserve.{Preserved, Supplies, IsSourced}
use elba.Resolve.Preserve.Solve.{decide_all-Keeps}
use elba.Resolve.Replay.{kept_prefix}
use elba.Resolve.Solve.{decide_all}
use elba.Resolve.State.{Resolver, decision, derivation, register, new, index_terms, u16_add_one}

module _ {P V C : Type 0} ⦃e : Eq P⦄ (sv : Semver V C) where
  abbrev pub AllCaused : List (Incompatibility P C) → List (Assignment P V C) → Type 0
  AllCaused ics given = All (λ a. Caused sv ics a.pkg a.ty) given

  abbrev LinkedParts :
      List (Assignment P V C) → List (Incompatibility P C) → IndexMap P (List ℕ) → Type 0
  LinkedParts given ics ixs = AllCaused ics given × Sourced 0 ics × Indexed ics ixs

module _ {P V C R : Type 0} ⦃e : Eq P⦄ (sv : Semver V C) where
  -- The three kinds of links hold.
  abbrev pub IsLinked : Resolver P V C R → Type 0
  IsLinked s = LinkedParts sv s.assignments s.incompats s.incompat_ixs

  -- The links stand in the fields that registering leaves alone.
  IsLinked-by_rest : (s t : Resolver P V C R) → rest t ≡ rest s → IsLinked s → IsLinked t
  IsLinked-by_rest s t e =
      subst (λ (r : Rest P V C R). LinkedParts sv r.assignments r.incompats r.incompat_ixs) (sym e)

  learn-IsLinked :
      (ic : Incompatibility P C) (s : Resolver P V C R)
      → IsSourced (length s.incompats) ic.cause
      → IsLinked s
      → IsLinked (record s { incompats = s.incompats ++ ic ∷ [] })
  learn-IsLinked ic s sourced h = (
    All-map_of _ _ (λ a. Caused-mono sv s.incompats (ic ∷ []) a.pkg a.ty) s.assignments h.0,
    Sourced-snoc 0 (length s.incompats) s.incompats ic (omega arith) sourced h.1,
    All-map_of _ _ (λ (p, l). All-map_of _ _ (λ ix. Mentions-mono s.incompats (ic ∷ []) p ix) l)
        s.incompat_ixs h.2,
  )

  index-IsLinked :
      (icix : ℕ) (ic : Incompatibility P C) (s : Resolver P V C R)
      → get_elem? s.incompats icix ≡ some ic
      → IsLinked s
      → IsLinked (record s { incompat_ixs = index_terms icix ic.deps s.incompat_ixs })
  index-IsLinked icix ic s known h = (
    h.0,
    h.1,
    index_terms-Indexed s.incompats icix ic.deps s.incompat_ixs
        (keys_found (λ p. Mentions s.incompats p icix) ic.deps ic.deps (λ p has. (ic, known, has))
          (λ p has. has))
        h.2,
  )

  assign-IsLinked :
      (a : Assignment P V C) (s t : Resolver P V C R)
      → t.assignments ≡ (register sv a s).assignments ++ a ∷ []
      → t.incompats ≡ (register sv a s).incompats
      → t.incompat_ixs ≡ (register sv a s).incompat_ixs
      → Caused sv s.incompats a.pkg a.ty
      → IsLinked s
      → IsLinked t
  assign-IsLinked a s t l i x caused h =
      let same = rest-register sv a s in
      rw (l, i, x)
        (subst
          (λ (r : Rest P V C R).
            LinkedParts sv (r.assignments ++ a ∷ []) r.incompats r.incompat_ixs)
          (sym same) (All-append _ s.assignments (a ∷ []) h.0 (caused, tt), h.1, h.2))

  rewound-IsLinked :
      (to : ℕ) (u : Unwound P V C) (s : Resolver P V C R)
      → unwind to s.step [] (reverse s.assignments) ≡ some u
      → IsLinked s
      → IsLinked (rewound sv to u s)
  rewound-IsLinked to u s e h =
      let (popped, split) = kept_prefix to s.step s.assignments u e in
      IsLinked-by_rest (record s { level = to; step = u.step; assignments = reverse u.stack })
        (rewound sv to u s) (rest-rewound sv to u s)
        (
          All-append_left _ (reverse u.stack) popped (subst (AllCaused sv s.incompats) split h.0),
          h.1,
          h.2,
        )

  IsLinked-Preserved : Preserved sv IsLinked
  unfolding decision derivation
  IsLinked-Preserved = record {
    on_decision = λ pkg version s.
        assign-IsLinked
          (record {
            step = s.step;
            level = u16_add_one s.level;
            ty = AssignmentType.decision version;
            pkg = pkg;
          })
          (record s { level = u16_add_one s.level }) (decision sv pkg version s) refl refl refl tt;
    on_derivation = λ icix inc u s known term.
        assign-IsLinked
          (record {
            step = s.step;
            level = s.level;
            ty = AssignmentType.derivation (sv.complement u.con) icix u.positive;
            pkg = u.pkg;
          })
          s (derivation sv u.pkg (sv.complement u.con) icix u.positive s) refl refl refl
          (inc, u.con, known, term, refl);
    on_backtrack = rewound-IsLinked;
    on_learn = learn-IsLinked;
    on_index = index-IsLinked;
    on_retriever = λ r s h. h;
  }

  -- Wherever the main loop stops: a derivation says the complement of a term of the incompatibility
  -- that it names as its cause, a derived incompatibility comes behind its two causes, and an
  -- incompatibility is listed only for packages that it has a term for.
  pub decide_all-IsLinked :
      (ret : Retriever P V C R) (fuel : ℕ) (r : R)
      → Supplies ret
      → Keeps IsLinked (decide_all sv ret fuel (new r))
  unfolding new
  decide_all-IsLinked ret fuel r supplied =
      decide_all-Keeps sv ret IsLinked IsLinked-Preserved supplied fuel (new r) (tt, tt, tt)
