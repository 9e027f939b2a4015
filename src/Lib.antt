-- ===== src/Lib.antt =====
-- A model of elba, a package manager for Idris: its dependency resolver, its package names, ids and
-- specs, its package indices, its lockfiles and its build queue.
--
-- The resolver (src/lib/resolve) works out a version for every package that the root package needs,
-- by the PubGrub algorithm: it keeps a list of assignments (versions decided on, and constraints
-- derived), a list of incompatibilities (sets of terms that no solution meets all of), and two maps
-- that sum up the assignments for each package. Its main loop alternates unit propagation and the
-- choice of the next package. A satisfied incompatibility starts conflict resolution, which derives
-- new incompatibilities and takes assignments back. The retriever (src/lib/retrieve/mod.rs) answers
-- which versions there are and what they depend on. Package names (src/lib/package/mod.rs) are a
-- group and a name; two names are equal if their normal forms are. A package id adds a resolution
-- (src/lib/remote/resolution.rs), which says where the package comes from; a spec may leave parts out.
-- The indices (src/lib/remote/index.rs) list the published versions of a package, which the retriever
-- reads through their cache. The job queue (src/lib/build/job.rs) takes the graph of the chosen
-- packages, looks layer by layer for those that are not built yet, and builds them, dependencies
-- first and several at a time. A lockfile (src/lib/package/lockfile.rs) lists the chosen packages
-- with their dependencies; the command update (src/lib/cli/build.rs) compares it with a new solution.
--
-- Files:
--   Prelude            helpers: Boolean tests, lists, the equality interface (Keys), index maps and
--                      index sets with the crate's insertion order and swap_remove (IndexMap,
--                      IndexSet), methods with state, errors and panics (Outcome), texts (Text)
--   Semver             the crates semver and semver_constraints, as a parameter
--   Retriever          what the resolver calls of the retriever, as a parameter
--   Resolve/Assignment src/lib/resolve/assignment.rs
--   Resolve/Incompat   src/lib/resolve/incompat.rs, without the texts
--   Resolve/State      struct Resolver of src/lib/resolve/mod.rs; new, register, decision,
--                      derivation, incompatibility, incompat_ixs
--   Resolve/Satisfier  satisfier, relation
--   Resolve/Propagate  propagate_incompat
--   Resolve/Backtrack  backtrack
--   Resolve/Conflict   is_failure, resolve_conflict
--   Resolve/Choose     choose_pkg_version
--   Resolve/Solve      propagate, and solve_loop up to the building of the graph
--   Resolve/Tree       the graph at the end of solve_loop; Tree/Grown, Step, Whole and Search
--                      have the theorems on it
--   Resolve/Facts, Unwind, Replay, Frames, Agree
--                      the maps against the list of assignments
--   Resolve/Preserve   a rule: what the primitive changes of the state keep, every method keeps
--   Resolve/Links, Steps
--                      invariants by that rule
--   Resolve/Sound      terms and incompatibilities as statements about a selection of versions
--   Package/Name, Checksum, PackageId, Spec
--                      the types of src/lib/package/mod.rs; Name/Forms, Name/Normal and Spec/Forms
--                      have the theorems on their texts
--   Package/Manifest   deps and into_dep of src/lib/package/manifest.rs; Manifest/Named has the theorem
--   Remote/DirectRes, IndexRes, Resolution
--                      the types of src/lib/remote/resolution.rs
--   Remote/Url         the crate url, as a parameter
--   Remote/Index       src/lib/remote/index.rs; Index/Loaded and Index/Chosen have the theorems
--   Retrieve, Retrieve/Choose, Retrieve/Incompats
--                      src/lib/retrieve/mod.rs; Retrieve/Best has the theorem on the version that is
--                      chosen, Retrieve/Incompats/Widening and Within those on the range of an
--                      incompatibility
--   Build/Target       src/lib/build/mod.rs, the targets; Target/Order and Target/Bytes have the theorems
--   Build/Job          src/lib/build/job.rs: the jobs and compile_target
--   Build/Job/Layers   JobQueue::new; Layers/Visit, Pass and Ready have the theorems on it
--   Build/Job/Queue    exec_async and complete_job; Settle, Running, Start, Await, Finish, Exec and
--                      Complete have the theorems on the steps and on the loop
--   Build/Job/Whole    the two together
--   Graph              src/lib/util/graph.rs, over the crate petgraph, which is a parameter;
--                      Graph/Building has the graphs that are made with a map of their nodes
--   Lockfile           src/lib/package/lockfile.rs; Read, Written and Kept have the theorems
--   Update             the command update of src/lib/cli/build.rs; Update/Lines has the theorem
--   Samples, Tests     a small index, runs of the program, instances of the theorems
--
-- A method that changes the resolver is a function of the state to an Outcome: a result, an error
-- (both with the new state, which outlives an error), a panic (an unwrap or an index that fails,
-- unreachable!), or a loop that has used up its fuel, with the state as it then is. Fuel bounds
-- each of the loops of propagate, resolve_conflict and solve_loop; an invariant is stated for
-- every state in which a method can stop, one out of fuel included, so no bound has to be chosen
-- for it. JobQueue::new needs at most two rounds for each package and two more, since a round
-- visits a package for the first time or is followed by one that does; exec needs one for each job
-- to build, and one more; the search for the graph of a solution one for each package, and two
-- more. The loops over a list are recursive on the list. The counters step and level are u16:
-- additions and the subtraction of backtrack are modulo 2 ^ 16, as in a release build. usize
-- indices are not bounded.
--
-- Versions, constraints and package ids are parameters, with the operations that the source calls; the
-- laws of constraints as sets of versions (Semver.SetSemantics) are hypotheses of the theorems that
-- need them, and Samples has an instance. A package id is compared by an equality that is reflexive
-- and respects itself. Characters are code points, and char::is_alphanumeric outside ASCII is a
-- parameter. A path is the text that it is made from,
-- and paths are compared by their components as on Unix (Prelude/Paths). A url is a parameter, with laws on its text
-- (Remote.Url.UrlLaws, with an instance in Samples/Urls); the lines of an index file, parsed as
-- entries, and the order of versions are parameters too. The
-- graphs of petgraph and its breadth-first walk are a parameter with laws (Graph.PetgraphLaws,
-- with an instance in Samples/Graphs).
--
-- Not modelled: logging and the terminal; the error report of the resolver; the retriever's new
-- and retrieve_packages; the cache (its calls are parameters of the retriever), the text of
-- lockfiles and manifests, retrieval from remote places, and the runs of the compiler (which are
-- parameters of the job queue), which are input and output for the greater part.
pub mod Prelude
pub mod Semver
pub mod Package
pub mod Remote
pub mod Retrieve
pub mod Retriever
pub mod Resolve
pub mod Build
pub mod Graph
pub mod Lockfile
pub mod Update
mod Samples
mod Tests
