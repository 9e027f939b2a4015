-- ===== src/Samples/Graphs.antt =====
-- Graphs as lists of weights and of edges: an instance of what is asked of the crate petgraph.
use elba.Prelude.{
  ℕ, zero, suc, ◌&&◌, ◌||◌, none, some, List, [], ◌∷◌, ◌++◌, ◌≡◌, refl, ap, ◌∙◌, inl, inr, arith,
  length, get_elem?, eqb, Bool-cases, if◌then◌else◌,
}
use elba.Prelude.Members.{contains, from_to}
use elba.Graph.{Petgraph, PetgraphLaws}

pub record Net (T : Type 0) : Type 0 where
  pub nodes : List T
  pub edges : List (ℕ × ℕ)

abbrev pub ends_of : ℕ → List (ℕ × ℕ) → List ℕ
ends_of p [] = []
ends_of p ((a, b) ∷ es) = let rest = ends_of p es in if eqb a p then b ∷ rest else rest

abbrev pub nets : {T : Type 0} → Petgraph T (Net T)
nets = record {
  empty = record { nodes = []; edges = [] };
  node_count = λ g. length g.nodes;
  weight = λ i g. get_elem? g.nodes i;
  add_node = λ t g. (length g.nodes, record g { nodes = g.nodes ++ t ∷ [] });
  add_edge = λ a b g. record g { edges = (a, b) ∷ g.edges };
  outgoing = λ p g. ends_of p g.edges;
  bfs = λ r g. from_to 0 (length g.nodes);
}

get_elem?-length : {T : Type 0} (xs : List T) → get_elem? xs (length xs) ≡ none
get_elem?-length [] = refl
get_elem?-length (x ∷ xs) = get_elem?-length xs

eqb-suc : (a b : ℕ) → eqb a b ≡ eqb (suc a) (suc b)
eqb-suc a b = ground arith

get_elem?-append_one :
    {T : Type 0} (xs : List T) (t : T) (i : ℕ)
    → get_elem? (xs ++ t ∷ []) i ≡ (if eqb i (length xs) then some t else get_elem? xs i)
get_elem?-append_one [] t zero = refl
get_elem?-append_one [] t (suc i) = ground arith
get_elem?-append_one (x ∷ xs) t zero = ground arith
get_elem?-append_one (x ∷ xs) t (suc i) =
    get_elem?-append_one xs t i
    ∙ ap (λ b. if b then some t else get_elem? xs i) (eqb-suc i (length xs))

contains-ends_of :
    (a b p c : ℕ) (es : List (ℕ × ℕ))
    → contains c (ends_of p ((a, b) ∷ es)) ≡ ((eqb a p && eqb b c) || contains c (ends_of p es))
contains-ends_of a b p c es = elim (Bool-cases (eqb a p)) [
  | inl same ↦ rw same (ground arith)
  | inr other ↦ rw other (ground arith)
]

pub nets-Laws : {T : Type 0} → PetgraphLaws (nets {T = T})
nets-Laws = record {
  empty_weight = λ i. refl;
  empty_outgoing = λ p c. refl;
  node_new = λ t g. get_elem?-length g.nodes;
  node_weight = λ t g i. get_elem?-append_one g.nodes t i;
  node_outgoing = λ t g p c. refl;
  edge_weight = λ a b g i. refl;
  edge_outgoing = λ a b g p c in_a in_b. contains-ends_of a b p c g.edges;
}
