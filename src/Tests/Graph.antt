-- ===== src/Tests/Graph.antt =====
-- Multigraphs as lists of edges, in place of networkx.
use cream_bots.Prelude.{
  String, String_discrete, Bool, true, false, Option, none, some, List, [], ◌∷◌, ◌++◌, map, ◌≡◌,
  ◌≢◌, ◌↔◌, inl, inr, refl, sym, ap, ◌∙◌, subst, Memᴰ, ◌≤◌, Result, ok, raise, other_error, select,
  mem-select, mem_of_select, holds, holds_of, of_holds, length, arith, ok-injective, raise-ne-ok,
}
use mathlib.Core.List.Memᴰ
use mathlib.Core.List.Memᴰ.{head}
use mathlib.Core.Option.{some-injective}
use cream_bots.Builders.ThreePool.{PoolEdge, Networkx}
use cream_bots.Builders.ThreePool.Multigraph.{GraphEdge, Joined, Joined-sym, IsMultigraph}

abbrev swapped : GraphEdge → GraphEdge
swapped x = (x.1.0, (x.0, x.1.1))

-- Every edge in both directions.
abbrev links : List GraphEdge → List GraphEdge
links g = g ++ map swapped g

mem-links :
    (g : List GraphEdge) {u v : String} {e : PoolEdge} → Joined g u v e → Memᴰ (u, (v, e)) (links g)
mem-links g (inl m) = Memᴰ.append_left (map swapped g) m
mem-links g (inr m) = Memᴰ.append_right g (Memᴰ.map swapped m)

mem_of_links : (g : List GraphEdge) (x : GraphEdge) → Memᴰ x (links g) → Joined g x.0 x.1.0 x.1.1
mem_of_links g x m = elim (Memᴰ.append_cases g m) [
  | inl l ↦ inl l
  | inr r ↦ let (y, n, e) = Memᴰ.of_map swapped g r in inr (Memᴰ.cast (ap swapped (sym e)) n)
]

abbrev links_of : List GraphEdge → String → List GraphEdge
links_of g u = select (λ x. holds (String_discrete x.0 u)) (links g)

mem-links_of :
    (g : List GraphEdge) (u v : String) (e : PoolEdge)
    → Joined g u v e
    → Memᴰ (u, (v, e)) (links_of g u)
mem-links_of g u v e j =
    mem-select _ (links g) (mem-links g j) (holds_of (String_discrete u u) refl)

mem_of_links_of :
    (g : List GraphEdge) (u : String) (x : GraphEdge)
    → Memᴰ x (links_of g u)
    → Joined g u x.1.0 x.1.1
mem_of_links_of g u x m =
    let (n, e) = mem_of_select _ (links g) m in
    subst (λ t. Joined g t x.1.0 x.1.1) (of_holds (String_discrete x.0 u) e) (mem_of_links g x n)

abbrev others : List GraphEdge → String → List String
others g u = map (λ x. x.1.0) (links_of g u)

abbrev data_between : List GraphEdge → String → String → List PoolEdge
data_between g u v = map (λ x. x.1.1) (select (λ x. holds (String_discrete x.1.0 v)) (links_of g u))

mem-data_between :
    (g : List GraphEdge) (u v : String) (e : PoolEdge)
    → Joined g u v e
    → Memᴰ e (data_between g u v)
mem-data_between g u v e j =
    Memᴰ.map (λ x. x.1.1)
      (mem-select _ (links_of g u) (mem-links_of g u v e j) (holds_of (String_discrete v v) refl))

mem_of_data_between :
    (g : List GraphEdge) (u v : String) (e : PoolEdge)
    → Memᴰ e (data_between g u v)
    → Joined g u v e
mem_of_data_between g u v e m =
    let (x, n, same) = Memᴰ.of_map (λ x. x.1.1) _ m in
    let (k, at_v) = mem_of_select _ (links_of g u) n in
    subst (Joined g u v) same (
      subst (λ t. Joined g u t x.1.1) (of_holds (String_discrete x.1.0 v) at_v)
        (mem_of_links_of g u x k))

abbrev listed : {A : Type 0} → List A → Option (List A)
listed [] = none
listed (x ∷ xs) = some (x ∷ xs)

listed-some : {A : Type 0} (xs ys : List A) → listed xs ≡ some ys → xs ≡ ys
listed-some [] ys e = cc
listed-some (x ∷ xs) ys e = some-injective _ _ e

listed_mem : {A : Type 0} (xs : List A) {a : A} → Memᴰ a xs → (ys : List A) × (listed xs ≡ some ys)
listed_mem [] m = absurd (Memᴰ.not-nil m)
listed_mem (x ∷ xs) m = (x ∷ xs, refl)

abbrev node_found : Option (List String) → Result (List String)
node_found none = raise other_error
node_found (some xs) = ok xs

node_found-ok : (o : Option (List String)) (xs : List String) → node_found o ≡ ok xs → o ≡ some xs
node_found-ok none xs e = absurd (raise-ne-ok e)
node_found-ok (some ys) xs e = ap some (ok-injective e)

two_members : (xs : List String) (u v : String) → Memᴰ u xs → Memᴰ v xs → u ≢ v → 2 ≤ length xs
two_members [] u v m n apart = absurd (Memᴰ.not-nil m)
two_members (x ∷ []) u v m n apart =
    absurd (apart (Memᴰ.eq_of_singleton m ∙ sym (Memᴰ.eq_of_singleton n)))
two_members (x ∷ y ∷ xs) u v m n apart = omega arith

abbrev pub edge_lists : Networkx
edge_lists = record {
  MultiGraph = List GraphEdge;
  multi_graph = [];
  add_edge = λ u v e g. g ++ (u, (v, e)) ∷ [];
  neighbors = λ g u. node_found (listed (others g u));
  degree = λ g u. length (others g u);
  has_edge = λ g u v. elim (data_between g u v) [ [] ↦ false | ◌∷◌ _ _ ↦ true ];
  get_edge_data = λ g u v. listed (data_between g u v);
}

nonempty_iff :
    (xs : List PoolEdge)
    → (elim xs as (λ _. Bool) [ [] ↦ false | ◌∷◌ _ _ ↦ true ] ≡ true) ↔ ((e : PoolEdge) × Memᴰ e xs)
nonempty_iff [] = (λ h. cc, λ m. absurd (Memᴰ.not-nil m.1))
nonempty_iff (x ∷ xs) = (λ h. (x, head refl), λ m. refl)

mem-others :
    (g : List GraphEdge) (u v : String) (e : PoolEdge) → Joined g u v e → Memᴰ v (others g u)
mem-others g u v e j = Memᴰ.map (λ x. x.1.0) (mem-links_of g u v e j)

mem_of_others :
    (g : List GraphEdge) (u v : String) → Memᴰ v (others g u) → (e : PoolEdge) × Joined g v u e
mem_of_others g u v m =
    let (x, n, same) = Memᴰ.of_map (λ x. x.1.0) (links_of g u) m in
    (x.1.1, Joined-sym g u v x.1.1 (subst (λ t. Joined g u t x.1.1) same (mem_of_links_of g u x n)))

pub edge_lists-IsMultigraph : IsMultigraph edge_lists
edge_lists-IsMultigraph = record {
  edges_of = λ g. g;
  edges_of_new = refl;
  edges_of_added = λ u v e g. refl;
  neighbors_of_joined = λ g u v e j.
      let (vs, h) = listed_mem (others g u) (mem-others g u v e j) in (vs, ap node_found h);
  mem_neighbors = λ g u vs v h.
      let same = listed-some (others g u) vs (node_found-ok (listed (others g u)) vs h) in
      (
        λ m. mem_of_others g u v (subst (Memᴰ v) (sym same) m),
        λ (e, j). subst (Memᴰ v) same (mem-others g u v e (Joined-sym g v u e j)),
      );
  degree_of_joined = λ g t u v e f j k apart.
      two_members (others g t) u v (mem-others g t u e j) (mem-others g t v f k) apart;
  has_edge_iff = λ g u v.
      let both = nonempty_iff (data_between g u v) in
      (
        λ h. let (e, m) = both.0 h in (e, mem_of_data_between g u v e m),
        λ (e, j). both.1 (e, mem-data_between g u v e j),
      );
  data_of_joined = λ g u v e j. listed_mem (data_between g u v) (mem-data_between g u v e j);
  mem_data = λ g u v es e h.
      let same = listed-some (data_between g u v) es h in
      (
        λ m. mem_of_data_between g u v e (subst (Memᴰ e) (sym same) m),
        λ j. subst (Memᴰ e) same (mem-data_between g u v e j),
      );
}
