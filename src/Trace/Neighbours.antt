-- ===== src/Trace/Neighbours.antt =====
-- The neighbours of a node in `reachableCount` of trace-arcgis-dependencies.ts, and their number.
use dymaxion.Prelude.{
  ℕ, ◌+◌, ◌≤◌, ◌≡◌, refl, sym, ap, ◌∙◌, Text, text_eq, text_eq_iff, true, false, if◌then◌else◌,
  List, [], ◌∷◌, length, length-append, arith, inl, inr, ◌⊎◌, Bool-cases, Among, Among-append,
}
use mathlib.Core.Path.{subst}
use dymaxion.Trace.Types.{Edge}
use dymaxion.Trace.Impact.{has_member, add_member, neighbours}
use dymaxion.Trace.Reach.{has_member-Among, Among-left, Among-right}

module _ (from to : Edge → Text) where
  pub record IsEdgeOf (edges : List Edge) (u v : Text) : Type 0 where
    pub edge : Edge
    pub among : Among edge edges
    pub from_it : from edge ≡ u
    pub to_it : to edge ≡ v

  add-left : (set : List Text) (x v : Text) → Among v set → Among v (add_member set x)
  add-left set x v a = elim (Bool-cases (has_member set x)) [
    | inl old ↦ rw old a
    | inr new ↦ rw new (Among-left v set (x ∷ []) a)
  ]

  add-new : (set : List Text) (x : Text) → Among x (add_member set x)
  add-new set x = elim (Bool-cases (has_member set x)) [
    | inl old ↦ rw old (has_member-Among set x old)
    | inr new ↦ rw new (Among-right x set (x ∷ []) (inl refl))
  ]

  add-old : (set : List Text) (x v : Text) → Among v (add_member set x) → Among v set ⊎ (x ≡ v)
  add-old set x v a = elim (Bool-cases (has_member set x)) [
    | inl old ↦ inl (rw old at a)
    | inr new ↦ elim (Among-append v set (x ∷ []) (rw new at a)) [
      | inl l ↦ inl l
      | inr (inl same) ↦ inr same
      | inr (inr absent) ↦ absurd absent
    ]
  ]

  Among-neighbours-set :
      (node v : Text) (set : List Text) (es : List Edge)
      → Among v set
      → Among v (neighbours from to node set es)
  unfolding neighbours
  Among-neighbours-set node v set [] a = a
  Among-neighbours-set node v set (e ∷ es) a = elim (Bool-cases (text_eq (from e) node)) [
    | inl from_it ↦
        rw (neighbours, from_it)
          (Among-neighbours-set node v (add_member set (to e)) es (add-left set (to e) v a))
    | inr other ↦ rw (neighbours, other) (Among-neighbours-set node v set es a)
  ]

  pub Among-neighbours :
      (node v : Text) (set : List Text) (es : List Edge)
      → IsEdgeOf es node v
      → Among v (neighbours from to node set es)
  unfolding neighbours
  Among-neighbours node v set [] d = absurd d.among
  Among-neighbours node v set (e ∷ es) d = elim d.among [
    | inl same ↦
        let starts : text_eq (from e) node ≡ true =
          (text_eq_iff (from e) node).1 (ap from same ∙ d.from_it) in
        let ends : to e ≡ v = ap to same ∙ d.to_it in
        rw (neighbours, starts)
          (Among-neighbours-set node v (add_member set (to e)) es
            (subst (λ x. Among x (add_member set (to e))) ends (add-new set (to e))))
    | inr rest ↦
        Among-neighbours node v (if text_eq (from e) node then add_member set (to e) else set) es
          (record { edge = d.edge; among = rest; from_it = d.from_it; to_it = d.to_it })
  ]

  later-IsEdgeOf :
      (e : Edge) (es : List Edge) (u v : Text) → IsEdgeOf es u v → IsEdgeOf (e ∷ es) u v
  later-IsEdgeOf e es u v d = record {
    edge = d.edge;
    among = inr d.among;
    from_it = d.from_it;
    to_it = d.to_it;
  }

  pub neighbours-IsEdgeOf :
      (node v : Text) (set : List Text) (es : List Edge)
      → Among v (neighbours from to node set es)
      → Among v set ⊎ IsEdgeOf es node v
  unfolding neighbours
  neighbours-IsEdgeOf node v set [] a = inl a
  neighbours-IsEdgeOf node v set (e ∷ es) a =
      elim (neighbours-IsEdgeOf node v
        (if text_eq (from e) node then add_member set (to e) else set) es a) [
          | inr d ↦ inr (later-IsEdgeOf e es node v d)
          | inl there ↦ elim (Bool-cases (text_eq (from e) node)) [
            | inr other ↦ inl (rw other at there)
            | inl starts ↦ elim (add-old set (to e) v (rw starts at there)) [
              | inl old ↦ inl old
              | inr same ↦ inr (record {
                edge = e;
                among = inl refl;
                from_it = (text_eq_iff (from e) node).0 starts;
                to_it = same;
              })
            ]
          ]
        ]

  -- How many edges start at a node, and at nodes that have not been seen
  unfoldable pub outgoing : Text → List Edge → ℕ
  outgoing node [] = 0
  outgoing node (e ∷ es) = (if text_eq (from e) node then 1 else 0) + outgoing node es

  unfoldable pub open_edges : List Text → List Edge → ℕ
  open_edges seen [] = 0
  open_edges seen (e ∷ es) = (if has_member seen (from e) then 0 else 1) + open_edges seen es

  pub length-neighbours :
      (node : Text) (set : List Text) (es : List Edge)
      → length (neighbours from to node set es) ≤ length set + outgoing node es
  unfolding neighbours outgoing
  length-neighbours node set [] = omega arith
  length-neighbours node set (e ∷ es) = elim (Bool-cases (text_eq (from e) node)) [
    | inl starts ↦
        ground
          (arith, length-neighbours node (add_member set (to e)) es, length-append set (to e ∷ []))
    | inr other ↦ ground (arith, length-neighbours node set es)
  ]

  pub open_edges-seen :
      (node : Text) (seen : List Text) (es : List Edge)
      → has_member seen node ≡ false
      → open_edges (node ∷ seen) es + outgoing node es ≡ open_edges seen es
  unfolding open_edges outgoing has_member
  open_edges-seen node seen [] h = refl
  open_edges-seen node seen (e ∷ es) h = elim (Bool-cases (text_eq (from e) node)) [
    | inl starts ↦
        let same = (text_eq_iff (from e) node).0 starts in
        let fresh : has_member seen (from e) ≡ false = rw same h in
        let back : text_eq node (from e) ≡ true = (text_eq_iff node (from e)).1 (sym same) in
        ground (arith, open_edges-seen node seen es)
    | inr other ↦
        ground (
          arith,
          open_edges-seen node seen es,
          text_eq_iff (from e) node,
          text_eq_iff node (from e),
        )
  ]

  pub outgoing-le : (node : Text) (es : List Edge) → outgoing node es ≤ length es
  unfolding outgoing
  outgoing-le node [] = omega arith
  outgoing-le node (e ∷ es) = ground (arith, outgoing-le node es)

  pub open_edges-le : (seen : List Text) (es : List Edge) → open_edges seen es ≤ length es
  unfolding open_edges
  open_edges-le seen [] = omega arith
  open_edges-le seen (e ∷ es) = ground (arith, open_edges-le seen es)
