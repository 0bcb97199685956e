-- ===== src/Trace/Reachable.antt =====
-- `reachableCount` of trace-arcgis-dependencies.ts comes to an end, and counts what can be reached.
use dymaxion.Prelude.{
  ℕ, zero, suc, ◌+◌, ◌≤◌, ◌≡◌, refl, sym, Text, text_eq, some, true, false, List, [], ◌∷◌, ◌++◌,
  length, length-append, arith, inl, inr, ◌⊎◌, ◌↔◌, Bool-cases, Among, Among-append,
}
use mathlib.Core.Path.{subst}
use dymaxion.Trace.Types.{Edge}
use dymaxion.Trace.Impact.{has_member, delete_member, unseen, neighbours, search, reachable_count}
use dymaxion.Trace.Reach.{
  has_member-Among, Among-has_member, Among-left, Among-right, AreOnce, delete_member-AreOnce,
  has_member-delete_member, Among-unseen, unseen-Among, length-unseen,
}
use dymaxion.Trace.Neighbours.{
  IsEdgeOf, Among-neighbours, neighbours-IsEdgeOf, length-neighbours, open_edges, open_edges-seen,
  outgoing-le, open_edges-le,
}

module _ (from to : Edge → Text) (edges : List Edge) (start : Text) where
  -- What can be reached from the start by one edge or more
  pub data Reaches : Text → Type 0 where
    direct : {v : Text} → IsEdgeOf from to edges start v → Reaches v
    onward : {u v : Text} → Reaches u → IsEdgeOf from to edges u v → Reaches v

  -- What the loop keeps: what it has seen or queued can be reached, and each neighbour of the start
  -- and of what it has seen has been seen or queued.
  record IsSearching (seen queue : List Text) : Type 0 where
    once : AreOnce seen
    sound : (v : Text) → Among v seen ⊎ Among v queue → Reaches v
    closed_start : (v : Text) → IsEdgeOf from to edges start v → Among v seen ⊎ Among v queue
    closed : (u v : Text) → Among u seen → IsEdgeOf from to edges u v → Among v seen ⊎ Among v queue

  -- Past a node that has been seen
  past-IsSearching :
      (node : Text) (seen queue : List Text)
      → has_member seen node ≡ true
      → IsSearching seen (node ∷ queue)
      → IsSearching seen queue
  past-IsSearching node seen queue old s = record {
    once = s.once;
    sound = λ v a. elim a [ inl l ↦ s.sound v (inl l) | inr r ↦ s.sound v (inr (inr r)) ];
    closed_start = λ v d. still v (s.closed_start v d);
    closed = λ u v a d. still v (s.closed u v a d);
  }
    where
      still : (v : Text) → Among v seen ⊎ Among v (node ∷ queue) → Among v seen ⊎ Among v queue
      still v (inl l) = inl l
      still v (inr (inl same)) =
          inl (subst (λ x. Among x seen) same (has_member-Among seen node old))
      still v (inr (inr r)) = inr r

  -- Onto a new node
  onto-IsSearching :
      (node : Text) (seen queue : List Text)
      → has_member seen node ≡ false
      → IsSearching seen (node ∷ queue)
      → IsSearching (node ∷ seen) (queue ++ unseen (node ∷ seen) (neighbours from to node [] edges))
  onto-IsSearching node seen queue new s = record {
    once = (new, s.once);
    sound = sound;
    closed_start = λ v d. moved v (s.closed_start v d);
    closed = closed;
  }
    where
      fresh : List Text
      fresh = unseen (node ∷ seen) (neighbours from to node [] edges)

      reached : Reaches node
      reached = s.sound node (inr (inl refl))

      moved :
          (v : Text)
          → Among v seen ⊎ Among v (node ∷ queue)
          → Among v (node ∷ seen) ⊎ Among v (queue ++ fresh)
      moved v (inl l) = inl (inr l)
      moved v (inr (inl same)) = inl (inl same)
      moved v (inr (inr r)) = inr (Among-left v queue fresh r)

      sound : (v : Text) → Among v (node ∷ seen) ⊎ Among v (queue ++ fresh) → Reaches v
      sound v (inl (inl same)) = subst Reaches same reached
      sound v (inl (inr l)) = s.sound v (inl l)
      sound v (inr a) = elim (Among-append v queue fresh a) [
        | inl l ↦ s.sound v (inr (inr l))
        | inr r ↦
            elim (neighbours-IsEdgeOf from to node v [] edges
              (unseen-Among (node ∷ seen) (neighbours from to node [] edges) v r)) [
                | inl absent ↦ absurd absent
                | inr d ↦ onward reached d
              ]
      ]

      next :
          (v : Text)
          → IsEdgeOf from to edges node v
          → Among v (node ∷ seen) ⊎ Among v (queue ++ fresh)
      next v d = elim (Bool-cases (has_member (node ∷ seen) v)) [
        | inl old ↦ inl (has_member-Among (node ∷ seen) v old)
        | inr unknown ↦ inr (
            Among-right v queue fresh (
              Among-unseen (node ∷ seen) (neighbours from to node [] edges) v
                (Among-neighbours from to node v [] edges d) unknown))
      ]

      closed :
          (u v : Text)
          → Among u (node ∷ seen)
          → IsEdgeOf from to edges u v
          → Among v (node ∷ seen) ⊎ Among v (queue ++ fresh)
      closed u v (inl same) d = next v (subst (λ x. IsEdgeOf from to edges x v) (sym same) d)
      closed u v (inr l) d = moved v (s.closed u v l d)

  -- Each round takes one from the queue, and opens the edges of a node once.
  search-IsSearching :
      (rounds : ℕ) (seen queue : List Text)
      → length queue + open_edges from to seen edges ≤ rounds
      → IsSearching seen queue
      → (found : List Text) × (search from to edges rounds seen queue ≡ some found)
        × IsSearching found []
  unfolding search
  search-IsSearching rounds seen [] enough s = (seen, refl, s)
  search-IsSearching zero seen (node ∷ queue) enough s = absurd (omega arith)
  search-IsSearching (suc rounds) seen (node ∷ queue) enough s =
      elim (Bool-cases (has_member seen node)) [
        | inl old ↦
            let (found, e, t) =
              search-IsSearching rounds seen queue (omega arith)
                (past-IsSearching node seen queue old s) in
            (found, rw (search, old) e, t)
        | inr new ↦
            let near = neighbours from to node [] edges in
            let fresh = unseen (node ∷ seen) near in
            let room : length (queue ++ fresh) + open_edges from to (node ∷ seen) edges ≤ rounds =
              omega (
                arith,
                length-append queue fresh,
                length-unseen (node ∷ seen) near,
                length-neighbours from to node [] edges,
                open_edges-seen from to node seen edges new,
              ) in
            let (found, e, t) =
              search-IsSearching rounds (node ∷ seen) (queue ++ fresh) room
                (onto-IsSearching node seen queue new s) in
            (found, rw (search, new) e, t)
      ]

  found_reached : (found : List Text) (v : Text) → IsSearching found [] → Reaches v → Among v found
  found_reached found v s (direct d) = elim (s.closed_start v d) [
    | inl l ↦ l
    | inr absent ↦ absurd absent
  ]
  found_reached found v s (onward {u} r d) = elim (s.closed u v (found_reached found u s r) d) [
    | inl l ↦ l
    | inr absent ↦ absurd absent
  ]

  begun-IsSearching : IsSearching [] (neighbours from to start [] edges)
  begun-IsSearching = record {
    once = tt;
    sound = λ v a. elim a [
      | inl absent ↦ absurd absent
      | inr r ↦ elim (neighbours-IsEdgeOf from to start v [] edges r) [
        | inl absent ↦ absurd absent
        | inr d ↦ direct d
      ]
    ];
    closed_start = λ v d. inr (Among-neighbours from to start v [] edges d);
    closed = λ u v a d. absurd a;
  }

  counted :
      (found : List Text) (v : Text)
      → IsSearching found []
      → (has_member (delete_member found start) v ≡ true) ↔ (Reaches v × (text_eq start v ≡ false))
  counted found v s = (
    λ h. elim (Bool-cases (text_eq start v)) [
      | inl same ↦ absurd (ground (arith, has_member-delete_member found start v))
      | inr other ↦ (
        s.sound v (
            inl
              (has_member-Among found v (ground (arith, has_member-delete_member found start v)))),
        other,
      )
    ],
    λ (r, other).
        let there = Among-has_member found v (found_reached found v s r) in
        ground (arith, has_member-delete_member found start v),
  )

  -- Whatever the edges are, cycles among them included, and whichever of their ends is which: the
  -- loop of `reachableCount` comes to an end within two rounds for each edge, and its count is the
  -- length of a list in which each node stands once, and in which just those stand that can be
  -- reached from the start by one edge or more and are not the start itself.
  pub reachable_count-Counts :
      (found : List Text) × (reachable_count from to edges start ≡ some (length found))
      × AreOnce found
      × ((v : Text) → (has_member found v ≡ true) ↔ (Reaches v × (text_eq start v ≡ false)))
  unfolding reachable_count
  reachable_count-Counts =
      let (found, e, s) =
        search-IsSearching (length edges + length edges) [] (neighbours from to start [] edges)
          (omega (
            arith,
            length-neighbours from to start [] edges,
            outgoing-le from to start edges,
            open_edges-le from to [] edges,
          ))
          begun-IsSearching in
      (
        delete_member found start,
        rw (reachable_count, e) refl,
        delete_member-AreOnce found start s.once,
        λ v. counted found v s,
      )
