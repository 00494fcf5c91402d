-- ===== src/Graph/Walks.antt =====
-- The state of the search in pkg/structs/graph/graph.go: the sets and the stack that `dfs` changes.
use framingo.Prelude.{
  ◌+◌, ◌≤◌, ◌<◌, ◌≡◌, refl, sym, ap, subst, ◌∙◌, ◌⊎◌, inl, inr, List, [], ◌∷◌, reverse, true, false,
  length, length-reverse, length-append, arith, Bool-cases,
}
use mathlib.Core.List.{reverse-cons}
use framingo.Prelude.Sets.{has, add, has-add, has-remove, has-remove_self, has-remove_ne}
use framingo.Staque.Simple.{push}
use framingo.Graph.Reach.{Among}
use framingo.Graph.Finished.{IsOrdered, unseen, unseen-le, unseen-lt}
use framingo.Graph.{Walk, enter, leave}

-- `nodes` holds every node that an edge leads to, and `limit` is the size limit of the stack.
module _ {K T : Type 0} (dec : Discrete K) (name : T → K) (edges : K → List T)
    (nodes : List T) where
  -- The stack holds the finished nodes `fs`, the newest first: those visited and not under way.
  pub record Inv (s : Walk K T) (fs : List T) : Type 0 where
    pub stacked : s.stack.elements ≡ reverse fs
    pub limited : s.stack.max_size ≡ length nodes
    pub ordered : IsOrdered name edges fs
    pub done_known : (k : K) → Among name fs k → Among name nodes k
    pub done_seen : (k : K) → Among name fs k → has dec s.visited k ≡ true
    pub open_seen : (k : K) → has dec s.exists k ≡ true → has dec s.visited k ≡ true
    pub open_or_done :
        (k : K) → has dec s.visited k ≡ true → (has dec s.exists k ≡ true) ⊎ Among name fs k
    pub open_not_done : (k : K) → has dec s.exists k ≡ true → ¬ Among name fs k
    pub room : length fs + unseen dec name nodes s.visited ≤ length nodes

  -- From `s` to `t`: more is visited and finished, and the same nodes are under way.
  pub record Grows (s : Walk K T) (fs : List T) (t : Walk K T) (gs : List T) : Type 0 where
    pub valid : Inv t gs
    pub seen : (k : K) → has dec s.visited k ≡ true → has dec t.visited k ≡ true
    pub kept : (k : K) → Among name fs k → Among name gs k
    pub same_open : (k : K) → has dec t.exists k ≡ has dec s.exists k
    pub spared :
        length gs + unseen dec name nodes t.visited ≤ length fs + unseen dec name nodes s.visited

  pub Grows-refl : (s : Walk K T) (fs : List T) → Inv s fs → Grows s fs s fs
  Grows-refl s fs v = record {
    valid = v;
    seen = λ k h. h;
    kept = λ k h. h;
    same_open = λ k. refl;
    spared = omega arith;
  }

  pub Grows-trans :
      (s : Walk K T) (fs : List T) (t : Walk K T) (gs : List T) (u : Walk K T) (hs : List T)
      → Grows s fs t gs
      → Grows t gs u hs
      → Grows s fs u hs
  Grows-trans s fs t gs u hs g h = record {
    valid = h.valid;
    seen = λ k m. h.seen k (g.seen k m);
    kept = λ k m. h.kept k (g.kept k m);
    same_open = λ k. h.same_open k ∙ g.same_open k;
    spared = omega arith;
  }

  pub enter-Inv :
      (v : T) (s : Walk K T) (fs : List T)
      → Inv s fs
      → has dec s.visited (name v) ≡ false
      → Inv (enter dec name v s) fs
  unfolding enter
  enter-Inv v s fs i new = record {
    stacked = i.stacked;
    limited = i.limited;
    ordered = i.ordered;
    done_known = i.done_known;
    done_seen = λ k m. ground (arith, i.done_seen k m, has-add dec s.visited (name v) k);
    open_seen = λ k m. ground (
      arith,
      i.open_seen k,
      m,
      has-add dec s.visited (name v) k,
      has-add dec s.exists (name v) k,
    );
    open_or_done = λ k m. ground (
      arith,
      i.open_or_done k,
      m,
      has-add dec s.visited (name v) k,
      has-add dec s.exists (name v) k,
    );
    open_not_done = λ k m d.
        ground
          (arith, i.open_not_done k, m, d, i.done_seen k d, has-add dec s.exists (name v) k, new);
    room = omega (
      arith,
      i.room,
      unseen-le dec name nodes s.visited (add dec s.visited (name v))
          (λ k m. ground (arith, m, has-add dec s.visited (name v) k)),
    );
  }

  pub unseen-enter :
      (v : T) (s : Walk K T)
      → Among name nodes (name v)
      → has dec s.visited (name v) ≡ false
      → unseen dec name nodes (add dec s.visited (name v)) < unseen dec name nodes s.visited
  unseen-enter v s m new =
      unseen-lt dec name nodes s.visited (add dec s.visited (name v)) (name v)
        (λ k h. ground (arith, h, has-add dec s.visited (name v) k)) m new
        (ground (arith, has-add dec s.visited (name v) (name v)))

  module _ (v : T) (s : Walk K T) (fs : List T) (t : Walk K T) (gs : List T) (i : Inv s fs)
      (new : has dec s.visited (name v) ≡ false) (known : Among name nodes (name v))
      (g : Grows (enter dec name v s) fs t gs)
      (deps : (k : K) → Among name (edges (name v)) k → Among name gs k) where
    open_self : has dec t.exists (name v) ≡ true
    unfolding enter
    open_self = ground (arith, g.same_open (name v), has-add dec s.exists (name v) (name v))

    not_open : has dec s.exists (name v) ≡ false
    not_open = elim (Bool-cases (has dec s.exists (name v))) [
      | inl e ↦ cc (i.open_seen (name v) e)
      | inr e ↦ e
    ]

    pub spare :
        length gs + 1 + unseen dec name nodes t.visited
        ≤ length fs + unseen dec name nodes s.visited
    unfolding enter
    spare = omega (arith, g.spared, unseen-enter v s known new)

    leave-stacked : (leave dec name v t).stack.elements ≡ reverse (v ∷ gs)
    unfolding leave push
    leave-stacked = ground (
      arith,
      g.valid.stacked,
      g.valid.limited,
      reverse-cons v gs,
      spare,
      i.room,
      length-append t.stack.elements (v ∷ []),
      ap length g.valid.stacked,
      length-reverse gs,
    )

    leave-open : (k : K) → has dec (leave dec name v t).exists k ≡ has dec s.exists k
    unfolding leave enter
    leave-open k = elim (dec (name v) k) [
      | yes same ↦
          has-remove_self dec t.exists (name v) k same ∙ sym not_open ∙ ap (has dec s.exists) same
      | no other ↦ ground (
        arith,
        has-remove dec t.exists (name v) k,
        has-add dec s.exists (name v) k,
        g.same_open k,
        other,
      )
    ]

    leave-Inv : Inv (leave dec name v t) (v ∷ gs)
    unfolding leave push
    leave-Inv = record {
      stacked = leave-stacked;
      limited = g.valid.limited;
      ordered = (g.valid.open_not_done (name v) open_self, deps, g.valid.ordered);
      done_known = λ k m. elim m [
        | inl e ↦ subst (Among name nodes) e known
        | inr b ↦ g.valid.done_known k b
      ];
      done_seen = λ k m. elim m [
        | inl e ↦ subst (λ j. has dec t.visited j ≡ true) e (g.valid.open_seen (name v) open_self)
        | inr b ↦ g.valid.done_seen k b
      ];
      open_seen =
          λ k m. g.valid.open_seen k (ground (arith, m, has-remove dec t.exists (name v) k));
      open_or_done = λ k m. elim (g.valid.open_or_done k m) [
        | inl e ↦ elim (dec (name v) k) [
          | yes same ↦ inr (inl same)
          | no other ↦ inl (has-remove_ne dec t.exists (name v) k other ∙ e)
        ]
        | inr b ↦ inr (inr b)
      ];
      open_not_done = λ k m d. elim d [
        | inl e ↦ ground (arith, m, e, has-remove dec t.exists (name v) k)
        | inr b ↦ g.valid.open_not_done k (ground (arith, m, has-remove dec t.exists (name v) k)) b
      ];
      room = omega (arith, spare, i.room);
    }

    pub leave-Grows : Grows s fs (leave dec name v t) (v ∷ gs)
    unfolding leave enter
    leave-Grows = record {
      valid = leave-Inv;
      seen = λ k m. g.seen k (ground (arith, m, has-add dec s.visited (name v) k));
      kept = λ k m. inr (g.kept k m);
      same_open = leave-open;
      spared = omega (arith, spare);
    }
