-- ===== src/Graph/Acyclic/Search.antt =====
-- src/lib.rs, `visit`: what one visit does to the marks, by induction on the fuel.
use accumulator.Common.{
  ℕ, zero, suc, ◌<◌, ◌≡◌, refl, sym, subst, ◌∙◌, ◌⊎◌, inl, inr, Bool, true, false, some, List, [],
  ◌∷◌, arith, ◌==◌, if◌then◌else◌, length, get_elem?, set, Elem, length-set, get_elem?-set,
  set-get_elem?, set-set,
}
use mathlib.Core.Option.{some-injective}
use native.Mathlib.Decide.{ℕ_discrete}
use accumulator.Graph.Acyclic.Tables.{
  get_elem?-total, lt-length_of_get, unmarked, unmarked-set, Edge, Reach, step, snoc, Grounded,
  grounded, InRange,
}
use accumulator.Graph.Acyclic.{
  Marks, Visit, found_cycle, clear, no_answer, visit_children, finish_visit, enter, visit,
}

abbrev IsMarked : List Bool → ℕ → Type 0
IsMarked marks node = get_elem? marks node ≡ some true

module _ (adjacency : List (List ℕ)) where
  abbrev pub Sound : List Bool → Type 0
  Sound permanent = (a : ℕ) → IsMarked permanent a → Grounded adjacency a

  -- Every node on the stack reaches the node.
  abbrev pub Stacked : List Bool → ℕ → Type 0
  Stacked temporary node = (a : ℕ) → IsMarked temporary a → Reach adjacency a node

  pub record Sized (marks : Marks) : Type 0 where
    pub temporary_size : length marks.temporary ≡ length adjacency
    pub permanent_size : length marks.permanent ≡ length adjacency

  -- The marks `after` come out of a search that started with `before` and visited `nodes`.
  pub record Searched (nodes : List ℕ) (before after : Marks) : Type 0 where
    pub same_stack : after.temporary ≡ before.temporary
    pub size : length after.permanent ≡ length adjacency
    pub grows : (a : ℕ) → IsMarked before.permanent a → IsMarked after.permanent a
    pub visited : (a : ℕ) → Elem a nodes → IsMarked after.permanent a
    pub sound : Sound after.permanent

  abbrev pub Answers : List ℕ → Marks → Visit → Type 0
  Answers nodes before (found_cycle _) = (a : ℕ) × Reach adjacency a a
  Answers nodes before (clear after) = Searched nodes before after
  Answers nodes before no_answer = ⊥

  -- What the visit of a child has to do for the loop over the children.
  abbrev VisitsAll : (ℕ → Marks → Visit) → List ℕ → List Bool → Type 0
  VisitsAll visit_child nodes temporary =
      (node : ℕ) (marks : Marks)
      → Elem node nodes
      → marks.temporary ≡ temporary
      → length marks.permanent ≡ length adjacency
      → Sound marks.permanent
      → Answers (node ∷ []) marks (visit_child node marks)

  Searched-cons :
      (node : ℕ) (rest : List ℕ) (before middle : Marks) (r : Visit)
      → Searched (node ∷ []) before middle
      → Answers rest middle r
      → Answers (node ∷ rest) before r
  Searched-cons node rest before middle (found_cycle m) s t = t
  Searched-cons node rest before middle (clear after) s t = record {
    same_stack = t.same_stack ∙ s.same_stack;
    size = t.size;
    grows = λ a m. t.grows a (s.grows a m);
    visited = λ a. elim [ inl e ↦ t.grows a (s.visited a (inl e)) | inr m ↦ t.visited a m ];
    sound = t.sound;
  }
  Searched-cons node rest before middle no_answer s t = t

  pub visit_children-Answers :
      (visit_child : ℕ → Marks → Visit) (nodes : List ℕ) (before : Marks)
      → VisitsAll visit_child nodes before.temporary
      → length before.permanent ≡ length adjacency
      → Sound before.permanent
      → Answers nodes before (visit_children visit_child nodes before)
  unfolding visit_children
  visit_children-Answers visit_child [] before each sized sound = record {
    same_stack = refl;
    size = sized;
    grows = λ a m. m;
    visited = λ a m. elim m [ ];
    sound = sound;
  }
  visit_children-Answers visit_child (node ∷ rest) before each sized sound =
      go (visit_child node before) (each node before (inl refl) refl sized sound) λ middle s.
        visit_children-Answers visit_child rest middle
          (λ child marks m e. each child marks (inr m) (e ∙ s.same_stack)) s.size s.sound
    where
      loop : Visit → Visit
      loop r = elim r [
        | found_cycle m ↦ found_cycle m
        | clear middle ↦ visit_children visit_child rest middle
        | no_answer ↦ no_answer
      ]

      go :
          (r : Visit)
          → Answers (node ∷ []) before r
          → ((middle : Marks)
              → Searched (node ∷ []) before middle
              → Answers rest middle (visit_children visit_child rest middle))
          → Answers (node ∷ rest) before (loop r)
      go (found_cycle m) s t = s
      go (clear middle) s t = Searched-cons node rest before middle _ s (t middle s)
      go no_answer s t = s

  module _ (in_range : InRange adjacency) where
    -- The visit of a node that has no mark yet, when the visits of its children answer.
    module _ (visit_child : ℕ → Marks → Visit) (node : ℕ) (marks : Marks) (children : List ℕ)
        (listed : get_elem? adjacency node ≡ some children)
        (free : get_elem? marks.temporary node ≡ some false) (sized : Sized marks)
        (sound : Sound marks.permanent) where
      entered : Marks
      entered = record marks { temporary = set marks.temporary node true }

      Searched-finish :
          (after : Marks)
          → Searched children entered after
          → Searched (node ∷ []) marks (record {
            temporary = set after.temporary node false;
            permanent = set after.permanent node true;
          })
      unfolding entered
      Searched-finish after s = record {
        same_stack =
            rw (s.same_stack, set-set marks.temporary node true false)
              (set-get_elem? marks.temporary node false free);
        size = length-set after.permanent node true ∙ s.size;
        grows = λ a m. marked a (inr (s.grows a m));
        visited = λ a. elim [ inl e ↦ marked a (inl e) | inr m ↦ elim m [ ] ];
        sound = λ a m. elim (ℕ_discrete node a) [
          | yes same ↦ subst (Grounded adjacency) same node_grounded
          | no other ↦ s.sound a (ground (arith, lookup a))
        ];
      }
        where
          node_size : node < length after.permanent
          node_size = omega (arith, s.size, lt-length_of_get adjacency node listed)

          lookup :
              (a : ℕ)
              → get_elem? (set after.permanent node true) a
                ≡ (if node == a then some true else get_elem? after.permanent a)
          lookup a = get_elem?-set after.permanent node a true node_size

          marked :
              (a : ℕ)
              → (a ≡ node) ⊎ IsMarked after.permanent a
              → IsMarked (set after.permanent node true) a
          marked a h = ground (arith, lookup a)

          node_grounded : Grounded adjacency node
          node_grounded = grounded λ b (cs, e, m).
              s.sound b
                (s.visited b (subst (Elem b) (some-injective cs children (sym e ∙ listed)) m))

      enter-Answers :
          VisitsAll visit_child children (set marks.temporary node true)
          → Answers (node ∷ []) marks (enter visit_child adjacency node marks)
      unfolding enter finish_visit entered
      enter-Answers each =
          rw (listed, enter)
            (closes _
              (visit_children-Answers visit_child children entered each sized.permanent_size sound))
        where
          closes :
              (r : Visit)
              → Answers children entered r
              → Answers (node ∷ []) marks (finish_visit node r)
          closes (found_cycle m) a = a
          closes (clear after) a = Searched-finish after a
          closes no_answer a = a

    -- The nodes on the stack of the search reach a child of the node too.
    Stacked-child :
        (node child : ℕ) (temporary : List Bool)
        → node < length temporary
        → Stacked temporary node
        → Edge adjacency node child
        → Stacked (set temporary node true) child
    Stacked-child node child temporary size stack e a m = elim (ℕ_discrete node a) [
      | yes same ↦ step (subst (λ x. Edge adjacency x child) same e)
      | no other ↦ snoc (stack a (ground (arith, get_elem?-set temporary node a true size))) e
    ]

    -- With more fuel than there are unmarked nodes every visit answers.
    pub visit-Answers :
        (fuel node : ℕ) (marks : Marks)
        → unmarked marks.temporary < fuel
        → node < length adjacency
        → Sized marks
        → Sound marks.permanent
        → Stacked marks.temporary node
        → Answers (node ∷ []) marks (visit fuel adjacency node marks)
    unfolding visit
    visit-Answers zero node marks enough inside sized sound stack = absurd (omega arith)
    visit-Answers (suc fuel) node marks enough inside sized sound stack =
        let (p, e) = get_elem?-total marks.permanent node (omega (arith, sized.permanent_size)) in
        let (t, d) = get_elem?-total marks.temporary node (omega (arith, sized.temporary_size)) in
        cases p t e d λ children listed free.
          enter-Answers (visit fuel adjacency) node marks children listed free sized sound
            λ child m elem same size' sound'.
              let edge : Edge adjacency node child = (children, listed, elem) in
              visit-Answers fuel child m
                (rw same (omega (arith, unmarked-set marks.temporary node free)))
                (in_range node child edge)
                (record {
                  temporary_size =
                      rw same (length-set marks.temporary node true ∙ sized.temporary_size);
                  permanent_size = size';
                })
                sound'
                (rw same (
                  Stacked-child node child marks.temporary (omega (arith, sized.temporary_size))
                    stack edge))
      where
        cases :
            (p t : Bool)
            → get_elem? marks.permanent node ≡ some p
            → get_elem? marks.temporary node ≡ some t
            → ((children : List ℕ)
                → get_elem? adjacency node ≡ some children
                → get_elem? marks.temporary node ≡ some false
                → Answers (node ∷ []) marks (enter (visit fuel adjacency) adjacency node marks))
            → Answers (node ∷ []) marks (visit (suc fuel) adjacency node marks)
        cases true t e d fresh =
            rw (e, visit)
              (record {
                same_stack = refl;
                size = sized.permanent_size;
                grows = λ a m. m;
                visited = λ a. elim [ inl same ↦ rw same e | inr m ↦ elim m [ ] ];
                sound = sound;
              })
        cases false true e d fresh = rw (e, visit) (rw (d, visit) (node, stack node d))
        cases false false e d fresh =
            let (children, listed) = get_elem?-total adjacency node inside in
            rw (e, visit) (rw (d, visit) (fresh children listed d))
