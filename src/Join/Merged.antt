-- ===== src/Join/Merged.antt =====
-- src/lib.rs: when joining a pipeline returns its states, and which.

use accumulator.Common.{
  ◌≡◌, ◌↔◌, refl, ap, subst, ◌∙◌, Bool, true, false, not, Option, none, some, List, [], ◌∷◌, map,
}
use accumulator.Common.Results.{Result, ok, err, >>=-eq-ok, fail_if}
use accumulator.Errors.{PiperError}
use accumulator.Worker.{Stage}
use accumulator.Join.Handle.{
  Joined, ReturnStage, ok_or, map_err, join_supervisor, typed_state, typed_states,
  join_returned_states, merge_states, merge_first, join_merged_state,
}

-- The node's merge takes the states into the first one, one after the other.
pub data MergesTo {E M I : Type 0} (stage : Stage E M I) : M → List M → M → Type 0 where
  merged_all : {merged : M} → MergesTo stage merged [] merged
  merges_next :
      {merged state next last : M} {states : List M}
      → stage.merge_box merged state ≡ ok next
      → MergesTo stage next states last
      → MergesTo stage merged (state ∷ states) last

ok_or-eq-ok :
    {E A : Type 0} (error : PiperError E) (o : Option A) {a : A} → ok_or error o ≡ ok a → o ≡ some a
ok_or-eq-ok error none h = cc
ok_or-eq-ok error (some a) h = cc

map_err-eq-ok :
    {X Y A : Type 0} (wrap : X → Y) (r : Result X A) {a : A} → map_err wrap r ≡ ok a → r ≡ ok a
map_err-eq-ok wrap (err x) h = cc
map_err-eq-ok wrap (ok a) h = cc

can_merge_of_check :
    {X : Type 0} (can_merge : Bool) (error : X) {u : Unit {0}}
    → fail_if (not can_merge) error ≡ ok u
    → can_merge ≡ true
can_merge_of_check true error h = refl
can_merge_of_check false error h = cc

ok-injective : {X A : Type 0} {a b : A} → ◌≡◌ {A = Result X A} (ok a) (ok b) → a ≡ b
ok-injective h = cc

module _ {E M S I : Type 0} (downcast : M → Option S) where
  merge_states-MergesTo :
      (stage : Stage E M I) (merged : M) (states : List M) {last : M}
      → merge_states downcast stage merged states ≡ ok last
      → MergesTo stage merged states last
  unfolding merge_states
  merge_states-MergesTo stage merged [] h =
      subst (MergesTo stage merged []) (ok-injective h) merged_all
  merge_states-MergesTo stage merged (state ∷ states) h =
      let (next, e, d) = >>=-eq-ok (map_err _ (stage.merge_box merged state)) _ h in
      merges_next (map_err-eq-ok _ (stage.merge_box merged state) e)
        (merge_states-MergesTo stage next states d)

  MergesTo-merge_states :
      (stage : Stage E M I) (merged : M) (states : List M) {last : M}
      → MergesTo stage merged states last
      → merge_states downcast stage merged states ≡ ok last
  unfolding merge_states
  MergesTo-merge_states stage merged [] merged_all = refl
  MergesTo-merge_states stage merged (state ∷ states) (merges_next {next = next} e m) =
      rw e (MergesTo-merge_states stage next states m)

  -- The supervisor has returned states, and the node's merge takes them all into a state of the type.
  pub record ReturnsMerged (state_return_stage : Option (ReturnStage E M I))
      (handle : Option (Joined E M)) (s : S) : Type 0 where
    pub returning : ReturnStage E M I
    pub first : M
    pub rest : List M
    pub merged : M
    pub has_stage : state_return_stage ≡ some returning
    pub can_merge : returning.can_merge_state ≡ true
    pub joined : join_supervisor handle ≡ ok (first ∷ rest)
    pub merges : MergesTo returning.stage first rest merged
    pub is_typed : downcast merged ≡ some s

  first-MergesTo :
      (stage : Stage E M I) (states : List M) {last : M}
      → merge_first downcast stage states ≡ ok last
      → (first : M) × (rest : List M) × (states ≡ first ∷ rest) × MergesTo stage first rest last
  unfolding merge_first
  first-MergesTo stage [] h = cc
  first-MergesTo stage (first ∷ rest) h =
      (first, rest, refl, merge_states-MergesTo stage first rest h)

  -- `join_merged_state` returns a state exactly when the graph has a node that returns its states and
  -- can merge them, the supervisor ended well with at least one state, and the node's own merge, of
  -- all returned states into the first and in their order, gives that state.
  pub join_merged_state_iff :
      (state_return_stage : Option (ReturnStage E M I)) (handle : Option (Joined E M)) (s : S)
      → (join_merged_state downcast state_return_stage handle ≡ ok s)
        ↔ ReturnsMerged state_return_stage handle s
  unfolding join_merged_state merge_first typed_state
  join_merged_state_iff state_return_stage handle s = (
    λ h.
        let (r, e, h₁) = >>=-eq-ok (ok_or _ state_return_stage) _ h in
        let (u, c, h₂) = >>=-eq-ok (fail_if (not r.can_merge_state) _) _ h₁ in
        let (states, j, h₃) = >>=-eq-ok (join_supervisor handle) _ h₂ in
        let (merged, m, h₄) = >>=-eq-ok (merge_first downcast r.stage states) _ h₃ in
        let (first, rest, same, merges) = first-MergesTo r.stage states m in
        record {
          returning = r;
          first = first;
          rest = rest;
          merged = merged;
          has_stage = ok_or-eq-ok _ state_return_stage e;
          can_merge = can_merge_of_check r.can_merge_state _ c;
          joined = j ∙ ap ok same;
          merges = merges;
          is_typed = ok_or-eq-ok _ (downcast merged) h₄;
        },
    λ r.
        let has_stage = r.has_stage in
        let can_merge = r.can_merge in
        let joined = r.joined in
        let is_typed = r.is_typed in
        let merges = MergesTo-merge_states r.returning.stage r.first r.rest r.merges in
        rw (has_stage, can_merge, joined, merges, is_typed) refl,
  )

module _ {E M S : Type 0} (downcast : M → Option S) where
  typed_states-some :
      (states : List M) (found : List S)
      → typed_states {E = E} downcast states ≡ ok found
      → map downcast states ≡ map some found
  unfolding typed_states typed_state
  typed_states-some [] found h = ap (map some) (ok-injective h)
  typed_states-some (state ∷ states) found h =
      let (first, e, h₁) = >>=-eq-ok (typed_state {E = E} downcast state) _ h in
      let (rest, d, h₂) = >>=-eq-ok (typed_states {E = E} downcast states) _ h₁ in
      let head : downcast state ≡ some first = ok_or-eq-ok _ (downcast state) e in
      let tail = typed_states-some states rest d in
      ap (λ o. o ∷ map downcast states) head
      ∙ ap (◌∷◌ (some first)) tail
      ∙ ap (map some) (ok-injective h₂)

  -- When `join_returned_states` returns states, they are all those that the supervisor returned, in
  -- their order and at their type.
  pub join_returned_states-some :
      (handle : Option (Joined E M)) (found : List S)
      → join_returned_states downcast handle ≡ ok found
      → (states : List M) × (join_supervisor handle ≡ ok states)
        × (map downcast states ≡ map some found)
  unfolding join_returned_states
  join_returned_states-some handle found h =
      let (states, e, d) = >>=-eq-ok (join_supervisor handle) _ h in
      (states, e, typed_states-some states found d)
