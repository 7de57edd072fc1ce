-- ===== src/Branch/Routing.antt =====
-- src/lib.rs, `WeightedBranchController`: which output it chooses.
use accumulator.Common.{
  ℕ, ◌≡◌, refl, ◌⊎◌, inl, inr, Bool, true, false, not, ◌&&◌, ◌||◌, if◌then◌else◌,
}
use accumulator.Float.{Float, IsIeee}
use accumulator.Branch.Controller.{
  WeightedBranchController, arms_ready, effective_queue_len, fill_ratio, alternate, choose_route,
}

module _ (fl : Float) where
  open fl use {F, of_nat, div, lt}

  -- How full the left arm (`true`) or the right arm is.
  abbrev pub arm_fill : WeightedBranchController fl → ℕ → ℕ → Bool → F
  arm_fill c left_len right_len true =
      fill_ratio fl (effective_queue_len fl left_len c.left.smoothed_len) c.left.drain_rate_ewma
        c.target_queue_seconds
  arm_fill c left_len right_len false =
      fill_ratio fl (effective_queue_len fl right_len c.right.smoothed_len) c.right.drain_rate_ewma
        c.target_queue_seconds

  -- One arm is less full than the other.
  abbrev pub differ : WeightedBranchController fl → ℕ → ℕ → Bool
  differ c left_len right_len =
      lt (arm_fill c left_len right_len true) (arm_fill c left_len right_len false)
      || lt (arm_fill c left_len right_len false) (arm_fill c left_len right_len true)

  abbrev pub Alternates : WeightedBranchController fl → Bool × WeightedBranchController fl → Type 0
  Alternates c (route, after) =
      (route ≡ c.next_alternate_left) × (after.next_alternate_left ≡ not c.next_alternate_left)

  -- The chosen arm is not the fuller one, and the turn is passed on only between equals.
  abbrev pub Balances :
      WeightedBranchController fl → ℕ → ℕ → Bool × WeightedBranchController fl → Type 0
  Balances c left_len right_len (route, after) =
      (lt (arm_fill c left_len right_len (not route)) (arm_fill c left_len right_len route) ≡ false)
      × (((differ c left_len right_len ≡ true) × (after ≡ c))
          ⊎ ((differ c left_len right_len ≡ false) × Alternates c (route, after)))

  -- The choice, by the outcomes of its tests.
  abbrev choice :
      WeightedBranchController fl → Bool → Bool → Bool → Bool → Bool × WeightedBranchController fl
  unfolding alternate
  choice c left_ready right_ready left_less right_less =
      if not left_ready || not right_ready
      then alternate fl c
      else if left_less
      then (true, c)
      else if right_less
      then (false, c)
      else alternate fl c

  choice-Balances :
      IsIeee fl
      → (c : WeightedBranchController fl) (left_len right_len : ℕ) (p q x y : Bool)
      → lt (arm_fill c left_len right_len true) (arm_fill c left_len right_len false) ≡ x
      → lt (arm_fill c left_len right_len false) (arm_fill c left_len right_len true) ≡ y
      → (((p && q) ≡ false) × Alternates c (choice c p q x y))
        ⊎ (((p && q) ≡ true) × Balances c left_len right_len (choice c p q x y))
  unfolding alternate
  choice-Balances ieee c left_len right_len false q x y h k = inl (refl, (refl, refl))
  choice-Balances ieee c left_len right_len true false x y h k = inl (refl, (refl, refl))
  choice-Balances ieee c left_len right_len true true true y h k =
      inr (refl, (ieee.lt_asymm _ _ h, inl (rw h refl, refl)))
  choice-Balances ieee c left_len right_len true true false true h k =
      inr (refl, (h, inl (rw (h, k) refl, refl)))
  choice-Balances ieee c left_len right_len true true false false h k =
      inr (refl, (still c.next_alternate_left, inr (rw (h, k) refl, (refl, refl))))
    where
      still :
          (route : Bool)
          → lt (arm_fill c left_len right_len (not route)) (arm_fill c left_len right_len route)
            ≡ false
      still true = k
      still false = h

  -- While an arm is not ready the outputs take turns. When both are ready, the chosen output is
  -- never the fuller one by fill ratio; the outputs take turns if neither is fuller, and otherwise
  -- the controller stays as it is. Comparisons are as in IEEE 754.
  pub choose_route-Balances :
      IsIeee fl
      → (c : WeightedBranchController fl) (left_len right_len : ℕ)
      → ((arms_ready fl c ≡ false) × Alternates c (choose_route fl c left_len right_len))
        ⊎ ((arms_ready fl c ≡ true)
            × Balances c left_len right_len (choose_route fl c left_len right_len))
  unfolding choose_route arms_ready alternate
  choose_route-Balances ieee c left_len right_len =
      choice-Balances ieee c left_len right_len c.left.ready c.right.ready _ _ refl refl
