-- ===== src/Graph/Specs.antt =====
-- src/lib.rs: the records of a graph. A link is its index. Of a node's implementation only
-- `can_merge_state` is asked here; whether it has a factory of reusable outputs is a Boolean.
use Prim.Native.String.{String}
use accumulator.Common.{ℕ, ◌<◌, Bool, Option, List, All}
use accumulator.Float.{Float}
use accumulator.Policy.{ThreadPolicyHints, ResolvedThreadPolicy}

pub record DynNode : Type 0 where
  pub can_merge_state : Bool

pub record FeederLinkConfig : Type 0 where
  pub scheduler_threads : ℕ
  pub water_low : ℕ
  pub water_high : ℕ

pub record StateReturnConfig : Type 0 where
  pub require_merge : Bool

module _ (fl : Float) where
  pub record SingleThreadWeightedBranchConfig : Type 0 where
    pub target_queue_seconds : fl.F
    pub ewma_half_life : ℕ

  pub record GraphNodeSpec : Type 0 where
    pub name : String
    pub stage : Option DynNode
    pub output_acquire_builder : Bool
    pub is_anchor : Bool
    pub thread_hints : ThreadPolicyHints fl
    pub input_link : ℕ
    pub output_links : List ℕ
    pub weighted_branch_config : Option SingleThreadWeightedBranchConfig
    pub external_index : Option ℕ

  pub record PipelineGraph : Type 0 where
    pub input_link : ℕ
    pub output_link : ℕ
    pub link_count : ℕ
    pub nodes : List GraphNodeSpec
    pub external_count : ℕ
    pub state_return : Option StateReturnConfig
    pub feeder_links : List (ℕ × FeederLinkConfig)

  pub record RuntimeNode : Type 0 where
    pub name : String
    pub stage : Option DynNode
    pub output_acquire : Bool
    pub is_anchor : Bool
    pub thread_policy : ResolvedThreadPolicy fl
    pub input_link : ℕ
    pub output_links : List ℕ
    pub weighted_branch_config : Option SingleThreadWeightedBranchConfig
    pub is_external : Bool
    pub external_index : Option ℕ
    pub return_state_on_exit : Bool

-- A node's links are among the first `count`.
abbrev pub LinksBelow : ℕ → ℕ → List ℕ → Type 0
LinksBelow count input_link output_links =
    (input_link < count) × All (λ link. link < count) output_links
