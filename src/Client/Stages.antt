-- ===== src/Client/Stages.antt =====
-- chain.go and group.go: what the builders hold. The stages of a chain and the members of a group stand
-- in the order in which they were added.
use chronos_go.Common.{Bool, true, false, Option, some, List}
use chronos_go.Refusal.{Refusal}
use chronos_go.World.{Result, ok, err, refused_by_builder, Failure}
use chronos_go.Client.Options.{TaskArgs, EnqueueOption, refuse}

-- A task and its options.
pub record Planned : Type 0 where
  pub args : TaskArgs
  pub opts : List EnqueueOption

mutual
  -- Chain
  pub data Stages : Type 0 where
    new_chain : Stages
    task_stage : Planned → Stages → Stages
    group_stage : Group → Stages → Stages
    nil_group_stage : Stages → Stages

  -- Group: its members, and its callback if it has one
  pub data Group : Type 0 where
    group_of : Members → Option Planned → Group

  pub data Members : Type 0 where
    new_group : Members
    task_member : Planned → Members → Members
    chain_member : Stages → Members → Members
    nil_chain_member : Members → Members

-- Then
unfoldable pub then_task : Stages → Planned → Stages
then_task new_chain p = task_stage p new_chain
then_task (task_stage q rest) p = task_stage q (then_task rest p)
then_task (group_stage g rest) p = group_stage g (then_task rest p)
then_task (nil_group_stage rest) p = nil_group_stage (then_task rest p)

-- ThenGroup
unfoldable pub then_group : Stages → Group → Stages
then_group new_chain g = group_stage g new_chain
then_group (task_stage q rest) g = task_stage q (then_group rest g)
then_group (group_stage h rest) g = group_stage h (then_group rest g)
then_group (nil_group_stage rest) g = nil_group_stage (then_group rest g)

unfoldable pub append_member : Members → (Members → Members) → Members
append_member new_group last = last new_group
append_member (task_member p rest) last = task_member p (append_member rest last)
append_member (chain_member c rest) last = chain_member c (append_member rest last)
append_member (nil_chain_member rest) last = nil_chain_member (append_member rest last)

-- Add
unfoldable pub add_task : Group → Planned → Group
unfolding append_member
add_task (group_of ms cb) p = group_of (append_member ms (task_member p)) cb

-- AddChain
unfoldable pub add_chain : Group → Stages → Group
unfolding append_member
add_chain (group_of ms cb) c = group_of (append_member ms (chain_member c)) cb

-- OnComplete
unfoldable pub on_complete : Group → Planned → Group
on_complete (group_of ms cb) p = group_of ms (some p)

-- A builder stops at its first refusal.
abbrev pub refuse_if : Bool → Refusal → Result (Unit {0})
refuse_if false refusal = ok tt
refuse_if true refusal = refuse refusal

infixl 10 ◌>>=◌ ◌>>◌
abbrev pub ◌>>=◌ : {A B : Type 0} → Result A → (A → Result B) → Result B
err failure >>= step = err failure
ok made >>= step = step made

abbrev pub ◌>>◌ : {B : Type 0} → Result (Unit {0}) → Result B → Result B
checked >> step = checked >>= λ tt. step

-- fmt.Errorf("…: %w", err)
abbrev pub wrap_failure : (Refusal → Refusal) → Failure → Failure
wrap_failure f (refused_by_builder e) = refused_by_builder (f e)
wrap_failure f other = other

abbrev pub wrapped : {A : Type 0} → (Refusal → Refusal) → Result A → Result A
wrapped f (ok a) = ok a
wrapped f (err e) = err (wrap_failure f e)
