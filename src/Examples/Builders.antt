-- ===== src/Examples/Builders.antt =====
-- A group and a chain, as the builders take them and as they refuse them.
use chronos_go.Common.{
  ◌+◌, ◌*◌, ◌≡◌, ◌<◌, refl, Text, codes, pos, true, false, some, [], ◌∷◌, arith, decimal,
}
use chronos_go.Refusal.{at_member, discard_strands}
use chronos_go.Task.{TaskMessage, ChainLink}
use chronos_go.World.{err, ok, refused_by_builder}
use chronos_go.Rdb.Enqueue.{second}
use chronos_go.Server.Process.{member_id}
use chronos_go.Client.Options.{
  EnqueueOptions, with_queue, with_process_in, with_dead_letter_discard, default_options, apply,
  capture_relative_delay,
}
use chronos_go.Client.Dispatch.{options_message}
use chronos_go.Client.Stages.{
  Planned, Stages, new_chain, task_stage, group_stage, Group, group_of, new_group, task_member,
  chain_member,
}
use chronos_go.Client.Chain.{first_message, snapshot_chain}
use chronos_go.Client.Group.{
  PendingMember, enqueue_group, snapshot_group, in_group, group_member_ids,
}
use chronos_go.Client.Refused.{enqueue_group-refused}
use chronos_go.Client.Sound.{ReportBy, size_of, snapshot_group-ReportBy}
use chronos_go.Client.Tail.{KeptButLast, StagesInTime, snapshot_chain-CanResume}
use chronos_go.Client.Delay.{capture-with_process_in}
use chronos_go.Examples.Store.{store}
use chronos_go.Examples.Data.{keys, mail, calm_world}

abbrev job : Text → Planned
job name = record {
  args = record { kind = name; json = some (codes "{}") };
  opts = with_queue mail ∷ with_process_in (pos (3 * second)) ∷ [];
}

abbrev discarded : Planned
discarded = record {
  args = record { kind = codes "part"; json = some (codes "{}") };
  opts = with_dead_letter_discard ∷ [];
}

abbrev last_one : Planned
last_one = record {
  args = record { kind = codes "part"; json = some (codes "{}") };
  opts = with_queue mail ∷ with_dead_letter_discard ∷ [];
}

abbrev refused_group : Group
refused_group = group_of (task_member discarded new_group) (some (job (codes "done")))

refused :
    (enqueue_group store keys (λ s. s) (codes "g") refused_group calm_world).0
    ≡ err (refused_by_builder (at_member 0 discard_strands))
unfolding enqueue_group store
refused = refl

enqueue_group-refused_example :
    (snapshot_group calm_world.clock (codes "g") refused_group
      ≡ err (refused_by_builder (at_member 0 discard_strands)))
    × ((enqueue_group store keys (λ s. s) (codes "g") refused_group calm_world).1 ≡ calm_world)
enqueue_group-refused_example =
    enqueue_group-refused store keys (λ s. s) (codes "g") refused_group calm_world
      (at_member 0 discard_strands) refused

-- One task, and one chain of two links.
abbrev two_members : Group
two_members =
    group_of
      (task_member (job (codes "a")) (
        chain_member (task_stage (job (codes "b")) (task_stage (job (codes "c")) new_chain))
          new_group))
      (some (job (codes "done")))

abbrev waiting : EnqueueOptions
waiting = record default_options { queue = mail; process_at = some (100 + 3 * second) }

abbrev link : Text → ChainLink
link name = record {
  kind = name;
  payload = codes "{}";
  queue = mail;
  max_retry = 25;
  no_archive = false;
  retention = 0;
  delay = 3;
  group = [];
}

abbrev first_of_two : PendingMember
first_of_two = record {
  msg =
      in_group (codes "g") (link (codes "done")) 0 2
        (options_message (codes "g:m0") (codes "a") (codes "{}") waiting);
  options = waiting;
}

abbrev second_of_two : PendingMember
second_of_two = record {
  msg =
      record (in_group (codes "g") (link (codes "done")) 1 2
        (first_message (codes "g:m1") (codes "b") (codes "{}") (link (codes "c") ∷ []) waiting)) {
          group_member_id = codes "g:m1";
        };
  options = waiting;
}

passes :
    snapshot_group 100 (codes "g") two_members
    ≡ ok (link (codes "done"), first_of_two ∷ second_of_two ∷ [])
unfolding snapshot_group member_id decimal
passes = refl

snapshot_group-ReportBy_example :
    (0 < size_of two_members)
    × ReportBy store keys 100
        (codes "g")
        (link (codes "done"))
        (size_of two_members)
        0
        (group_member_ids (codes "g") two_members)
        (first_of_two ∷ second_of_two ∷ [])
snapshot_group-ReportBy_example =
    snapshot_group-ReportBy store keys 100 (codes "g") two_members passes

-- A task, a group of one, and a last task that may be discarded.
abbrev three_stages : Stages
three_stages = task_stage (job (codes "a")) (
    group_stage (group_of (task_member (job (codes "b")) new_group) (some (job (codes "c"))))
      (task_stage last_one new_chain))

abbrev first_task : TaskMessage
first_task =
    first_message (codes "c") (codes "a") (codes "{}")
      (record (link (codes "c")) {
        group =
            record {
              kind = codes "b";
              payload = codes "{}";
              queue = mail;
              max_retry = 25;
              retention = 0;
              delay = 3;
            }
            ∷ [];
      }
        ∷ record (link (codes "part")) { no_archive = true; delay = 0 }
        ∷ [])
      waiting

takes_chain : snapshot_chain 100 (codes "c") three_stages ≡ ok (first_task, waiting)
unfolding snapshot_chain
takes_chain = refl

snapshot_chain-CanResume_example :
    KeptButLast (false ∷ false ∷ true ∷ []) × StagesInTime first_task.chain
snapshot_chain-CanResume_example = snapshot_chain-CanResume 100 (codes "c") three_stages takes_chain

capture-with_process_in_example :
    capture_relative_delay
      (100 + 7)
      (apply 100 (with_process_in (pos (90 * second))) default_options)
    ≡ 90
capture-with_process_in_example = capture-with_process_in 100 7 90 default_options (omega arith)
