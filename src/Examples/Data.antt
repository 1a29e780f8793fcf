-- ===== src/Examples/Data.antt =====
-- Inputs for the examples.
use chronos_go.Common.{pos, Text, codes, false, [], ◌∷◌}
use chronos_go.Keys.{Keys, default_prefix}
use chronos_go.Task.{TaskMessage, ChainLink}
use chronos_go.Wrr.{QueueMap}
use chronos_go.World.{World, lost}
use chronos_go.Retry.{GoError, plain}
use chronos_go.Rdb.Group.{link_message}
use chronos_go.Examples.Store.{store, Cell, empty_cell, message}

abbrev pub keys : Keys
keys = record { prefix = default_prefix }

abbrev pub mail : Text
mail = codes "mail"

abbrev pub two_queues : QueueMap
two_queues = (codes "low", pos 1) ∷ (codes "high", pos 3) ∷ []

abbrev pub send_link : ChainLink
send_link = record {
  kind = codes "send";
  payload = [];
  queue = mail;
  max_retry = 3;
  no_archive = false;
  retention = 0;
  delay = 0;
  group = [];
}

-- A task that is the first of a chain of two.
abbrev pub sample : TaskMessage
sample = record (link_message (codes "a") send_link) {
  kind = codes "render";
  chain = send_link ∷ [];
  chain_id = codes "c";
}

abbrev pub boom : GoError
boom = plain (codes "boom")

-- Each key holds an entry that was delivered and not acknowledged.
abbrev pub delivered : Text → Cell
delivered k = record empty_cell {
  pending = record { stream_id = 1; task_id = codes "a" } ∷ [];
  last = 1;
}

abbrev pub nothing : Text → Cell
nothing k = empty_cell

-- The reply to the first call is lost.
abbrev pub one_lost : World store
unfolding store
one_lost = record {
  db = delivered;
  clock = 1000000000;
  known = [];
  turns = record { fault = lost; elapsed = 5000000 } ∷ [];
}

-- All calls are answered.
abbrev pub calm_world : World store
unfolding store
calm_world = record { db = nothing; clock = 1000000000; known = []; turns = [] }

-- A message as the store keeps it.
unfoldable pub body : TaskMessage → store.Datum
unfolding store
body m = message m
