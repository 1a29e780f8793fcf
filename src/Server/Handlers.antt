-- ===== src/Server/Handlers.antt =====
-- handler.go: the Mux, which routes tasks to handlers by their kind. The arguments that a handler
-- decodes and the results that it returns are of any types; `quoted` is a text as the format %q has it.
use chronos_go.Common.{
  ℕ, ltb, ◌≡◌, Text, eq_text, codes, decimal, true, if◌then◌else◌, Option, none, some, List, [],
  ◌∷◌, ◌++◌, length,
}
use chronos_go.Keys.{Keys}
use chronos_go.Redis.{Redis}
use chronos_go.Task.{TaskMessage}
use chronos_go.World.{pure, ◌>>◌}
use chronos_go.Retry.{GoError, plain, skip_retry, wrap, error_text, as_skip_retry}
use chronos_go.Server.Process.{
  Outcome, succeeded, failed, outcome_dead_letter, dead_letter, process, process_failure,
}

-- internalHandler: the result it stores in the message is in the outcome.
abbrev pub InternalHandler : Type 0
InternalHandler = TaskMessage → Outcome

-- Mux
abbrev pub Mux : Type 0
Mux = List (Text × InternalHandler)

unfoldable pub handler_of : Mux → Text → Option InternalHandler
handler_of [] kind = none
handler_of ((k, h) ∷ mux) kind =
    let found = handler_of mux kind in if eq_text k kind then some h else found

-- Registering a handler; none where the code panics.
unfoldable pub register_handler : Mux → Text → InternalHandler → Option Mux
unfolding handler_of
register_handler mux kind h = elim (handler_of mux kind) [
  | some other ↦ none
  | none ↦ some ((kind, h) ∷ mux)
]

-- MaxResultSize
abbrev pub max_result_size : ℕ
max_result_size = 1048576

-- ErrResultTooLarge
abbrev pub result_too_large : GoError
result_too_large = plain (codes "chronos: result exceeds MaxResultSize")

-- What decodeArgs, a handler or json.Marshal return.
pub data Returned (A : Type 0) : Type 0 where
  value : A → Returned A
  error : GoError → Returned A

module _ (quoted : Text → Text) where
  -- fmt.Errorf with %w as its last verb
  abbrev wrapped : Text → GoError → GoError
  wrapped text e = wrap (text ++ codes ": " ++ error_text e) e

  unfoldable pub decode_error : Text → GoError → Outcome
  decode_error kind e =
      failed (wrapped (codes "chronos: decode payload for kind " ++ quoted kind) e)

  -- The handler of AddHandler.
  unfoldable pub plain_handler :
      {A : Type 0}
      → Text
      → (Text → Returned A)
      → (A → TaskMessage → Returned (Unit {0}))
      → InternalHandler
  unfolding decode_error
  plain_handler kind decode_args fn m = elim (decode_args m.payload) [
    | error e ↦ decode_error kind e
    | value args ↦ elim (fn args m) [ error e ↦ failed e | value _ ↦ succeeded [] ]
  ]

  abbrev pub too_large : Text → Text → GoError
  too_large kind b =
      wrapped
        (codes "chronos: kind "
          ++ quoted kind
          ++ codes " result is "
          ++ decimal (length b)
          ++ codes " bytes")
        result_too_large

  -- What becomes of a result, as JSON.
  unfoldable pub result_outcome : Text → Returned Text → Outcome
  result_outcome kind (error e) =
      failed (skip_retry (wrapped (codes "chronos: marshal result for kind " ++ quoted kind) e))
  result_outcome kind (value b) =
      if ltb max_result_size (length b) then failed (skip_retry (too_large kind b)) else succeeded b

  unfoldable pub returned_outcome : {B : Type 0} → Text → (B → Returned Text) → Returned B → Outcome
  unfolding result_outcome
  returned_outcome kind marshal (error e) = failed e
  returned_outcome kind marshal (value res) = result_outcome kind (marshal res)

  -- The handler of AddHandlerR.
  unfoldable pub result_handler :
      {A B : Type 0}
      → Text
      → (Text → Returned A)
      → (A → TaskMessage → Returned B)
      → (B → Returned Text)
      → InternalHandler
  unfolding decode_error returned_outcome
  result_handler kind decode_args fn marshal m = elim (decode_args m.payload) [
    | error e ↦ decode_error kind e
    | value args ↦ returned_outcome kind marshal (fn args m)
  ]

  -- dispatch
  unfoldable pub dispatch : Mux → TaskMessage → Outcome
  unfolding handler_of
  dispatch mux m = elim (handler_of mux m.kind) [
    | none ↦ failed (plain (codes "chronos: no handler registered for kind " ++ quoted m.kind))
    | some h ↦ h m
  ]

module _ (r : Redis) (ks : Keys) (quoted : Text → Text) (retry_delay : ℕ → GoError → ℕ) where
  -- A result that is too large takes the task to the dead letters at once, whatever retries are left.
  process-too_large :
      (q kind : Text) (stream_id : ℕ) (m : TaskMessage) (b : Text)
      → ltb max_result_size (length b) ≡ true
      → process r ks retry_delay q stream_id m (result_outcome quoted kind (value b)) ≡ (
          dead_letter r ks q stream_id m (skip_retry (too_large quoted kind b))
          >> pure outcome_dead_letter)
  unfolding process process_failure result_outcome as_skip_retry
  process-too_large q kind stream_id m b large = simp large
