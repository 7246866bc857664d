-- ===== src/Gateway/Replays.antt =====
-- What `execute` of backend/app/v1/gateway.py does with an idempotency key that was used before.
use mathlib.Core.Path.{subst}
use project_town.Base.{
  String, ◌≡◌, refl, sym, ap, ◌∙◌, Bool, true, false, not, ◌&&◌, ◌||◌, Option, none, some, arith,
  ◌==◌,
}
use project_town.Base.Result.{Result, ok, err}
use project_town.Runtime.Json.{Fields, obj}
use project_town.Storage.Db.{
  Db, Host, ActionRow, ReceiptStatus, prepared, dispatched, committed, failed, unknown_effect,
  Transaction,
}
use project_town.Storage.Actions.{same_status, find_key, prepare_action, mark_action_unknown}
use project_town.Storage.Lifecycle.{is_final}
use project_town.Gateway.Tools.{
  Tools, ToolGateway, GatewayState, member, receipt_of, app_error, Answer, returned, raised,
  settled, answer_of,
}
use project_town.Gateway.Files.{fine, pre_effect_hash_of}
use project_town.Gateway.Execute.{
  ToolRequest, authorize, prepare_request, safe_retry, reconcile, after_reconcile, by_status,
  on_prepared, execute,
}
use project_town.Base.{eq_refl, Bool-cases, inl, inr}
use project_town.Base.Result.{value_error, idempotency_key_conflict}
use project_town.Storage.Db.{QuestRow}
use project_town.Storage.Events.{find_quest}

either_differs : (a b : Bool) → (a && b) ≡ false → (not a || not b) ≡ true
either_differs true true h = cc
either_differs true false h = refl
either_differs false b h = refl

answer_of-world :
    {World : Type 0} (call : Transaction ActionRow) (s : GatewayState World)
    → (answer_of call s).1.world ≡ s.world
answer_of-world call s = by-result (call s.db)
  where
    by-result : (m : Result (ActionRow × Db)) → (settled m s).1.world ≡ s.world
    by-result (ok (row, db)) = refl
    by-result (err e) = refl

module _ {World : Type 0} (host : Host) (tools : Tools World) (gateway : ToolGateway) (now : String)
    (r : ToolRequest) (arguments : Fields) (effect : Option String) (q : QuestRow) (row : ActionRow)
    (s : GatewayState World) (is_object : r.arguments ≡ obj arguments)
    (allowed : authorize gateway r.tool r.approved ≡ none)
    (seen : pre_effect_hash_of host tools r.workspace r.tool arguments s.world ≡ fine effect)
    (present : find_quest r.quest s.db.quests ≡ some q)
    (used : find_key r.quest r.key s.db.actions ≡ some row) where
  abbrev request_hash : String
  request_hash = host.stable_hash (obj arguments)

  execute_prepares :
      execute host tools gateway now r s
      ≡ on_prepared host tools gateway now
          (prepare_action (prepare_request r arguments request_hash effect) s.db)
          request_hash
          r
          arguments
          s
  unfolding execute
  execute_prepares = rw allowed (rw is_object (rw seen refl))

  prepare_finds :
      row.arguments_hash ≡ request_hash
      → row.tool_name ≡ r.tool
      → prepare_action (prepare_request r arguments request_hash effect) s.db ≡ ok (row, s.db)
  unfolding prepare_action
  prepare_finds hash tool =
      rw present
        (rw used (rw hash (rw tool (ground (arith, eq_refl request_hash, eq_refl r.tool)))))

  execute_finds :
      row.arguments_hash ≡ request_hash
      → row.tool_name ≡ r.tool
      → execute host tools gateway now r s
        ≡ by_status host tools gateway now row.action_status row r.workspace r.tool arguments s
  execute_finds hash tool =
      execute_prepares
      ∙ ap (λ m. on_prepared host tools gateway now m request_hash r arguments s)
          (prepare_finds hash tool)
      ∙ rw (subst (λ x. (x == request_hash) ≡ true) (sym hash) (eq_refl request_hash))
          (rw (subst (λ x. (x == r.tool) ≡ true) (sym tool) (eq_refl r.tool)) refl)

  -- A request whose key has a committed or failed receipt for the same tool and arguments is
  -- answered with that receipt; no tool runs, and the store, the files and the faults stay as they
  -- are. The request is authorised, its quest exists and its path resolves.
  pub execute_replays :
      row.arguments_hash ≡ request_hash
      → row.tool_name ≡ r.tool
      → is_final row.action_status ≡ true
      → execute host tools gateway now r s ≡ (returned (receipt_of row), s)
  execute_replays hash tool final = execute_finds hash tool ∙ by-status row.action_status final
    where
      by-status :
          (status : ReceiptStatus)
          → is_final status ≡ true
          → by_status host tools gateway now status row r.workspace r.tool arguments s
            ≡ (returned (receipt_of row), s)
      by-status committed h = refl
      by-status failed h = refl
      by-status prepared h = cc
      by-status dispatched h = cc
      by-status unknown_effect h = cc

  -- A request that uses its key for other arguments or another tool than before is refused as an
  -- idempotency conflict; no tool runs, and the store, the files and the faults stay as they are.
  -- The request is authorised, its quest exists and its path resolves.
  pub execute_conflicts :
      (row.arguments_hash == request_hash) && (row.tool_name == r.tool) ≡ false
      → execute host tools gateway now r s ≡ (raised (app_error "IDEMPOTENCY_CONFLICT"), s)
  unfolding prepare_action
  execute_conflicts other =
      execute_prepares
      ∙ ap (λ m. on_prepared host tools gateway now m request_hash r arguments s)
          (the_conflict
            (either_differs (row.arguments_hash == request_hash) (row.tool_name == r.tool) other))
    where
      the_conflict :
          (not (row.arguments_hash == request_hash) || not (row.tool_name == r.tool)) ≡ true
          → prepare_action (prepare_request r arguments request_hash effect) s.db
            ≡ err (value_error idempotency_key_conflict)
      the_conflict h = rw present (rw used (rw h refl))

  reconcile_refuses :
      row.tool_name ≡ r.tool
      → (member r.tool gateway.read_only_tools || (r.tool == "write_file")) ≡ false
      → reconcile host tools gateway now row r.workspace arguments s ≡ safe_retry false
  unfolding reconcile
  reconcile_refuses tool effectful =
      let readers : member row.tool_name gateway.read_only_tools ≡ false =
        subst (λ x. member x gateway.read_only_tools ≡ false) (sym tool)
          (ground (arith, effectful)) in
      let writes : (row.tool_name == "write_file") ≡ false =
        subst (λ x. (x == "write_file") ≡ false) (sym tool) (ground (arith, effectful)) in
      rw readers (rw writes refl)

  unsafe_retry-world :
      (after_reconcile host tools gateway now
        (safe_retry false)
        row
        r.workspace
        r.tool
        arguments
        s).1.world
      ≡ s.world
  unsafe_retry-world = elim (Bool-cases (same_status row.action_status dispatched)) [
    | inl live ↦ rw live (answer_of-world (mark_action_unknown row.action_id _) s)
    | inr dead ↦ rw dead refl
  ]

  -- A request whose key has a receipt of unknown or dispatched outcome does not run its tool again,
  -- and the files stay as they are, where the tool is neither read-only nor `write_file`. The
  -- request is authorised, its quest exists and its path resolves.
  pub execute_leaves_unknown :
      row.arguments_hash ≡ request_hash
      → row.tool_name ≡ r.tool
      → (same_status row.action_status dispatched || same_status row.action_status unknown_effect)
        ≡ true
      → (member r.tool gateway.read_only_tools || (r.tool == "write_file")) ≡ false
      → (execute host tools gateway now r s).1.world ≡ s.world
  execute_leaves_unknown hash tool pending effectful =
      ap (λ (x : Answer × GatewayState World). x.1.world) (execute_finds hash tool)
      ∙ by-status row.action_status pending
    where
      settled_world :
          (after_reconcile host tools gateway now
            (reconcile host tools gateway now row r.workspace arguments s)
            row
            r.workspace
            r.tool
            arguments
            s).1.world
          ≡ s.world
      settled_world = rw (reconcile_refuses tool effectful) unsafe_retry-world

      by-status :
          (status : ReceiptStatus)
          → (same_status status dispatched || same_status status unknown_effect) ≡ true
          → (by_status host tools gateway now status row r.workspace r.tool arguments s).1.world
            ≡ s.world
      by-status dispatched h = settled_world
      by-status unknown_effect h = settled_world
      by-status committed h = refl
      by-status failed h = refl
      by-status prepared h = cc
