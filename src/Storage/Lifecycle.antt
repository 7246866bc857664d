-- ===== src/Storage/Lifecycle.antt =====
-- The operations on receipts as one machine, and what holds along every run of it.
use mathlib.Core.Path.{subst}
use project_town.Base.{
  String, ◌≡◌, refl, sym, ap, ◌∙◌, inl, inr, Bool, true, false, not, ◌&&◌, Option, none, some, List,
  [], ◌∷◌, ◌++◌, arith, nat_eq, is_some, ◌==◌, eq_refl, Bool-cases, Option-cases,
}
use project_town.Base.Result.{Result, ok, err}
use project_town.Runtime.Json.{Fields, obj}
use project_town.Storage.Db.{
  Db, Host, ActionRow, ReceiptStatus, dispatched, committed, failed, unknown_effect, Observation,
}
use project_town.Storage.Events.{find_quest}
use project_town.Storage.Actions.{
  same_status, find_action, find_key, ActionRequest, prepared_row, prepare_action, from_prepared,
  from_dispatched, committable, failable, mark_action_dispatched, commit_action, fail_action,
  mark_action_unknown, interrupt_row, mark_rows_unknown, mark_dispatched_actions_unknown,
  commit_action_with_event,
}
use project_town.Storage.Receipts.{
  Evolves, Evolves-refl, Evolution, Evolution-eq, find_action-append, transition_action-Evolution,
}
use project_town.Storage.Commits.{
  Outcome, repeated, fresh, commit_action_with_event-Outcome, Evolution-Outcome,
  find_action-Committed,
}

-- The calls that write to v1_tool_actions.
pub data Operation : Type 0 where
  prepare : ActionRequest → Operation
  dispatch : String → Operation
  commit : String → Fields → Operation
  commit_with_event : String → Fields → Option Observation → String → Operation
  fail : String → Fields → Operation
  unknown : String → Option Fields → Operation
  interrupt : Operation

abbrev pub tables : Result (ActionRow × Db) → Result Db
tables (ok (row, db)) = ok db
tables (err e) = err e

unfoldable pub run_operation : Host → Operation → Db → Result Db
run_operation host (prepare r) db = tables (prepare_action r db)
run_operation host (dispatch id) db = tables (mark_action_dispatched id db)
run_operation host (commit id result) db = tables (commit_action id result db)
run_operation host (commit_with_event id result observation now) db =
    tables (commit_action_with_event host id result observation now db)
run_operation host (fail id error) db = tables (fail_action id error db)
run_operation host (unknown id error) db = tables (mark_action_unknown id error db)
run_operation host interrupt db = ok (mark_dispatched_actions_unknown db).1

-- A caller that goes on after a refusal: the transaction was rolled back.
abbrev pub kept_or : Result Db → Db → Db
kept_or (ok db') db = db'
kept_or (err e) db = db

unfoldable pub run_operations : Host → List Operation → Db → Db
unfolding run_operation
run_operations host [] db = db
run_operations host (op ∷ ops) db = run_operations host ops (kept_or (run_operation host op db) db)

actions_of : Result Db → List ActionRow
actions_of (ok db) = db.actions
actions_of (err e) = []

tables-eq-ok :
    (m : Result (ActionRow × Db)) (db' : Db)
    → tables m ≡ ok db'
    → (row : ActionRow) × (m ≡ ok (row, db'))
tables-eq-ok (ok (row, db)) db' h = (row, ground arith)
tables-eq-ok (err e) db' h = cc

prepare_action-Evolution :
    (r : ActionRequest) (db : Db) (row : ActionRow) (db' : Db)
    → prepare_action r db ≡ ok (row, db')
    → Evolution db.actions db'.actions
unfolding prepare_action
prepare_action-Evolution r db row db' h = elim (Option-cases (find_quest r.quest db.quests)) [
  | inl absent ↦ absurd (ground (arith, absent))
  | inr (q, present) ↦ elim (Option-cases (find_key r.quest r.key db.actions)) [
    | inl new ↦
        elim (Bool-cases (
          nat_eq q.state_version r.expected_state_version
          && not (is_some (find_action r.id db.actions)))) [
            | inl inserts ↦
                let wrote : db'.actions ≡ db.actions ++ prepared_row r ∷ [] =
                  ground (arith, present, new, inserts) in
                λ a x found. (
                  x,
                  ap (find_action a) wrote
                      ∙ find_action-append a x (prepared_row r) db.actions found,
                  Evolves-refl x,
                )
            | inr refused ↦ absurd (ground (arith, present, new, refused))
          ]
    | inr (old, found) ↦ Evolution-eq db.actions db'.actions (ground (arith, present, found))
  ]
]

interrupt_row-Evolves : (row : ActionRow) → Evolves row (interrupt_row row)
unfolding interrupt_row
interrupt_row-Evolves row = elim (Bool-cases (same_status row.action_status dispatched)) [
  | inl live ↦ rw live (record {
    id = refl;
    quest = refl;
    key = refl;
    tool = refl;
    hash = refl;
    moved = inr (ground (arith, live));
  })
  | inr settled ↦ rw settled (Evolves-refl row)
]

find_action-mark_rows_unknown :
    (a : String) (row : ActionRow) (rows : List ActionRow)
    → find_action a rows ≡ some row
    → find_action a (mark_rows_unknown rows) ≡ some (interrupt_row row)
unfolding find_action mark_rows_unknown
find_action-mark_rows_unknown a row [] h = cc
find_action-mark_rows_unknown a row (r ∷ rows) h =
    rw (interrupt_row-Evolves r).id (elim (Bool-cases (r.action_id == a)) [
      | inl here ↦ ground (arith, here)
      | inr on ↦ rw on (find_action-mark_rows_unknown a row rows (rw on at h))
    ])

-- Every operation that returns evolves the table.
run_operation-Evolution :
    (host : Host) (op : Operation) (db db' : Db)
    → run_operation host op db ≡ ok db'
    → Evolution db.actions db'.actions
unfolding run_operation actions_of
run_operation-Evolution host (prepare r) db db' h =
    let (row, done) = tables-eq-ok (prepare_action r db) db' h in
    prepare_action-Evolution r db row db' done
run_operation-Evolution host (dispatch id) db db' h =
    let (row, done) = tables-eq-ok (mark_action_dispatched id db) db' h in
    transition_action-Evolution id from_prepared dispatched none none db row db'
      (λ s e. ground arith) (unfold mark_action_dispatched in done)
run_operation-Evolution host (commit id result) db db' h =
    let (row, done) = tables-eq-ok (commit_action id result db) db' h in
    transition_action-Evolution id committable committed (some result) none db row db'
      (λ s e. ground arith) (unfold commit_action in done)
run_operation-Evolution host (commit_with_event id result observation now) db db' h =
    let (row, done) =
      tables-eq-ok (commit_action_with_event host id result observation now db) db' h in
    Evolution-Outcome host id result observation now db row db'
      (commit_action_with_event-Outcome host id result observation now db row db' done)
run_operation-Evolution host (fail id error) db db' h =
    let (row, done) = tables-eq-ok (fail_action id error db) db' h in
    transition_action-Evolution id failable failed none (some error) db row db'
      (λ s e. ground arith) (unfold fail_action in done)
run_operation-Evolution host (unknown id error) db db' h =
    let (row, done) = tables-eq-ok (mark_action_unknown id error db) db' h in
    transition_action-Evolution id from_dispatched unknown_effect none error db row db'
      (λ s e. ground arith) (unfold mark_action_unknown in done)
run_operation-Evolution host interrupt db db' h =
    let wrote : mark_rows_unknown db.actions ≡ db'.actions =
      unfold mark_dispatched_actions_unknown in ap actions_of h in
    λ a r found. (
      interrupt_row r,
      ap (find_action a) (sym wrote) ∙ find_action-mark_rows_unknown a r db.actions found,
      interrupt_row-Evolves r,
    )

-- A run of operations, refused ones included, evolves every receipt or moves it several times.
pub data Later (r : ActionRow) : ActionRow → Type 0 where
  here : Later r r
  next : {x y : ActionRow} → Later r x → Evolves x y → Later r y

one_Later :
    (host : Host) (a : String) (r x : ActionRow) (op : Operation) (db : Db)
    → find_action a db.actions ≡ some x
    → Later r x
    → (y : ActionRow) × (find_action a (kept_or (run_operation host op db) db).actions ≡ some y)
      × Later r y
one_Later host a r x op db found h = settle (run_operation host op db) refl
  where
    settle :
        (m : Result Db)
        → run_operation host op db ≡ m
        → (y : ActionRow) × (find_action a (kept_or m db).actions ≡ some y) × Later r y
    settle (ok db') e =
        let (y, there, ev) = run_operation-Evolution host op db db' e a x found in
        (y, there, next h ev)
    settle (err e') e = (x, found, h)

-- Every receipt is still there after any run, and has only moved along the lifecycle.
pub run_operations-Later :
    (host : Host) (a : String) (r x : ActionRow) (ops : List Operation) (db : Db)
    → find_action a db.actions ≡ some x
    → Later r x
    → (y : ActionRow) × (find_action a (run_operations host ops db).actions ≡ some y) × Later r y
unfolding run_operations
run_operations-Later host a r x [] db found h = (x, found, h)
run_operations-Later host a r x (op ∷ ops) db found h =
    let (y, there, later) = one_Later host a r x op db found h in
    run_operations-Later host a r y ops (kept_or (run_operation host op db) db) there later

abbrev pub is_final : ReceiptStatus → Bool
is_final committed = true
is_final failed = true
is_final _ = false

Evolves-final : {r y : ActionRow} → is_final r.action_status ≡ true → Evolves r y → y ≡ r
Evolves-final {r} {y} h ev = elim ev.moved [
  | inl same ↦ same
  | inr step ↦ absurd (ground (arith, step))
]

Later-final : {r y : ActionRow} → is_final r.action_status ≡ true → Later r y → y ≡ r
Later-final h here = refl
Later-final h (next later ev) =
    let before = Later-final h later in
    Evolves-final (subst (λ (x : ActionRow). is_final x.action_status ≡ true) (sym before) h) ev
    ∙ before

-- A committed or failed receipt stays as it is, its result, error and event included, whatever
-- operations follow, refused ones included.
pub final_receipt_stays :
    (host : Host) (a : String) (r : ActionRow) (ops : List Operation) (db : Db)
    → find_action a db.actions ≡ some r
    → is_final r.action_status ≡ true
    → find_action a (run_operations host ops db).actions ≡ some r
final_receipt_stays host a r ops db found final =
    let (y, there, later) = run_operations-Later host a r r ops db found here in
    there ∙ ap some (Later-final final later)

-- The request of a receipt never changes: its quest, idempotency key, tool and arguments hash.
Later-request :
    {r y : ActionRow}
    → Later r y
    → (y.action_quest ≡ r.action_quest)
      × (y.idempotency_key ≡ r.idempotency_key)
      × (y.tool_name ≡ r.tool_name)
      × (y.arguments_hash ≡ r.arguments_hash)
Later-request here = (refl, refl, refl, refl)
Later-request (next later ev) =
    let (q, k, t, h) = Later-request later in (ev.quest ∙ q, ev.key ∙ k, ev.tool ∙ t, ev.hash ∙ h)

committed_answers :
    (host : Host) (id : String) (result stored : Fields) (o : Option Observation) (now : String)
    (db : Db) (out : ActionRow)
    → find_action id db.actions ≡ some out
    → out.action_status ≡ committed
    → out.result ≡ some stored
    → (host.dumps (obj stored) == host.dumps (obj result)) ≡ true
    → is_some out.committed_event ≡ true
    → commit_action_with_event host id result o now db ≡ ok (out, db)
unfolding commit_action_with_event
committed_answers host id result stored o now db out found done kept equal linked =
    rw found (simp (done, kept, equal, linked))

-- Repeating a commit that returned gives the same receipt and changes nothing, whatever observation
-- and time the repetition comes with.
pub commit_action_with_event_repeat :
    (host : Host) (id : String) (result : Fields) (o o' : Option Observation) (now now' : String)
    (db : Db) (out : ActionRow) (db' : Db)
    → commit_action_with_event host id result o now db ≡ ok (out, db')
    → commit_action_with_event host id result o' now' db' ≡ ok (out, db')
commit_action_with_event_repeat host id result o o' now now' db out db' h =
    settle (commit_action_with_event-Outcome host id result o now db out db' h)
  where
    settle :
        Outcome host id result o now db out db'
        → commit_action_with_event host id result o' now' db' ≡ ok (out, db')
    settle (repeated found done stored kept equal linked same) =
        committed_answers host id result stored o' now' db' out
          (ap (λ (d : Db). find_action id d.actions) same ∙ found) done kept equal linked
    settle (fresh row found allowed c) =
        committed_answers host id result result o' now' db' out
          (find_action-Committed host id row result o now db out db' found c)
          (ap (λ (x : ActionRow). x.action_status) c.linked)
          (ap (λ (x : ActionRow). x.result) c.linked) (eq_refl (host.dumps (obj result)))
          (ap (λ (x : ActionRow). is_some x.committed_event) c.linked)
