-- ===== src/Storage/Follows.antt =====
-- Histories: a run of consecutive events that leads from one projection to another.
use project_town.Base.{
  ℕ, ◌+◌, ◌≤◌, String, ◌≡◌, ◌≢◌, refl, ap, ◌∙◌, some, List, [], ◌∷◌, ◌++◌, filter, All, arith,
  eq_iff, eq_refl,
}
use project_town.Base.Result.{ok}
use project_town.Runtime.Json.{Fields, obj}
use project_town.Runtime.Reducer.{event, apply}
use project_town.Storage.Db.{Host, QuestRow, EventRow}
use project_town.Storage.Events.{
  event_schema_version, find_quest, update_quest, insert_by_sequence, order_by_sequence, selects,
}
use project_town.Storage.Replay.{replay_rows}

module _ (host : Host) where
  open host use {stable_hash}

  -- From `s` at version `n` the events lead to `t` at version `m`: each has the current schema, the
  -- next sequence number, a patch that applies, and the hash of the state that it leads to.
  abbrev pub Follows : Fields → ℕ → List EventRow → Fields → ℕ → Type 0
  Follows s n [] t m = (s ≡ t) × (n ≡ m)
  Follows s n (e ∷ es) t m =
      (u : Fields) × (e.schema_version ≡ event_schema_version)
      × (e.sequence ≡ n + 1)
      × (apply (some s) (event e.event_type e.payload) ≡ ok u)
      × (stable_hash (obj u) ≡ e.state_hash)
      × Follows u (n + 1) es t m

  pub Follows-append :
      (t u : Fields) (m k : ℕ) (s : Fields) (n : ℕ) (es fs : List EventRow)
      → Follows s n es t m
      → Follows t m fs u k
      → Follows s n (es ++ fs) u k
  Follows-append t u m k s n [] fs h g = rw (h.0, h.1) g
  Follows-append t u m k s n (e ∷ es) fs (v, p, q, r, w, h) g =
      (v, p, q, r, w, Follows-append t u m k v (n + 1) es fs h g)

  -- The loop of `replay` reaches the end of a history, and raises on no event of it.
  pub replay_rows-Follows :
      (t : Fields) (m : ℕ) (s : Fields) (n : ℕ) (es : List EventRow)
      → Follows s n es t m
      → replay_rows host s es ≡ ok t
  unfolding replay_rows
  replay_rows-Follows t m s n [] h = ap ok h.0
  replay_rows-Follows t m s n (e ∷ es) (v, p, q, r, w, h) =
      rw (p, r, w, eq_refl) (replay_rows-Follows t m v (n + 1) es h)

  pub order-Follows :
      (t : Fields) (m : ℕ) (s : Fields) (n : ℕ) (es : List EventRow)
      → Follows s n es t m
      → order_by_sequence es ≡ es
  unfolding order_by_sequence
  order-Follows t m s n [] h = refl
  order-Follows t m s n (e ∷ []) h = refl
  order-Follows t m s n (e ∷ e' ∷ es) (v, p, q, r, w, h) =
      let sorted : order_by_sequence (e' ∷ es) ≡ e' ∷ es =
        order-Follows t m v (n + 1) (e' ∷ es) h in
      let next : e'.sequence ≡ n + 1 + 1 = h.2 in
      ap (insert_by_sequence e) sorted ∙ ground (arith, q, next)

  pub Follows-bounded :
      (t : Fields) (m : ℕ) (s : Fields) (n : ℕ) (es : List EventRow)
      → Follows s n es t m
      → (n ≤ m) × All (λ e. e.sequence ≤ m) es
  Follows-bounded t m s n [] h = (omega arith, tt)
  Follows-bounded t m s n (e ∷ es) (v, p, q, r, w, h) =
      let rest = Follows-bounded t m v (n + 1) es h in
      (omega (arith, rest.0), (omega (arith, q, rest.0), rest.1))

-- No event of the quest lies beyond a bound that all its events keep.
pub selects_beyond :
    (q : String) (v : ℕ) (es : List EventRow)
    → All (λ e. e.sequence ≤ v) (filter (selects q 0) es)
    → filter (selects q v) es ≡ []
unfolding selects
selects_beyond q v [] h = refl
selects_beyond q v (e ∷ es) h = ground (arith, selects_beyond q v es)

pub find_quest-update_quest_self :
    (q : String) (row new : QuestRow) (rows : List QuestRow)
    → find_quest q rows ≡ some row
    → new.quest_id ≡ q
    → find_quest q (update_quest new row.state_version rows) ≡ some new
unfolding find_quest update_quest
find_quest-update_quest_self q row new [] h e = cc
find_quest-update_quest_self q row new (r ∷ rows) h e = ground (
  arith,
  eq_iff r.quest_id q,
  eq_iff r.quest_id new.quest_id,
  eq_iff new.quest_id q,
  find_quest-update_quest_self q row new rows,
)

pub find_quest-update_quest_ne :
    (q : String) (v : ℕ) (new : QuestRow) (rows : List QuestRow)
    → new.quest_id ≢ q
    → find_quest q (update_quest new v rows) ≡ find_quest q rows
unfolding find_quest update_quest
find_quest-update_quest_ne q v new [] h = refl
find_quest-update_quest_ne q v new (r ∷ rows) h = ground (
  arith,
  eq_iff r.quest_id q,
  eq_iff r.quest_id new.quest_id,
  eq_iff new.quest_id q,
  find_quest-update_quest_ne q v new rows h,
)
