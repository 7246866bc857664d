-- ===== src/Runtime/Bus.antt =====
-- `SparseMessage`, `PublishResult` and `SparseMessageBus` of backend/app/runtime.py. The set of
-- fingerprints is a list that is read by membership. An evidence identifier is a string already.
use Prim.Native.String.{compare}
use Prim.Native.Nat.{Ordering}
use project_town.Base.{
  ℕ, String, ◌≡◌, refl, inl, inr, Bool, true, false, Option, none, some, List, [], ◌∷◌, ◌++◌, any,
  arith, ◌==◌, eq_refl, Bool-cases, if◌then◌else◌,
}
use project_town.Runtime.Json.{Json, null, str, arr, obj, Items, nil, cons, end, field}

-- The arguments of `publish`.
pub record SparseMessage : Type 0 where
  pub task_id : String
  pub state_version : ℕ
  pub sender : String
  pub recipient : String
  pub evidence_ids : List String
  pub expected_reply : Option String
  pub payload : Json

pub record PublishResult : Type 0 where
  pub accepted : Bool
  pub reason : String
  pub published : SparseMessage

pub record SparseMessageBus : Type 0 where
  pub messages : List SparseMessage
  pub fingerprints : List String

abbrev pub empty_bus : SparseMessageBus
empty_bus = record { messages = []; fingerprints = [] }

-- `sorted({…})`: ascending, each once.
abbrev pub insert_unique : String → List String → List String
insert_unique id [] = id ∷ []
insert_unique id (x ∷ xs) = elim (compare id x) [
  | Ordering.lt ↦ id ∷ x ∷ xs
  | Ordering.eq ↦ x ∷ xs
  | Ordering.gt ↦ x ∷ insert_unique id xs
]

unfoldable pub sorted_set : List String → List String
sorted_set [] = []
sorted_set (id ∷ ids) = insert_unique id (sorted_set ids)

abbrev items : List String → Items
items [] = nil
items (id ∷ ids) = cons (str id) (items ids)

abbrev reply : Option String → Json
reply none = null
reply (some text) = str text

-- What `stable_hash` is called with; the state version is not part of it.
abbrev pub fingerprint_of : SparseMessage → Json
fingerprint_of m = obj (
    field "task_id" (str m.task_id) (
      field "sender" (str m.sender) (
        field "recipient" (str m.recipient) (
          field "payload" m.payload (
            field "evidence_ids" (arr (items m.evidence_ids))
              (field "expected_reply" (reply m.expected_reply) end))))))

-- `publish`, on its arguments as a message whose evidence is not sorted yet.
unfoldable pub publish :
    (Json → String) → SparseMessage → SparseMessageBus → SparseMessageBus × PublishResult
unfolding sorted_set
publish stable_hash given bus =
    let message : SparseMessage = record given { evidence_ids = sorted_set given.evidence_ids } in
    let fingerprint = stable_hash (fingerprint_of message) in
    if any (λ x. x == fingerprint) bus.fingerprints
    then (
      bus,
      record { accepted = false; reason = "duplicate_no_new_evidence"; published = message },
    )
    else (
      record {
        messages = bus.messages ++ message ∷ [];
        fingerprints = fingerprint ∷ bus.fingerprints;
      },
      record { accepted = true; reason = "accepted"; published = message },
    )

unfoldable pub publish_all :
    (Json → String) → List SparseMessage → SparseMessageBus → SparseMessageBus
publish_all stable_hash [] bus = bus
publish_all stable_hash (m ∷ ms) bus = publish_all stable_hash ms (publish stable_hash m bus).0

abbrev pub print_of : (Json → String) → SparseMessage → String
print_of stable_hash given =
    stable_hash (fingerprint_of (record given { evidence_ids = sorted_set given.evidence_ids }))

abbrev Known : String → SparseMessageBus → Type 0
Known print bus = any (λ x. x == print) bus.fingerprints ≡ true

publish-Known :
    (stable_hash : Json → String) (m : SparseMessage) (print : String) (bus : SparseMessageBus)
    → Known print bus
    → Known print (publish stable_hash m bus).0
unfolding publish
publish-Known stable_hash m print bus h =
    elim (Bool-cases (any (λ x. x == print_of stable_hash m) bus.fingerprints)) [
      | inl old ↦ rw old h
      | inr new ↦ rw new (ground (arith, h))
    ]

publish_knows :
    (stable_hash : Json → String) (m : SparseMessage) (bus : SparseMessageBus)
    → Known (print_of stable_hash m) (publish stable_hash m bus).0
unfolding publish
publish_knows stable_hash m bus =
    elim (Bool-cases (any (λ x. x == print_of stable_hash m) bus.fingerprints)) [
      | inl old ↦ rw old old
      | inr new ↦ rw new (ground (arith, eq_refl (print_of stable_hash m)))
    ]

publish_all-Known :
    (stable_hash : Json → String) (ms : List SparseMessage) (print : String)
    (bus : SparseMessageBus)
    → Known print bus
    → Known print (publish_all stable_hash ms bus)
unfolding publish_all
publish_all-Known stable_hash [] print bus h = h
publish_all-Known stable_hash (m ∷ ms) print bus h =
    publish_all-Known stable_hash ms print (publish stable_hash m bus).0
      (publish-Known stable_hash m print bus h)

-- A message that was given to the bus is refused as a duplicate when it is given again, with any
-- state version and after any other messages, and the bus stays as it is.
pub publish_again_refused :
    (stable_hash : Json → String) (m : SparseMessage) (version : ℕ) (between : List SparseMessage)
    (bus : SparseMessageBus)
    → ((publish stable_hash
          (record m { state_version = version })
          (publish_all stable_hash (m ∷ between) bus)).1.accepted
        ≡ false)
      × ((publish stable_hash
            (record m { state_version = version })
            (publish_all stable_hash (m ∷ between) bus)).0
          ≡ publish_all stable_hash (m ∷ between) bus)
unfolding publish publish_all
publish_again_refused stable_hash m version between bus =
    let known =
      publish_all-Known stable_hash between (print_of stable_hash m) (publish stable_hash m bus).0
        (publish_knows stable_hash m bus) in
    (rw known refl, rw known refl)
