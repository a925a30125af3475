-- ===== src/Solver/Round/Sources.antt =====
-- Where the intents of a batch come from.
use blindmarkets.Base.{
  ◌≡◌, refl, ◌∙◌, ◌≤◌, not, List, [], ◌∷◌, Option, none, some, unwrap_or, Text, text_eq,
  text_eq_iff, retain, any, is_empty, length, is_some, sym, if◌then◌else◌, arith,
}
use blindmarkets.Solver.Matching.{SolverIntent}
use blindmarkets.Solver.Monitor.{parse_intent}
use blindmarkets.Solver.Inbox.{fetch_solver_intents}
use blindmarkets.Solver.Round.{
  Setup, has_id, push, insert, insert_all, find_intent, missing_of, complete, take_ordered,
}

-- The first answer, if there is one, else the second.
abbrev pub first_of : Option SolverIntent → Option SolverIntent → Option SolverIntent
first_of none other = other
first_of (some intent) other = some intent

-- The last of the intents with the id.
unfoldable pub latest : Text → List SolverIntent → Option SolverIntent
latest id [] = none
latest id (intent ∷ intents) =
    first_of (latest id intents) (if text_eq intent.intent_id id then some intent else none)

-- What the solver holds before it asks the gateway: the last from the websocket counts, then the map.
abbrev pub held_for : List SolverIntent → List SolverIntent → Text → Option SolverIntent
held_for buffered pending id = first_of (latest id buffered) (find_intent id pending)

-- What the gateway answers for the ids that are not held.
unfoldable pub fetched_for :
    Setup → List Text → List SolverIntent → List SolverIntent → List SolverIntent
fetched_for s ids buffered pending =
    let missing = retain (λ id. not (is_some (held_for buffered pending id))) ids in
    if is_empty missing
    then []
    else unwrap_or
        (fetch_solver_intents s.primitives s.solver_private_key (parse_intent s.from_slice)
          s.get_solver_intents missing)
        []

-- The intent of an id: the last that the gateway has answered, else the one that is held.
abbrev pub source_of :
    Setup → List Text → List SolverIntent → List SolverIntent → Text → Option SolverIntent
source_of s ids buffered pending id =
    first_of (latest id (fetched_for s ids buffered pending)) (held_for buffered pending id)

-- The intents of the ids, in their order.
pub data Taken (source : Text → Option SolverIntent) : List Text → List SolverIntent → Type 0 where
  nothing : Taken source [] []
  taken :
      {id : Text} {ids : List Text} {intent : SolverIntent} {intents : List SolverIntent}
      → source id ≡ some intent
      → Taken source ids intents
      → Taken source (id ∷ ids) (intent ∷ intents)

find_intent-retain :
    (id other : Text) (pending : List SolverIntent)
    → find_intent id (retain (λ intent. not (has_id other intent)) pending)
      ≡ (if text_eq other id then none else find_intent id pending)
unfolding find_intent retain
find_intent-retain id other [] = ground arith
find_intent-retain id other (intent ∷ pending) = ground (
  arith,
  text_eq_iff other id,
  text_eq_iff intent.intent_id id,
  text_eq_iff intent.intent_id other,
  find_intent-retain id other pending,
)

find_intent-insert :
    (id : Text) (intent : SolverIntent) (pending : List SolverIntent)
    → find_intent id (insert intent pending)
      ≡ first_of
          (if text_eq intent.intent_id id then some intent else none)
          (find_intent id pending)
unfolding find_intent insert
find_intent-insert id intent pending =
    ground (arith, find_intent-retain id intent.intent_id pending)

pub find_intent-insert_all :
    (id : Text) (intents pending : List SolverIntent)
    → find_intent id (insert_all intents pending)
      ≡ first_of (latest id intents) (find_intent id pending)
unfolding insert_all latest
find_intent-insert_all id [] pending = refl
find_intent-insert_all id (intent ∷ intents) pending = ground (
  arith,
  find_intent-insert_all id intents (insert intent pending),
  find_intent-insert id intent pending,
)

any-has_id :
    (id : Text) (pending : List SolverIntent)
    → any (has_id id) pending ≡ is_some (find_intent id pending)
unfolding any find_intent
any-has_id id [] = refl
any-has_id id (intent ∷ pending) = ground (arith, any-has_id id pending)

missing_of-held_for :
    (ids : List Text) (buffered pending : List SolverIntent)
    → missing_of ids (insert_all buffered pending)
      ≡ retain (λ id. not (is_some (held_for buffered pending id))) ids
unfolding missing_of retain
missing_of-held_for [] buffered pending = refl
missing_of-held_for (id ∷ ids) buffered pending = ground (
  arith,
  any-has_id id (insert_all buffered pending),
  find_intent-insert_all id buffered pending,
  missing_of-held_for ids buffered pending,
)

pub find_intent-complete :
    (s : Setup) (id : Text) (ids : List Text) (buffered pending : List SolverIntent)
    → find_intent id (complete s ids (insert_all buffered pending))
      ≡ source_of s ids buffered pending id
unfolding complete fetched_for latest
find_intent-complete s id ids buffered pending =
    let missing = retain (λ id. not (is_some (held_for buffered pending id))) ids in
    ground (
      arith,
      missing_of-held_for ids buffered pending,
      find_intent-insert_all id buffered pending,
      find_intent-insert_all id
          (unwrap_or
            (fetch_solver_intents s.primitives s.solver_private_key (parse_intent s.from_slice)
              s.get_solver_intents missing)
            [])
          (insert_all buffered pending),
    )

-- The list is no longer than the ids, and where it is as long it has the intents of just these ids.
abbrev pub Covers : (Text → Option SolverIntent) → List Text → List SolverIntent → Type 0
Covers source ids intents =
    (length intents ≤ length ids) × (length intents ≡ length ids → Taken source ids intents)

push-Covers :
    (source : Text → Option SolverIntent) (id : Text) (ids : List Text)
    (intents : List SolverIntent) (found : Option SolverIntent)
    → ((intent : SolverIntent) → found ≡ some intent → source id ≡ some intent)
    → Covers source ids intents
    → Covers source (id ∷ ids) (push found intents)
push-Covers source id ids intents none f (le, eq) =
    (omega (arith, le), λ h. absurd (omega (arith, le, h)))
push-Covers source id ids intents (some intent) f (le, eq) =
    (omega (arith, le), λ h. taken (f intent refl) (eq (omega (arith, h))))

-- What is found in the map once an id is taken out was there before.
still_found :
    (source : Text → Option SolverIntent) (gone : Text) (pending : List SolverIntent)
    → ((id : Text) (intent : SolverIntent)
        → find_intent id pending ≡ some intent
        → source id ≡ some intent)
    → (id : Text) (intent : SolverIntent)
    → find_intent id (retain (λ other. not (has_id gone other)) pending) ≡ some intent
    → source id ≡ some intent
still_found source gone pending f id intent h =
    f id intent (ground (arith, h, find_intent-retain id gone pending))

take_ordered-Covers :
    (source : Text → Option SolverIntent) (ids : List Text) (pending : List SolverIntent)
    → ((id : Text) (intent : SolverIntent)
        → find_intent id pending ≡ some intent
        → source id ≡ some intent)
    → Covers source ids (take_ordered ids pending).0
unfolding take_ordered
take_ordered-Covers source [] pending f = (omega arith, λ _. nothing)
take_ordered-Covers source (id ∷ ids) pending f =
    push-Covers source id ids _ (find_intent id pending) (f id)
      (take_ordered-Covers source ids _ (still_found source id pending f))

pub take_ordered-complete :
    (s : Setup) (ids : List Text) (buffered pending : List SolverIntent)
    → Covers
        (source_of s ids buffered pending)
        ids
        (take_ordered ids (complete s ids (insert_all buffered pending))).0
take_ordered-complete s ids buffered pending =
    take_ordered-Covers (source_of s ids buffered pending) ids _
      (λ id intent h. sym (find_intent-complete s id ids buffered pending) ∙ h)
