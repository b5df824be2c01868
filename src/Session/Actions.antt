-- ===== src/Session/Actions.antt =====
-- Actions: code that reads and writes the session, and returns or raises. What was written before
-- a raise stays written, until a rollback.
use autodeploy_platform.Prelude.{ℕ, ◌+◌, List, [], ◌∷◌, Bool, true, false, Option, none, some}
use autodeploy_platform.Models.Rows.{Timestamp, Db}
use autodeploy_platform.Session.State.{Environment, World, Fault}

pub data Outcome {ℓ} (A : Type ℓ) : Type ℓ where
  ok : A → Outcome A
  raised : Fault → Outcome A

abbrev pub Action {ℓ} : Type ℓ → Type ℓ
Action A = World → Outcome A × World

unfoldable pub pure {ℓ} : {A : Type ℓ} → A → Action A
pure a w = (ok a, w)

unfoldable pub raise {ℓ} : {A : Type ℓ} → Fault → Action A
raise e w = (raised e, w)

unfoldable pub lift {ℓ} : {A : Type ℓ} → Outcome A → Action A
lift r w = (r, w)

abbrev pub resume {ℓ κ} : {A : Type ℓ} {B : Type κ} → (A → Action B) → Outcome A → Action B
resume f (ok a) w = f a w
resume f (raised e) w = (raised e, w)

infixl 5 ◌>>=◌ ◌>>◌
unfoldable pub ◌>>=◌ {ℓ κ} : {A : Type ℓ} {B : Type κ} → Action A → (A → Action B) → Action B
unfolding pure raise lift
◌>>=◌ m f w = let (r, w') = m w in resume f r w'

abbrev pub ◌>>◌ {ℓ κ} : {A : Type ℓ} {B : Type κ} → Action A → Action B → Action B
m >> k = m >>= λ _. k

abbrev pub recover {ℓ} : {A : Type ℓ} → (Fault → Action A) → Outcome A → Action A
recover f (ok a) w = (ok a, w)
recover f (raised e) w = f e w

-- `try: m except ...: handler`
unfoldable pub try {ℓ} : {A : Type ℓ} → Action A → (Fault → Action A) → Action A
try m handler w = let (r, w') = m w in recover handler r w'

-- What the session sees of the database.
unfoldable pub view : Action Db
view w = (ok w.work, w)

-- A write of the session that is not committed.
unfoldable pub write : (Db → Db) → Action (Unit {0})
write f w = (ok tt, record w { work = f w.work })

-- datetime.now(timezone.utc)
unfoldable pub now_utc : Environment → Action Timestamp
now_utc env w = (ok (env.clock w.reads), record w { reads = w.reads + 1 })

-- The end of a transaction that leaves `db` committed.
unfoldable pub end_transaction : Db → ℕ → List (Db → Db) → World
end_transaction db reads [] = record { saved = db; work = db; reads = reads; peers = [] }
end_transaction db reads (peer ∷ peers) = record {
  saved = peer db;
  work = peer db;
  reads = reads;
  peers = peers;
}

-- db.session.commit()
unfoldable pub commit : Action (Unit {0})
unfolding end_transaction
commit w = (ok tt, end_transaction w.work w.reads w.peers)

-- db.session.rollback()
unfoldable pub rollback : Action (Unit {0})
unfolding end_transaction
rollback w = (ok tt, end_transaction w.saved w.reads w.peers)

-- A statement that a condition guards.
abbrev pub when : Bool → Action (Unit {0}) → Action (Unit {0})
when true m = m
when false m = pure tt

-- `if x is None: return ...`, and else the rest.
unfoldable pub none_or {ℓ κ} :
    {A : Type ℓ} {B : Type κ} → Option A → Action B → (A → Action B) → Action B
none_or none m k = m
none_or (some a) m k = k a

-- The outcome as a value: what a `try` chooses by, where its handlers stand after it.
unfoldable pub attempt {ℓ} : {A : Type ℓ} → Action A → Action (Outcome A)
attempt m w = let (r, w') = m w in (ok r, w')
