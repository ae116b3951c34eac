-- ===== src/Mongo/Connection.antt =====
-- backend/mongodb/mongodb.go: the connection. A client is known by a number; `Server` is the list of
-- the clients that are connected, and what `Connect`, `Ping` and `Disconnect` answer is an argument.
use gokue.Prelude.{
  ℕ, String, ◌=?◌, ◌==◌, Bool, not, Option, none, some, List, [], ◌∷◌, ◌⊎◌, inl, inr, if◌then◌else◌,
}

pub record Connection : Type 0 where
  pub uri : String
  pub client : Option ℕ

pub data ConnectionError : Type 0 where
  empty_uri invalid_uri nil_connection connect_failed ping_failed disconnect_failed :
      ConnectionError

-- `valid` is `connstring.ParseAndValidate`.
unfoldable pub new_connection : (valid : String → Bool) → String → ConnectionError ⊎ Connection
new_connection valid uri =
    if uri =? ""
    then inl empty_uri
    else if not (valid uri)
    then inl invalid_uri
    else inr (record { uri = uri; client = none })

-- The clients that are connected, without one of them.
unfoldable pub disconnected : ℕ → List ℕ → List ℕ
disconnected client [] = []
disconnected client (c ∷ open_clients) =
    let rest = disconnected client open_clients in if c == client then rest else c ∷ rest

-- `dialed` is the client that `mongo.Connect` returns, and `pings` whether `Ping` succeeds.
unfoldable pub setup_connection :
    (dialed : Option ℕ)
    → (pings : Bool) → Option Connection
    → List ℕ
    → Option Connection × List ℕ × Option ConnectionError
unfolding disconnected
setup_connection dialed pings none clients = (none, clients, some nil_connection)
setup_connection none pings (some c) clients = (some c, clients, some connect_failed)
setup_connection (some client) pings (some c) clients =
    if pings
    then (some (record c { client = some client }), client ∷ clients, none)
    else (some c, disconnected client (client ∷ clients), some ping_failed)

-- `disconnects` says whether `Disconnect` succeeds; the client is gone either way.
unfoldable pub close_connection :
    (disconnects : Bool)
    → Option Connection
    → List ℕ
    → Option Connection × List ℕ × Option ConnectionError
unfolding disconnected
close_connection disconnects none clients = (none, clients, none)
close_connection disconnects (some c) clients = elim c.client [
  | none ↦ (some c, clients, none)
  | some client ↦ (
    some (record c { client = none }),
    disconnected client clients,
    if disconnects then none else some disconnect_failed,
  )
]
