-- ===== src/Logging.antt =====
-- internal/logging/logging.go: the logger with fields. A Go map is a reference, so that the maps are
-- kept in a store, and the logger holds the numbers of its own map and of those that it has pushed.
-- What logrus does with an entry is left out: a logged line is its message and its fields.
pub mod Fields
pub mod Examples
use perpx_load_test.Base.{
  ℕ, zero, suc, ◌%◌, Bool, true, false, String, str_eq, Option, none, some, List, [], ◌∷◌, ◌++◌,
  if◌then◌else◌, ltb, ◌==◌, length, get_or, insert,
}

-- An argument of the type `interface{}`: a text, or another value.
pub data Value : Type 0 where
  text : String → Value
  other : ℕ → Value

pub data Level : Type 0 where
  debug info error : Level

pub record Line : Type 0 where
  pub level : Level
  pub message : String
  pub line_fields : List (String × Value)

pub record Logger : Type 0 where
  pub ctx : String
  pub store : List (List (String × Value))
  pub fields : ℕ
  pub pushed : List ℕ
  pub lines : List Line

unfoldable pub cons_pair :
    Value → Value → Option (List (String × Value)) → Option (List (String × Value))
cons_pair (text k) v (some rest) = some ((k, v) ∷ rest)
cons_pair (text k) v none = none
cons_pair (other n) v rest = none

-- The pairs of an even list; none where a key is no text, at which the type assertion panics.
unfoldable pub pairs : List Value → Option (List (String × Value))
unfolding cons_pair
pairs [] = some []
pairs (k ∷ []) = some []
pairs (k ∷ v ∷ rest) = cons_pair k v (pairs rest)

unfoldable pub insert_all : List (String × Value) → List (String × Value) → List (String × Value)
insert_all [] m = m
insert_all (e ∷ rest) m = insert_all rest (insert e.0 e.1 m)

unfoldable pub map_of : Option (List (String × Value)) → Option (List (String × Value))
unfolding insert_all
map_of none = none
map_of (some ps) = some (insert_all ps [])

-- `serializeKVPairs`; an odd list gives no field.
unfoldable pub serialize_kv_pairs : List Value → Option (List (String × Value))
unfolding pairs map_of
serialize_kv_pairs kvs = if length kvs % 2 == 0 then map_of (pairs kvs) else some []

unfoldable pub logger_with : String → Option (List (String × Value)) → Option Logger
logger_with ctx none = none
logger_with ctx (some m) =
    some (record { ctx = ctx; store = m ∷ []; fields = 0; pushed = []; lines = [] })

-- `NewLogrusLogger`: the pairs are handed on as one value, their slice.
unfoldable pub new_logrus_logger : String → List Value → Option Logger
unfolding serialize_kv_pairs logger_with
new_logrus_logger ctx kvs = logger_with ctx (serialize_kv_pairs (other (length kvs) ∷ []))

-- The entry of the logger, with its context and its fields.
unfoldable pub with_fields : Logger → List (String × Value)
unfolding insert_all
with_fields l =
    insert_all (get_or l.store l.fields [])
      (if str_eq l.ctx "" then [] else (("ctx", text l.ctx) ∷ []))

unfoldable pub with_kv_pairs :
    Logger → Option (List (String × Value)) → Option (List (String × Value))
unfolding insert_all with_fields
with_kv_pairs l none = none
with_kv_pairs l (some m) = some (insert_all m (with_fields l))

unfoldable pub add_line : Level → String → Option (List (String × Value)) → Logger → Option Logger
add_line level msg none l = none
add_line level msg (some m) l = some (record l {
  lines = l.lines ++ (record { level = level; message = msg; line_fields = m } ∷ []);
})

-- `Debug`, `Info` and `Error`; none where they panic.
unfoldable pub log : Level → String → List Value → Logger → Option Logger
unfolding serialize_kv_pairs with_kv_pairs add_line
log level msg kvs l = add_line level msg (with_kv_pairs l (serialize_kv_pairs kvs)) l

-- A change of the map with a number.
unfoldable pub insert_at :
    ℕ → String → Value → List (List (String × Value)) → List (List (String × Value))
insert_at i k v [] = []
insert_at zero k v (m ∷ ms) = insert k v m ∷ ms
insert_at (suc i) k v (m ∷ ms) = m ∷ insert_at i k v ms

unfoldable pub set_field : String → Value → Logger → Logger
unfolding insert_at
set_field k v l = record l { store = insert_at l.fields k v l.store }

unfoldable pub push_fields : Logger → Logger
push_fields l = record l { pushed = l.fields ∷ l.pushed }

unfoldable pub popped : List ℕ → Logger → Logger
popped [] l = l
popped (m ∷ ms) l = record l { fields = m; pushed = ms }

unfoldable pub pop_fields : Logger → Logger
unfolding popped
pop_fields l = popped l.pushed l
