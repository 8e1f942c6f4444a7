-- ===== src/Identity.antt =====
-- The client identifiers of internal/util/util.go: the map from the peer's address to the name under
-- which the server and the provider know a client. A context is the text of the peer's address, or
-- `none` where the context holds no peer. `hash8` stands for the first eight hexadecimal digits of
-- the SHA-256 of an address, which the standard library computes.
use Prim.Native.String.{◌++◌ as append}
use arke.Common.{String, ◌≡◌, Option, none, some, str_eq, Fallible, ok, err, arith, if◌then◌else◌}
use arke.ConcurrentMap.{ConcurrentMap, add, delete, get, get-add_self}

abbrev pub Context : Type 0
Context = Option String

unfoldable pub get_client_addr : Context → Fallible String
get_client_addr none = err "could not retrieve peer info"
get_client_addr (some addr) =
    if str_eq addr "" then err "could not retrieve address info from peer" else ok addr

-- `name-hash`
abbrev pub identifier_of : (String → String) → String → String → String
identifier_of hash8 name addr = append name (append "-" (hash8 addr))

module _ (hash8 : String → String) where
  unfoldable pub set_client_identifier :
      Context → String → ConcurrentMap String → Fallible String × ConcurrentMap String
  unfolding get_client_addr
  set_client_identifier ctx name m = elim (get_client_addr ctx) [
    | err e ↦ (err e, m)
    | ok addr ↦ (ok (identifier_of hash8 name addr), add m addr (identifier_of hash8 name addr))
  ]

-- `GetClientAddr`'s error is dropped, and its address is then the empty text.
unfoldable pub remove_client_identifier : Context → ConcurrentMap String → ConcurrentMap String
unfolding get_client_addr
remove_client_identifier ctx m = elim (get_client_addr ctx) [
  | err e ↦ delete m ""
  | ok addr ↦ delete m addr
]

unfoldable pub get_client_identifier : Context → ConcurrentMap String → Fallible String
unfolding get_client_addr
get_client_identifier ctx m = elim (get_client_addr ctx) [
  | err e ↦ err "could not retrieve client-id from context"
  | ok addr ↦ elim (get m addr) [
    | none ↦ err "could not find client identifier"
    | some identifier ↦ ok identifier
  ]
]

-- A client that has an address is known, from `SetClientIdentifier` on, under the name that it returned.
pub get_client_identifier-set :
    (hash8 : String → String) (ctx : Context) (addr name : String) (m : ConcurrentMap String)
    → get_client_addr ctx ≡ ok addr
    → ((set_client_identifier hash8 ctx name m).0 ≡ ok (identifier_of hash8 name addr))
      × (get_client_identifier ctx (set_client_identifier hash8 ctx name m).1
          ≡ ok (identifier_of hash8 name addr))
unfolding get_client_identifier set_client_identifier
get_client_identifier-set hash8 ctx addr name m h =
    ground (arith, get-add_self m addr (identifier_of hash8 name addr))
