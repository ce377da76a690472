-- ===== src/Http/Handler.antt =====
-- What the handlers of internal/httpapi share: json.go, parseUUIDParam of accounts.go and writeJSON
-- of router.go. The libraries that the handlers call are the fields of Library.
use go_ledger.Base.{ℕ, String, Bool, true, false, Option, none, some, Bytes}
use Prim.Native.String.{◌++◌}
use go_ledger.Domain.Errors.{Uuid, Error, Result, ok, err}
use go_ledger.Storage.Session.{Session, Action}
use go_ledger.Http.Problem.{Problem, write}
use go_ledger.Http.Wire.{
  CreateAccountRequest, CreateTransactionRequest, AccountResponse, TransactionResponse,
  EventResponse, DeliveryResponse,
}

pub record Library : Type 1 where
  -- what the JSON decoder with UseNumber reads, and what json.Marshal makes of it
  pub Json : Type 0
  pub decode : Bytes → Result Json
  pub encode : Json → Result Bytes
  pub sha256 : Bytes → Bytes
  -- the bytes of a Go string
  pub utf8 : String → Bytes
  -- uuid.Parse
  pub parse_uuid : String → Option Uuid
  -- the decoder with DisallowUnknownFields, at the types of the requests
  pub decode_account : Bytes → Result CreateAccountRequest
  pub decode_transaction : Bytes → Result CreateTransactionRequest
  -- does a second Decode of the body give io.EOF?
  pub at_end : Bytes → Bool
  -- t.UTC().Format(timeFormat), of the time in milliseconds
  pub format : ℕ → String
  -- json.Marshal of a transactionResponse
  pub marshal_transaction : TransactionResponse → Result Bytes
  -- the method Error of an error
  pub error_text : Error → String

-- reading the body through http.MaxBytesReader
pub data BodyRead : Type 0 where
  whole : Bytes → BodyRead
  too_large : BodyRead
  unreadable : BodyRead

pub record HttpRequest : Type 0 where
  pub method : String
  pub path : String
  -- the Idempotency-Key header, empty if there is none
  pub key : Bytes
  -- the URL parameter "id"
  pub id_param : String
  pub body : BodyRead

-- A value that is encoded as JSON, or the bytes of a stored response.
pub data Body : Type 0 where
  problem : Problem → Body
  raw : Bytes → Body
  account : AccountResponse → Body
  transaction : TransactionResponse → Body
  event : EventResponse → Body
  replay : EventResponse → DeliveryResponse → Body
  -- the status that a probe reports, with the reason if there is one
  probe : String → Option String → Body

pub record Response : Type 0 where
  pub status : ℕ
  -- the header Idempotency-Replayed
  pub replayed : Bool
  pub body : Body

-- writeJSON
abbrev pub write_json : ℕ → Body → Response
write_json status body = record { status = status; replayed = false; body = body }

-- A problem has been written.
abbrev pub refuse : Problem → Response
refuse p = record { status = p.status; replayed = false; body = problem p }

-- A step of a handler either goes on or has written the response.
pub data Answer (A : Type 0) : Type 0 where
  goes_on : A → Answer A
  answers : Response → Answer A

infixl 5 ◌>>=◌ ◌>>◌
abbrev pub ◌>>=◌ : {A B : Type 0} → Answer A → (A → Answer B) → Answer B
goes_on a >>= f = f a
answers r >>= f = answers r

abbrev pub ◌>>◌ : {A B : Type 0} → Answer A → Answer B → Answer B
m >> k = m >>= λ _. k

-- readJSONBody
unfoldable pub read_json_body : BodyRead → Answer Bytes
unfolding write
read_json_body (whole body) = goes_on body
read_json_body too_large =
    answers
      (refuse (write 413 "request_too_large" "Request Too Large" "request body exceeds 1 MiB"))
read_json_body unreadable =
    answers (refuse (write 400 "invalid_request" "Invalid Request" "could not read request body"))

-- the two calls of Decode in unmarshalJSON
abbrev pub decoded : {A : Type 0} → (Error → String) → Bool → Result A → Answer A
decoded error_text end (err e) =
    answers (refuse (write 400 "invalid_json" "Invalid JSON" (error_text e)))
decoded error_text true (ok a) = goes_on a
decoded error_text false (ok a) =
    answers
      (refuse (write 400 "invalid_json" "Invalid JSON" "body must contain exactly one JSON object"))

abbrev pub parsed : String → Option Uuid → Answer Uuid
parsed message (some id) = goes_on id
parsed message none = answers (refuse (write 400 "invalid_uuid" "Invalid UUID" message))

module _ (lib : Library) where
  -- unmarshalJSON, with the decoder of the wanted type
  unfoldable pub unmarshal_json : {A : Type 0} → (Bytes → Result A) → Bytes → Answer A
  unfolding write
  unmarshal_json decode body = decoded lib.error_text (lib.at_end body) (decode body)

  -- decodeJSON
  unfoldable pub decode_json : {A : Type 0} → (Bytes → Result A) → BodyRead → Answer A
  unfolding read_json_body unmarshal_json
  decode_json decode read = do body ← read_json_body read; unmarshal_json decode body

  -- parseUUIDField
  unfoldable pub parse_uuid_field : String → String → Answer Uuid
  unfolding write
  parse_uuid_field field text = parsed (field ++ " is not a valid UUID") (lib.parse_uuid text)

  -- parseUUIDParam
  unfoldable pub parse_uuid_param : String → HttpRequest → Answer Uuid
  unfolding write
  parse_uuid_param name req =
      parsed ("path parameter " ++ name ++ " is not a valid UUID") (lib.parse_uuid req.id_param)

-- the rest of a handler, unless the response has been written
abbrev pub after :
    {A : Type 0} → Answer A → (A → Session → Response × Session) → Session → Response × Session
after (goes_on a) rest s = rest a s
after (answers r) rest s = (r, s)

-- the response to what a call of the service or of the store returns
abbrev pub respond :
    {A : Type 0} → (Error → Problem) → (A → Response) → Result A × Session → Response × Session
respond failed done (ok a, s) = (done a, s)
respond failed done (err e, s) = (refuse (failed e), s)

-- A handler of one call: what it asks for, the call, and the response to its result.
unfoldable pub calling :
    {A B : Type 0}
    → Answer A
    → (A → Action B)
    → (Error → Problem)
    → (B → Response)
    → Session
    → Response × Session
calling asked call failed done = after asked λ a s. respond failed done (call a s)
