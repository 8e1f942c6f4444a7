-- ===== src/Amqp/Management/Defs.antt =====
-- What internal/provider/connectors/amqp091/amqp091.go asks of RabbitMQ's management API: the requests,
-- the statistics of a source and the list of exchanges. The JSON in a body is taken as decoded, and its
-- numbers as integers; field names are compared exactly.
use Prim.Native.String.{◌++◌ as append}
use arke.Common.{
  ℕ, ◌+◌, String, Bool, true, false, ◌&&◌, ◌||◌, Option, none, some, Fallible, ok, err, str_eq, ltb,
  leb, ◌==◌, if◌then◌else◌,
}
use arke.Common.Int.{ℤ, pos}
use arke.Common.Text.{itoa}
use arke.Api.{Error, error_text, ConnectionConfiguration}

mutual
  pub data Json : Type 0 where
    null_value : Json
    boolean : Bool → Json
    number : ℤ → Json
    text : String → Json
    array : Values → Json
    object : Fields → Json

  pub data Values : Type 0 where
    no_values : Values
    value : Json → Values → Values

  pub data Fields : Type 0 where
    no_fields : Fields
    field : String → Json → Fields → Fields

-- The bytes of a response.
pub data Body : Type 0 where
  empty garbage : Body
  json : Json → Body

pub record Response : Type 0 where
  pub status : ℕ
  pub body : Body
  pub body_error : Option String

-- The answer to a request with a method and a URL, or the error of the HTTP client.
abbrev pub Http : Type 0
Http = String → String → Fallible Response

unfoldable pub tenant_of : ConnectionConfiguration → String
tenant_of cf = if str_eq cf.tenant "" then "/" else cf.tenant

-- `admin_port` is the port that the client names, 0 if it names none.
unfoldable pub request_url : Bool → ℕ → ConnectionConfiguration → String → String
request_url tls admin_port cf urn = append (if tls then "https://" else "http://") (
    append cf.host (
      append ":"
        (append (itoa (pos (if admin_port == 0 then cf.port + 10000 else admin_port))) urn)))

-- The body of the response and the error, both of which may be there.
unfoldable pub answer_of : String → String → Fallible Response → Body × Option String
answer_of method url (err e) = (empty, some (append "Error retrieving bindings: " e))
answer_of method url (ok r) =
    if leb 300 r.status || ltb r.status 200
    then (
      r.body,
      some (
          append "Error " (
            append method (
              append " on management request "
                (append url (append ": request returned a " (itoa (pos r.status))))))),
    )
    else (r.body, r.body_error)

module _ (http : Http) (tls : Bool) (admin_port : ℕ) (cf : ConnectionConfiguration) where
  -- doManagementRequestWithoutMarshal
  unfoldable pub management_request : String → String → Body × Option String
  unfolding answer_of
  management_request method urn =
      let url = request_url tls admin_port cf urn in answer_of method url (http method url)

-- The last field of that name.
unfoldable pub lookup_field : String → Fields → Option Json
lookup_field name no_fields = none
lookup_field name (field n v rest) = elim (lookup_field name rest) [
  | some j ↦ some j
  | none ↦ if str_eq n name then some v else none
]

abbrev pub not_json : String
not_json = "unexpected end of JSON input"

abbrev pub wrong_json : String
wrong_json = "json: cannot unmarshal into Go value"

-- `json.Unmarshal` into a map; the texts of its errors are shortened.
unfoldable pub unmarshal_object : Body → Fallible Fields
unmarshal_object empty = err not_json
unmarshal_object garbage = err not_json
unmarshal_object (json null_value) = ok no_fields
unmarshal_object (json (object f)) = ok f
unmarshal_object (json _) = err wrong_json

-- A number in a struct, with whether it could be decoded.
abbrev pub number_of : Option Json → Bool × ℤ
number_of none = (true, pos 0)
number_of (some null_value) = (true, pos 0)
number_of (some (number n)) = (true, n)
number_of (some _) = (false, pos 0)

abbrev pub object_of : Option Json → Bool × Fields
object_of none = (true, no_fields)
object_of (some null_value) = (true, no_fields)
object_of (some (object f)) = (true, f)
object_of (some _) = (false, no_fields)

-- rabbitMQManagementMetrics, and whether all of it could be decoded.
pub record Metrics : Type 0 where
  pub decoded : Bool
  pub publish_rate : ℤ
  pub deliver_rate : ℤ
  pub messages : ℤ

unfoldable pub unmarshal_metrics : Fields → Metrics
unmarshal_metrics f =
    let (stats_ok, stats) = object_of (lookup_field "message_stats" f) in
    let (publish_ok, publish) = object_of (lookup_field "publish_details" stats) in
    let (deliver_ok, deliver) = object_of (lookup_field "deliver_details" stats) in
    let (publish_rate_ok, publish_rate) = number_of (lookup_field "rate" publish) in
    let (deliver_rate_ok, deliver_rate) = number_of (lookup_field "rate" deliver) in
    let (consumers_ok, _) = number_of (lookup_field "consumers" f) in
    let (messages_ok, messages) = number_of (lookup_field "messages" f) in
    record {
      decoded =
          stats_ok
          && (publish_ok
              && (deliver_ok
                  && (publish_rate_ok && (deliver_rate_ok && (consumers_ok && messages_ok)))));
      publish_rate = publish_rate;
      deliver_rate = deliver_rate;
      messages = messages;
    }

pub record SourceStats : Type 0 where
  pub error : Option Error
  pub consumer_count : ℤ
  pub publish_rate : ℤ
  pub deliver_rate : ℤ
  pub message_count : ℤ
  pub current_offset : ℤ
  pub last_offset : ℤ

abbrev pub no_stats : SourceStats
no_stats = record {
  error = none;
  consumer_count = pos 0;
  publish_rate = pos 0;
  deliver_rate = pos 0;
  message_count = pos 0;
  current_offset = pos 0;
  last_offset = pos 0;
}

abbrev pub failed_stats : String → SourceStats
failed_stats e = record no_stats { error = some (error_text e) }
